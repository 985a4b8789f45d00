-- ===== src/Tests/Grpc.antt =====
-- Runs of src/grpc on concrete inputs.
use qtgrpc.Prelude.{◌≤◌, ◌≡◌, refl, arith, Bool, true, false, none, some, [], ◌∷◌, ◌++◌}
use qtgrpc.Prelude.Ascii.{ascii, same_bytes, starts_with}
use qtgrpc.Grpc.Channel.{Request, is_reserved, own_headers, construct_initial_headers}
use qtgrpc.Grpc.Channel.Metadata.{values_of, values_of-construct_initial_headers}
use qtgrpc.Grpc.Limits.{
  negative, integer, Http2Constants, minimum_stream_window, construct_receive_window_sizes,
}
use qtgrpc.Grpc.Limits.Windows.{IsHttp2, construct_receive_window_sizes_bounds}
use qtgrpc.Grpc.DataParser.{
  frame, GrpcDataParser, message_length, parse_next_frame, frame_message, feed,
}
use qtgrpc.Grpc.DataParser.Framing.{parse-frame_message, parse-feed}
use qtgrpc.Grpc.Handler.{Http2Stream, Handler, idle, identity}
use qtgrpc.Grpc.Handler.Headers.{Services}
use qtgrpc.Grpc.Handler.Once.{count_finished, is_cancelled}
use qtgrpc.Grpc.Handler.Once.Run.{
  starts, writes, writes_are_done, data_arrives, fails_with, run, run-finishes_once,
}

abbrev constants : Http2Constants
constants = record {
  max_session_receive_window_size = 2147483647;
  default_session_window_size = 65535;
}

constants-IsHttp2 : IsHttp2 constants
constants-IsHttp2 = omega arith

construct_receive_window_sizes_bounds_example :
    let w = construct_receive_window_sizes constants (integer 10) negative in
    (minimum_stream_window ≤ w.stream)
    × (w.stream ≤ w.connection)
    × (constants.default_session_window_size ≤ w.connection)
    × (w.connection ≤ constants.max_session_receive_window_size)
construct_receive_window_sizes_bounds_example =
    construct_receive_window_sizes_bounds constants constants-IsHttp2 (integer 10) negative

parse-frame_message_example :
    parse_next_frame
      (record { max_receive_size = 100; container = frame_message 1 (7 ∷ 8 ∷ []) ++ (9 ∷ []) })
    ≡ (
      frame (record { payload = 7 ∷ 8 ∷ []; is_compressed = true }),
      record { max_receive_size = 100; container = 9 ∷ [] },
    )
parse-frame_message_example =
    parse-frame_message 100 1 (7 ∷ 8 ∷ []) (9 ∷ []) (omega arith) (omega arith)

abbrev empty_frame : GrpcDataParser
empty_frame = record { max_receive_size = 4; container = 0 ∷ 0 ∷ 0 ∷ 0 ∷ 0 ∷ [] }

abbrev drained : GrpcDataParser
drained = record { max_receive_size = 4; container = [] }

parse-feed_example :
    parse_next_frame (feed empty_frame (6 ∷ []))
    ≡ (frame (record { payload = []; is_compressed = false }), feed drained (6 ∷ []))
unfolding parse_next_frame message_length
parse-feed_example =
    parse-feed empty_frame (record { payload = []; is_compressed = false }) drained (6 ∷ []) refl

-- A stream that takes everything at once.
abbrev pub stream : Http2Stream
stream = record {
  Stream = Bool;
  send_headers = λ s. (true, s);
  send_data = λ s bytes close. (true, true, close);
  is_uploading_data = λ s. false;
  is_closed_for_sending = λ s. s;
  is_idle = λ s. false;
  send_rst_stream = λ s. (true, s);
}

abbrev pub services : Services
services = record {
  to_int = λ v. 200;
  to_short = λ v. some 0;
  to_lower = λ v. v;
  set_encoding = λ a. true;
  accepts = λ a. true;
}

abbrev pub fresh : Handler Bool
fresh = record {
  has_context = true;
  queue = [];
  stream = none;
  parser = drained;
  negotiated_encoding = none;
  has_decompressor = false;
  state = idle;
  end_stream_at_first_data = false;
  writes_done_sent = false;
  draining_queue = false;
  in_flight_user_write = false;
  queued_bytes = 0;
  bytes_to_write = 0;
  filter_server_metadata = true;
  deadline_running = false;
  request_encoding = identity;
  pending_written = 0;
  delete_later = false;
  signals = [];
}

run-finishes_once_example :
    count_finished
      (run stream
        (λ a b. none)
        (λ a b. [])
        services
        fresh
        (starts false false
          ∷ writes (1 ∷ [])
          ∷ writes_are_done
          ∷ data_arrives [] true
          ∷ fails_with 8
          ∷ [])).signals
    ≤ 1
unfolding count_finished is_cancelled
run-finishes_once_example =
    run-finishes_once stream (λ a b. none) (λ a b. []) services fresh
      (starts false false
        ∷ writes (1 ∷ [])
        ∷ writes_are_done
        ∷ data_arrives [] true
        ∷ fails_with 8
        ∷ [])
      refl refl

abbrev request : Request
request = record {
  authority_header = ascii "localhost";
  scheme_header = ascii "http";
  content_type = ascii "application/grpc";
  accept_encoding = ascii "identity";
  user_agent = ascii "test";
  service = ascii "chat";
  method = ascii "send";
  request_encoding = identity;
  channel_metadata = (ascii "te", ascii "none") ∷ (ascii "token", ascii "a") ∷ [];
  call_metadata = (ascii ":path", ascii "/") ∷ [];
}

values_of-construct_initial_headers_example :
    values_of (ascii "te") (construct_initial_headers (λ v. v) request)
    ≡ values_of (ascii "te") (own_headers request)
unfolding is_reserved same_bytes starts_with
values_of-construct_initial_headers_example =
    values_of-construct_initial_headers (λ v. v) (ascii "te") request refl
