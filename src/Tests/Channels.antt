-- ===== src/Tests/Channels.antt =====
-- Runs of a channel on concrete inputs.
use qtgrpc.Prelude.{ℕ, ◌+◌, ◌≡◌, refl, true, false, none, some, [], ◌∷◌, ◌++◌, All}
use qtgrpc.Tests.Grpc.{stream, fresh, services}
use qtgrpc.Grpc.Limits.{make_backoff}
use qtgrpc.Grpc.Handler.{identity, is_over}
use qtgrpc.Grpc.Handler.Send.{Compress}
use qtgrpc.Grpc.Handler.Receive.{Decompress}
use qtgrpc.Grpc.Connection.{
  connecting, connected, CallSetup, unary_call, Http2Connection, Child, Channel,
  handle_socket_error, settings_frame_received, process_operation,
}
use qtgrpc.Grpc.Connection.Served.{has_stream}
use qtgrpc.Grpc.Connection.Sound.{has_connection, is_up, IsServed}
use qtgrpc.Grpc.Handler.Once.Run.{writes}
use qtgrpc.Grpc.Connection.Handlers.{is_cancelled, happens}
use qtgrpc.Grpc.Connection.Run.{
  processes, connects, settings_arrive, socket_fails, handles, run, constructed, connection-run,
  children-run,
}
use qtgrpc.Grpc.Connection.Refused.{has_dereferenced, settings_frame_received-process_operation}
use qtgrpc.Grpc.Connection.Fails.{IsCutOff, process_operation-handle_socket_error}

-- Connections that count their streams.
abbrev http2 : Http2Connection stream
http2 = record {
  Connection = ℕ;
  create_direct_connection = 0;
  create_stream = λ n. (some false, n + 1);
}

abbrev setup : CallSetup
setup = record {
  max_receive_size = 100;
  filter_server_metadata = true;
  request_encoding = identity;
  deadline = false;
}

abbrev uncompressed : Compress
uncompressed algorithm payload = none

abbrev unpacked : Decompress
unpacked algorithm payload = []

connection-run_example :
    has_connection stream http2
      (run stream http2 uncompressed unpacked services
        (λ n. n + n)
        (processes true setup unary_call (1 ∷ []) ∷ connects ∷ settings_arrive ∷ socket_fails ∷ [])
        (constructed stream http2 uncompressed unpacked services
          (λ n. n + n)
          (make_backoff 1 8)
          20)).connection
    ≡ is_up stream http2
        (run stream http2 uncompressed unpacked services
          (λ n. n + n)
          (processes true setup unary_call (1 ∷ [])
            ∷ connects
            ∷ settings_arrive
            ∷ socket_fails
            ∷ [])
          (constructed stream http2 uncompressed unpacked services
            (λ n. n + n)
            (make_backoff 1 8)
            20)).state
connection-run_example =
    connection-run stream http2 uncompressed unpacked services (λ n. n + n)
      (processes true setup unary_call (1 ∷ []) ∷ connects ∷ settings_arrive ∷ socket_fails ∷ [])
      (make_backoff 1 8) 20

children-run_example :
    IsServed stream http2
      (run stream http2 uncompressed unpacked services
        (λ n. n + n)
        (processes true setup unary_call (1 ∷ [])
          ∷ connects
          ∷ settings_arrive
          ∷ handles 0 (happens (writes (2 ∷ [])))
          ∷ handles 0 is_cancelled
          ∷ [])
        (constructed stream http2 uncompressed unpacked services
          (λ n. n + n)
          (make_backoff 1 8)
          20)).state
      (run stream http2 uncompressed unpacked services
        (λ n. n + n)
        (processes true setup unary_call (1 ∷ [])
          ∷ connects
          ∷ settings_arrive
          ∷ handles 0 (happens (writes (2 ∷ [])))
          ∷ handles 0 is_cancelled
          ∷ [])
        (constructed stream http2 uncompressed unpacked services
          (λ n. n + n)
          (make_backoff 1 8)
          20)).children
unfolding has_stream
children-run_example =
    children-run stream http2 uncompressed unpacked services (λ n. n + n)
      (processes true setup unary_call (1 ∷ [])
        ∷ connects
        ∷ settings_arrive
        ∷ handles 0 (happens (writes (2 ∷ [])))
        ∷ handles 0 is_cancelled
        ∷ [])
      (make_backoff 1 8) 20 (λ c. refl)

abbrev child : Child stream
child = record {
  rpc = record fresh { stream = some false };
  deferred = false;
  deadline = false;
  null_dereferenced = false;
}

abbrev channel : Channel stream http2
channel = record {
  connection = some 1;
  state = connected;
  children = child ∷ [];
  reconnect_backoff = make_backoff 1 8;
  reconnect_timer_active = false;
  connect_timeout_interval = 20;
  connect_timeout_active = false;
  is_inside_socket_error = false;
  attempts = 1;
  attempting = false;
}

process_operation-handle_socket_error_example :
    All (IsCutOff stream http2) (handle_socket_error stream http2 channel).children
    × (let (taken, after) =
          process_operation stream http2
            (λ n. n + n)
            false
            child
            (handle_socket_error stream http2 channel) in
        taken ≡ true
        × after.state ≡ connecting
        × after.reconnect_timer_active ≡ true
        × after.children ≡ (handle_socket_error stream http2 channel).children ++ (child ∷ []))
process_operation-handle_socket_error_example =
    process_operation-handle_socket_error stream http2 (λ n. n + n) false child channel refl

-- Connections that refuse every stream.
abbrev refusing : Http2Connection stream
refusing = record { Connection = ℕ; create_direct_connection = 0; create_stream = λ n. (none, n) }

abbrev unattached : Child stream
unattached = record child { rpc = fresh }

abbrev refusing_channel : Channel stream refusing
refusing_channel = record {
  connection = some 0;
  state = connected;
  children = [];
  reconnect_backoff = make_backoff 1 8;
  reconnect_timer_active = false;
  connect_timeout_interval = 20;
  connect_timeout_active = false;
  is_inside_socket_error = false;
  attempts = 1;
  attempting = false;
}

settings_frame_received-process_operation_example :
    has_dereferenced stream
      (settings_frame_received stream refusing
        (process_operation stream refusing
          (λ n. n + n)
          true
          unattached
          refusing_channel).1).children
    ≡ true
settings_frame_received-process_operation_example =
    settings_frame_received-process_operation stream refusing (λ n. n + n) unattached
      refusing_channel 0 refl refl (unfold is_over in refl) refl
