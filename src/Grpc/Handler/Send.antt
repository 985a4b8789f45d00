-- ===== src/Grpc/Handler/Send.antt =====
-- The outgoing side of `Http2Handler`: `writeMessage`, `processQueue`, `writesDone` and
-- `sendInitialRequest`, with the slots for `uploadFinished` and `bytesWritten`.
pub mod Fifo
pub mod Progress
use qtgrpc.Prelude.{
  ℕ, suc, ◌+◌, ◌-◌, ltb, leb, if◌then◌else◌, Bool, true, false, not, Option, none, some, List, [],
  ◌∷◌, ◌++◌, ◌&&◌, ◌||◌, length,
}
use qtgrpc.Grpc.Status.{unavailable, resource_exhausted}
use qtgrpc.Grpc.Limits.{max_payload_size}
use qtgrpc.Grpc.DataParser.{frame_message}
use qtgrpc.Grpc.Handler.{
  Bytes, Http2Stream, bytes_to_write, CompressionAlgorithm, identity, State, idle,
  request_headers_sent, Rpc, emit, finish, is_over, is_stream_closed_for_sending,
}

-- The outcome of `GrpcCompressionHelper` on a payload, its creation included: the compressed payload,
-- or none (no helper, nothing gained, or zlib failed).
abbrev pub Compress : Type 0
Compress = CompressionAlgorithm → Bytes → Option Bytes

-- CompressionMinPayloadBytes
abbrev pub compression_min_payload_bytes : ℕ
compression_min_payload_bytes = 30

flagged : Option Bytes → Bytes → Bytes
flagged none payload = frame_message 0 payload
flagged (some compressed) payload = frame_message 1 compressed

compressed_with : Compress → CompressionAlgorithm → Bytes → Option Bytes
compressed_with compress identity payload = none
compressed_with compress algorithm payload =
    if leb compression_min_payload_bytes (length payload) then compress algorithm payload else none

-- The message with its prefix, as `writeMessage` builds it.
unfoldable pub build_message : Compress → CompressionAlgorithm → Bytes → Bytes
unfolding flagged compressed_with
build_message compress algorithm payload =
    flagged (compressed_with compress algorithm payload) payload

is_empty : Bytes → Bool
is_empty [] = true
is_empty (b ∷ bytes) = false

module _ (api : Http2Stream) where
  open api use {Stream, send_headers, send_data, is_uploading_data}

  -- The slot of `uploadFinished`, up to the call of `processQueue`.
  unfoldable pub upload_reported : Bool → Rpc api → Rpc api
  upload_reported false h = h
  upload_reported true h =
      if h.in_flight_user_write
      then record h { in_flight_user_write = false; pending_written = suc h.pending_written }
      else h

  -- One turn of the `do` loop for `message`, with `rest` behind it in the queue: what `sendDATA`
  -- returned, and the handler.
  unfoldable pub send_next : Stream → Rpc api → Bytes → List Bytes → Bool × Rpc api
  unfolding is_empty
  send_next s h message rest =
      let close_stream = is_empty message || h.end_stream_at_first_data in
      let (accepted, reported, s') = send_data s message close_stream in
      let sent = upload_reported reported (record h {
        queue = rest;
        queued_bytes = h.queued_bytes - length message;
        in_flight_user_write = not close_stream;
        stream = some s';
      }) in
      (accepted, if accepted then sent else record sent { in_flight_user_write = false })

  stream_is_free : Option Stream → Bool
  stream_is_free none = false
  stream_is_free (some s) = not (is_uploading_data s)

  -- The loop, over the queue.
  unfoldable pub drain : Option Stream → Rpc api → List Bytes → Rpc api
  unfolding stream_is_free
  drain none h queue = h
  drain (some s) h [] = h
  drain (some s) h (message ∷ rest) =
      let (accepted, h') = send_next s h message rest in
      let more = drain h'.stream h' rest in
      if accepted && stream_is_free h'.stream then more else h'

  unfoldable pub may_drain : Option Stream → State → Bool
  unfolding stream_is_free
  may_drain s idle = false
  may_drain s state = stream_is_free s

  unfoldable pub process_queue : Rpc api → Rpc api
  unfolding may_drain
  process_queue h =
      if may_drain h.stream h.state
      then record (drain h.stream (record h { draining_queue = true }) h.queue) {
        draining_queue = h.draining_queue;
      }
      else h

  -- `uploadFinished` while no loop of `processQueue` runs, and while one does.
  unfoldable pub upload_finished : Rpc api → Rpc api
  upload_finished h =
      let h' = upload_reported true h in if h'.draining_queue then h' else process_queue h'

  unfoldable pub set_bytes_to_write : Rpc api → Rpc api
  set_bytes_to_write h = if h.has_context then emit api (bytes_to_write h.bytes_to_write) h else h

  unfoldable pub bytes_written : ℕ → Rpc api → Rpc api
  unfolding set_bytes_to_write
  bytes_written n h = set_bytes_to_write (record h { bytes_to_write = h.bytes_to_write - n })

  -- The message at the end of the queue; the warning about a long queue is not modelled.
  unfoldable pub enqueue : Bytes → Rpc api → Rpc api
  enqueue message h = record h {
    queue = h.queue ++ (message ∷ []);
    queued_bytes = h.queued_bytes + length message;
  }

  unfoldable pub write_message : Compress → Bytes → Rpc api → Rpc api
  unfolding set_bytes_to_write
  write_message compress payload h =
      let message = build_message compress h.request_encoding payload in
      if h.writes_done_sent || is_over h.state || is_stream_closed_for_sending api h.stream
      then h
      else if ltb max_payload_size (length payload)
      then finish api (record { code = resource_exhausted; message = none }) h
      else process_queue (
          enqueue message
            (set_bytes_to_write (record h { bytes_to_write = h.bytes_to_write + length message })))

  unfoldable pub writes_done : Rpc api → Rpc api
  writes_done h =
      if h.writes_done_sent || is_over h.state
      then h
      else if is_stream_closed_for_sending api h.stream
      then record h { writes_done_sent = true }
      else process_queue (enqueue [] (record h { writes_done_sent = true }))

  unfoldable pub headers_sent : Bool → Bool × Stream → Rpc api → Rpc api
  headers_sent deadline (false, s) h = record h { stream = some s }
  headers_sent deadline (true, s) h =
      let h' = process_queue (record h { stream = some s; state = request_headers_sent }) in
      record h' { deadline_running = deadline }

  -- `sendInitialRequest` on a stream `s` in the state Idle. `deadline` says whether one is set. Where
  -- the headers cannot be sent the code defers `finish`: see `deferred_failure`.
  unfoldable pub send_initial_request : Bool → Stream → Rpc api → Rpc api
  unfolding headers_sent
  send_initial_request deadline s h =
      if is_over h.state then h else headers_sent deadline (send_headers s) h

  -- The deferred call of `asyncFinish`.
  unfoldable pub deferred_failure : Rpc api → Rpc api
  deferred_failure = finish api (record { code = unavailable; message = none })
