-- ===== src/Grpc/Handler/Once.antt =====
-- How often an RPC reports that it has finished, over any sequence of what happens to its handler.
pub mod Incoming
pub mod Run
use qtgrpc.Prelude.{
  ℕ, zero, suc, if◌then◌else◌, length, Bool-cases, inl, inr, ◌+◌, ◌≤◌, ◌≡◌, refl, arith, ◌||◌, Bool,
  true, false, not, Option, none, some, List, [], ◌∷◌,
}
use qtgrpc.Grpc.Status.{StatusCode}
use qtgrpc.Grpc.DataParser.{parse_next_frame, bytes_available, feed}
use qtgrpc.Grpc.Handler.{
  Bytes, Headers, Status, Http2Stream, Handler, Signal, emits_finished, State, idle,
  request_headers_sent, active, cancelled, finished, Rpc, emit, finish, expire, error_occurred,
  cancel, deadline_timeout, cancel_with_status, is_stream_closed_for_sending,
  deliver_message_written, end_state, is_over,
}
use qtgrpc.Grpc.Handler.Send.{
  Compress, upload_reported, send_next, drain, process_queue, upload_finished, bytes_written,
  enqueue, build_message, write_message, writes_done, send_initial_request, deferred_failure,
  set_bytes_to_write,
}
use qtgrpc.Grpc.Handler.Receive.{
  Decompress, Turn, returns, breaks, goes_on, frame_loop, data_received,
}
use qtgrpc.Grpc.Handler.Headers.{
  Services, HeaderPhase, initial, trailers, trailers_only, handle_headers, headers_received,
}

is_finished_signal : Signal → ℕ
is_finished_signal (emits_finished s) = 1
is_finished_signal _ = 0

-- The number of `finished` signals.
unfoldable pub count_finished : List Signal → ℕ
unfolding is_finished_signal
count_finished [] = 0
count_finished (s ∷ signals) = is_finished_signal s + count_finished signals

unfoldable pub is_finished : State → Bool
is_finished finished = true
is_finished _ = false

unfoldable pub is_cancelled : State → Bool
is_cancelled cancelled = true
is_cancelled _ = false

module _ (api : Http2Stream) where
  -- At most one `finished`, and none while the RPC is open. It is Cancelled only when the context has
  -- gone, which a cancellation by the user or the deadline would change.
  pub record IsOnce (h : Rpc api) : Type 0 where
    pub once : count_finished h.signals ≤ 1
    pub silent : is_finished h.state || not h.has_context ≡ false → count_finished h.signals ≡ 0
    pub uncancelled : h.has_context ≡ true → is_cancelled h.state ≡ false

  -- An operation that neither finishes the RPC nor says so.
  pub record Keeps (h h' : Rpc api) : Type 0 where
    pub same_count : count_finished h'.signals ≡ count_finished h.signals
    pub same_context : h'.has_context ≡ h.has_context
    pub same_finished : is_finished h'.state ≡ is_finished h.state
    pub same_cancelled : is_cancelled h'.state ≡ is_cancelled h.state

  Keeps-trans : (a b c : Rpc api) → Keeps a b → Keeps b c → Keeps a c
  Keeps-trans a b c p q = ground arith

  Keeps-IsOnce : (h h' : Rpc api) → Keeps h h' → IsOnce h → IsOnce h'
  Keeps-IsOnce h h' k o = ground arith

  pub finish-IsOnce : (s : Status) (h : Rpc api) → IsOnce h → IsOnce (finish api s h)
  unfolding finish count_finished is_finished is_cancelled
  finish-IsOnce s h o = ground arith

  upload_reported-Keeps : (b : Bool) (h : Rpc api) → Keeps h (upload_reported api b h)
  unfolding upload_reported
  upload_reported-Keeps b h = ground arith

  send_next-Keeps :
      (s : api.Stream) (h : Rpc api) (message : Bytes) (rest : List Bytes)
      → Keeps h (send_next api s h message rest).1
  unfolding send_next upload_reported
  send_next-Keeps s h message rest = ground arith

  drain-Keeps :
      (s : Option api.Stream) (h : Rpc api) (queue : List Bytes) → Keeps h (drain api s h queue)
  unfolding drain
  drain-Keeps none h queue = ground arith
  drain-Keeps (some s) h [] = ground arith
  drain-Keeps (some s) h (message ∷ rest) = ground (
    arith,
    send_next-Keeps s h message rest,
    drain-Keeps (send_next api s h message rest).1.stream (send_next api s h message rest).1 rest,
  )

  process_queue-Keeps : (h : Rpc api) → Keeps h (process_queue api h)
  unfolding process_queue
  process_queue-Keeps h =
      ground (arith, drain-Keeps h.stream (record h { draining_queue = true }) h.queue)

  pub if-IsOnce : (b : Bool) {x y : Rpc api} → IsOnce x → IsOnce y → IsOnce (if b then x else y)
  if-IsOnce true p q = p
  if-IsOnce false p q = q

  pub set_bytes_to_write-IsOnce :
      (n : ℕ) (h : Rpc api)
      → IsOnce h
      → IsOnce (set_bytes_to_write api (record h { bytes_to_write = n }))
  unfolding set_bytes_to_write count_finished
  set_bytes_to_write-IsOnce n h o = ground arith

  process_queue-IsOnce : (h : Rpc api) → IsOnce h → IsOnce (process_queue api h)
  process_queue-IsOnce h o = Keeps-IsOnce h (process_queue api h) (process_queue-Keeps h) o

  pub queue_message-IsOnce :
      (message : Bytes) (h : Rpc api)
      → IsOnce h
      → IsOnce (process_queue api (enqueue api message h))
  queue_message-IsOnce message h o =
      process_queue-IsOnce (enqueue api message h) (unfold enqueue in ground arith)

  pub upload_finished-IsOnce : (h : Rpc api) → IsOnce h → IsOnce (upload_finished api h)
  unfolding upload_finished
  upload_finished-IsOnce h o =
      let h' = upload_reported api true h in
      let o' = Keeps-IsOnce h h' (upload_reported-Keeps true h) o in
      if-IsOnce h'.draining_queue o' (process_queue-IsOnce h' o')

  pub writes_done-IsOnce : (h : Rpc api) → IsOnce h → IsOnce (writes_done api h)
  unfolding writes_done
  writes_done-IsOnce h o =
      let h' : Rpc api = record h { writes_done_sent = true } in
      let o' : IsOnce h' = ground arith in
      if-IsOnce (h.writes_done_sent || is_over h.state) o (
        if-IsOnce (is_stream_closed_for_sending api h.stream) {x = h'} o'
          (queue_message-IsOnce [] h' o'))

  started-IsOnce :
      (deadline : Bool) (s : api.Stream) (h : Rpc api)
      → is_over h.state ≡ false
      → IsOnce h
      → IsOnce
          (record (process_queue api (record h { stream = some s; state = request_headers_sent })) {
            deadline_running = deadline;
          })
  unfolding is_over is_finished is_cancelled
  started-IsOnce deadline s h e o =
      let h' : Rpc api = record h { stream = some s; state = request_headers_sent } in
      let o' = process_queue-IsOnce h' (ground arith) in ground arith

  pub send_initial_request-IsOnce :
      (deadline : Bool) (s : api.Stream) (h : Rpc api)
      → IsOnce h
      → IsOnce (send_initial_request api deadline s h)
  unfolding send_initial_request
  send_initial_request-IsOnce deadline s h o = elim (Bool-cases (is_over h.state)) [
    | inl e ↦ rw e o
    | inr e ↦ rw e (ground (arith, started-IsOnce deadline (api.send_headers s).1 h e o))
  ]
