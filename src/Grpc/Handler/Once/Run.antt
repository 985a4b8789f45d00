-- ===== src/Grpc/Handler/Once/Run.antt =====
-- One report of the end, over any sequence of what happens to a handler.
use qtgrpc.Prelude.{ℕ, length, ◌+◌, ◌≤◌, ◌≡◌, arith, Bool, true, false, List, [], ◌∷◌}
use qtgrpc.Grpc.Handler.{
  Bytes, Headers, Http2Stream, Rpc, is_over, error_occurred, deliver_message_written,
}
use qtgrpc.Grpc.Handler.Send.{
  Compress, upload_finished, bytes_written, build_message, write_message, writes_done,
  send_initial_request, deferred_failure,
}
use qtgrpc.Grpc.Handler.Receive.{Decompress, data_received}
use qtgrpc.Grpc.Handler.Headers.{Services, headers_received}
use qtgrpc.Grpc.Handler.Once.{
  count_finished, is_finished, is_cancelled, IsOnce, finish-IsOnce, if-IsOnce,
  set_bytes_to_write-IsOnce, queue_message-IsOnce, upload_finished-IsOnce, writes_done-IsOnce,
  send_initial_request-IsOnce,
}
use qtgrpc.Grpc.Handler.Once.Incoming.{IsClosed, data_received-kept, headers_received-kept}

-- What can happen to a handler, but for a cancellation by the user or the deadline.
pub data Event (Stream : Type 0) : Type 0 where
  writes : Bytes → Event Stream
  writes_are_done upload_is_finished message_is_written setup_has_failed context_is_gone :
      Event Stream
  starts : Bool → Stream → Event Stream
  takes : ℕ → Event Stream
  fails_with : ℕ → Event Stream
  data_arrives : Bytes → Bool → Event Stream
  headers_arrive : Headers → Bool → Event Stream

IsOnce-IsClosed : (api : Http2Stream) → IsClosed api (IsOnce api)
unfolding is_cancelled is_finished is_over
IsOnce-IsClosed api = record {
  finishes = finish-IsOnce api;
  quietly = λ h h' q o. ground arith;
  activates = λ h e o. ground arith;
  expires = λ h e o. ground arith;
}

module _ (api : Http2Stream) (compress : Compress) (decompress : Decompress) (q : Services) where
  unfoldable pub step : Rpc api → Event api.Stream → Rpc api
  step h (writes payload) = write_message api compress payload h
  step h writes_are_done = writes_done api h
  step h upload_is_finished = upload_finished api h
  step h message_is_written = deliver_message_written api h
  step h setup_has_failed = deferred_failure api h
  step h context_is_gone = record h { has_context = false; delete_later = true }
  step h (starts deadline s) = send_initial_request api deadline s h
  step h (takes n) = bytes_written api n h
  step h (fails_with error) = error_occurred api error h
  step h (data_arrives bytes end_stream) = data_received api decompress bytes end_stream h
  step h (headers_arrive headers end_stream) = headers_received api q headers end_stream h

  abbrev pub run : Rpc api → List (Event api.Stream) → Rpc api
  run h [] = h
  run h (e ∷ events) = run (step h e) events

  write_message-IsOnce :
      (payload : Bytes) (h : Rpc api)
      → IsOnce api h
      → IsOnce api (write_message api compress payload h)
  unfolding write_message
  write_message-IsOnce payload h o =
      let message = build_message compress h.request_encoding payload in
      if-IsOnce api _ o (
        if-IsOnce api _ (finish-IsOnce api _ h o) (
          queue_message-IsOnce api message _
            (set_bytes_to_write-IsOnce api (h.bytes_to_write + length message) h o)))

  step-IsOnce : (h : Rpc api) (e : Event api.Stream) → IsOnce api h → IsOnce api (step h e)
  unfolding step
  step-IsOnce h (writes payload) o = write_message-IsOnce payload h o
  step-IsOnce h writes_are_done o = writes_done-IsOnce api h o
  step-IsOnce h upload_is_finished o = upload_finished-IsOnce api h o
  step-IsOnce h message_is_written o = unfold deliver_message_written count_finished in ground arith
  step-IsOnce h setup_has_failed o = unfold deferred_failure in finish-IsOnce api _ h o
  step-IsOnce h context_is_gone o = ground arith
  step-IsOnce h (starts deadline s) o = send_initial_request-IsOnce api deadline s h o
  step-IsOnce h (takes n) o = unfold bytes_written count_finished in ground arith
  step-IsOnce h (fails_with error) o = unfold error_occurred in finish-IsOnce api _ h o
  step-IsOnce h (data_arrives bytes end_stream) o =
      data_received-kept api (IsOnce api) (IsOnce-IsClosed api) decompress bytes end_stream h o
  step-IsOnce h (headers_arrive headers end_stream) o =
      headers_received-kept api (IsOnce api) (IsOnce-IsClosed api) q headers end_stream h o

  run-IsOnce :
      (h : Rpc api) (events : List (Event api.Stream)) → IsOnce api h → IsOnce api (run h events)
  run-IsOnce h [] o = o
  run-IsOnce h (e ∷ events) o = run-IsOnce (step h e) events (step-IsOnce h e o)

  -- A handler that has not finished an RPC, is not cancelled and still has its context reports
  -- `finished` at most once, whatever sequence of writes, upload reports, errors, data and headers
  -- follows, when neither the user nor the deadline cancels.
  pub run-finishes_once :
      (h : Rpc api) (events : List (Event api.Stream))
      → count_finished h.signals ≡ 0
      → is_cancelled h.state ≡ false
      → count_finished (run h events).signals ≤ 1
  run-finishes_once h events n c =
      let o : IsOnce api h = ground arith in let o' = run-IsOnce h events o in ground arith
