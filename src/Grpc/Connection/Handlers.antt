-- ===== src/Grpc/Connection/Handlers.antt =====
-- What happens to one of the RPCs of a channel while the channel does nothing.
use qtgrpc.Prelude.{ℕ, zero, suc, arith, List, [], ◌∷◌}
use qtgrpc.Grpc.Handler.{
  Http2Stream, Rpc, is_over, cancel, deadline_timeout, error_occurred, deliver_message_written,
}
use qtgrpc.Grpc.Handler.Send.{Compress, bytes_written, set_bytes_to_write, deferred_failure}
use qtgrpc.Grpc.Handler.Receive.{Decompress}
use qtgrpc.Grpc.Handler.Headers.{Services}
use qtgrpc.Grpc.Handler.Once.Run.{
  Event, step, writes, writes_are_done, upload_is_finished, message_is_written, setup_has_failed,
  context_is_gone, starts, takes, fails_with, data_arrives, headers_arrive,
}
use qtgrpc.Grpc.Connection.{ConnectionState, Http2Connection, Child}
use qtgrpc.Grpc.Connection.Served.{is_idle_state}
use qtgrpc.Grpc.Connection.Later.{
  IsLater, IsLater-refl, IsLater-IsGood, finish-IsLater, upload_finished-IsLater,
  writes_done-IsLater, write_message-IsLater, send_initial_request-IsLater,
  cancel_with_status-IsLater,
}
use qtgrpc.Grpc.Handler.Once.Incoming.{IsClosed, data_received-kept, headers_received-kept}
use qtgrpc.Grpc.Connection.Sound.{IsServed}

-- The user cancels the RPC, its deadline passes, or anything else happens to its handler.
pub data HandlerEvent (Stream : Type 0) : Type 0 where
  is_cancelled deadline_passes : HandlerEvent Stream
  happens : Event Stream → HandlerEvent Stream

IsLater-IsClosed : (api : Http2Stream) (h : Rpc api) → IsClosed api (IsLater api h)
unfolding is_over is_idle_state
IsLater-IsClosed api h = record {
  finishes = finish-IsLater api h;
  quietly = λ g g' q l. ground (arith, q.same_stream);
  activates = λ g e l. ground arith;
  expires = λ g e l. ground arith;
}

module _ (api : Http2Stream) (compress : Compress) (decompress : Decompress) (q : Services) where
  open api use {Stream}

  unfoldable pub handle : HandlerEvent Stream → Rpc api → Rpc api
  handle is_cancelled h = cancel api h
  handle deadline_passes h = deadline_timeout api h
  handle (happens e) h = step api compress decompress q h e

  -- To the k-th of the handlers, where there is one.
  unfoldable pub handle_at : ℕ → HandlerEvent Stream → List (Child api) → List (Child api)
  unfolding handle
  handle_at k e [] = []
  handle_at zero e (child ∷ rest) = record child { rpc = handle e child.rpc } ∷ rest
  handle_at (suc k) e (child ∷ rest) = child ∷ handle_at k e rest

  step-IsLater :
      (h : Rpc api) (e : Event Stream) → IsLater api h (step api compress decompress q h e)
  unfolding step
  step-IsLater h (writes payload) =
      write_message-IsLater api h compress payload h (IsLater-refl api h)
  step-IsLater h writes_are_done = writes_done-IsLater api h h (IsLater-refl api h)
  step-IsLater h upload_is_finished = upload_finished-IsLater api h h (IsLater-refl api h)
  step-IsLater h message_is_written = unfold deliver_message_written in ground arith
  step-IsLater h setup_has_failed =
      unfold deferred_failure in finish-IsLater api h _ h (IsLater-refl api h)
  step-IsLater h context_is_gone = ground arith
  step-IsLater h (starts deadline s) =
      send_initial_request-IsLater api h deadline s h (IsLater-refl api h)
  step-IsLater h (takes n) = unfold bytes_written set_bytes_to_write in ground arith
  step-IsLater h (fails_with error) =
      unfold error_occurred in finish-IsLater api h _ h (IsLater-refl api h)
  step-IsLater h (data_arrives bytes end_stream) =
      data_received-kept api (IsLater api h) (IsLater-IsClosed api h) decompress bytes end_stream h
        (IsLater-refl api h)
  step-IsLater h (headers_arrive headers end_stream) =
      headers_received-kept api (IsLater api h) (IsLater-IsClosed api h) q headers end_stream h
        (IsLater-refl api h)

  handle-IsLater : (e : HandlerEvent Stream) (h : Rpc api) → IsLater api h (handle e h)
  unfolding handle
  handle-IsLater is_cancelled h =
      unfold cancel in cancel_with_status-IsLater api h _ h (IsLater-refl api h)
  handle-IsLater deadline_passes h =
      unfold deadline_timeout in cancel_with_status-IsLater api h _ h (IsLater-refl api h)
  handle-IsLater (happens e) h = step-IsLater h e

  pub handle_at-IsServed :
      (http2 : Http2Connection api) (state : ConnectionState) (k : ℕ) (e : HandlerEvent Stream)
      (children : List (Child api))
      → IsServed api http2 state children
      → IsServed api http2 state (handle_at k e children)
  unfolding handle_at
  handle_at-IsServed http2 state k e [] s = tt
  handle_at-IsServed http2 state zero e (child ∷ rest) (w, s) =
      (IsLater-IsGood api state child (handle e child.rpc) (handle-IsLater e child.rpc) w, s)
  handle_at-IsServed http2 state (suc k) e (child ∷ rest) (w, s) =
      (w, handle_at-IsServed http2 state k e rest s)
