-- ===== src/Grpc/Connection/Run.antt =====
-- The life of a channel: any sequence of calls, answers of the socket, timers and SETTINGS, and of what
-- happens to its RPCs.
use qtgrpc.Prelude.{
  ℕ, ◌≡◌, refl, not, ◌&&◌, ◌||◌, if◌then◌else◌, Bool, true, false, none, List, [], ◌∷◌, Bool-cases,
  inl, inr, ltb, length,
}
use qtgrpc.Grpc.Limits.{ReconnectBackoff, max_payload_size}
use qtgrpc.Grpc.Handler.{Bytes, Http2Stream, is_over, finish, is_stream_closed_for_sending}
use qtgrpc.Grpc.Handler.Send.{
  Compress, may_drain, process_queue, set_bytes_to_write, enqueue, write_message,
}
use qtgrpc.Grpc.Handler.Receive.{Decompress}
use qtgrpc.Grpc.Handler.Headers.{Services}
use qtgrpc.Grpc.Connection.{
  connecting, CallSetup, RpcType, Http2Connection, make_child, Channel, attempt_connect,
  reconnect_timeout, create_http2_connection, settings_frame_received, handle_socket_error, enlist,
  is_connected, process_operation,
}
use qtgrpc.Grpc.Connection.Handlers.{HandlerEvent, handle_at, handle_at-IsServed}
use qtgrpc.Grpc.Connection.Sound.{
  run_all, has_connection, is_up, is_connecting, IsServed, IsAccepting, IsSound,
  drop_streams-IsServed, finished-IsServed, create_streams-IsServed, run_all-IsServed,
  settings-IsSound, enlist-IsSound,
}

module _ (api : Http2Stream) (http2 : Http2Connection api) (compress : Compress)
    (decompress : Decompress) (q : Services) (grown : ℕ → ℕ) where
  open http2 use {Connection}

  -- What reaches a channel. `processes` has whether the socket is writable, and `handles` which of
  -- the RPCs something happens to.
  pub data Event : Type 0 where
    processes : Bool → CallSetup → RpcType → Bytes → Event
    connects settings_arrive socket_fails timer_fires deferred_runs : Event
    handles : ℕ → HandlerEvent api.Stream → Event

  unfoldable pub step : Event → Channel api http2 → Channel api http2
  unfolding run_all handle_at
  step (processes writable setup type message) ch =
      (process_operation api http2 grown writable (make_child api compress setup type message) ch).1
  step connects ch = create_http2_connection api http2 ch
  step settings_arrive ch = settings_frame_received api http2 ch
  step socket_fails ch = handle_socket_error api http2 ch
  step timer_fires ch = reconnect_timeout api http2 ch
  step deferred_runs ch = record ch { children = run_all api http2 ch.children }
  step (handles k e) ch = record ch {
    children = handle_at api compress decompress q k e ch.children;
  }

  abbrev pub run : List Event → Channel api http2 → Channel api http2
  run [] ch = ch
  run (e ∷ es) ch = run es (step e ch)

  made :
      (setup : CallSetup) (type : RpcType) (message : Bytes)
      → (make_child api compress setup type message).rpc.has_context ≡ true
  unfolding make_child write_message finish process_queue may_drain enqueue set_bytes_to_write
      is_over is_stream_closed_for_sending
  made setup type message = elim (Bool-cases (ltb max_payload_size (length message))) [
    | inl e ↦ rw e refl
    | inr e ↦ rw e refl
  ]

  processed :
      (b : Bool) (x y : Channel api http2)
      → IsSound api http2 x
      → IsSound api http2 y
      → IsSound api http2 (if◌then◌else◌ {A = Bool × Channel api http2} b (false, x) (true, y)).1
  processed true x y p q = p
  processed false x y p q = q

  step-IsSound :
      (e : Event) (ch : Channel api http2) → IsSound api http2 ch → IsSound api http2 (step e ch)
  unfolding step
  step-IsSound (processes writable setup type message) ch s =
      unfold process_operation in
      processed (not writable && is_connected api http2 ch.state) ch
        (enlist api http2 grown ch.connection (make_child api compress setup type message) ch) s
        (enlist-IsSound api http2 grown ch.state ch.connection
          (make_child api compress setup type message) ch (made setup type message)
          (unfold make_child in refl) s)
  step-IsSound connects ch s =
      unfold create_http2_connection in
      record {
        same = refl;
        served = λ a.
            create_streams-IsServed api http2 ch.state http2.create_direct_connection ch.children a
              (s.served a);
        trying = λ e. cc;
      }
  step-IsSound settings_arrive ch s = settings-IsSound api http2 ch.state ch.connection ch s
  step-IsSound socket_fails ch s =
      unfold handle_socket_error in
      record {
        same = refl;
        served = λ a. drop_streams-IsServed api http2 _ (
            finished-IsServed api http2 ch.state ch.is_inside_socket_error ch.children
              (s.served a));
        trying = λ e. cc;
      }
  step-IsSound timer_fires ch s =
      unfold reconnect_timeout attempt_connect in
      elim ch.reconnect_timer_active
        as (λ b. IsSound api http2 (
          if b
          then attempt_connect api http2 (record ch { reconnect_timer_active = false })
          else ch)) [
            | true ↦ record { same = s.same; served = s.served; trying = λ e. refl }
            | false ↦ s
          ]
  step-IsSound deferred_runs ch s = record {
    same = s.same;
    served = λ a. run_all-IsServed api http2 ch.state ch.children (s.served a);
    trying = s.trying;
  }
  step-IsSound (handles k e) ch s = record {
    same = s.same;
    served = λ a.
        handle_at-IsServed api compress decompress q http2 ch.state k e ch.children (s.served a);
    trying = s.trying;
  }

  run-IsSound :
      (es : List Event) (ch : Channel api http2)
      → IsSound api http2 ch
      → IsSound api http2 (run es ch)
  run-IsSound [] ch s = s
  run-IsSound (e ∷ es) ch s = run-IsSound es (step e ch) (step-IsSound e ch s)

  -- A channel that has just been constructed: it has called the reconnect function once.
  abbrev pub constructed : ReconnectBackoff → ℕ → Channel api http2
  constructed backoff interval = attempt_connect api http2 (record {
    connection = none;
    state = connecting;
    children = [];
    reconnect_backoff = backoff;
    reconnect_timer_active = false;
    connect_timeout_interval = interval;
    connect_timeout_active = false;
    is_inside_socket_error = false;
    attempts = 0;
    attempting = false;
  })

  constructed-IsSound :
      (backoff : ReconnectBackoff) (interval : ℕ) → IsSound api http2 (constructed backoff interval)
  constructed-IsSound backoff interval =
      unfold attempt_connect in record { same = refl; served = λ a. tt; trying = λ e. refl }

  -- From its construction on, after any sequence of calls, connections, SETTINGS, errors of the socket,
  -- timers, deferred calls and events of its RPCs, a channel has an HTTP/2 connection exactly when it says
  -- that it is connected, with or without the server's SETTINGS.
  pub connection-run :
      (es : List Event) (backoff : ReconnectBackoff) (interval : ℕ)
      → has_connection api http2 (run es (constructed backoff interval)).connection
        ≡ is_up api http2 (run es (constructed backoff interval)).state
  connection-run es backoff interval =
      (run-IsSound es _ (constructed-IsSound backoff interval)).same

  -- No RPC is left behind, where the connection never refuses a stream: after any sequence of calls,
  -- connections, SETTINGS, errors of the socket, timers, deferred calls and events of its RPCs, once the
  -- channel is connected each RPC that is not over and has its context has a stream, and once the
  -- server's SETTINGS have come each such RPC has had its headers sent, or is about to be told that
  -- they could not be. No null stream has been dereferenced.
  pub children-run :
      (es : List Event) (backoff : ReconnectBackoff) (interval : ℕ)
      → IsAccepting api http2
      → IsServed api http2
          (run es (constructed backoff interval)).state
          (run es (constructed backoff interval)).children
  children-run es backoff interval =
      (run-IsSound es _ (constructed-IsSound backoff interval)).served

  -- A channel that says it is connecting is: the reconnect timer runs, or the socket has yet to
  -- answer an attempt. So it is from its construction on, after any sequence of
  -- events.
  connecting-run :
      (es : List Event) (backoff : ReconnectBackoff) (interval : ℕ)
      → is_connecting api http2 (run es (constructed backoff interval)).state ≡ true
      → ((run es (constructed backoff interval)).reconnect_timer_active
          || (run es (constructed backoff interval)).attempting)
        ≡ true
  connecting-run es backoff interval =
      (run-IsSound es _ (constructed-IsSound backoff interval)).trying
