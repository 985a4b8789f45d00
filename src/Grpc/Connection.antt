-- ===== src/Grpc/Connection.antt =====
-- `QGrpcHttp2ChannelPrivate` of src/grpc/qgrpchttp2channel.cpp: one socket, its HTTP/2 connection and
-- the handlers of the RPCs that share it. QHttp2Connection is Qt Network's and a parameter. A slot of
-- `finished` that starts another RPC while the handlers are visited is not modelled, and a call that a
-- timer defers is a mark on the handler, until it runs.
pub mod Served
pub mod Sound
pub mod Handlers
pub mod Later
pub mod Run
pub mod Fails
pub mod Refused
use qtgrpc.Prelude.{
  ℕ, suc, ltb, if◌then◌else◌, Bool, true, false, not, Option, none, some, List, [], ◌∷◌, ◌++◌, ◌&&◌,
}
use qtgrpc.Grpc.Status.{unavailable}
use qtgrpc.Grpc.Limits.{ReconnectBackoff, reset_backoff, grow_backoff}
use qtgrpc.Grpc.Handler.{
  Bytes, Status, CompressionAlgorithm, Http2Stream, State, idle, Rpc, finish, expire, is_over,
}
use qtgrpc.Grpc.Handler.Send.{Compress, write_message, send_initial_request}

pub data ConnectionState : Type 0 where
  connecting connected settings_received error : ConnectionState

-- The kinds of RPC that `call`, `serverStream`, `clientStream` and `bidiStream` start, and the
-- `endStream` that they pass on.
pub data RpcType : Type 0 where
  unary_call server_streaming client_streaming bidi_streaming : RpcType

unfoldable pub end_stream : RpcType → Bool
end_stream unary_call = true
end_stream server_streaming = true
end_stream client_streaming = false
end_stream bidi_streaming = false

-- The options of a call that its handler resolves when it is made.
pub record CallSetup : Type 0 where
  pub max_receive_size : ℕ
  pub filter_server_metadata : Bool
  pub request_encoding : CompressionAlgorithm
  pub deadline : Bool

module _ (api : Http2Stream) where
  open api use {Stream, send_headers}

  -- `QHttp2Connection`
  pub record Http2Connection : Type 1 where
    pub Connection : Type 0
    pub create_direct_connection : Connection
    pub create_stream : Connection → Option Stream × Connection

  -- A handler, whether a call of `finish` waits for it in the event loop, whether the call has a
  -- deadline, and whether the stream has been dereferenced while it was null: the program stops there,
  -- and what the model does afterwards stands for nothing.
  pub record Child : Type 0 where
    pub rpc : Rpc api
    pub deferred : Bool
    pub deadline : Bool
    pub null_dereferenced : Bool

  -- The constructor of `Http2Handler`, with the initial message; see `Channel` for its headers.
  unfoldable pub make_child : Compress → CallSetup → RpcType → Bytes → Child
  make_child compress setup type message = record {
    rpc = write_message api compress message (record {
      has_context = true;
      queue = [];
      stream = none;
      parser = record { max_receive_size = setup.max_receive_size; container = [] };
      negotiated_encoding = none;
      has_decompressor = false;
      state = idle;
      end_stream_at_first_data = end_stream type;
      writes_done_sent = false;
      draining_queue = false;
      in_flight_user_write = false;
      queued_bytes = 0;
      bytes_to_write = 0;
      filter_server_metadata = setup.filter_server_metadata;
      deadline_running = false;
      request_encoding = setup.request_encoding;
      pending_written = 0;
      delete_later = false;
      signals = [];
    });
    deferred = false;
    deadline = setup.deadline;
    null_dereferenced = false;
  }

  abbrev pub unavailable_status : Status
  unavailable_status = record { code = unavailable; message = none }

  -- `asyncFinish`
  unfoldable pub async_finish : Child → Child
  async_finish child =
      if child.rpc.has_context
      then record child { deferred = true }
      else record child { rpc = expire api child.rpc }

  unfoldable pub finish_child : Child → Child
  finish_child child = record child { rpc = finish api unavailable_status child.rpc }

  -- The deferred call.
  unfoldable pub run_deferred : Child → Child
  unfolding finish_child
  run_deferred child =
      if child.deferred then record (finish_child child) { deferred = false } else child

  -- `sendInitialRequest`; the code asserts that there is a stream and that the state is Idle.
  unfoldable pub send_on : Option Stream → Child → Child
  unfolding async_finish
  send_on none child =
      if is_over child.rpc.state then child else record child { null_dereferenced = true }
  send_on (some s) child =
      let sent = record child { rpc = send_initial_request api child.deadline s child.rpc } in
      if is_over child.rpc.state
      then child
      else if (send_headers s).0
      then sent
      else async_finish sent

  unfoldable pub send_child : Child → Child
  unfolding send_on
  send_child child = send_on child.rpc.stream child

  -- `for_each_non_expired_handler`: those that have lost their context are deleted.
  unfoldable pub for_each_non_expired : (Child → Child) → List Child → List Child
  for_each_non_expired proj [] = []
  for_each_non_expired proj (child ∷ rest) =
      let rest' = for_each_non_expired proj rest in
      if child.rpc.has_context then proj child ∷ rest' else rest'

  -- Deleting the connection deletes its streams.
  unfoldable pub drop_streams : List Child → List Child
  drop_streams [] = []
  drop_streams (child ∷ rest) =
      record child { rpc = record child.rpc { stream = none } } ∷ drop_streams rest

  module _ (http2 : Http2Connection) where
    open http2 use {Connection, create_stream, create_direct_connection}

    pub record Channel : Type 0 where
      pub connection : Option Connection
      pub state : ConnectionState
      pub children : List Child
      pub reconnect_backoff : ReconnectBackoff
      pub reconnect_timer_active : Bool
      pub connect_timeout_interval : ℕ
      pub connect_timeout_active : Bool
      pub is_inside_socket_error : Bool
      -- How often the reconnect function was called, and whether the socket has yet to answer.
      pub attempts : ℕ
      pub attempting : Bool

    -- What `createStream` answers.
    unfoldable pub attach : Option Stream → Child → Bool × Child
    unfolding async_finish
    attach none child = (false, async_finish child)
    attach (some s) child = (true, record child { rpc = record child.rpc { stream = some s } })

    -- `createHttp2Stream`
    unfoldable pub create_http2_stream : Connection → Child → Bool × Child × Connection
    unfolding attach
    create_http2_stream c child =
        let (s, c') = create_stream c in
        let (success, child') = attach s child in (success, child', c')

    unfoldable pub create_streams : Connection → List Child → List Child × Connection
    unfolding create_http2_stream
    create_streams c [] = ([], c)
    create_streams c (child ∷ rest) =
        let (success, child', c') = create_http2_stream c child in
        let kept = child.rpc.has_context in
        let (rest', c'') = create_streams (if kept then c' else c) rest in
        (if kept then child' ∷ rest' else rest', c'')

    unfoldable pub attempt_connect : Channel → Channel
    attempt_connect ch = record ch {
      connect_timeout_active =
          if ltb 0 ch.connect_timeout_interval then true else ch.connect_timeout_active;
      attempts = suc ch.attempts;
      attempting = true;
    }

    -- The slot of the reconnect timer, which is single-shot.
    unfoldable pub reconnect_timeout : Channel → Channel
    unfolding attempt_connect
    reconnect_timeout ch =
        if ch.reconnect_timer_active
        then attempt_connect (record ch { reconnect_timer_active = false })
        else ch

    unfoldable pub create_http2_connection : Channel → Channel
    unfolding create_streams
    create_http2_connection ch =
        let (children, c) = create_streams create_direct_connection ch.children in
        record ch {
          connection = some c;
          state = connected;
          children = children;
          attempting = false;
        }

    unfoldable pub accept_settings : ConnectionState → Channel → Channel
    accept_settings settings_received ch = ch
    accept_settings _ ch = record ch {
      connect_timeout_active = false;
      reconnect_backoff = reset_backoff ch.reconnect_backoff;
      state = settings_received;
      children = for_each_non_expired send_child ch.children;
    }

    -- The slot of `settingsFrameReceived`, which only a connection emits.
    unfoldable pub settings_frame_received : Channel → Channel
    unfolding accept_settings
    settings_frame_received ch = elim ch.connection [
      | none ↦ ch
      | some c ↦ accept_settings ch.state ch
    ]

    unfoldable pub handle_socket_error : Channel → Channel
    handle_socket_error ch =
        let finish_one =
          λ (child : Child). if ch.is_inside_socket_error then child else finish_child child in
        record ch {
          children = drop_streams (for_each_non_expired finish_one ch.children);
          connect_timeout_active = false;
          connection = none;
          state = error;
          attempting = false;
        }

    -- `~QGrpcHttp2ChannelPrivate`
    unfoldable pub destroy : Channel → Channel
    destroy ch = record ch {
      children = drop_streams (for_each_non_expired finish_child ch.children);
      connection = none;
    }

    -- The end of `processOperation`.
    unfoldable pub reconnect_from : (ℕ → ℕ) → ConnectionState → Channel → Channel
    reconnect_from grown error ch = record ch {
      reconnect_backoff =
          if ch.reconnect_timer_active
          then ch.reconnect_backoff
          else grow_backoff grown ch.reconnect_backoff;
      reconnect_timer_active = true;
      state = connecting;
    }
    reconnect_from grown _ ch = ch

    unfoldable pub add_child : Child → Channel → Channel
    add_child child ch = record ch { children = ch.children ++ (child ∷ []) }

    -- The request goes out at once where the server's SETTINGS are there.
    unfoldable pub started : ConnectionState → Child → Child
    started settings_received child = send_child child
    started _ child = child

    unfoldable pub enlist : (ℕ → ℕ) → Option Connection → Child → Channel → Channel
    unfolding started reconnect_from
    enlist grown none child ch =
        reconnect_from grown ch.state (add_child (started ch.state child) ch)
    enlist grown (some c) child ch =
        let (success, child', c') = create_http2_stream c child in
        let ch' : Channel = record ch { connection = some c' } in
        if success
        then reconnect_from grown ch'.state (add_child (started ch'.state child') ch')
        else add_child child' ch'

    -- `m_state == ConnectionState::Connected`
    unfoldable pub is_connected : ConnectionState → Bool
    is_connected connected = true
    is_connected _ = false

    -- `processOperation`, for a handler just made. Where the socket refuses, no handler is made, and
    -- the context is told later: the result says so.
    unfoldable pub process_operation : (ℕ → ℕ) → Bool → Child → Channel → Bool × Channel
    unfolding enlist is_connected
    process_operation grown writable child ch =
        if not writable && is_connected ch.state
        then (false, ch)
        else (true, enlist grown ch.connection child ch)
