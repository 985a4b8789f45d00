-- ===== src/Grpc/Connection/Fails.antt =====
-- What a socket error does to the RPCs of a channel, and how the next RPC reconnects.
use qtgrpc.Prelude.{ℕ, ◌≡◌, refl, if◌then◌else◌, Bool, true, false, none, List, [], ◌∷◌, ◌++◌, All}
use qtgrpc.Grpc.Handler.{Http2Stream, is_over}
use qtgrpc.Grpc.Connection.{
  connecting, Http2Connection, Child, unavailable_status, finish_child, for_each_non_expired,
  drop_streams, Channel, handle_socket_error, reconnect_from, add_child, started, enlist,
  is_connected, process_operation,
}
use qtgrpc.Grpc.Connection.Served.{over-finish}

module _ (api : Http2Stream) (http2 : Http2Connection api) where
  -- Ended, with the streams of the connection.
  abbrev pub IsCutOff : Child api → Type 0
  IsCutOff child = is_over child.rpc.state ≡ true × child.rpc.stream ≡ none

  if_All :
      (b : Bool) (child : Child api) (rest : List (Child api))
      → is_over child.rpc.state ≡ true
      → All IsCutOff (drop_streams api rest)
      → All IsCutOff (drop_streams api (if b then child ∷ rest else rest))
  unfolding drop_streams
  if_All true child rest o r = ((o, refl), r)
  if_All false child rest c r = r

  cut_off :
      (proj : Child api → Child api) (children : List (Child api))
      → ((child : Child api) → is_over (proj child).rpc.state ≡ true)
      → All IsCutOff (drop_streams api (for_each_non_expired api proj children))
  unfolding for_each_non_expired
  cut_off proj [] f = unfold drop_streams in tt
  cut_off proj (child ∷ rest) f =
      if_All child.rpc.has_context (proj child) (for_each_non_expired api proj rest) (f child)
        (cut_off proj rest f)

  finish_over : (child : Child api) → is_over (finish_child api child).rpc.state ≡ true
  unfolding finish_child
  finish_over child = over-finish api (unavailable_status api) child.rpc.state child.rpc

  handle_socket_error-IsCutOff :
      (ch : Channel api http2)
      → ch.is_inside_socket_error ≡ false
      → All IsCutOff (handle_socket_error api http2 ch).children
  unfolding handle_socket_error
  handle_socket_error-IsCutOff ch i = rw i (cut_off (finish_child api) ch.children finish_over)

  -- After an error of the socket every RPC of the channel is over and has no stream, and the next RPC
  -- is taken in and sets off the reconnect timer. The error has not struck while another was handled.
  pub process_operation-handle_socket_error :
      (grown : ℕ → ℕ) (writable : Bool) (child : Child api) (ch : Channel api http2)
      → ch.is_inside_socket_error ≡ false
      → All IsCutOff (handle_socket_error api http2 ch).children
        × (let (taken, after) =
              process_operation api http2 grown writable child (handle_socket_error api http2 ch) in
            taken ≡ true
            × after.state ≡ connecting
            × after.reconnect_timer_active ≡ true
            × after.children ≡ (handle_socket_error api http2 ch).children ++ (child ∷ []))
  unfolding handle_socket_error process_operation enlist started reconnect_from add_child
      is_connected
  process_operation-handle_socket_error grown true child ch i =
      (handle_socket_error-IsCutOff ch i, (refl, refl, refl, refl))
  process_operation-handle_socket_error grown false child ch i =
      (handle_socket_error-IsCutOff ch i, (refl, refl, refl, refl))
