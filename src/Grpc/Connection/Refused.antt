-- ===== src/Grpc/Connection/Refused.antt =====
-- An RPC for which the connection refuses a stream, when the server's SETTINGS arrive before the RPC has
-- been told.
use qtgrpc.Prelude.{
  ℕ, ◌≡◌, refl, if◌then◌else◌, Bool, true, false, ◌||◌, none, some, List, [], ◌∷◌, ◌++◌,
}
use qtgrpc.Grpc.Handler.{Http2Stream, is_over}
use qtgrpc.Grpc.Connection.{
  connected, Http2Connection, Child, async_finish, send_on, send_child, for_each_non_expired,
  Channel, attach, create_http2_stream, accept_settings, settings_frame_received, add_child, enlist,
  is_connected, process_operation,
}

module _ (api : Http2Stream) where
  unfoldable pub has_dereferenced : List (Child api) → Bool
  has_dereferenced [] = false
  has_dereferenced (child ∷ rest) = child.null_dereferenced || has_dereferenced rest

  or_true : (b : Bool) → (b || true) ≡ true
  or_true true = refl
  or_true false = refl

  head_dereferences :
      (b : Bool) (child : Child api) (rest : List (Child api))
      → b ≡ true
      → child.null_dereferenced ≡ true
      → has_dereferenced (if b then child ∷ rest else rest) ≡ true
  unfolding has_dereferenced
  head_dereferences true child rest c n = rw n refl
  head_dereferences false child rest c n = cc

  tail_dereferences :
      (b : Bool) (child : Child api) (rest : List (Child api))
      → has_dereferenced rest ≡ true
      → has_dereferenced (if b then child ∷ rest else rest) ≡ true
  unfolding has_dereferenced
  tail_dereferences true child rest d = rw d (or_true child.null_dereferenced)
  tail_dereferences false child rest d = d

  last_dereferences :
      (children : List (Child api)) (child : Child api)
      → child.rpc.has_context ≡ true
      → (send_child api child).null_dereferenced ≡ true
      → has_dereferenced (for_each_non_expired api (send_child api) (children ++ (child ∷ [])))
        ≡ true
  unfolding for_each_non_expired
  last_dereferences [] child c n =
      head_dereferences child.rpc.has_context (send_child api child) [] c n
  last_dereferences (first ∷ rest) child c n =
      tail_dereferences first.rpc.has_context (send_child api first) _
        (last_dereferences rest child c n)

  refused :
      (child : Child api)
      → child.rpc.has_context ≡ true
      → is_over child.rpc.state ≡ false
      → child.rpc.stream ≡ none
      → (send_child api (async_finish api child)).null_dereferenced ≡ true
  unfolding send_child send_on async_finish
  refused child c o s = rw (c, s, o) refl

  waits_for_its_end :
      (child : Child api)
      → child.rpc.has_context ≡ true
      → (async_finish api child).rpc.has_context ≡ true
  unfolding async_finish
  waits_for_its_end child c = rw c refl

  -- Where a connected channel, to which the server's SETTINGS have yet to come and whose socket is
  -- writable, starts an RPC that is not over, has its context and no stream, and for which the
  -- connection refuses one, the SETTINGS make the channel dereference the null stream of an RPC, when
  -- they arrive before the event loop has told the RPC that it has failed.
  pub settings_frame_received-process_operation :
      (http2 : Http2Connection api) (grown : ℕ → ℕ) (child : Child api) (ch : Channel api http2)
      (c : http2.Connection)
      → (http2.create_stream c).0 ≡ none
      → child.rpc.has_context ≡ true
      → is_over child.rpc.state ≡ false
      → child.rpc.stream ≡ none
      → has_dereferenced
          (settings_frame_received api http2
            (process_operation api http2 grown true child
              (record ch { connection = some c; state = connected })).1).children
        ≡ true
  unfolding process_operation enlist create_http2_stream attach add_child settings_frame_received
      accept_settings is_connected
  settings_frame_received-process_operation http2 grown child ch c r h o s = rw r (
      last_dereferences ch.children (async_finish api child) (waits_for_its_end child h)
        (refused child h o s))
