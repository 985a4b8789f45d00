-- ===== src/Grpc/Connection/Served.antt =====
-- What waits for what in a channel: the connection, the RPCs and the attempts to connect.
use qtgrpc.Prelude.{
  ◌≡◌, refl, ◌∙◌, arith, not, ◌&&◌, if◌then◌else◌, Bool, true, false, Bool-cases, inl, inr, Option,
  none, some, List, [], ◌∷◌,
}
use qtgrpc.Grpc.Handler.{
  Bytes, Http2Stream, State, idle, request_headers_sent, active, cancelled, finished, Status, Rpc,
  finish, expire, end_state, is_over,
}
use qtgrpc.Grpc.Handler.Send.{
  upload_reported, send_next, drain, process_queue, headers_sent, send_initial_request,
}
use qtgrpc.Grpc.Connection.{
  ConnectionState, connecting, connected, settings_received, error, Child, unavailable_status,
  async_finish, finish_child, run_deferred, send_on, send_child,
}

module _ (api : Http2Stream) where
  state-if :
      (b : Bool) (x y : Rpc api) (s : State)
      → x.state ≡ s
      → y.state ≡ s
      → (if b then x else y).state ≡ s
  state-if true x y s p q = p
  state-if false x y s p q = q

  state-send_next :
      (s : api.Stream) (h : Rpc api) (message : Bytes) (rest : List Bytes)
      → (send_next api s h message rest).1.state ≡ h.state
  unfolding send_next upload_reported
  state-send_next s h message rest = ground arith

  state-drain :
      (s : Option api.Stream) (h : Rpc api) (queue : List Bytes)
      → (drain api s h queue).state ≡ h.state
  unfolding drain
  state-drain none h queue = refl
  state-drain (some s) h [] = refl
  state-drain (some s) h (message ∷ rest) =
      let h' = (send_next api s h message rest).1 in
      let same = state-send_next s h message rest in
      state-if _ (drain api h'.stream h' rest) h' h.state (state-drain h'.stream h' rest ∙ same)
        same

  state-process_queue : (h : Rpc api) → (process_queue api h).state ≡ h.state
  unfolding process_queue
  state-process_queue h =
      state-if _
        (record (drain api h.stream (record h { draining_queue = true }) h.queue) {
          draining_queue = h.draining_queue;
        })
        h h.state (state-drain h.stream (record h { draining_queue = true }) h.queue) refl

  unfoldable pub is_idle_state : State → Bool
  is_idle_state idle = true
  is_idle_state _ = false

  unfoldable pub has_stream : Option api.Stream → Bool
  has_stream none = false
  has_stream (some s) = true

  -- An RPC that is not over and has its context.
  unfoldable pub is_alive : Child api → Bool
  is_alive child = child.rpc.has_context && not (is_over child.rpc.state)

  -- An RPC that nobody has taken care of, in a state of the connection: once the connection is there,
  -- one without a stream, and once the server's SETTINGS are there, one whose headers are not sent
  -- and that is not about to be told that it has failed.
  unfoldable pub is_waiting : ConnectionState → Child api → Bool
  unfolding has_stream is_alive is_idle_state
  is_waiting connected child = is_alive child && not (has_stream child.rpc.stream)
  is_waiting settings_received child =
      is_alive child && (not child.deferred && is_idle_state child.rpc.state)
  is_waiting _ child = false

  abbrev pub IsGood : ConnectionState → Child api → Type 0
  IsGood state child = is_waiting state child ≡ false × child.null_dereferenced ≡ false

  pub and_false : (b : Bool) → (b && false) ≡ false
  and_false true = refl
  and_false false = refl

  and_and_false : (a b : Bool) → (a && (b && false)) ≡ false
  and_and_false true b = and_false b
  and_and_false false b = refl

  pub closed :
      (state : ConnectionState) (child : Child api)
      → is_alive child ≡ false
      → is_waiting state child ≡ false
  unfolding is_waiting
  closed connecting child a = refl
  closed connected child a = rw a refl
  closed settings_received child a = rw a refl
  closed error child a = refl

  pub is_alive-over : (child : Child api) → is_over child.rpc.state ≡ true → is_alive child ≡ false
  unfolding is_alive
  is_alive-over child o = ground arith

  async_finish-IsGood :
      (child : Child api)
      → child.null_dereferenced ≡ false
      → IsGood settings_received (async_finish api child)
  unfolding async_finish is_waiting
  async_finish-IsGood child n =
      let later : Child api = record child { deferred = true } in
      let gone : Child api = record child { rpc = expire api child.rpc } in
      elim child.rpc.has_context as (λ b. IsGood settings_received (if b then later else gone)) [
        | true ↦ (and_false _, n)
        | false ↦ (closed settings_received gone (is_alive-over gone (unfold is_over in refl)), n)
      ]

  state-headers_sent :
      (deadline : Bool) (r : Bool × api.Stream) (h : Rpc api)
      → r.0 ≡ true
      → (headers_sent api deadline r h).state ≡ request_headers_sent
  unfolding headers_sent
  state-headers_sent deadline (false, s) h e = cc
  state-headers_sent deadline (true, s) h e =
      state-process_queue (record h { stream = some s; state = request_headers_sent })

  abbrev sent : api.Stream → Child api → Child api
  sent s child = record child { rpc = send_initial_request api child.deadline s child.rpc }

  is_waiting-sent :
      (s : api.Stream) (child : Child api)
      → is_over child.rpc.state ≡ false
      → (api.send_headers s).0 ≡ true
      → is_waiting settings_received (sent s child) ≡ false
  unfolding is_waiting is_idle_state send_initial_request
  is_waiting-sent s child o e =
      rw (o, state-headers_sent child.deadline (api.send_headers s) child.rpc e) (and_and_false _ _)

  send_on-IsGood :
      (s : Option api.Stream) (child : Child api)
      → (is_alive child && not (has_stream s)) ≡ false
      → child.rpc.has_context ≡ true
      → child.null_dereferenced ≡ false
      → IsGood settings_received (send_on api s child)
  unfolding send_on has_stream is_alive
  send_on-IsGood none child w c n =
      let o : is_over child.rpc.state ≡ true = ground arith in
      rw o (closed settings_received child (is_alive-over child o), n)
  send_on-IsGood (some s) child w c n = elim (Bool-cases (is_over child.rpc.state)) [
    | inl o ↦ rw o (closed settings_received child (is_alive-over child o), n)
    | inr o ↦ elim (Bool-cases (api.send_headers s).0) [
      | inl e ↦ rw (o, e) (is_waiting-sent s child o e, n)
      | inr e ↦ rw (o, e) (async_finish-IsGood (sent s child) n)
    ]
  ]

  pub send_child-IsGood :
      (child : Child api)
      → child.rpc.has_context ≡ true
      → IsGood connected child
      → IsGood settings_received (send_child api child)
  unfolding is_waiting send_child
  send_child-IsGood child c (w, n) = send_on-IsGood child.rpc.stream child w c n

  pub over-finish :
      (status : Status) (state : State) (h : Rpc api)
      → is_over (finish api status (record h { state = state })).state ≡ true
  unfolding finish is_over end_state
  over-finish status idle h = ground arith
  over-finish status request_headers_sent h = ground arith
  over-finish status active h = ground arith
  over-finish status cancelled h = ground arith
  over-finish status finished h = ground arith

  pub finish_child-IsGood :
      (state : ConnectionState) (child : Child api)
      → child.null_dereferenced ≡ false
      → IsGood state (finish_child api child)
  unfolding finish_child
  finish_child-IsGood state child n = (
    closed state (finish_child api child) (
        is_alive-over (finish_child api child)
          (over-finish (unavailable_status api) child.rpc.state child.rpc)),
    n,
  )

  pub run_deferred-IsGood :
      (state : ConnectionState) (child : Child api)
      → IsGood state child
      → IsGood state (run_deferred api child)
  unfolding run_deferred
  run_deferred-IsGood state child g =
      let child' : Child api = record (finish_child api child) { deferred = false } in
      elim child.deferred as (λ b. IsGood state (if b then child' else child)) [
        | true ↦ (
          closed state child' (
              is_alive-over child' (
                unfold finish_child in
                over-finish (unavailable_status api) child.rpc.state child.rpc)),
          unfold finish_child in g.1,
        )
        | false ↦ g
      ]
