-- ===== src/Grpc/Connection/Later.antt =====
-- What becomes of an RPC of a channel: what its user does, and what becomes of its messages.
use qtgrpc.Prelude.{
  ℕ, ◌≡◌, refl, arith, not, ◌&&◌, ◌||◌, if◌then◌else◌, Bool, true, false, Bool-cases, inl, inr,
  Option, none, some, List, [], ◌∷◌, length, ◌+◌,
}
use qtgrpc.Grpc.Handler.{
  Bytes, Status, Http2Stream, Rpc, finish, end_state, is_over, is_stream_closed_for_sending,
  request_headers_sent, cancel_with_status,
}
use qtgrpc.Grpc.Handler.Send.{
  Compress, upload_reported, send_next, drain, process_queue, upload_finished, set_bytes_to_write,
  build_message, enqueue, write_message, writes_done, send_initial_request,
}
use qtgrpc.Grpc.Connection.{ConnectionState, connecting, connected, settings_received, error, Child}
use qtgrpc.Grpc.Connection.Served.{IsGood, is_waiting, is_alive, has_stream, is_idle_state}

module _ (api : Http2Stream) where
  -- An operation that neither ends the RPC nor takes its stream.
  record Keeps (h h' : Rpc api) : Type 0 where
    same_context : h'.has_context ≡ h.has_context
    same_state : h'.state ≡ h.state
    same_stream : has_stream api h.stream ≡ true → has_stream api h'.stream ≡ true

  send_next-Keeps :
      (s : api.Stream) (h : Rpc api) (message : Bytes) (rest : List Bytes)
      → Keeps h (send_next api s h message rest).1
  unfolding send_next upload_reported has_stream
  send_next-Keeps s h message rest = ground arith

  drain-Keeps :
      (s : Option api.Stream) (h : Rpc api) (queue : List Bytes) → Keeps h (drain api s h queue)
  unfolding drain
  drain-Keeps none h queue = ground arith
  drain-Keeps (some s) h [] = ground arith
  drain-Keeps (some s) h (message ∷ rest) = ground (
    arith,
    send_next-Keeps s h message rest,
    drain-Keeps (send_next api s h message rest).1.stream (send_next api s h message rest).1 rest,
  )

  process_queue-Keeps : (h : Rpc api) → Keeps h (process_queue api h)
  unfolding process_queue
  process_queue-Keeps h =
      ground (arith, drain-Keeps h.stream (record h { draining_queue = true }) h.queue)

  -- What becomes of an RPC: it is not revived, keeps its stream while it is alive, and does not become
  -- idle again.
  pub record IsLater (h h' : Rpc api) : Type 0 where
    pub alive :
        (h'.has_context && not (is_over h'.state)) ≡ true
        → (h.has_context && not (is_over h.state)) ≡ true
    pub streams :
        (h'.has_context && not (is_over h'.state)) ≡ true
        → has_stream api h.stream ≡ true
        → has_stream api h'.stream ≡ true
    pub idles :
        (h'.has_context && not (is_over h'.state)) ≡ true
        → is_idle_state api h'.state ≡ true
        → is_idle_state api h.state ≡ true

  pub IsLater-IsGood :
      (state : ConnectionState) (child : Child api) (h' : Rpc api)
      → IsLater child.rpc h'
      → IsGood api state child
      → IsGood api state (record child { rpc = h' })
  unfolding is_waiting is_alive
  IsLater-IsGood connecting child h' k (w, n) = (refl, n)
  IsLater-IsGood error child h' k (w, n) = (refl, n)
  IsLater-IsGood connected child h' k (w, n) = (ground (arith, k.alive, k.streams), n)
  IsLater-IsGood settings_received child h' k (w, n) = (ground (arith, k.alive, k.idles), n)

  pub IsLater-refl : (h : Rpc api) → IsLater h h
  IsLater-refl h = ground arith

  module _ (h0 : Rpc api) where
    Keeps-IsLater : (h h' : Rpc api) → Keeps h h' → IsLater h0 h → IsLater h0 h'
    Keeps-IsLater h h' k l = ground (arith, k.same_stream)

    pub finish-IsLater : (s : Status) (h : Rpc api) → IsLater h0 h → IsLater h0 (finish api s h)
    unfolding finish end_state is_over
    finish-IsLater s h l = ground arith

    pub if-IsLater :
        (b : Bool) {x y : Rpc api} → IsLater h0 x → IsLater h0 y → IsLater h0 (if b then x else y)
    if-IsLater true p q = p
    if-IsLater false p q = q

    set_bytes_to_write-IsLater :
        (n : ℕ) (h : Rpc api)
        → IsLater h0 h
        → IsLater h0 (set_bytes_to_write api (record h { bytes_to_write = n }))
    unfolding set_bytes_to_write
    set_bytes_to_write-IsLater n h l = ground arith

    process_queue-IsLater : (h : Rpc api) → IsLater h0 h → IsLater h0 (process_queue api h)
    process_queue-IsLater h l = Keeps-IsLater h (process_queue api h) (process_queue-Keeps h) l

    queue_message-IsLater :
        (message : Bytes) (h : Rpc api)
        → IsLater h0 h
        → IsLater h0 (process_queue api (enqueue api message h))
    queue_message-IsLater message h l =
        process_queue-IsLater (enqueue api message h) (unfold enqueue in ground arith)

    pub upload_finished-IsLater : (h : Rpc api) → IsLater h0 h → IsLater h0 (upload_finished api h)
    unfolding upload_finished
    upload_finished-IsLater h l =
        let h' = upload_reported api true h in
        let l' : IsLater h0 h' = unfold upload_reported in ground arith in
        if-IsLater h'.draining_queue l' (process_queue-IsLater h' l')

    pub writes_done-IsLater : (h : Rpc api) → IsLater h0 h → IsLater h0 (writes_done api h)
    unfolding writes_done
    writes_done-IsLater h l =
        let h' : Rpc api = record h { writes_done_sent = true } in
        let l' : IsLater h0 h' = ground arith in
        if-IsLater (h.writes_done_sent || is_over h.state) l (
          if-IsLater (is_stream_closed_for_sending api h.stream) {x = h'} l'
            (queue_message-IsLater [] h' l'))

    pub write_message-IsLater :
        (compress : Compress) (payload : Bytes) (h : Rpc api)
        → IsLater h0 h
        → IsLater h0 (write_message api compress payload h)
    unfolding write_message
    write_message-IsLater compress payload h l =
        let message = build_message compress h.request_encoding payload in
        if-IsLater _ l (
          if-IsLater _ (finish-IsLater _ h l) (
            queue_message-IsLater message _
              (set_bytes_to_write-IsLater (h.bytes_to_write + length message) h l)))

    started-IsLater :
        (deadline : Bool) (s : api.Stream) (h : Rpc api)
        → is_over h.state ≡ false
        → IsLater h0 h
        → IsLater h0
            (record (process_queue api
              (record h { stream = some s; state = request_headers_sent })) {
                deadline_running = deadline;
              })
    unfolding is_over has_stream is_idle_state
    started-IsLater deadline s h e l =
        let h' : Rpc api = record h { stream = some s; state = request_headers_sent } in
        let l' : IsLater h0 h' = ground arith in
        let l'' = process_queue-IsLater h' l' in ground arith

    pub send_initial_request-IsLater :
        (deadline : Bool) (s : api.Stream) (h : Rpc api)
        → IsLater h0 h
        → IsLater h0 (send_initial_request api deadline s h)
    unfolding send_initial_request has_stream
    send_initial_request-IsLater deadline s h l = elim (Bool-cases (is_over h.state)) [
      | inl e ↦ rw e l
      | inr e ↦ rw e (ground (arith, started-IsLater deadline (api.send_headers s).1 h e l))
    ]

    pub cancel_with_status-IsLater :
        (status : Status) (h : Rpc api)
        → IsLater h0 h
        → IsLater h0 (cancel_with_status api status h)
    unfolding cancel_with_status finish end_state is_over
    cancel_with_status-IsLater status h l = ground arith
