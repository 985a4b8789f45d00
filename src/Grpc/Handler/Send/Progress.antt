-- ===== src/Grpc/Handler/Send/Progress.antt =====
-- What waits in the outgoing queue: its bytes are counted, and it moves whenever the stream is free.
use qtgrpc.Prelude.{
  ℕ, suc, ◌+◌, ◌≤◌, ◌≡◌, ◌≢◌, refl, sym, subst, arith, if◌then◌else◌, Bool, true, false, Option,
  none, some, List, [], ◌∷◌, ◌++◌, ◌||◌, length, ltb,
}
use native.Mathlib.Nat.{le_refl}
use qtgrpc.Grpc.Status.{resource_exhausted}
use qtgrpc.Grpc.Limits.{max_payload_size}
use qtgrpc.Grpc.Handler.{
  is_stream_closed_for_sending, Bytes, Http2Stream, Rpc, State, idle, is_over, finish,
}
use qtgrpc.Grpc.Handler.Send.{
  Compress, build_message, upload_reported, send_next, drain, may_drain, process_queue,
  upload_finished, set_bytes_to_write, enqueue, write_message, writes_done,
}

-- The bytes of a queue.
unfoldable pub total : List Bytes → ℕ
total [] = 0
total (message ∷ rest) = length message + total rest

total-append : (xs ys : List Bytes) → total (xs ++ ys) ≡ total xs + total ys
unfolding total
total-append [] ys = omega arith
total-append (x ∷ xs) ys = omega (arith, total-append xs ys)

module _ (api : Http2Stream) where
  abbrev pub IsCounted : Rpc api → Type 0
  IsCounted h = h.queued_bytes ≡ total h.queue

  if-IsCounted :
      (b : Bool) (x y : Rpc api) → IsCounted x → IsCounted y → IsCounted (if b then x else y)
  if-IsCounted true x y p q = p
  if-IsCounted false x y p q = q

  send_next-IsCounted :
      (s : api.Stream) (h : Rpc api) (message : Bytes) (rest : List Bytes)
      → h.queued_bytes ≡ total (message ∷ rest)
      → IsCounted (send_next api s h message rest).1
        × ((send_next api s h message rest).1.queue ≡ rest)
  unfolding send_next upload_reported total
  send_next-IsCounted s h message rest e = ground arith

  drain-IsCounted :
      (s : Option api.Stream) (h : Rpc api) (queue : List Bytes)
      → h.queue ≡ queue
      → IsCounted h
      → IsCounted (drain api s h queue)
  unfolding drain
  drain-IsCounted none h queue e c = c
  drain-IsCounted (some s) h [] e c = c
  drain-IsCounted (some s) h (message ∷ rest) e c =
      let h' = (send_next api s h message rest).1 in
      let (c', left) = send_next-IsCounted s h message rest (rw (← e) c) in
      if-IsCounted _ (drain api h'.stream h' rest) h' (drain-IsCounted h'.stream h' rest left c') c'

  process_queue-IsCounted : (h : Rpc api) → IsCounted h → IsCounted (process_queue api h)
  unfolding process_queue
  process_queue-IsCounted h c =
      let h' : Rpc api = record h { draining_queue = true } in
      let drained = drain api h.stream h' h.queue in
      if-IsCounted _ (record drained { draining_queue = h.draining_queue }) h
        (drain-IsCounted h.stream h' h.queue refl c) c

  enqueue-IsCounted :
      (message : Bytes) (h : Rpc api) → IsCounted h → IsCounted (enqueue api message h)
  unfolding enqueue total
  enqueue-IsCounted message h c = omega (arith, total-append h.queue (message ∷ []))

  queue-IsCounted :
      (message : Bytes) (h : Rpc api)
      → IsCounted h
      → IsCounted (process_queue api (enqueue api message h))
  queue-IsCounted message h c =
      process_queue-IsCounted (enqueue api message h) (enqueue-IsCounted message h c)

  write_message-IsCounted :
      (compress : Compress) (payload : Bytes) (h : Rpc api)
      → IsCounted h
      → IsCounted (write_message api compress payload h)
  unfolding write_message
  write_message-IsCounted compress payload h c =
      let message = build_message compress h.request_encoding payload in
      let h' =
        set_bytes_to_write api (record h { bytes_to_write = h.bytes_to_write + length message }) in
      let c' : IsCounted h' = unfold set_bytes_to_write in ground arith in
      let refused : Rpc api = finish api (record { code = resource_exhausted; message = none }) h in
      let queued = process_queue api (enqueue api message h') in
      if-IsCounted
        (h.writes_done_sent || is_over h.state || is_stream_closed_for_sending api h.stream) h
        (if ltb max_payload_size (length payload) then refused else queued) c
        (if-IsCounted (ltb max_payload_size (length payload)) refused queued
          (unfold finish in ground arith) (queue-IsCounted message h' c'))

  writes_done-IsCounted : (h : Rpc api) → IsCounted h → IsCounted (writes_done api h)
  unfolding writes_done
  writes_done-IsCounted h c =
      let h' : Rpc api = record h { writes_done_sent = true } in
      let queued = process_queue api (enqueue api [] h') in
      let closed = is_stream_closed_for_sending api h.stream in
      if-IsCounted (h.writes_done_sent || is_over h.state) h (if closed then h' else queued) c
        (if-IsCounted closed h' queued c (queue-IsCounted [] h' c))

  upload_finished-IsCounted : (h : Rpc api) → IsCounted h → IsCounted (upload_finished api h)
  unfolding upload_finished
  upload_finished-IsCounted h c =
      let h' = upload_reported api true h in
      let c' : IsCounted h' = unfold upload_reported in ground arith in
      if-IsCounted h'.draining_queue h' (process_queue api h') c' (process_queue-IsCounted h' c')

  -- Where `m_queuedBytes` is the number of bytes in the queue, it still is after a write, the end of
  -- the writes, and a report of the stream that an upload has finished.
  IsCounted-kept :
      (compress : Compress) (payload : Bytes) (h : Rpc api)
      → IsCounted h
      → IsCounted (write_message api compress payload h)
        × IsCounted (writes_done api h)
        × IsCounted (upload_finished api h)
  IsCounted-kept compress payload h c = (
    write_message-IsCounted compress payload h c,
    writes_done-IsCounted h c,
    upload_finished-IsCounted h c,
  )

  if_shorter :
      (n : ℕ) (b : Bool) (x y : Rpc api)
      → length x.queue ≤ n
      → length y.queue ≤ n
      → length (if b then x else y).queue ≤ n
  if_shorter n true x y p q = p
  if_shorter n false x y p q = q

  drain_shorter :
      (s : Option api.Stream) (h : Rpc api) (queue : List Bytes)
      → h.queue ≡ queue
      → length (drain api s h queue).queue ≤ length queue
  unfolding drain
  drain_shorter none h queue e = rw e (le_refl _)
  drain_shorter (some s) h [] e = rw e (le_refl _)
  drain_shorter (some s) h (message ∷ rest) e =
      let h' = (send_next api s h message rest).1 in
      let left : h'.queue ≡ rest = unfold send_next upload_reported in ground arith in
      if_shorter (suc (length rest)) _ (drain api h'.stream h' rest) h'
        (omega (arith, drain_shorter h'.stream h' rest left)) (rw left (omega arith))

  drain_progress :
      (s : api.Stream) (h : Rpc api) (message : Bytes) (rest : List Bytes)
      → length (drain api (some s) h (message ∷ rest)).queue ≤ length rest
  unfolding drain
  drain_progress s h message rest =
      let h' = (send_next api s h message rest).1 in
      let left : h'.queue ≡ rest = unfold send_next upload_reported in ground arith in
      if_shorter (length rest) _ (drain api h'.stream h' rest) h'
        (drain_shorter h'.stream h' rest left) (rw left (le_refl _))

  may_drain_free :
      (s : api.Stream) (state : State)
      → state ≢ idle
      → api.is_uploading_data s ≡ false
      → may_drain api (some s) state ≡ true
  unfolding may_drain
  may_drain_free s idle n f = absurd (n refl)
  may_drain_free s _ n f = rw f refl

  -- Once the request headers are sent, a stream that is free takes at least one message from a queue
  -- that is not empty.
  process_queue_progress :
      (s : api.Stream) (message : Bytes) (rest : List Bytes) (h : Rpc api)
      → h.stream ≡ some s
      → h.queue ≡ message ∷ rest
      → h.state ≢ idle
      → api.is_uploading_data s ≡ false
      → length (process_queue api h).queue ≤ length rest
  unfolding process_queue
  process_queue_progress s message rest h e q n f =
      let h' : Rpc api = record h { draining_queue = true } in
      let ready : may_drain api h.stream h.state ≡ true =
        subst (λ o. may_drain api o h.state ≡ true) (sym e) (may_drain_free s h.state n f) in
      let less : length (drain api h.stream h' h.queue).queue ≤ length rest =
        subst (λ o. length (drain api o h' h.queue).queue ≤ length rest) (sym e)
          (subst (λ l. length (drain api (some s) h' l).queue ≤ length rest) (sym q)
            (drain_progress s h' message rest)) in
      let drained = drain api h.stream h' h.queue in
      subst
        (λ b.
          length (if b then record drained { draining_queue = h.draining_queue } else h).queue
          ≤ length rest)
        (sym ready) less
