-- ===== src/Grpc/Handler/Send/Fifo.antt =====
-- The outgoing queue as a first-in first-out channel. A stream that records what it is given shows
-- what has left the queue: the messages handed over, followed by those that wait, are all that were
-- ever written, in order.
use mathlib.Core.List.{append_assoc, append-nil}
use qtgrpc.Prelude.{
  ℕ, ◌+◌, ◌≡◌, refl, sym, ap, ◌∙◌, arith, if◌then◌else◌, Bool, true, false, Option, none, some,
  List, [], ◌∷◌, ◌++◌, ◌||◌, length, ltb,
}
use qtgrpc.Grpc.Status.{resource_exhausted}
use qtgrpc.Grpc.Limits.{max_payload_size}
use qtgrpc.Grpc.Handler.{
  Bytes, Http2Stream, Rpc, Status, is_over, finish, is_stream_closed_for_sending,
}
use qtgrpc.Grpc.Handler.Send.{
  Compress, build_message, upload_reported, send_next, drain, process_queue, upload_finished,
  set_bytes_to_write, enqueue, write_message, writes_done,
}

-- A stream that keeps every message handed to `sendDATA`, the newest last.
abbrev pub recording : Http2Stream → Http2Stream
recording api = record {
  Stream = api.Stream × List Bytes;
  send_headers = λ s. ((api.send_headers s.0).0, ((api.send_headers s.0).1, s.1));
  send_data = λ s bytes close.
      let r = api.send_data s.0 bytes close in (r.0, r.1, (r.2, s.1 ++ (bytes ∷ [])));
  is_uploading_data = λ s. api.is_uploading_data s.0;
  is_closed_for_sending = λ s. api.is_closed_for_sending s.0;
  is_idle = λ s. api.is_idle s.0;
  send_rst_stream = λ s. ((api.send_rst_stream s.0).0, ((api.send_rst_stream s.0).1, s.1));
}

module _ (api : Http2Stream) where
  -- What a stream has been given; nothing before there is one.
  abbrev pub handed_over : Option (api.Stream × List Bytes) → List Bytes
  handed_over none = []
  handed_over (some s) = s.1

  -- The abstract channel: all messages, in the order of their writes.
  unfoldable pub messages : Rpc (recording api) → List Bytes
  messages h = handed_over h.stream ++ h.queue

  messages-if :
      (b : Bool) (x y : Rpc (recording api)) (all : List Bytes)
      → messages x ≡ all
      → messages y ≡ all
      → messages (if b then x else y) ≡ all
  messages-if true x y all p q = p
  messages-if false x y all p q = q

  -- One turn of the loop moves the message from the queue to the stream.
  messages-send_next :
      (s : api.Stream × List Bytes) (h : Rpc (recording api)) (message : Bytes) (rest : List Bytes)
      → let h' = (send_next (recording api) s h message rest).1 in
        (handed_over h'.stream ≡ s.1 ++ (message ∷ [])) × (h'.queue ≡ rest)
  unfolding send_next upload_reported
  messages-send_next s h message rest = ground arith

  messages-drain :
      (s : Option (api.Stream × List Bytes)) (h : Rpc (recording api)) (queue : List Bytes)
      → h.stream ≡ s
      → h.queue ≡ queue
      → messages (drain (recording api) s h queue) ≡ handed_over s ++ queue
  unfolding drain messages
  messages-drain none h queue e d = rw (e, d) refl
  messages-drain (some s) h [] e d = rw (e, d) refl
  messages-drain (some s) h (message ∷ rest) e d =
      let h' = (send_next (recording api) s h message rest).1 in
      let (given, left) = messages-send_next s h message rest in
      let moved : handed_over h'.stream ++ rest ≡ s.1 ++ (message ∷ rest) =
        rw (given, append_assoc s.1 (message ∷ []) rest) refl in
      let stopped : messages h' ≡ s.1 ++ (message ∷ rest) = rw left moved in
      messages-if _ (drain (recording api) h'.stream h' rest) h' (s.1 ++ (message ∷ rest))
        (messages-drain h'.stream h' rest refl left ∙ moved) stopped

  messages-process_queue :
      (h : Rpc (recording api)) → messages (process_queue (recording api) h) ≡ messages h
  unfolding process_queue messages
  messages-process_queue h =
      let h' : Rpc (recording api) = record h { draining_queue = true } in
      let drained = drain (recording api) h.stream h' h.queue in
      messages-if _ (record drained { draining_queue = h.draining_queue }) h
        (handed_over h.stream ++ h.queue) (messages-drain h.stream h' h.queue refl refl) refl

  messages-enqueue :
      (message : Bytes) (h : Rpc (recording api))
      → messages (process_queue (recording api) (enqueue (recording api) message h))
        ≡ messages h ++ (message ∷ [])
  messages-enqueue message h =
      messages-process_queue (enqueue (recording api) message h)
      ∙ unfold messages enqueue in sym (append_assoc (handed_over h.stream) h.queue (message ∷ []))

  messages-finish :
      (s : Status) (h : Rpc (recording api)) → messages (finish (recording api) s h) ≡ messages h
  unfolding finish messages
  messages-finish s h = ground arith

  messages-upload_finished :
      (h : Rpc (recording api)) → messages (upload_finished (recording api) h) ≡ messages h
  unfolding upload_finished
  messages-upload_finished h =
      let h' = upload_reported (recording api) true h in
      let same : messages h' ≡ messages h = unfold messages upload_reported in ground arith in
      messages-if h'.draining_queue h' (process_queue (recording api) h') (messages h) same
        (messages-process_queue h' ∙ same)

  messages-branch :
      (b c : Bool) (x y z : Rpc (recording api)) (all : List Bytes) (message : Bytes)
      → messages x ≡ all
      → messages y ≡ all
      → messages z ≡ all ++ (message ∷ [])
      → messages (if b then x else if c then y else z)
        ≡ all ++ (if b || c then [] else message ∷ [])
  messages-branch true c x y z all message p q r = p ∙ sym (append-nil all)
  messages-branch false true x y z all message p q r = q ∙ sym (append-nil all)
  messages-branch false false x y z all message p q r = r

  messages-set_bytes_to_write :
      (n : ℕ) (h : Rpc (recording api))
      → messages (set_bytes_to_write (recording api) (record h { bytes_to_write = n })) ≡ messages h
  unfolding messages set_bytes_to_write
  messages-set_bytes_to_write n h = ground arith

  -- Whether a call of `writeMessage` or `writesDone` still has a stream to write to.
  abbrev pub is_shut : Rpc (recording api) → Bool
  is_shut h =
      h.writes_done_sent || is_over h.state || is_stream_closed_for_sending (recording api) h.stream

module _ (api : Http2Stream) (compress : Compress) where
  -- What the program asks of the sending side, and what the stream reports.
  pub data Call : Type 0 where
    writes : Bytes → Call
    writes_are_done upload_is_finished : Call

  unfoldable pub call : Call → Rpc (recording api) → Rpc (recording api)
  call (writes payload) h = write_message (recording api) compress payload h
  call writes_are_done h = writes_done (recording api) h
  call upload_is_finished h = upload_finished (recording api) h

  -- The messages that one call adds to the abstract channel.
  unfoldable pub adds : Call → Rpc (recording api) → List Bytes
  adds (writes payload) h =
      if is_shut api h || ltb max_payload_size (length payload)
      then []
      else build_message compress h.request_encoding payload ∷ []
  adds writes_are_done h = if is_shut api h then [] else [] ∷ []
  adds upload_is_finished h = []

  abbrev pub calls : List Call → Rpc (recording api) → Rpc (recording api)
  calls [] h = h
  calls (c ∷ cs) h = calls cs (call c h)

  abbrev pub adds_all : List Call → Rpc (recording api) → List Bytes
  adds_all [] h = []
  adds_all (c ∷ cs) h = adds c h ++ adds_all cs (call c h)

  messages-write_message :
      (payload : Bytes) (h : Rpc (recording api))
      → messages api (call (writes payload) h) ≡ messages api h ++ adds (writes payload) h
  unfolding call adds write_message
  messages-write_message payload h =
      let message = build_message compress h.request_encoding payload in
      let h' =
        set_bytes_to_write (recording api)
          (record h { bytes_to_write = h.bytes_to_write + length message }) in
      messages-branch api (is_shut api h) (ltb max_payload_size (length payload)) h
        (finish (recording api) (record { code = resource_exhausted; message = none }) h)
        (process_queue (recording api) (enqueue (recording api) message h')) (messages api h)
        message refl (messages-finish api (record { code = resource_exhausted; message = none }) h)
        (messages-enqueue api message h'
          ∙ ap (λ all. all ++ (message ∷ []))
              (messages-set_bytes_to_write api (h.bytes_to_write + length message) h))

  messages-writes_done :
      (h : Rpc (recording api))
      → messages api (call writes_are_done h) ≡ messages api h ++ adds writes_are_done h
  unfolding call adds writes_done
  messages-writes_done h =
      let h' : Rpc (recording api) = record h { writes_done_sent = true } in
      let same : messages api h' ≡ messages api h = unfold messages in refl in
      messages-branch api (h.writes_done_sent || is_over h.state)
        (is_stream_closed_for_sending (recording api) h.stream) h h'
        (process_queue (recording api) (enqueue (recording api) [] h')) (messages api h) [] refl
        same (messages-enqueue api [] h' ∙ ap (λ all. all ++ ([] ∷ [])) same)

  messages-call :
      (c : Call) (h : Rpc (recording api)) → messages api (call c h) ≡ messages api h ++ adds c h
  unfolding call adds
  messages-call (writes payload) h = messages-write_message payload h
  messages-call writes_are_done h = messages-writes_done h
  messages-call upload_is_finished h =
      messages-upload_finished api h ∙ sym (append-nil (messages api h))

  -- The sending side refines a first-in first-out channel: over any sequence of calls, what the stream
  -- has been given followed by what still waits is what it was, followed by the messages that the calls
  -- added, in the order of the calls. None is lost, repeated or overtaken.
  pub messages-calls :
      (cs : List Call) (h : Rpc (recording api))
      → messages api (calls cs h) ≡ messages api h ++ adds_all cs h
  messages-calls [] h = sym (append-nil (messages api h))
  messages-calls (c ∷ cs) h =
      messages-calls cs (call c h)
      ∙ ap (λ all. all ++ adds_all cs (call c h)) (messages-call c h)
      ∙ append_assoc (messages api h) (adds c h) (adds_all cs (call c h))
