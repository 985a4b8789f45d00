-- ===== src/Grpc/Handler/Once/Incoming.antt =====
-- What the slots of dataReceived and headersReceived keep: whatever is kept where an RPC is finished,
-- becomes active or expires, and where only its messages and its parser change.
use qtgrpc.Prelude.{
  ℕ, zero, suc, Bool-cases, inl, inr, ◌+◌, ◌≡◌, if◌then◌else◌, refl, arith, ◌==◌, Bool, true, false,
  Option, none, some,
}
use qtgrpc.Grpc.Status.{StatusCode, ok, internal, data_loss, resource_exhausted}
use qtgrpc.Grpc.DataParser.{
  Parsed, GrpcDataParser, frame, need_more_data, oversize, parse_next_frame, bytes_available, feed,
}
use qtgrpc.Grpc.Handler.{
  Bytes, Headers, Status, Http2Stream, State, finish, expire, active, cancelled, Rpc, emit,
  trailing_metadata, is_over,
}
use qtgrpc.Grpc.Handler.Receive.{
  Decompress, Turn, Payload, payload, refused, final_payload, deliver, turn, end_of_stream,
  after_frames, receive, returns, breaks, goes_on, frame_loop, data_received,
}
use qtgrpc.Grpc.Handler.Headers.{
  Services, HeaderPhase, initial, trailers, trailers_only, Seen, Loop, next, fails, header_loop,
  lacks_required, unseen, adopt, finish_trailers, conclude, after_loop, phase_of, in_phase,
  handle_headers, headers_received,
}
use qtgrpc.Grpc.Handler.Once.{count_finished}

-- Nothing changes that decides whether an RPC is over, and nothing is said of its end.
pub record IsQuiet (api : Http2Stream) (h h' : Rpc api) : Type 0 where
  pub same_context : h'.has_context ≡ h.has_context
  pub same_state : h'.state ≡ h.state
  pub same_stream : h'.stream ≡ h.stream
  pub same_count : count_finished h'.signals ≡ count_finished h.signals

pub record IsClosed (api : Http2Stream) (P : Rpc api → Type 0) : Type 0 where
  pub finishes : (s : Status) (h : Rpc api) → P h → P (finish api s h)
  pub quietly : (h h' : Rpc api) → IsQuiet api h h' → P h → P h'
  pub activates : (h : Rpc api) → is_over h.state ≡ false → P h → P (record h { state = active })
  pub expires : (h : Rpc api) → h.has_context ≡ false → P h → P (expire api h)

module _ (api : Http2Stream) (P : Rpc api → Type 0) (closed : IsClosed api P) where
  if-kept : (b : Bool) {x y : Rpc api} → P x → P y → P (if b then x else y)
  if-kept true p q = p
  if-kept false p q = q

  branch-kept :
      (b : Bool) {x y : Rpc api} → (b ≡ true → P x) → (b ≡ false → P y) → P (if b then x else y)
  branch-kept true p q = p refl
  branch-kept false p q = q refl

module _ (api : Http2Stream) (P : Rpc api → Type 0) (closed : IsClosed api P)
    (decompress : Decompress) where
  turn_result : Turn api decompress → Rpc api
  turn_result (returns h) = h
  turn_result (breaks h) = h
  turn_result (goes_on h) = h

  deliver-kept : (p : Payload) (h : Rpc api) → P h → P (turn_result (deliver api decompress p h))
  unfolding deliver turn_result count_finished
  deliver-kept (refused code) h o = closed.finishes (record { code = code; message = none }) h o
  deliver-kept (payload bytes) h o = closed.quietly h _ (ground arith) o

  turn-kept :
      (r : Parsed × GrpcDataParser) (h : Rpc api) → P h → P (turn_result (turn api decompress r h))
  unfolding turn turn_result
  turn-kept (need_more_data, p) h o = closed.quietly h _ (ground arith) o
  turn-kept (oversize size, p) h o =
      closed.finishes (record { code = resource_exhausted; message = none })
        (record h { parser = p }) (closed.quietly h _ (ground arith) o)
  turn-kept (frame f, p) h o =
      deliver-kept
        (final_payload decompress p.max_receive_size h.has_decompressor h.negotiated_encoding f)
        (record h { parser = p }) (closed.quietly h _ (ground arith) o)

  follow-kept :
      (f : Rpc api → Turn api decompress)
      → ((h : Rpc api) → P h → P (turn_result (f h)))
      → (t : Turn api decompress) → P (turn_result t)
      → P (turn_result (elim t [ returns h ↦ returns h | breaks h ↦ breaks h | goes_on h ↦ f h ]))
  unfolding turn_result
  follow-kept f g (returns h) p = p
  follow-kept f g (breaks h) p = p
  follow-kept f g (goes_on h) p = g h p

  frame_loop-kept :
      (turns : ℕ) (h : Rpc api) → P h → P (turn_result (frame_loop api decompress turns h))
  unfolding frame_loop turn_result
  frame_loop-kept zero h o = o
  frame_loop-kept (suc turns) h o =
      follow-kept (frame_loop api decompress turns) (frame_loop-kept turns)
        (turn api decompress (parse_next_frame h.parser) h)
        (turn-kept (parse_next_frame h.parser) h o)

  end_of_stream-kept : (h : Rpc api) → P h → P (end_of_stream api decompress h)
  unfolding end_of_stream
  end_of_stream-kept h o =
      if-kept api P closed (bytes_available h.parser == 0)
        (closed.finishes (record { code = ok; message = none }) h o)
        (closed.finishes (record { code = data_loss; message = none }) h o)

  after_frames-kept :
      (end_stream : Bool) (t : Turn api decompress)
      → P (turn_result t)
      → P (after_frames api decompress end_stream t)
  unfolding after_frames turn_result
  after_frames-kept end_stream (returns h) o = o
  after_frames-kept false (breaks h) o = o
  after_frames-kept true (breaks h) o = end_of_stream-kept h o
  after_frames-kept end_stream (goes_on h) o = o

  receive-kept :
      (s : State) (bytes : Bytes) (end_stream : Bool) (h : Rpc api)
      → P h
      → P (receive api decompress s bytes end_stream h)
  unfolding receive
  receive-kept cancelled bytes end_stream h o = o
  receive-kept _ bytes end_stream h o =
      let turns = bytes_available (feed h.parser bytes) + 1 in
      let h' : Rpc api = record h { parser = feed h.parser bytes } in
      after_frames-kept end_stream (frame_loop api decompress turns h')
        (frame_loop-kept turns h' (closed.quietly h _ (ground arith) o))

  pub data_received-kept :
      (bytes : Bytes) (end_stream : Bool) (h : Rpc api)
      → P h
      → P (data_received api decompress bytes end_stream h)
  unfolding data_received
  data_received-kept bytes end_stream h o =
      if-kept api P closed h.has_context (receive-kept h.state bytes end_stream h o) o

module _ (api : Http2Stream) (P : Rpc api → Type 0) (closed : IsClosed api P) (q : Services) where
  finish_trailers-kept :
      (code : Option StatusCode) (s : Seen) (h : Rpc api) → P h → P (finish_trailers api code s h)
  unfolding finish_trailers count_finished
  finish_trailers-kept none s h o = o
  finish_trailers-kept (some code) s h o =
      closed.finishes (record { code = code; message = s.status_message })
        (emit api (trailing_metadata s.metadata) h) (closed.quietly h _ (ground arith) o)

  conclude-kept : (phase : HeaderPhase) (s : Seen) (h : Rpc api) → P h → P (conclude api phase s h)
  unfolding conclude count_finished
  conclude-kept initial s h o = closed.quietly h _ (ground arith) o
  conclude-kept trailers s h o = finish_trailers-kept s.status_code s h o
  conclude-kept trailers_only s h o = finish_trailers-kept s.status_code s h o

  after_loop-kept :
      (phase : HeaderPhase) (l : Loop) (h : Rpc api) → P h → P (after_loop api phase l h)
  unfolding after_loop
  after_loop-kept phase (fails code s) h o =
      closed.finishes (record { code = code; message = none }) (adopt api s h)
        (closed.quietly h _ (ground arith) o)
  after_loop-kept phase (next s) h o =
      let o' : P (adopt api s h) = closed.quietly h _ (ground arith) o in
      if-kept api P closed (lacks_required phase s)
        (closed.finishes (record { code = internal; message = none }) (adopt api s h) o')
        (conclude-kept phase s (adopt api s h) o')

  handle_headers-kept :
      (phase : HeaderPhase) (headers : Headers) (h : Rpc api)
      → P h
      → P (handle_headers api q phase headers h)
  unfolding handle_headers
  handle_headers-kept phase headers h o =
      branch-kept api P closed h.has_context
        (λ e.
          after_loop-kept phase
            (header_loop q h.filter_server_metadata phase headers (unseen api h)) h o)
        (λ e. closed.expires h e o)

  in_phase-kept :
      (phase : Option HeaderPhase) (headers : Headers) (h : Rpc api)
      → is_over h.state ≡ false
      → P h
      → P (in_phase api q phase headers h)
  unfolding in_phase
  in_phase-kept none headers h e o = o
  in_phase-kept (some phase) headers h e o =
      handle_headers-kept phase headers (record h { state = active }) (closed.activates h e o)

  pub headers_received-kept :
      (headers : Headers) (end_stream : Bool) (h : Rpc api)
      → P h
      → P (headers_received api q headers end_stream h)
  unfolding headers_received
  headers_received-kept headers end_stream h o = elim (Bool-cases (is_over h.state)) [
    | inl e ↦ rw e (closed.quietly h _ (ground arith) o)
    | inr e ↦ rw e (in_phase-kept (phase_of api h.state end_stream) headers h e o)
  ]
