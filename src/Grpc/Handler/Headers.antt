-- ===== src/Grpc/Handler/Headers.antt =====
-- `Http2Handler::handleHeaders` and the slot of `QHttp2Stream::headersReceived` in
-- src/grpc/qgrpchttp2channel.cpp. Warnings are not modelled.
use qtgrpc.Prelude.{
  ℕ, ◌==◌, if◌then◌else◌, Bool, true, false, not, Option, none, some, [], ◌∷◌, ◌++◌, ◌&&◌, ◌||◌,
}
use qtgrpc.Prelude.Ascii.{ascii, same_bytes, starts_with}
use qtgrpc.Grpc.Status.{StatusCode, internal, unknown, to_status_code, http2_status_to_status_code}
use qtgrpc.Grpc.Handler.{
  Bytes, Headers, Http2Stream, initial_metadata, trailing_metadata, CompressionAlgorithm, identity,
  deflate, gzip, State, request_headers_sent, active, Rpc, emit, finish, expire, is_over,
}

-- What the code asks of QByteArray and QDecompressHelper: `toInt`, `toShort` (none for a failure and
-- for a negative number), `toLower`, `setEncoding`; and which encodings the channel accepts.
pub record Services : Type 0 where
  pub to_int : Bytes → ℕ
  pub to_short : Bytes → Option ℕ
  pub to_lower : Bytes → Bytes
  pub set_encoding : CompressionAlgorithm → Bool
  pub accepts : CompressionAlgorithm → Bool

pub data HeaderPhase : Type 0 where
  initial trailers trailers_only : HeaderPhase

pub data Kind : Type 0 where
  http_status content_type grpc_status grpc_message grpc_details grpc_encoding ignored custom : Kind

abbrev pub requires_http_status : HeaderPhase → Bool
requires_http_status trailers = false
requires_http_status _ = true

abbrev pub requires_grpc_status : HeaderPhase → Bool
requires_grpc_status initial = false
requires_grpc_status _ = true

abbrev pub is_initial : HeaderPhase → Bool
is_initial initial = true
is_initial _ = false

-- The tests of the loop's `if` chain, in order. `ignored` are the headers that are only warned of.
unfoldable pub classify : HeaderPhase → Bytes → Kind
unfolding same_bytes starts_with
classify phase k =
    if requires_http_status phase && same_bytes k (ascii ":status")
    then http_status
    else if requires_http_status phase && same_bytes k (ascii "content-type")
    then content_type
    else if requires_grpc_status phase && same_bytes k (ascii "grpc-status")
    then grpc_status
    else if requires_grpc_status phase && same_bytes k (ascii "grpc-message")
    then grpc_message
    else if requires_grpc_status phase && same_bytes k (ascii "grpc-status-details-bin")
    then grpc_details
    else if is_initial phase && same_bytes k (ascii "grpc-encoding")
    then grpc_encoding
    else if is_initial phase && same_bytes k (ascii "grpc-accept-encoding")
    then ignored
    else if starts_with k (ascii ":") || starts_with k (ascii "grpc-")
    then ignored
    else custom

-- The local variables of the loop, and the handler's fields that it changes.
pub record Seen : Type 0 where
  pub has_http_status : Bool
  pub has_content_type : Bool
  pub status_code : Option StatusCode
  pub status_message : Option Bytes
  pub metadata : Headers
  pub negotiated_encoding : Option CompressionAlgorithm
  pub has_decompressor : Bool

-- A header leaves the loop going, or finishes the call.
pub data Loop : Type 0 where
  next : Seen → Loop
  fails : StatusCode → Seen → Loop

-- `isAcceptedEncoding`, with the encoding's name read.
unfoldable pub accepted_encoding : Services → Bytes → Option CompressionAlgorithm
accepted_encoding q v =
    if same_bytes v (ascii "identity")
    then some identity
    else if same_bytes v (ascii "gzip")
    then (if q.accepts gzip then some gzip else none)
    else if same_bytes v (ascii "deflate")
    then (if q.accepts deflate then some deflate else none)
    else none

negotiate : Services → Option CompressionAlgorithm → Seen → Loop
negotiate q none s = fails internal s
negotiate q (some identity) s = next (record s { negotiated_encoding = none })
negotiate q (some algorithm) s =
    if q.set_encoding algorithm
    then next (record s { negotiated_encoding = some algorithm; has_decompressor = true })
    else fails internal (record s { has_decompressor = true })

-- Accepts what `parsed > StatusCodeCount` lets through.
read_status : Option StatusCode → Seen → Loop
read_status none s = fails unknown s
read_status (some code) s = next (record s { status_code = some code })

parse_status : Option ℕ → Option StatusCode
parse_status none = none
parse_status (some n) = to_status_code n

keep : Bool → Bytes → Bytes → Loop → Loop
keep filter k v (fails code s) = fails code s
keep true k v (next s) = next s
keep false k v (next s) = next (record s { metadata = s.metadata ++ ((k, v) ∷ []) })

-- The body of the loop, for a header of each kind. All but a custom one are kept as metadata only if
-- the filter is off.
unfoldable pub on_header : Services → Bool → Kind → Bytes → Bytes → Seen → Loop
unfolding negotiate read_status parse_status keep
on_header q filter http_status k v s =
    if q.to_int v == 200
    then keep filter k v (next (record s { has_http_status = true }))
    else fails (http2_status_to_status_code (q.to_int v)) s
on_header q filter content_type k v s =
    if starts_with (q.to_lower v) (ascii "application/grpc")
    then keep filter k v (next (record s { has_content_type = true }))
    else fails internal s
on_header q filter grpc_status k v s = keep filter k v (read_status (parse_status (q.to_short v)) s)
on_header q filter grpc_message k v s =
    keep filter k v (next (record s { status_message = some v }))
on_header q filter grpc_details k v s = keep filter k v (next s)
on_header q filter grpc_encoding k v s = keep filter k v (negotiate q (accepted_encoding q v) s)
on_header q filter ignored k v s = keep filter k v (next s)
on_header q filter custom k v s = keep false k v (next s)

then_loop : (Seen → Loop) → Loop → Loop
then_loop f (next s) = f s
then_loop f (fails code s) = fails code s

unfoldable pub header_loop : Services → Bool → HeaderPhase → Headers → Seen → Loop
unfolding then_loop
header_loop q filter phase [] s = next s
header_loop q filter phase ((k, v) ∷ headers) s =
    then_loop (header_loop q filter phase headers) (on_header q filter (classify phase k) k v s)

-- The checks behind the loop: a header that the phase requires is missing.
unfoldable pub lacks_required : HeaderPhase → Seen → Bool
lacks_required phase s =
    requires_http_status phase && not s.has_http_status
    || requires_http_status phase && not s.has_content_type
    || requires_grpc_status phase && elim s.status_code [ none ↦ true | some code ↦ false ]

module _ (api : Http2Stream) where
  abbrev pub unseen : Rpc api → Seen
  unseen h = record {
    has_http_status = false;
    has_content_type = false;
    status_code = none;
    status_message = none;
    metadata = [];
    negotiated_encoding = h.negotiated_encoding;
    has_decompressor = h.has_decompressor;
  }

  abbrev pub adopt : Seen → Rpc api → Rpc api
  adopt s h = record h {
    negotiated_encoding = s.negotiated_encoding;
    has_decompressor = s.has_decompressor;
  }

  abbrev pub fail : StatusCode → Rpc api → Rpc api
  fail code h = finish api (record { code = code; message = none }) h

  unfoldable pub finish_trailers : Option StatusCode → Seen → Rpc api → Rpc api
  finish_trailers none s h = h
  finish_trailers (some code) s h =
      finish api (record { code = code; message = s.status_message })
        (emit api (trailing_metadata s.metadata) h)

  -- The `switch` at the end.
  unfoldable pub conclude : HeaderPhase → Seen → Rpc api → Rpc api
  unfolding finish_trailers
  conclude initial s h = emit api (initial_metadata s.metadata) h
  conclude _ s h = finish_trailers s.status_code s h

  unfoldable pub after_loop : HeaderPhase → Loop → Rpc api → Rpc api
  unfolding conclude
  after_loop phase (fails code s) h = fail code (adopt s h)
  after_loop phase (next s) h =
      if lacks_required phase s then fail internal (adopt s h) else conclude phase s (adopt s h)

  unfoldable pub handle_headers : Services → HeaderPhase → Headers → Rpc api → Rpc api
  unfolding after_loop
  handle_headers q phase headers h =
      if h.has_context
      then after_loop phase (header_loop q h.filter_server_metadata phase headers (unseen h)) h
      else expire api h

  -- The phase that the slot picks; none is HeaderPhase::Invalid.
  unfoldable pub phase_of : State → Bool → Option HeaderPhase
  phase_of request_headers_sent true = some trailers_only
  phase_of request_headers_sent false = some initial
  phase_of active true = some trailers
  phase_of _ _ = none

  unfoldable pub in_phase : Services → Option HeaderPhase → Headers → Rpc api → Rpc api
  in_phase q none headers h = h
  in_phase q (some phase) headers h = handle_headers q phase headers (record h { state = active })

  unfoldable pub headers_received : Services → Headers → Bool → Rpc api → Rpc api
  unfolding in_phase
  headers_received q headers end_stream h =
      if is_over h.state
      then record h { delete_later = true }
      else in_phase q (phase_of h.state end_stream) headers h
