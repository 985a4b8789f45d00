-- ===== src/Grpc/Channel.antt =====
-- What a channel of src/grpc/qgrpchttp2channel.cpp derives from its URI and its options: the sanitized
-- URI, the kind of socket, and the headers of a request. QUrl is a parameter. Warnings are not
-- modelled.
pub mod Uri
pub mod Metadata
pub mod ContentType
use qtgrpc.Prelude.{
  ℕ, ◌==◌, if◌then◌else◌, Bool, true, false, Option, none, some, List, [], ◌∷◌, ◌++◌, ◌&&◌, ◌||◌,
  not,
}
use qtgrpc.Prelude.Ascii.{ascii, same_bytes, starts_with}
use qtgrpc.Grpc.Handler.{Bytes, Headers, CompressionAlgorithm, identity, deflate, gzip}

-- What the channel asks of QUrl. A port that is not set, -1 in the code, is `none`.
pub record Urls : Type 1 where
  pub Url : Type 0
  pub scheme : Url → Bytes
  pub port : Url → Option ℕ
  pub set_scheme : Url → Bytes → Url
  pub set_port : Url → ℕ → Url

pub data SocketType : Type 0 where
  tcp tls local local_abstract : SocketType

abbrev pub unix_scheme : Bytes
unix_scheme = ascii "unix"

abbrev pub unix_abstract_scheme : Bytes
unix_abstract_scheme = ascii "unix-abstract"

abbrev pub http_scheme : Bytes
http_scheme = ascii "http"

abbrev pub https_scheme : Bytes
https_scheme = ascii "https"

module _ (q : Urls) where
  open q use {Url, scheme, port, set_scheme, set_port}

  -- The lambda `check`.
  unfoldable pub check_scheme : Bytes → Url → Url
  check_scheme expected raw =
      if same_bytes (scheme raw) expected then raw else set_scheme raw expected

  unfoldable pub default_port : Option ℕ → ℕ → Url → Url
  default_port none n u = set_port u n
  default_port (some p) n u = u

  -- `has_ssl` is `hasSslConfiguration(chOpts)`.
  unfoldable pub sanitize_host_uri : Bool → Url → Url
  unfolding default_port
  sanitize_host_uri has_ssl raw =
      if same_bytes (scheme raw) unix_scheme || same_bytes (scheme raw) unix_abstract_scheme
      then raw
      else if same_bytes (scheme raw) https_scheme || has_ssl
      then default_port (port raw) 443 (check_scheme https_scheme raw)
      else default_port (port raw) 80 (check_scheme http_scheme raw)

  unfoldable pub construct_socket_type : Bool → Url → SocketType
  construct_socket_type has_ssl raw =
      if same_bytes (scheme raw) unix_scheme
      then local
      else if same_bytes (scheme raw) unix_abstract_scheme
      then local_abstract
      else if same_bytes (scheme raw) https_scheme || has_ssl
      then tls
      else tcp

unfoldable pub construct_scheme_header : SocketType → Bytes
construct_scheme_header tls = ascii "https"
construct_scheme_header _ = ascii "http"

-- Which algorithms the flags hold.
unfoldable pub construct_accept_encoding : Bool → Bool → Bytes
construct_accept_encoding has_deflate has_gzip =
    ascii "identity"
    ++ ((if has_deflate then ascii ",deflate" else []) ++ (if has_gzip then ascii ",gzip" else []))

-- `constructFilterServerMetadata`
unfoldable pub construct_filter_server_metadata : Option Bool → Option Bool → Bool
construct_filter_server_metadata (some call) channel = call
construct_filter_server_metadata none (some channel) = channel
construct_filter_server_metadata none none = true

-- `constructRequestEncoding`
unfoldable pub construct_request_encoding :
    Option CompressionAlgorithm → Option CompressionAlgorithm → CompressionAlgorithm
construct_request_encoding (some call) channel = call
construct_request_encoding none (some channel) = channel
construct_request_encoding none none = identity

request_encoding_name : CompressionAlgorithm → Bytes
request_encoding_name gzip = ascii "gzip"
request_encoding_name _ = ascii "deflate"

-- The headers that the transport manages, by a key in lower case.
unfoldable pub is_reserved : Bytes → Bool
is_reserved key =
    starts_with key (ascii ":")
    || starts_with key (ascii "grpc-")
    || starts_with key (ascii "qtgrpc-")
    || same_bytes key (ascii "content-type")
    || same_bytes key (ascii "te")
    || same_bytes key (ascii "user-agent")

-- The lambda `iterateMetadata`, with `toLower` of QByteArray.
unfoldable pub iterate_metadata : (Bytes → Bytes) → Headers → Headers
iterate_metadata to_lower [] = []
iterate_metadata to_lower ((key, value) ∷ metadata) =
    let rest = iterate_metadata to_lower metadata in
    if is_reserved (to_lower key) then rest else (to_lower key, value) ∷ rest

-- What the headers are made of.
pub record Request : Type 0 where
  pub authority_header : Bytes
  pub scheme_header : Bytes
  pub content_type : Bytes
  pub accept_encoding : Bytes
  pub user_agent : Bytes
  pub service : Bytes
  pub method : Bytes
  pub request_encoding : CompressionAlgorithm
  pub channel_metadata : Headers
  pub call_metadata : Headers

encoding_header : CompressionAlgorithm → Headers
unfolding request_encoding_name
encoding_header identity = []
encoding_header algorithm = (ascii "grpc-encoding", request_encoding_name algorithm) ∷ []

-- The headers of the transport's own.
unfoldable pub own_headers : Request → Headers
unfolding encoding_header
own_headers r =
    ((ascii ":authority", r.authority_header)
      ∷ (ascii ":method", ascii "POST")
      ∷ (ascii ":path", ascii "/" ++ (r.service ++ (ascii "/" ++ r.method)))
      ∷ (ascii ":scheme", r.scheme_header)
      ∷ (ascii "content-type", r.content_type)
      ∷ (ascii "service-name", r.service)
      ∷ (ascii "grpc-accept-encoding", r.accept_encoding)
      ∷ (ascii "user-agent", r.user_agent)
      ∷ (ascii "te", ascii "trailers")
      ∷ [])
    ++ encoding_header r.request_encoding

unfoldable pub construct_initial_headers : (Bytes → Bytes) → Request → Headers
construct_initial_headers to_lower r =
    own_headers r
    ++ (iterate_metadata to_lower r.channel_metadata ++ iterate_metadata to_lower r.call_metadata)
