-- ===== src/Grpc/DataParser.antt =====
-- `GrpcDataParser` of src/grpc/qgrpchttp2channel.cpp: length-prefixed messages in a byte stream, and
-- the prefix that `Http2Handler::writeMessage` puts in front of a message.
pub mod Framing
use qtgrpc.Prelude.{
  ℕ, ◌+◌, ◌*◌, ◌/◌, ◌%◌, ◌^◌, ltb, ◌==◌, not, if◌then◌else◌, Bool, true, false, List, [], ◌∷◌, ◌++◌,
  length, take, drop, get_or,
}

-- GrpcMessageSizeHeaderSize
abbrev pub message_size_header_size : ℕ
message_size_header_size = 5

pub record Frame : Type 0 where
  pub payload : List ℕ
  pub is_compressed : Bool

-- `q23::expected<Frame, ParseError>`
pub data Parsed : Type 0 where
  frame : Frame → Parsed
  need_more_data : Parsed
  oversize : ℕ → Parsed

pub record GrpcDataParser : Type 0 where
  pub max_receive_size : ℕ
  pub container : List ℕ

-- `qFromBigEndian<quint32>` of the four bytes behind the flag.
unfoldable pub message_length : List ℕ → ℕ
message_length bytes =
    ((get_or bytes 1 0 * 256 + get_or bytes 2 0) * 256 + get_or bytes 3 0) * 256 + get_or bytes 4 0

unfoldable pub parse_next_frame : GrpcDataParser → Parsed × GrpcDataParser
parse_next_frame p =
    let size = message_length p.container in
    let frame_size = message_size_header_size + size in
    if ltb (length p.container) message_size_header_size
    then (need_more_data, p)
    else if ltb p.max_receive_size size
    then (oversize size, record p { container = [] })
    else if ltb (length p.container) frame_size
    then (need_more_data, p)
    else (
      frame (record {
        payload = take size (drop message_size_header_size p.container);
        is_compressed = not (get_or p.container 0 0 == 0);
      }),
      record p { container = drop frame_size p.container },
    )

unfoldable pub feed : GrpcDataParser → List ℕ → GrpcDataParser
feed p bytes = record p { container = p.container ++ bytes }

unfoldable pub bytes_available : GrpcDataParser → ℕ
bytes_available p = length p.container

-- `qToBigEndian(static_cast<quint32>(payloadSize), msg.data() + 1)` behind the flag byte.
unfoldable pub frame_message : ℕ → List ℕ → List ℕ
frame_message compressed_flag payload =
    let size = length payload % 2 ^ 32 in
    compressed_flag
    ∷ (size / 2 ^ 24)
    ∷ (size / 2 ^ 16 % 256)
    ∷ (size / 2 ^ 8 % 256)
    ∷ (size % 256)
    ∷ payload
