-- ===== src/Protobuf/Header.antt =====
-- `encodeHeader` and `decodeHeader` of src/protobuf/qprotobufserializer.cpp: the field number and
-- the wire type in front of each field.
pub mod RoundTrip
use qtgrpc.Prelude.{
  ℕ, ◌-◌, ◌*◌, ◌/◌, ◌%◌, ◌^◌, bit_and, bit_or, ltb, leb, ◌==◌, ◌&&◌, if◌then◌else◌, Bool, true,
  false, Option, none, some, List,
}
use qtgrpc.Protobuf.Iterator.{Machine, SelfcheckIterator, bytes_left}
use qtgrpc.Protobuf.Varint.{serialize_varint_common, deserialize_varint_common}

-- `QtProtobuf::WireTypes`. `other` stands for the values that the cast of three bits can give and
-- the enumeration does not name.
pub data WireTypes : Type 0 where
  unknown varint fixed64 length_delimited start_group end_group fixed32 : WireTypes
  other : ℕ → WireTypes

-- `static_cast<QtProtobuf::WireTypes>(bits)`
unfoldable pub to_wire_type : ℕ → WireTypes
to_wire_type bits =
    if bits == 0
    then varint
    else if bits == 1
    then fixed64
    else if bits == 2
    then length_delimited
    else if bits == 3
    then start_group
    else if bits == 4
    then end_group
    else if bits == 5
    then fixed32
    else other bits

-- `uint32_t(wireType)`
unfoldable pub of_wire_type : WireTypes → ℕ
of_wire_type unknown = 2 ^ 32 - 1
of_wire_type varint = 0
of_wire_type fixed64 = 1
of_wire_type length_delimited = 2
of_wire_type start_group = 3
of_wire_type end_group = 4
of_wire_type fixed32 = 5
of_wire_type (other bits) = bits % 2 ^ 32

-- The wire types that a header may carry.
unfoldable pub is_supported : WireTypes → Bool
is_supported varint = true
is_supported fixed64 = true
is_supported fixed32 = true
is_supported length_delimited = true
is_supported _ = false

unfoldable pub encode_header : ℕ → WireTypes → List ℕ
unfolding of_wire_type
encode_header field_number wire_type =
    serialize_varint_common (bit_or (field_number * 8 % 2 ^ 32) (of_wire_type wire_type))

-- What `decodeHeader` returns and writes to its reference arguments. The last two are written only
-- when the varint could be read.
pub record Header : Type 0 where
  pub valid : Bool
  pub it : SelfcheckIterator
  pub field_index : ℕ
  pub wire_type : WireTypes

check_header : Header → Option ℕ × SelfcheckIterator → Header
unfolding to_wire_type is_supported
check_header unread (none, i) = record unread { it = i }
check_header unread (some header, i) =
    let decoded = to_wire_type (bit_and header 0b111) in
    let index = header / 8 in
    record {
      valid = leb index (2 ^ 29 - 1) && ltb 0 index && is_supported decoded;
      it = i;
      field_index = index;
      wire_type = decoded;
    }

-- `wire_type` is the old `m_wireType`; the old field number is InvalidFieldNumber, which is 0.
abbrev pub unread_header : SelfcheckIterator → WireTypes → Header
unread_header i wire_type = record { valid = false; it = i; field_index = 0; wire_type = wire_type }

unfoldable pub decode_header : Machine → SelfcheckIterator → WireTypes → Header
unfolding check_header
decode_header m i wire_type =
    if bytes_left i == 0
    then unread_header i wire_type
    else check_header (unread_header i wire_type) (deserialize_varint_common m 32 i)
