-- ===== src/Protobuf/Header/RoundTrip.antt =====
-- `decodeHeader` reads back what `encodeHeader` wrote.
use qtgrpc.Prelude.{
  ℕ, ◌+◌, ◌*◌, ◌/◌, ◌%◌, ◌^◌, ◌≤◌, ◌<◌, ◌≡◌, ◌≢◌, refl, ap, ◌∙◌, arith, true, some, length, bit_and,
}
use qtgrpc.Prelude.Bits.{bit_and_mask_seven, bit_or_three}
use qtgrpc.Protobuf.Iterator.{Machine, SelfcheckIterator, bytes_left, IsContainer, Holds}
use qtgrpc.Protobuf.Varint.{serialize_varint_common}
use qtgrpc.Protobuf.Varint.Encode.{serialize_varint_common_shape}
use qtgrpc.Protobuf.Varint.RoundTrip.{deserialize-serialize_varint_common}
use qtgrpc.Protobuf.Header.{
  WireTypes, varint, fixed64, length_delimited, fixed32, to_wire_type, of_wire_type, is_supported,
  encode_header, Header, check_header, unread_header, decode_header,
}

to_wire_type-of_wire_type :
    (w : WireTypes)
    → is_supported w ≡ true
    → (to_wire_type (of_wire_type w) ≡ w) × (of_wire_type w < 8)
unfolding to_wire_type of_wire_type is_supported
to_wire_type-of_wire_type varint h = (refl, omega arith)
to_wire_type-of_wire_type fixed64 h = (refl, omega arith)
to_wire_type-of_wire_type length_delimited h = (refl, omega arith)
to_wire_type-of_wire_type fixed32 h = (refl, omega arith)
to_wire_type-of_wire_type _ h = cc

-- The number behind a header: the field number above the three bits of the wire type.
abbrev pub header_of : ℕ → WireTypes → ℕ
header_of f w = f * 8 + of_wire_type w

pub encode_header_lem :
    (f : ℕ) (w : WireTypes)
    → f < 2 ^ 29
    → is_supported w ≡ true
    → encode_header f w ≡ serialize_varint_common (header_of f w)
unfolding encode_header
encode_header_lem f w h s =
    let p = to_wire_type-of_wire_type w s in
    let e : f * 8 % 2 ^ 32 ≡ f * 8 = omega arith in
    rw e (ap serialize_varint_common (bit_or_three f (of_wire_type w) p.1))

header_parts :
    (f : ℕ) (w : WireTypes)
    → is_supported w ≡ true
    → (bit_and (header_of f w) 7 ≡ of_wire_type w) × (header_of f w / 8 ≡ f)
header_parts f w s =
    let p = to_wire_type-of_wire_type w s in
    (bit_and_mask_seven (header_of f w) ∙ omega arith, omega arith)

check_header_lem :
    (u : Header) (j : SelfcheckIterator) (f : ℕ) (w : WireTypes)
    → 0 < f
    → f < 2 ^ 29
    → is_supported w ≡ true
    → check_header u (some (header_of f w), j)
      ≡ record { valid = true; it = j; field_index = f; wire_type = w }
unfolding check_header
check_header_lem u j f w lo hi s =
    let q = header_parts f w s in rw (q.0, q.1, (to_wire_type-of_wire_type w s).0, s) (ground arith)

abbrev behind : SelfcheckIterator → ℕ → SelfcheckIterator
behind i header = record i { it = i.it + length (serialize_varint_common header) }

-- Where the container holds the encoded header from the iterator on, a field number in range and a
-- supported wire type are read back, and the iterator stops behind the header.
pub decode-encode_header :
    (m : Machine) (i : SelfcheckIterator) (f : ℕ) (w before : WireTypes)
    → IsContainer i
    → 0 < f
    → f < 2 ^ 29
    → is_supported w ≡ true
    → Holds m i.it (encode_header f w)
    → length (encode_header f w) ≤ bytes_left i
    → decode_header m i before ≡ record {
      valid = true;
      it = record i { it = i.it + length (encode_header f w) };
      field_index = f;
      wire_type = w;
    }
unfolding decode_header
decode-encode_header m i f w before c lo hi s holds room =
    let e = encode_header_lem f w hi s in
    let p = to_wire_type-of_wire_type w s in
    let q = header_parts f w s in
    let read =
      deserialize-serialize_varint_common m 32 i (header_of f w) c (omega arith) (omega arith)
        (rw e at holds) (rw e at room) in
    let shape = serialize_varint_common_shape (header_of f w) (omega arith) in
    let left : bytes_left i ≢ 0 = omega (arith, ap length e) in
    rw e (
      ground (
        arith,
        read,
        check_header_lem (unread_header i before) (behind i (header_of f w)) f w lo hi s,
      ))
