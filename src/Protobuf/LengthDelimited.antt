-- ===== src/Protobuf/LengthDelimited.antt =====
-- `prependLengthDelimitedSize` and `deserializeLengthDelimited` of
-- src/protobuf/protobufscalarserializers_p.cpp: bytes with their length in front.
use qtgrpc.Prelude.{
  ℕ, ◌+◌, ◌^◌, ◌≤◌, ◌<◌, ◌≡◌, refl, arith, leb, ◌==◌, ◌&&◌, if◌then◌else◌, Option, none, some,
  false, length-append, List, [], ◌∷◌, ◌++◌, length,
}
use qtgrpc.Protobuf.Iterator.{
  Machine, SelfcheckIterator, is_valid, advance, bytes_left, IsContainer, IsInside, Holds,
  Holds-append,
}
use qtgrpc.Protobuf.Varint.{serialize_varint_common, deserialize_varint_common}
use qtgrpc.Protobuf.Varint.Encode.{serialize_varint_common_shape}
use qtgrpc.Protobuf.Varint.RoundTrip.{deserialize-serialize_varint_common}
use qtgrpc.Protobuf.Deserializer.{view_bytes}

unfoldable pub prepend_length_delimited_size : List ℕ → List ℕ
prepend_length_delimited_size bytes = serialize_varint_common (length bytes) ++ bytes

take_view : Machine → Option ℕ × SelfcheckIterator → Option (List ℕ) × SelfcheckIterator
take_view m (none, i) = (none, i)
take_view m (some n, i) =
    if is_valid i && leb n (bytes_left i) && leb n m.max_size
    then (some (view_bytes m i.it n), advance i n)
    else (none, i)

unfoldable pub deserialize_length_delimited :
    Machine → SelfcheckIterator → Option (List ℕ) × SelfcheckIterator
unfolding take_view
deserialize_length_delimited m i =
    if bytes_left i == 0 then (none, i) else take_view m (deserialize_varint_common m 64 i)

view_bytes-Holds :
    (m : Machine) (a : ℕ) (bytes : List ℕ) → Holds m a bytes → view_bytes m a (length bytes) ≡ bytes
unfolding view_bytes
view_bytes-Holds m a [] h = refl
view_bytes-Holds m a (b ∷ bytes) (e, h) = rw (e, view_bytes-Holds m (a + 1) bytes h) refl

take_view_lem :
    (m : Machine) (i : SelfcheckIterator) (bytes : List ℕ)
    → IsContainer i
    → IsInside i
    → Holds m i.it bytes
    → length bytes ≤ bytes_left i
    → length bytes ≤ m.max_size
    → take_view m (some (length bytes), i) ≡ (some bytes, record i { it = i.it + length bytes })
unfolding take_view is_valid advance bytes_left
take_view_lem m i bytes c s holds room small =
    rw (view_bytes-Holds m i.it bytes holds) (ground arith)

-- What the container has room for is below the number of addresses.
at_end :
    (m : Machine) (i : SelfcheckIterator) (bytes : List ℕ)
    → IsContainer i
    → IsInside i
    → length (serialize_varint_common (length bytes) ++ bytes) ≤ bytes_left i
    → length bytes < 2 ^ 64
unfolding bytes_left
at_end m i bytes c s room =
    ground (arith, length-append (serialize_varint_common (length bytes)) bytes)

-- The bytes behind a length of `n` bytes.
behind :
    (m : Machine) (i : SelfcheckIterator) (bytes : List ℕ) (n : ℕ)
    → IsContainer i
    → IsInside i
    → Holds m (i.it + n) bytes
    → n + length bytes ≤ bytes_left i
    → length bytes ≤ m.max_size
    → take_view m (some (length bytes), record i { it = i.it + n })
      ≡ (some bytes, record i { it = i.it + (n + length bytes) })
unfolding bytes_left
behind m i bytes n c s holds room small =
    let j : SelfcheckIterator = record i { it = i.it + n } in
    let cj : IsContainer j = ground arith in
    let sj : IsInside j = ground arith in
    let e = take_view_lem m j bytes cj sj holds (ground arith) small in ground arith

-- Where the container holds bytes with their length in front, and they are not above the largest size
-- of a QByteArray, the reader returns the bytes and stops behind them.
pub deserialize-prepend_length_delimited_size :
    (m : Machine) (i : SelfcheckIterator) (bytes : List ℕ)
    → IsContainer i
    → IsInside i
    → length bytes ≤ m.max_size
    → Holds m i.it (prepend_length_delimited_size bytes)
    → length (prepend_length_delimited_size bytes) ≤ bytes_left i
    → deserialize_length_delimited m i
      ≡ (some bytes, record i { it = i.it + length (prepend_length_delimited_size bytes) })
unfolding deserialize_length_delimited prepend_length_delimited_size
deserialize-prepend_length_delimited_size m i bytes c s small holds room =
    let size = serialize_varint_common (length bytes) in
    let shape = serialize_varint_common_shape (length bytes) (at_end m i bytes c s room) in
    let e = length-append size bytes in
    let (first, rest) = Holds-append m i.it size bytes holds in
    let read =
      deserialize-serialize_varint_common m 64 i (length bytes) c (omega arith)
        (at_end m i bytes c s room) first (omega arith) in
    let some_left : (bytes_left i == 0) ≡ false = ground arith in
    rw (some_left, read, e) (behind m i bytes (length size) c s rest (omega arith) small)
