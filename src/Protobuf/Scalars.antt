-- ===== src/Protobuf/Scalars.antt =====
-- The serializers and deserializers of scalars in src/protobuf/protobufscalarserializers_p.h:
-- unsigned, ZigZag, signed and fixed-width integers, and lists of them. A value of a type of `bits`
-- bits is its bit pattern. Where the code stores a result in a QVariant, the model returns it.
pub mod ZigZag
pub mod Fixed
pub mod Lists
pub mod Codecs
use qtgrpc.Prelude.{
  ℕ, zero, suc, ◌+◌, ◌-◌, ◌*◌, ◌/◌, ◌%◌, ◌^◌, bit_and, bit_xor, ◌==◌, ltb, leb, not, if◌then◌else◌,
  Bool, true, false, Option, none, some, List, [], ◌∷◌, ◌++◌, length,
}
use qtgrpc.Protobuf.Iterator.{Machine, SelfcheckIterator, is_valid, advance, bytes_left}
use qtgrpc.Protobuf.Varint.{serialize_varint_common, deserialize_varint_common}
use qtgrpc.Protobuf.LengthDelimited.{prepend_length_delimited_size}

-- `value >> (sizeof(UV) * 8 - 1)` on a signed type: all ones for a negative value.
unfoldable pub sign_mask : ℕ → ℕ → ℕ
sign_mask bits v = if ltb v (2 ^ (bits - 1)) then 0 else 2 ^ bits - 1

-- `(value << 1) ^ (value >> (sizeof(UV) * 8 - 1))`
unfoldable pub zig_zag : ℕ → ℕ → ℕ
unfolding sign_mask
zig_zag bits v = bit_xor (v * 2 % 2 ^ bits) (sign_mask bits v)

unfoldable pub serialize_zigzag : ℕ → ℕ → List ℕ
serialize_zigzag bits v = serialize_varint_common (zig_zag bits v)

-- `(unsignedValue >> 1) ^ (-1 * (unsignedValue & 1))`
unfoldable pub unzig_zag : ℕ → ℕ → ℕ
unzig_zag bits u = bit_xor (u / 2) ((2 ^ bits - 1) * bit_and u 1 % 2 ^ bits)

abbrev pub map_result : (ℕ → ℕ) → Option ℕ × SelfcheckIterator → Option ℕ × SelfcheckIterator
map_result f (none, i) = (none, i)
map_result f (some v, i) = (some (f v), i)

unfoldable pub deserialize_zigzag : Machine → ℕ → SelfcheckIterator → Option ℕ × SelfcheckIterator
deserialize_zigzag m bits i = map_result (unzig_zag bits) (deserialize_varint_common m bits i)

-- `static_cast<QtProtobuf::uint64>(value)` of a signed value.
unfoldable pub sign_extend : ℕ → ℕ → ℕ
sign_extend bits v = if ltb v (2 ^ (bits - 1)) then v else v + (2 ^ 64 - 2 ^ bits)

unfoldable pub serialize_signed : ℕ → ℕ → List ℕ
serialize_signed bits v = serialize_varint_common (sign_extend bits v)

unfoldable pub deserialize_signed : Machine → ℕ → SelfcheckIterator → Option ℕ × SelfcheckIterator
deserialize_signed m bits i = map_result (λ v. v % 2 ^ bits) (deserialize_varint_common m 64 i)

-- `qToLittleEndian`, for a type of `size` bytes.
unfoldable pub serialize_fixed : ℕ → ℕ → List ℕ
serialize_fixed zero v = []
serialize_fixed (suc size) v = v % 256 ∷ serialize_fixed size (v / 256)

-- `qFromLittleEndian` at an address.
unfoldable pub load_little_endian : Machine → ℕ → ℕ → ℕ
load_little_endian m zero a = 0
load_little_endian m (suc size) a = m.load a + 256 * load_little_endian m size (a + 1)

unfoldable pub deserialize_fixed : Machine → ℕ → SelfcheckIterator → Option ℕ × SelfcheckIterator
unfolding load_little_endian
deserialize_fixed m size i =
    if ltb (bytes_left i) size
    then (none, i)
    else (some (load_little_endian m size i.it), advance i size)

-- `serializeBasic<V>` and `deserializeBasic<V>` for one `V`.
pub record Codec : Type 0 where
  pub serialize_basic : ℕ → List ℕ
  pub deserialize_basic : SelfcheckIterator → Option ℕ × SelfcheckIterator

unfoldable pub unsigned : Machine → ℕ → Codec
unsigned m bits = record {
  serialize_basic = serialize_varint_common;
  deserialize_basic = deserialize_varint_common m bits;
}

unfoldable pub zigzag : Machine → ℕ → Codec
zigzag m bits = record {
  serialize_basic = serialize_zigzag bits;
  deserialize_basic = deserialize_zigzag m bits;
}

unfoldable pub signed : Machine → ℕ → Codec
signed m bits = record {
  serialize_basic = serialize_signed bits;
  deserialize_basic = deserialize_signed m bits;
}

unfoldable pub fixed : Machine → ℕ → Codec
fixed m size = record {
  serialize_basic = serialize_fixed size;
  deserialize_basic = deserialize_fixed m size;
}

module _ (codec : Codec) where
  open codec use {serialize_basic, deserialize_basic}

  unfoldable pub serialize_each : List ℕ → List ℕ
  serialize_each [] = []
  serialize_each (v ∷ vs) = serialize_basic v ++ serialize_each vs

  -- `serializeListType`
  unfoldable pub serialize_list_type : List ℕ → List ℕ
  unfolding serialize_each
  serialize_list_type [] = []
  serialize_list_type (v ∷ vs) = prepend_length_delimited_size (serialize_each (v ∷ vs))

  -- `serializeNonPackedList`
  unfoldable pub serialize_non_packed_list : List ℕ → List ℕ → List ℕ
  serialize_non_packed_list header [] = []
  serialize_non_packed_list header (v ∷ vs) =
      header ++ (serialize_basic v ++ serialize_non_packed_list header vs)

  -- The loop `while (it != lastVarint)`, and what one round makes of the rest.
  unfoldable pub append_rest :
      ℕ → Option (List ℕ) × SelfcheckIterator → Option (List ℕ) × SelfcheckIterator
  append_rest v (none, i) = (none, i)
  append_rest v (some vs, i) = (some (v ∷ vs), i)

  unfoldable pub then_read :
      Option ℕ × SelfcheckIterator
      → (SelfcheckIterator → Option (List ℕ) × SelfcheckIterator)
      → Option (List ℕ) × SelfcheckIterator
  unfolding append_rest
  then_read (none, i) next = (none, i)
  then_read (some v, i) next = append_rest v (next i)

  unfoldable pub list_turn :
      Bool
      → SelfcheckIterator
      → (SelfcheckIterator → Option (List ℕ) × SelfcheckIterator)
      → Option (List ℕ) × SelfcheckIterator
  unfolding then_read
  list_turn true i next = (some [], i)
  list_turn false i next = then_read (deserialize_basic i) next

  -- Each element takes a byte at least, so the fuel is not used up before the bytes are.
  unfoldable pub list_loop : ℕ → ℕ → SelfcheckIterator → Option (List ℕ) × SelfcheckIterator
  unfolding list_turn
  list_loop zero last i = (none, i)
  list_loop (suc fuel) last i = list_turn (i.it == last) i (list_loop fuel last)

  unfoldable pub read_elements : Option ℕ × SelfcheckIterator → Option (List ℕ) × SelfcheckIterator
  unfolding list_loop
  read_elements (none, i) = (none, i)
  read_elements (some count, i) =
      let last = advance i count in
      if ltb (2 ^ 63 - 1) count
      then (none, i)
      else if not (is_valid last)
      then (none, i)
      else list_loop (bytes_left i + 1) last.it i

  -- `deserializeList`
  unfoldable pub deserialize_list :
      Machine → SelfcheckIterator → Option (List ℕ) × SelfcheckIterator
  unfolding read_elements
  deserialize_list m i = read_elements (deserialize_varint_common m 64 i)

  -- `deserializeNonPackedList`: one more element.
  unfoldable pub append_last :
      List ℕ → Option ℕ × SelfcheckIterator → Bool × List ℕ × SelfcheckIterator
  append_last out (none, i) = (false, out, i)
  append_last out (some v, i) = (true, out ++ (v ∷ []), i)

  unfoldable pub deserialize_non_packed_list :
      List ℕ → SelfcheckIterator → Bool × List ℕ × SelfcheckIterator
  unfolding append_last
  deserialize_non_packed_list out i = append_last out (deserialize_basic i)
