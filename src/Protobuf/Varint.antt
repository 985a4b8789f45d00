-- ===== src/Protobuf/Varint.antt =====
-- `serializeVarintCommon` and `deserializeVarintCommon` of
-- src/protobuf/protobufscalarserializers_p.h and .cpp. A quint64 is a number below 2 ^ 64.
pub mod Encode
pub mod Decode
pub mod RoundTrip
use qtgrpc.Prelude.{
  ℕ, zero, suc, ◌+◌, ◌*◌, ◌/◌, ◌%◌, ◌^◌, bit_and, bit_or, ◌==◌, ltb, if◌then◌else◌, Option, none,
  some, List, [], ◌∷◌,
}
use qtgrpc.Protobuf.Iterator.{Machine, SelfcheckIterator, increment, bytes_left}

-- The loop `while (value != 0)`: ten rounds of seven bits are enough for 64 bits.
unfoldable pub varint_groups : ℕ → ℕ → List ℕ
varint_groups zero value = []
varint_groups (suc rounds) value =
    let rest = varint_groups rounds (value / 128) in
    if value == 0 then [] else bit_or (bit_and value 0x7f) 0x80 ∷ rest

-- `result.back() &= ~0b10000000`
unfoldable pub clear_back : List ℕ → List ℕ
clear_back [] = []
clear_back (b ∷ []) = bit_and b 0x7f ∷ []
clear_back (b ∷ c ∷ rest) = b ∷ clear_back (c ∷ rest)

unfoldable pub serialize_varint_common : ℕ → List ℕ
unfolding varint_groups clear_back
serialize_varint_common value = if value == 0 then 0 ∷ [] else clear_back (varint_groups 10 value)

-- `byte << k` on a quint64.
unfoldable pub shift_left : Machine → ℕ → ℕ → ℕ
shift_left m byte k = if ltb k 64 then byte * 2 ^ k % 2 ^ 64 else m.wide_shift byte k

-- `value += byte << k` for the low seven bits of a byte.
unfoldable pub accumulate : Machine → ℕ → ℕ → ℕ → ℕ
unfolding shift_left
accumulate m byte value k = (value + shift_left m (bit_and byte 0x7f) k) % 2 ^ 64

-- The loop `while (true)`. The iterator is a reference, so it comes back on failure too.
unfoldable pub varint_loop : Machine → ℕ → SelfcheckIterator → ℕ → ℕ → Option ℕ × SelfcheckIterator
varint_loop m zero i value k = (none, i)
varint_loop m (suc fuel) i value k =
    let value' = accumulate m (m.load i.it) value k in
    let rest = varint_loop m fuel (increment i) value' (k + 7) in
    if bytes_left i == 0
    then (none, i)
    else if bit_and (m.load i.it) 0x80 == 0
    then (some value', increment i)
    else rest

abbrev pub cast_to : ℕ → Option ℕ × SelfcheckIterator → Option ℕ × SelfcheckIterator
cast_to bits (none, i) = (none, i)
cast_to bits (some value, i) = (some (value % 2 ^ bits), i)

-- `V` is the unsigned type of `bits` bits. Each round but the last takes a byte, so the fuel is
-- never used up (`Decode.varint_loop_fuel`).
unfoldable pub deserialize_varint_common :
    Machine → ℕ → SelfcheckIterator → Option ℕ × SelfcheckIterator
deserialize_varint_common m bits i = cast_to bits (varint_loop m (bytes_left i + 1) i 0 0)
