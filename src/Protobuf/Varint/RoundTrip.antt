-- ===== src/Protobuf/Varint/RoundTrip.antt =====
-- `deserializeVarintCommon` reads back what `serializeVarintCommon` wrote.
use native.Mathlib.Decide.{dec_lt}
use native.Mathlib.Nat.{div-add-mod, mod-eq_of_lt, pow-succ', pow-le-pow_right}
use qtgrpc.Prelude.{
  ℕ, zero, suc, ◌+◌, ◌*◌, ◌/◌, ◌%◌, ◌^◌, ◌≤◌, ◌<◌, ◌≡◌, ◌≢◌, refl, ap, ◌∙◌, arith, some, length,
}
use qtgrpc.Prelude.Bits.{bit_and_mask_group, bit_and_top, pow_seven, pow-lt_width}
use qtgrpc.Protobuf.Iterator.{
  Machine, SelfcheckIterator, bytes_left, IsContainer, increment-IsInside, Holds,
}
use qtgrpc.Protobuf.Varint.{
  shift_left, accumulate, varint_loop, cast_to, serialize_varint_common, deserialize_varint_common,
}
use qtgrpc.Protobuf.Varint.Encode.{base128, serialize_varint_common-base128}

-- A group that fits the word at its place is added as it is.
accumulate_fits :
    (m : Machine) (byte g value k : ℕ)
    → byte % 128 ≡ g
    → k < 64
    → value + g * 2 ^ k < 2 ^ 64
    → accumulate m byte value k ≡ value + g * 2 ^ k
unfolding accumulate shift_left
accumulate_fits m byte g value k e h fits = rw (bit_and_mask_group byte, e) (ground arith)

bytes_left_next :
    (i : SelfcheckIterator)
    → IsContainer i
    → bytes_left i ≢ 0
    → bytes_left (record i { it = i.it + 1 }) + 1 ≡ bytes_left i
unfolding bytes_left
bytes_left_next i c h = ground arith

module _ (m : Machine) (fuel : ℕ) (i : SelfcheckIterator) (value k : ℕ) (c : IsContainer i) where
  last_byte :
      (b : ℕ)
      → bytes_left i ≢ 0
      → m.load i.it ≡ b
      → b < 128
      → varint_loop m (suc fuel) i value k
        ≡ (some (accumulate m b value k), record i { it = i.it + 1 })
  unfolding varint_loop
  last_byte b h e small = ground (arith, increment-IsInside i c, bit_and_top b)

  inner_byte :
      (g : ℕ)
      → bytes_left i ≢ 0
      → m.load i.it ≡ g + 128
      → g < 128
      → varint_loop m (suc fuel) i value k
        ≡ varint_loop m fuel (record i { it = i.it + 1 }) (accumulate m (g + 128) value k) (k + 7)
  unfolding varint_loop
  inner_byte g h e small = ground (arith, increment-IsInside i c, bit_and_top (g + 128))

-- The lowest group of `w` and the rest, at their places.
groups_at : (w k : ℕ) → w * 2 ^ k ≡ w % 128 * 2 ^ k + w / 128 * 2 ^ (k + 7)
groups_at w k = omega (
  arith,
  ap (λ (t : ℕ). t * 2 ^ k) (div-add-mod w 128),
  ap (λ (t : ℕ). w / 128 * t) (pow_seven k),
)

-- A group further up that is not zero lies below bit 64.
next_shift : (q k : ℕ) → q ≢ 0 → q * 2 ^ k < 2 ^ 64 → k < 64
next_shift zero k h lt = absurd (h refl)
next_shift (suc q) k h lt = pow-lt_width k 64 (omega arith)

-- `w` is what is still to be read, and counts from bit `k` on.
varint_loop-base128 :
    (m : Machine) (n fuel : ℕ) (i : SelfcheckIterator) (w value k : ℕ)
    → IsContainer i
    → w < 128 ^ suc n
    → k < 64
    → value + w * 2 ^ k < 2 ^ 64
    → Holds m i.it (base128 n w)
    → length (base128 n w) ≤ bytes_left i
    → bytes_left i < fuel
    → varint_loop m fuel i value k
      ≡ (some (value + w * 2 ^ k), record i { it = i.it + length (base128 n w) })
unfolding base128
varint_loop-base128 m n zero i w value k c hw hk fits holds room more = absurd (omega arith)
varint_loop-base128 m zero (suc fuel) i w value k c hw hk fits holds room more =
    ground (arith, last_byte m fuel i value k c w, accumulate_fits m w w value k)
varint_loop-base128 m (suc n) (suc fuel) i w value k c hw hk fits holds room more =
    elim (dec_lt w 128) [
      | yes small ↦ ground (arith, last_byte m fuel i value k c w, accumulate_fits m w w value k)
      | no large ↦ ground (
        arith,
        inner_byte m fuel i value k c (w % 128),
        accumulate_fits m (w % 128 + 128) (w % 128) value k (omega arith),
        groups_at w k,
        next_shift (w / 128) (k + 7),
        pow-succ' 128 (suc n),
        bytes_left_next i c,
        varint_loop-base128 m n fuel (record i { it = i.it + 1 }) (w / 128)
            (value + w % 128 * 2 ^ k) (k + 7) (record { ordered = c.ordered; bounded = c.bounded }),
      )
    ]

-- Where the container holds the serializer's bytes from the iterator on, the deserializer for an
-- unsigned type of `bits` bits, 64 at most, returns every value of that type which the
-- serializer wrote, and stops behind its last byte.
pub deserialize-serialize_varint_common :
    (m : Machine) (bits : ℕ) (i : SelfcheckIterator) (v : ℕ)
    → IsContainer i
    → bits ≤ 64
    → v < 2 ^ bits
    → Holds m i.it (serialize_varint_common v)
    → length (serialize_varint_common v) ≤ bytes_left i
    → deserialize_varint_common m bits i
      ≡ (some v, record i { it = i.it + length (serialize_varint_common v) })
unfolding deserialize_varint_common
deserialize-serialize_varint_common m bits i v c narrow fits holds room =
    let wide : v < 2 ^ 64 = omega (arith, pow-le-pow_right {n = 2} (omega arith) narrow) in
    let e = serialize_varint_common-base128 v wide in
    rw e (
      ap (cast_to bits) (
        varint_loop-base128 m 9 (bytes_left i + 1) i v 0 0 c (omega arith) (omega arith)
          (omega arith) (rw e at holds) (rw e at room) (omega arith))
      ∙ ground (arith, mod-eq_of_lt fits))
