-- ===== src/Protobuf/Varint/Encode.antt =====
-- What `serializeVarintCommonImpl` writes, in plain arithmetic.
use qtgrpc.Prelude.{
  ℕ, zero, suc, ◌+◌, ◌/◌, ◌%◌, ◌^◌, ◌≤◌, ◌<◌, ltb, if◌then◌else◌, List, [], ◌∷◌, ◌≡◌, refl, arith,
  length, All, ◌≢◌, ap, bit_and, bit_or,
}
use native.Mathlib.Decide.{dec_lt, ℕ_discrete}
use native.Mathlib.Nat.{pow-succ', pow-le-pow_right}
use qtgrpc.Prelude.Bits.{bit_and_mask_group, bit_or_top}
use qtgrpc.Protobuf.Iterator.{IsByte}
use qtgrpc.Protobuf.Varint.{varint_groups, clear_back, serialize_varint_common}

-- The digits of `v` to the base 128, lowest first, each but the last with the top bit set.
unfoldable pub base128 : ℕ → ℕ → List ℕ
base128 zero v = v ∷ []
base128 (suc n) v =
    let rest = base128 n (v / 128) in if ltb v 128 then v ∷ [] else (v % 128 + 128) ∷ rest

-- A group with the top bit set, and what clearing that bit leaves.
pub group_bits : (v : ℕ) → bit_or (bit_and v 0x7f) 0x80 ≡ v % 128 + 128
group_bits v = omega (
  arith,
  ap (λ (g : ℕ). bit_or g 0x80) (bit_and_mask_group v),
  bit_or_top (v % 128) (omega arith),
)

clear_back-varint_groups :
    (n v : ℕ) → v ≢ 0 → v < 128 ^ suc n → clear_back (varint_groups (suc n) v) ≡ base128 n v
unfolding varint_groups clear_back base128
clear_back-varint_groups zero v h fits =
    ground (arith, group_bits v, bit_and_mask_group (v % 128 + 128))
clear_back-varint_groups (suc n) v h fits = elim (dec_lt v 128) [
  | yes small ↦ ground (arith, group_bits v, bit_and_mask_group (v % 128 + 128))
  | no large ↦ ground (
    arith,
    group_bits v,
    pow-succ' 128 (suc n),
    clear_back-varint_groups n (v / 128) (omega arith),
  )
]

-- On every quint64 the serializer writes the digits to the base 128.
pub serialize_varint_common-base128 : (v : ℕ) → v < 2 ^ 64 → serialize_varint_common v ≡ base128 9 v
unfolding serialize_varint_common base128
serialize_varint_common-base128 v h = elim (ℕ_discrete v 0) [
  | yes e ↦ rw e refl
  | no ne ↦ ground (arith, clear_back-varint_groups 9 v ne (omega arith))
]

length-base128 : (n v : ℕ) → (1 ≤ length (base128 n v)) × (length (base128 n v) ≤ n + 1)
unfolding base128
length-base128 zero v = omega arith
length-base128 (suc n) v = ground (arith, length-base128 n (v / 128))

base128-IsByte : (n v : ℕ) → v < 128 ^ suc n → All IsByte (base128 n v)
unfolding base128
base128-IsByte zero v h = omega arith
base128-IsByte (suc n) v h = ground (
  arith,
  pow-succ' 128 (suc n),
  base128-IsByte n (v / 128) (omega (arith, pow-succ' 128 (suc n))),
)

-- A quint64 takes one to ten bytes.
pub serialize_varint_common_shape :
    (v : ℕ)
    → v < 2 ^ 64
    → All IsByte (serialize_varint_common v)
      × (1 ≤ length (serialize_varint_common v))
      × (length (serialize_varint_common v) ≤ 10)
serialize_varint_common_shape v h =
    let (lo, hi) = length-base128 9 v in
    rw (serialize_varint_common-base128 v h) (base128-IsByte 9 v (omega arith), lo, hi)

pow-pos_128 : (n : ℕ) → 1 ≤ 128 ^ n
pow-pos_128 n = pow-le-pow_right {n = 128} (omega arith) {i = 0} {j = n} (omega arith)

length-base128_full : (n v : ℕ) → 128 ^ n ≤ v → length (base128 n v) ≡ n + 1
unfolding base128
length-base128_full zero v h = omega arith
length-base128_full (suc n) v h =
    ground (arith, pow-succ' 128 n, pow-pos_128 n, length-base128_full n (v / 128))

-- A quint64 from 2 ^ 63 on takes ten bytes.
pub length-serialize_varint_common_ten :
    (v : ℕ) → 2 ^ 63 ≤ v → v < 2 ^ 64 → length (serialize_varint_common v) ≡ 10
length-serialize_varint_common_ten v lo hi =
    rw (serialize_varint_common-base128 v hi) (length-base128_full 9 v (omega arith))
