-- ===== src/Protobuf/Scalars/ZigZag.antt =====
-- ZigZag and sign extension on integers of any width.
use native.Mathlib.Nat.{
  pow-succ', pow-le-pow_right, mod-eq_of_lt, mod-eq-sub-mod, mul_left_comm, mul-suc,
  add-mul-mod_self_left,
}
use native.Mathlib.Decide.{dec_lt}
use qtgrpc.Prelude.{
  ℕ, zero, suc, ◌+◌, ◌-◌, ◌*◌, ◌/◌, ◌%◌, ◌^◌, ◌≤◌, ◌<◌, ◌≡◌, refl, ap, ◌∙◌, arith, bit_and, ltb,
  if◌then◌else◌, true, false, some, length,
}
use qtgrpc.Prelude.Int.{ℤ, pos, negsuc}
use qtgrpc.Prelude.Bits.{bit_xor-zero, bit_xor_ones, bit_and_mask_one}
use qtgrpc.Protobuf.Iterator.{Machine, SelfcheckIterator, bytes_left, IsContainer, Holds}
use qtgrpc.Protobuf.Varint.RoundTrip.{deserialize-serialize_varint_common}
use qtgrpc.Protobuf.Scalars.{
  sign_mask, zig_zag, serialize_zigzag, unzig_zag, deserialize_zigzag, sign_extend,
  serialize_signed, deserialize_signed,
}

-- What a bit pattern of `bits` bits stands for in two's complement.
unfoldable pub to_int : ℕ → ℕ → ℤ
to_int bits v = if ltb v (2 ^ (bits - 1)) then pos v else negsuc (2 ^ bits - 1 - v)

-- 0, -1, 1, -2, 2, … are numbered 0, 1, 2, 3, 4, …
unfoldable pub numbered : ℤ → ℕ
numbered (pos n) = 2 * n
numbered (negsuc n) = 2 * n + 1

pow_half : (k : ℕ) → 2 ^ suc k ≡ 2 * 2 ^ k
pow_half k = pow-succ' 2 k

pow_pos : (k : ℕ) → 1 ≤ 2 ^ k
pow_pos k = pow-le-pow_right {n = 2} (omega arith) {i = 0} {j = k} (omega arith)

ltb-true : (v k : ℕ) → v < 2 ^ k → ltb v (2 ^ (suc k - 1)) ≡ true
ltb-true v k h = let e : suc k - 1 ≡ k = omega arith in rw e (ground arith)

ltb-false : (v k : ℕ) → 2 ^ k ≤ v → ltb v (2 ^ (suc k - 1)) ≡ false
ltb-false v k h = let e : suc k - 1 ≡ k = omega arith in rw e (ground arith)

zig_zag_small : (k v : ℕ) → v < 2 ^ k → zig_zag (suc k) v ≡ 2 * v
unfolding zig_zag sign_mask
zig_zag_small k v h =
    let m : v * 2 % 2 ^ suc k ≡ v * 2 = mod-eq_of_lt (omega (arith, pow_half k)) in
    rw (m, ltb-true v k h) (omega (arith, bit_xor-zero (v * 2)))

zig_zag_large :
    (k v : ℕ) → 2 ^ k ≤ v → v < 2 ^ suc k → zig_zag (suc k) v ≡ 2 * (2 ^ suc k - 1 - v) + 1
unfolding zig_zag sign_mask
zig_zag_large k v lo h =
    let e = pow_half k in
    let p = pow_pos k in
    let m : v * 2 % 2 ^ suc k ≡ v * 2 - 2 ^ suc k =
      mod-eq-sub-mod {n = v * 2} {m = 2 ^ suc k} (omega arith) ∙ mod-eq_of_lt (omega arith) in
    rw (m, ltb-false v k lo) (omega (arith, bit_xor_ones (suc k) (v * 2 - 2 ^ suc k) (omega arith)))

-- On the bit patterns of any width, ZigZag numbers the integers 0, -1, 1, -2, 2 and so on as 0, 1, 2,
-- 3, 4 and so on.
zig_zag-numbered : (k v : ℕ) → v < 2 ^ suc k → zig_zag (suc k) v ≡ numbered (to_int (suc k) v)
unfolding to_int numbered
zig_zag-numbered k v h = elim (dec_lt v (2 ^ k)) [
  | yes small ↦ rw (zig_zag_small k v small, ltb-true v k small) refl
  | no large ↦ rw (zig_zag_large k v (omega arith) h, ltb-false v k (omega arith)) refl
]

unzig_zag_even : (k v : ℕ) → unzig_zag (suc k) (2 * v) ≡ v
unfolding unzig_zag
unzig_zag_even k v =
    let low : bit_and (2 * v) 1 ≡ 0 = omega (arith, bit_and_mask_one (2 * v)) in
    let half : 2 * v / 2 ≡ v = omega arith in
    let none_set : (2 ^ suc k - 1) * 0 % 2 ^ suc k ≡ 0 =
      mod-eq_of_lt (omega (arith, pow_pos (suc k))) ∙ omega arith in
    rw (low, half, none_set) (bit_xor-zero v)

unzig_zag_odd : (k n : ℕ) → n < 2 ^ suc k → unzig_zag (suc k) (2 * n + 1) ≡ 2 ^ suc k - 1 - n
unfolding unzig_zag
unzig_zag_odd k n h =
    let low : bit_and (2 * n + 1) 1 ≡ 1 = omega (arith, bit_and_mask_one (2 * n + 1)) in
    let half : (2 * n + 1) / 2 ≡ n = omega arith in
    let all_set : (2 ^ suc k - 1) * 1 % 2 ^ suc k ≡ 2 ^ suc k - 1 =
      mod-eq_of_lt (omega (arith, pow_pos (suc k))) ∙ omega arith in
    rw (low, half, all_set) (bit_xor_ones (suc k) n h)

unzig_zag-zig_zag : (k v : ℕ) → v < 2 ^ suc k → unzig_zag (suc k) (zig_zag (suc k) v) ≡ v
unzig_zag-zig_zag k v h = elim (dec_lt v (2 ^ k)) [
  | yes small ↦ rw (zig_zag_small k v small) (unzig_zag_even k v)
  | no large ↦
      rw (zig_zag_large k v (omega arith) h)
        (unzig_zag_odd k (2 ^ suc k - 1 - v) (omega (arith, pow_pos (suc k))) ∙ omega arith)
]

pub zig_zag-lt : (k v : ℕ) → v < 2 ^ suc k → zig_zag (suc k) v < 2 ^ suc k
zig_zag-lt k v h = elim (dec_lt v (2 ^ k)) [
  | yes small ↦ omega (arith, zig_zag_small k v small, pow_half k)
  | no large ↦ omega (arith, zig_zag_large k v (omega arith) h, pow_half k)
]

-- Where the container holds what the serializer wrote for a ZigZag integer of at most 64 bits, the
-- deserializer returns it, and stops behind its last byte.
pub deserialize-serialize_zigzag :
    (m : Machine) (k : ℕ) (i : SelfcheckIterator) (v : ℕ)
    → IsContainer i
    → k < 64
    → v < 2 ^ suc k
    → Holds m i.it (serialize_zigzag (suc k) v)
    → length (serialize_zigzag (suc k) v) ≤ bytes_left i
    → deserialize_zigzag m (suc k) i
      ≡ (some v, record i { it = i.it + length (serialize_zigzag (suc k) v) })
unfolding deserialize_zigzag serialize_zigzag
deserialize-serialize_zigzag m k i v c w h holds room =
    rw
      (
        deserialize-serialize_varint_common m (suc k) i (zig_zag (suc k) v) c (omega arith)
            (zig_zag-lt k v h) holds room,
        unzig_zag-zig_zag k v h,
      )
      refl

sign_extend_small : (k v : ℕ) → v < 2 ^ k → sign_extend (suc k) v ≡ v
unfolding sign_extend
sign_extend_small k v h = rw (ltb-true v k h) refl

sign_extend_large : (k v : ℕ) → 2 ^ k ≤ v → sign_extend (suc k) v ≡ v + (2 ^ 64 - 2 ^ suc k)
unfolding sign_extend
sign_extend_large k v h = rw (ltb-false v k h) refl

pub pow_word : (k : ℕ) → k < 64 → 2 ^ suc k ≤ 2 ^ 64
pow_word k w = pow-le-pow_right {n = 2} (omega arith) {i = suc k} {j = 64} (omega arith)

pub sign_extend-lt : (k v : ℕ) → k < 64 → v < 2 ^ suc k → sign_extend (suc k) v < 2 ^ 64
sign_extend-lt k v w h = elim (dec_lt v (2 ^ k)) [
  | yes small ↦ omega (arith, sign_extend_small k v small, pow_word k w)
  | no large ↦ omega (arith, sign_extend_large k v (omega arith), pow_word k w)
]

pow-add : (j d : ℕ) → 2 ^ (j + d) ≡ 2 ^ j * 2 ^ d
pow-add j zero = omega (arith, ap (λ (n : ℕ). 2 ^ n) {x = j + 0} {y = j} (omega arith))
pow-add j (suc d) =
    let e : 2 ^ (j + suc d) ≡ 2 ^ suc (j + d) = ap (λ (n : ℕ). 2 ^ n) (omega arith) in
    omega (
      arith,
      e,
      pow_half (j + d),
      pow-add j d,
      ap (λ (t : ℕ). 2 ^ j * t) (pow_half d),
      mul_left_comm (2 ^ j) 2 (2 ^ d),
    )

-- The upper bits of an extended sign.
word_above : (k : ℕ) → k < 64 → 2 ^ 64 - 2 ^ suc k ≡ 2 ^ suc k * (2 ^ (63 - k) - 1)
word_above k w =
    let e : 2 ^ (suc k + (63 - k)) ≡ 2 ^ 64 =
      ap (λ (n : ℕ). 2 ^ n) {x = suc k + (63 - k)} {y = 64} (omega arith) in
    let c = 2 ^ (63 - k) - 1 in
    let b : 2 ^ (63 - k) ≡ suc c = omega (arith, pow_pos (63 - k)) in
    omega
      (arith, e, pow-add (suc k) (63 - k), ap (λ (t : ℕ). 2 ^ suc k * t) b, mul-suc (2 ^ suc k) c)

sign_extend-mod : (k v : ℕ) → k < 64 → v < 2 ^ suc k → sign_extend (suc k) v % 2 ^ suc k ≡ v
sign_extend-mod k v w h = elim (dec_lt v (2 ^ k)) [
  | yes small ↦ rw (sign_extend_small k v small) (mod-eq_of_lt h)
  | no large ↦
      rw (sign_extend_large k v (omega arith), word_above k w)
        (add-mul-mod_self_left v (2 ^ suc k) (2 ^ (63 - k) - 1) ∙ mod-eq_of_lt h)
]

-- Where the container holds what the serializer wrote for a signed integer of at most 64 bits, whose
-- sign it extends to 64 bits, the deserializer returns it, and stops behind its last byte.
pub deserialize-serialize_signed :
    (m : Machine) (k : ℕ) (i : SelfcheckIterator) (v : ℕ)
    → IsContainer i
    → k < 64
    → v < 2 ^ suc k
    → Holds m i.it (serialize_signed (suc k) v)
    → length (serialize_signed (suc k) v) ≤ bytes_left i
    → deserialize_signed m (suc k) i
      ≡ (some v, record i { it = i.it + length (serialize_signed (suc k) v) })
unfolding deserialize_signed serialize_signed
deserialize-serialize_signed m k i v c w h holds room =
    rw
      (
        deserialize-serialize_varint_common m 64 i (sign_extend (suc k) v) c (omega arith)
            (sign_extend-lt k v w h) holds room,
        sign_extend-mod k v w h,
      )
      refl
