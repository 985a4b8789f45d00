-- ===== src/Prelude/Bits.antt =====
-- Masks, shifts and complements of machine words as arithmetic.
use Prim.Native.Nat.{
  ℕ, zero, suc, ◌+◌, ◌-◌, ◌*◌, ◌/◌, ◌%◌, ◌^◌, ◌≤◌, ◌<◌, min, max, differ, digits, bitwise, bit_and,
  bit_or, bit_xor, bit_and-bitwise, bit_or-bitwise, bit_xor-bitwise,
}
use mathlib.Core.Path.{◌≡◌, refl, ap}
use native.Mathlib.Omega.{arith}
use native.Mathlib.Decide.{dec_lt}
use native.Mathlib.Nat.{pow-le-pow_right, pow-succ'}
use native.Mathlib.Numerals.{towards_suc}

-- A bound of the first number is count enough of digits to go.
module _ (z : ℕ → ℕ) (f : ℕ → ℕ → ℕ) where
  digits-suc : (a b n : ℕ) → a ≤ n → digits z f (suc n) a b ≡ digits z f n a b
  digits-suc zero b zero enough = refl
  digits-suc zero b (suc n) enough = refl
  digits-suc (suc a) b zero enough = absurd (omega arith)
  digits-suc (suc a) b (suc n) enough =
      omega (arith, digits-suc (suc a / 2) (b / 2) n (omega arith))

  digits_lower : (n k a b : ℕ) → a ≤ k → k ≤ n → digits z f n a b ≡ digits z f k a b
  digits_lower zero zero a b enough fits = refl
  digits_lower zero (suc k) a b enough fits = absurd (omega arith)
  digits_lower (suc n) k a b enough fits = elim (dec_lt n k) [
    | yes above ↦ ap (λ j. digits z f j a b) {x = suc n} {y = k} (omega arith)
    | no below ↦
        omega (arith, digits-suc a b n (omega arith), digits_lower n k a b enough (omega arith))
  ]

  bitwise_digit :
      (a b : ℕ)
      → bitwise z f (suc a) b ≡ bitwise z f (suc a / 2) (b / 2) * 2 + f (suc a % 2) (b % 2)
  bitwise_digit a b =
      omega (arith, digits_lower a (suc a / 2) (suc a / 2) (b / 2) (omega arith) (omega arith))

pub bit_and_lowest : (x y : ℕ) → bit_and x y ≡ min (x % 2) (y % 2) + 2 * bit_and (x / 2) (y / 2)
bit_and_lowest zero y = simp bit_and-bitwise (omega arith)
bit_and_lowest (suc x) y = simp bit_and-bitwise (omega (arith, bitwise_digit (λ d. zero) min x y))

pub bit_or_lowest : (x y : ℕ) → bit_or x y ≡ max (x % 2) (y % 2) + 2 * bit_or (x / 2) (y / 2)
bit_or_lowest zero y = simp bit_or-bitwise (omega arith)
bit_or_lowest (suc x) y = simp bit_or-bitwise (omega (arith, bitwise_digit (λ d. d) max x y))

bit_xor_lowest : (x y : ℕ) → bit_xor x y ≡ differ (x % 2) (y % 2) + 2 * bit_xor (x / 2) (y / 2)
bit_xor_lowest zero y = simp bit_xor-bitwise (omega arith)
bit_xor_lowest (suc x) y = simp bit_xor-bitwise (omega (arith, bitwise_digit (λ d. d) differ x y))

-- A mask of `k` ones keeps the lowest `k` digits.
bit_and-zero : (a n : ℕ) → a ≤ n → bit_and a 0 ≡ 0
bit_and-zero zero n bounded = refl
bit_and-zero (suc a) zero bounded = absurd (omega arith)
bit_and-zero (suc a) (suc n) bounded =
    omega (arith, bit_and-zero (suc a / 2) n (omega arith), bit_and_lowest (suc a) 0)

mask_1 : (a : ℕ) → bit_and a 1 ≡ a % 2
mask_1 a = omega (arith, bit_and_lowest a 1, bit_and-zero (a / 2) (a / 2) (omega arith))

mask_2 : (a : ℕ) → bit_and a 3 ≡ a % 4
mask_2 a = omega (arith, bit_and_lowest a 3, mask_1 (a / 2))

pub bit_and_mask_one : (a : ℕ) → bit_and a 1 ≡ a % 2
bit_and_mask_one = mask_1

pub bit_and_mask_seven : (a : ℕ) → bit_and a 0x7 ≡ a % 8
bit_and_mask_seven a = omega (arith, bit_and_lowest a 7, mask_2 (a / 2))

mask_5 : (a : ℕ) → bit_and a 0x1f ≡ a % 32
mask_5 a =
    omega (arith, bit_and_lowest a 0x1f, bit_and_lowest (a / 2) 0xf, bit_and_mask_seven (a / 2 / 2))

pub bit_and_mask_group : (a : ℕ) → bit_and a 0x7f ≡ a % 128
bit_and_mask_group a =
    omega (arith, bit_and_lowest a 0x7f, bit_and_lowest (a / 2) 0x3f, mask_5 (a / 2 / 2))

-- Facts on one byte, by a table.
module _ (f g : ℕ → ℕ) where
  SameBelow : ℕ → Type 0
  SameBelow zero = Unit {0}
  SameBelow (suc n) = (f n ≡ g n) × SameBelow n

  SameBelow-eq : (n : ℕ) → SameBelow n → (i : ℕ) → i < n → f i ≡ g i
  unfolding SameBelow
  SameBelow-eq zero e i h = absurd (omega arith)
  SameBelow-eq (suc n) e i h = ground (arith, SameBelow-eq n e.1 i)

pub bit_and_top : (b : ℕ) → b < 256 → bit_and b 0x80 ≡ b / 128 * 128
unfolding SameBelow
bit_and_top = SameBelow-eq (λ b. bit_and b 0x80) (λ b. b / 128 * 128) 256 (omega arith)

pub bit_or_top : (b : ℕ) → b < 128 → bit_or b 0x80 ≡ b + 128
unfolding SameBelow
bit_or_top = SameBelow-eq (λ b. bit_or b 0x80) (λ b. b + 128) 128 (omega arith)

-- Two fields side by side.
bit_or-zero : (n a : ℕ) → a ≤ n → bit_or a 0 ≡ a
bit_or-zero n zero h = refl
bit_or-zero zero (suc a) h = absurd (omega arith)
bit_or-zero (suc n) (suc a) h =
    omega (arith, bit_or_lowest (suc a) 0, bit_or-zero n (suc a / 2) (omega arith))

bit_or_halves :
    (a b : ℕ) {q r : ℕ} → a / 2 ≡ q → b / 2 ≡ r → bit_or a b ≡ bit_or q r * 2 + max (a % 2) (b % 2)
bit_or_halves a b e d = rw (← e, ← d) (omega (arith, bit_or_lowest a b))

or_1 : (q r : ℕ) → r < 2 → bit_or (q * 2) r ≡ q * 2 + r
or_1 q r h = omega (
  arith,
  bit_or_halves (q * 2) r {q = q} {r = 0} (omega arith) (omega arith),
  bit_or-zero q q (omega arith),
)

or_2 : (q r : ℕ) → r < 4 → bit_or (q * 4) r ≡ q * 4 + r
or_2 q r h = omega (
  arith,
  bit_or_halves (q * 4) r {q = q * 2} {r = r / 2} (omega arith) (omega arith),
  or_1 q (r / 2) (omega arith),
)

pub bit_or_three : (q r : ℕ) → r < 8 → bit_or (q * 8) r ≡ q * 8 + r
bit_or_three q r h = omega (
  arith,
  bit_or_halves (q * 8) r {q = q * 4} {r = r / 2} (omega arith) (omega arith),
  or_2 q (r / 2) (omega arith),
)

-- The complement, as an exclusive or with ones.
differ-zero : (x : ℕ) → differ x 0 ≡ x
differ-zero zero = refl
differ-zero (suc x) = refl

differ-one : (x : ℕ) → x < 2 → differ x 1 ≡ 1 - x
differ-one zero h = refl
differ-one (suc zero) h = refl
differ-one (suc (suc x)) h = absurd (omega arith)

bit_xor_halves :
    (a b : ℕ) {q r d : ℕ}
    → a / 2 ≡ q
    → b / 2 ≡ r
    → b % 2 ≡ d
    → bit_xor a b ≡ bit_xor q r * 2 + differ (a % 2) d
bit_xor_halves a b e d f = rw (← e, ← d, ← f) (omega (arith, bit_xor_lowest a b))

bit_xor-zero_bound : (n a : ℕ) → a ≤ n → bit_xor a 0 ≡ a
bit_xor-zero_bound n zero h = refl
bit_xor-zero_bound zero (suc a) h = absurd (omega arith)
bit_xor-zero_bound (suc n) (suc a) h = omega (
  arith,
  bit_xor_halves (suc a) 0 {q = suc a / 2} {r = 0} {d = 0} refl refl refl,
  differ-zero (suc a % 2),
  bit_xor-zero_bound n (suc a / 2) (omega arith),
)

pub bit_xor-zero : (a : ℕ) → bit_xor a 0 ≡ a
bit_xor-zero a = bit_xor-zero_bound a a (omega arith)

two_pow_suc : (k : ℕ) → 2 ^ suc k ≡ 2 * 2 ^ k
two_pow_suc k = pow-succ' 2 k

pow_pos : (k : ℕ) → 1 ≤ 2 ^ k
pow_pos k = pow-le-pow_right {n = 2} (omega arith) {i = 0} {j = k} (omega arith)

pub bit_xor_ones : (k a : ℕ) → a < 2 ^ k → bit_xor a (2 ^ k - 1) ≡ 2 ^ k - 1 - a
bit_xor_ones zero a h = omega (arith, bit_xor-zero a)
bit_xor_ones (suc k) a h =
    let e = two_pow_suc k in
    let p = pow_pos k in
    omega (
      arith,
      bit_xor_halves a (2 ^ suc k - 1) {q = a / 2} {r = 2 ^ k - 1} {d = 1} refl (omega arith)
          (omega arith),
      differ-one (a % 2) (omega arith),
      bit_xor_ones k (a / 2) (omega arith),
    )

-- Powers of two as shifts.
pub pow_seven : (k : ℕ) → 2 ^ (k + 7) ≡ 128 * 2 ^ k
pow_seven k = simp towards_suc (omega arith)

-- A power that a word holds has an exponent below the word's width.
pub pow-lt_width : (k w : ℕ) → 2 ^ k < 2 ^ w → k < w
pow-lt_width k w h = elim (dec_lt k w) [
  | yes below ↦ below
  | no above ↦
      absurd (omega (arith, pow-le-pow_right {n = 2} (omega arith) {i = w} {j = k} (omega arith)))
]
