-- ===== src/WellKnown/Duration/Decimal.antt =====
-- Decimal numbers: what QString::number writes and toLongLong reads.
use native.Mathlib.Nat.{pow-succ', pow-le-pow_right}
use qtgrpc.Prelude.{
  ℕ, zero, suc, ◌+◌, ◌-◌, ◌*◌, ◌/◌, ◌%◌, ◌^◌, ◌≤◌, ◌<◌, ◌≡◌, refl, ◌∙◌, arith, ltb, leb, Bool, true,
  false, ◌&&◌, [], ◌∷◌, ◌++◌, length, length-append, Bool-cases, inl, inr,
}
use qtgrpc.WellKnown.Duration.{Text, digits, to_number}

abbrev pub is_digit : ℕ → Bool
is_digit c = leb b'0' c && leb c b'9'

unfoldable pub all_digits : Text → Bool
all_digits [] = true
all_digits (c ∷ s) = is_digit c && all_digits s

pub pow_ten : (k : ℕ) → 10 ^ suc k ≡ 10 * 10 ^ k
pow_ten k = pow-succ' 10 k

all_digits-append : (xs ys : Text) → all_digits (xs ++ ys) ≡ (all_digits xs && all_digits ys)
unfolding all_digits
all_digits-append [] ys = refl
all_digits-append (x ∷ xs) ys = ground (arith, all_digits-append xs ys)

to_number-append : (n : ℕ) (xs ys : Text) → to_number n (xs ++ ys) ≡ to_number (to_number n xs) ys
unfolding to_number
to_number-append n [] ys = refl
to_number-append n (x ∷ xs) ys = to_number-append (n * 10 + (x - b'0')) xs ys

last_digit : (c : ℕ) → c < 10 → all_digits ((b'0' + c) ∷ []) ≡ true
unfolding all_digits
last_digit c h = ground arith

pub all_digits-digits : (fuel n : ℕ) → all_digits (digits fuel n) ≡ true
unfolding digits
all_digits-digits zero n = unfold all_digits in refl
all_digits-digits (suc fuel) n = elim (Bool-cases (ltb n 10)) [
  | inl e ↦ rw e (last_digit n (ground arith))
  | inr e ↦
      rw
        (
          e,
          all_digits-append (digits fuel (n / 10)) ((b'0' + n % 10) ∷ []),
          all_digits-digits fuel (n / 10),
        )
        (last_digit (n % 10) (omega arith))
]

read_last : (m c : ℕ) → to_number m ((b'0' + c) ∷ []) ≡ m * 10 + c
unfolding to_number
read_last m c = omega arith

pub to_number-digits : (fuel n : ℕ) → n < 10 ^ fuel → to_number 0 (digits fuel n) ≡ n
unfolding digits
to_number-digits zero n h = unfold to_number in omega arith
to_number-digits (suc fuel) n h = elim (Bool-cases (ltb n 10)) [
  | inl e ↦ rw e (read_last 0 n ∙ omega arith)
  | inr e ↦
      rw
        (
          e,
          to_number-append 0 (digits fuel (n / 10)) ((b'0' + n % 10) ∷ []),
          to_number-digits fuel (n / 10) (omega (arith, pow_ten fuel)),
        )
        (read_last (n / 10) (n % 10) ∙ omega arith)
]

pub ten_pos : (k : ℕ) → 1 ≤ 10 ^ k
ten_pos k = pow-le-pow_right {n = 10} (omega arith) {i = 0} {j = k} (omega arith)

large : (n : ℕ) → 10 ≤ n → ltb n 10 ≡ false
large n h = ground arith

-- How many digits a number has.
pub length-digits :
    (fuel j n : ℕ) → j < fuel → 10 ^ j ≤ n → n < 10 ^ suc j → length (digits fuel n) ≡ suc j
unfolding digits
length-digits zero j n f lo hi = absurd (omega arith)
length-digits (suc fuel) zero n f lo hi = let e : ltb n 10 ≡ true = ground arith in rw e refl
length-digits (suc fuel) (suc j) n f lo hi =
    let p = pow_ten j in
    let q = pow_ten (suc j) in
    let one = ten_pos j in
    let many : ltb n 10 ≡ false = large n (omega arith) in
    rw
      (
        many,
        length-append (digits fuel (n / 10)) ((b'0' + n % 10) ∷ []),
        length-digits fuel j (n / 10) (omega arith) (omega arith) (omega arith),
      )
      (omega arith)

-- A number has at least one digit, and at most as many as the power of ten above it.
pub length-digits_le : (fuel k n : ℕ) → n < 10 ^ suc k → length (digits fuel n) ≤ suc k
unfolding digits
length-digits_le zero k n h = omega arith
length-digits_le (suc fuel) zero n h = let e : ltb n 10 ≡ true = ground arith in rw e (omega arith)
length-digits_le (suc fuel) (suc k) n h = elim (Bool-cases (ltb n 10)) [
  | inl e ↦ rw e (omega arith)
  | inr e ↦
      rw (e, length-append (digits fuel (n / 10)) ((b'0' + n % 10) ∷ []))
        (omega (arith, length-digits_le fuel k (n / 10) (omega (arith, pow_ten (suc k)))))
]

pub length-digits_pos : (fuel n : ℕ) → 1 ≤ length (digits (suc fuel) n)
unfolding digits
length-digits_pos fuel n = elim (Bool-cases (ltb n 10)) [
  | inl e ↦ rw e (omega arith)
  | inr e ↦ rw (e, length-append (digits fuel (n / 10)) ((b'0' + n % 10) ∷ [])) (omega arith)
]
