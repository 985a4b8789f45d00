-- ===== src/WellKnown/Duration/Fraction.antt =====
-- The nanoseconds behind the period.
use native.Mathlib.Nat.{
  pow-le-pow_right, mul_assoc, mul-le-mul_right, lt_of_mul-lt-mul_right, le_of_mul-le-mul_right,
  div-add-mod', mod-lt,
}
use qtgrpc.Prelude.{
  ℕ, zero, suc, ◌+◌, ◌-◌, ◌*◌, ◌/◌, ◌%◌, ◌^◌, ◌≤◌, ◌<◌, ◌≡◌, refl, sym, ap, ◌∙◌, arith, ltb, ◌==◌,
  ==_iff, replicate, true, false, ◌∷◌, ◌++◌, length, length-append, length-replicate, Bool-cases,
  ltb→lt, inl, inr,
}
use qtgrpc.WellKnown.Duration.{Text, digits, number, zeros_loop, fraction, to_number}
use qtgrpc.WellKnown.Duration.Decimal.{
  all_digits, pow_ten, ten_pos, all_digits-digits, to_number-digits, length-digits,
}

pow-add : (a b : ℕ) → 10 ^ (a + b) ≡ 10 ^ a * 10 ^ b
pow-add zero b = let e : zero + b ≡ b = omega arith in rw e (omega arith)
pow-add (suc a) b =
    let e : suc a + b ≡ suc (a + b) = omega arith in
    rw (e, pow_ten (a + b), pow-add a b, pow_ten a) (sym (mul_assoc 10 (10 ^ a) (10 ^ b)))

-- Where the loop stops, nothing is lost.
zeros_loop_exact :
    (k n : ℕ)
    → (n / 10 ^ (zeros_loop k n).1 * 10 ^ (zeros_loop k n).1 ≡ n) × ((zeros_loop k n).1 ≤ k)
unfolding zeros_loop
zeros_loop_exact zero n = (omega arith, omega arith)
zeros_loop_exact (suc k) n = elim (Bool-cases (n % 10 ^ suc k == 0)) [
  | inl e ↦
      rw e
        (omega (arith, div-add-mod' n (10 ^ suc k), (==_iff (n % 10 ^ suc k) 0).0 e), omega arith)
  | inr e ↦ rw e ((zeros_loop_exact k n).0, omega (arith, (zeros_loop_exact k n).1))
]

pow_lt_inv : (a b n : ℕ) → 10 ^ a ≤ n → n < 10 ^ b → a < b
pow_lt_inv a b n lo hi = elim (Bool-cases (ltb a b)) [
  | inl e ↦ ltb→lt a b e
  | inr e ↦
      let below : b ≤ a = ground arith in
      absurd (omega (arith, pow-le-pow_right {n = 10} (omega arith) {i = b} {j = a} below))
]

quotient_zero : (n p : ℕ) → 1 ≤ p → (n / p == 0) ≡ true → n < p
quotient_zero n p h e =
    let q : n / p ≡ 0 = (==_iff (n / p) 0).0 e in
    let d : n / p * p ≡ 0 = rw q (omega arith) in omega (arith, div-add-mod' n p, mod-lt n h)

quotient_pos : (n p : ℕ) → (n / p == 0) ≡ false → p ≤ n
quotient_pos n p e =
    let q : 1 ≤ n / p = ground arith in omega (arith, div-add-mod' n p, mul-le-mul_right p q)

remainder_zero : (n p : ℕ) → 1 ≤ n → (n % p == 0) ≡ true → p ≤ n
remainder_zero n p h e = elim (Bool-cases (n / p == 0)) [
  | inl z ↦
      let q : n / p ≡ 0 = (==_iff (n / p) 0).0 z in
      let d : n / p * p ≡ 0 = rw q (omega arith) in
      absurd (omega (arith, div-add-mod' n p, (==_iff (n % p) 0).0 e))
  | inr z ↦ quotient_pos n p z
]

-- The zeros fill the fraction up in front.
zeros_loop_zeros :
    (k j n : ℕ) → 10 ^ j ≤ n → n < 10 ^ suc j → (zeros_loop k n).0 ≡ replicate (k - j) b'0'
unfolding zeros_loop
zeros_loop_zeros zero j n lo hi = let e : zero - j ≡ 0 = omega arith in rw e refl
zeros_loop_zeros (suc k) j n lo hi = elim (Bool-cases (n % 10 ^ suc k == 0)) [
  | inl e ↦
      let below = remainder_zero n (10 ^ suc k) (omega (arith, ten_pos j)) e in
      let none_left : suc k - j ≡ 0 = omega (arith, pow_lt_inv (suc k) (suc j) n below hi) in
      rw (e, none_left) refl
  | inr e ↦ elim (Bool-cases (n / 10 ^ suc k == 0)) [
    | inl z ↦
        let above = quotient_zero n (10 ^ suc k) (ten_pos (suc k)) z in
        let one_more : suc k - j ≡ suc (k - j) = omega (arith, pow_lt_inv j (suc k) n lo above) in
        rw (e, z, one_more) (ap (λ s. b'0' ∷ s) (zeros_loop_zeros k j n lo hi))
    | inr z ↦
        let below = quotient_pos n (10 ^ suc k) z in
        let inverse = pow_lt_inv (suc k) (suc j) n below hi in
        let same : suc k - j ≡ k - j = omega (arith, inverse) in
        rw (e, z, same) (zeros_loop_zeros k j n lo hi)
  ]
]

-- How many digits a number below a power of ten has.
digit_count :
    (k n : ℕ) → 1 ≤ n → n < 10 ^ suc k → (j : ℕ) × (j ≤ k) × (10 ^ j ≤ n) × (n < 10 ^ suc j)
digit_count zero n p h = (0, omega arith, omega arith, h)
digit_count (suc k) n p h = elim (Bool-cases (ltb n (10 ^ suc k))) [
  | inl e ↦
      let (j, le, lo, hi) = digit_count k n p (ltb→lt n (10 ^ suc k) e) in
      (j, omega (arith, le), lo, hi)
  | inr e ↦ (suc k, omega arith, ground arith, h)
]

-- A number without some zeros at its end has as many digits less.
quotient_size :
    (j stop q n : ℕ)
    → q * 10 ^ stop ≡ n
    → stop ≤ j
    → 10 ^ j ≤ n
    → n < 10 ^ suc j
    → (10 ^ (j - stop) ≤ q) × (q < 10 ^ suc (j - stop))
quotient_size j stop q n e le lo hi =
    let low : 10 ^ (j - stop + stop) ≡ 10 ^ (j - stop) * 10 ^ stop = pow-add (j - stop) stop in
    let high : 10 ^ (suc (j - stop) + stop) ≡ 10 ^ suc (j - stop) * 10 ^ stop =
      pow-add (suc (j - stop)) stop in
    let low_exponent : j - stop + stop ≡ j = omega arith in
    let high_exponent : suc (j - stop) + stop ≡ suc j = omega arith in
    let low' : 10 ^ j ≡ 10 ^ (j - stop) * 10 ^ stop =
      sym (ap (λ (x : ℕ). 10 ^ x) low_exponent) ∙ low in
    let high' : 10 ^ suc j ≡ 10 ^ suc (j - stop) * 10 ^ stop =
      sym (ap (λ (x : ℕ). 10 ^ x) high_exponent) ∙ high in
    (
      le_of_mul-le-mul_right {k = 10 ^ stop} (omega (arith, low', e)) (ten_pos stop),
      lt_of_mul-lt-mul_right (10 ^ stop) (omega (arith, high', e)),
    )

stop_below : (j stop n : ℕ) → 1 ≤ n → n / 10 ^ stop * 10 ^ stop ≡ n → n < 10 ^ suc j → stop ≤ j
stop_below j stop n p e hi = elim (Bool-cases (n / 10 ^ stop == 0)) [
  | inl z ↦
      let q : n / 10 ^ stop ≡ 0 = (==_iff (n / 10 ^ stop) 0).0 z in
      let d : n / 10 ^ stop * 10 ^ stop ≡ 0 = rw q (omega arith) in absurd (omega (arith, d, e))
  | inr z ↦ omega (arith, pow_lt_inv stop (suc j) n (quotient_pos n (10 ^ stop) z) hi)
]

-- Digits that are read as billionths.
pub record IsFraction (n : ℕ) (f : Text) : Type 0 where
  pub digital : all_digits f ≡ true
  pub filled : 1 ≤ length f
  pub short : length f ≤ 9
  pub exact : to_number 0 f * 10 ^ (9 - length f) ≡ n

zeros_digital : (k : ℕ) (f : Text) → all_digits f ≡ true → all_digits (replicate k b'0' ++ f) ≡ true
unfolding all_digits
zeros_digital zero f h = h
zeros_digital (suc k) f h = zeros_digital k f h

to_number-zeros : (k : ℕ) (f : Text) → to_number 0 (replicate k b'0' ++ f) ≡ to_number 0 f
unfolding to_number
to_number-zeros zero f = refl
to_number-zeros (suc k) f = to_number-zeros k f

below_power : (j stop q : ℕ) → j ≤ 8 → q < 10 ^ suc (j - stop) → q < 10 ^ 19
below_power j stop q le h =
    omega
      (arith, pow-le-pow_right {n = 10} (omega arith) {i = suc (j - stop)} {j = 19} (omega arith))

IsFraction-number :
    (j stop n : ℕ)
    → j ≤ 8
    → stop ≤ j
    → n / 10 ^ stop * 10 ^ stop ≡ n
    → 10 ^ j ≤ n
    → n < 10 ^ suc j
    → IsFraction n (replicate (8 - j) b'0' ++ number (n / 10 ^ stop))
unfolding number
IsFraction-number j stop n le below e lo hi =
    let q = n / 10 ^ stop in
    let (q_lo, q_hi) = quotient_size j stop q n e below lo hi in
    let count : length (digits 19 q) ≡ suc (j - stop) =
      length-digits 19 (j - stop) q (omega arith) q_lo q_hi in
    let total : length (replicate (8 - j) b'0' ++ digits 19 q) ≡ 9 - stop =
      rw
        (
          length-append (replicate (8 - j) b'0') (digits 19 q),
          length-replicate {A = ℕ} (8 - j) b'0',
          count,
        )
        (omega arith) in
    let left : 9 - (9 - stop) ≡ stop = omega arith in
    record {
      digital = zeros_digital (8 - j) (digits 19 q) (all_digits-digits 19 q);
      filled = omega (arith, total);
      short = omega (arith, total);
      exact =
          rw
            (
              total,
              left,
              to_number-zeros (8 - j) (digits 19 q),
              to_number-digits 19 q (below_power j stop q le q_hi),
            )
            e;
    }

-- Every number of nanoseconds is written as the digits behind the period that stand for it.
pub fraction-IsFraction : (n : ℕ) → 1 ≤ n → n ≤ 999999999 → IsFraction n (fraction n)
unfolding fraction
fraction-IsFraction n p h =
    let (j, le, lo, hi) = digit_count 8 n p (omega arith) in
    let (e, stop_le) = zeros_loop_exact 8 n in
    let stop = (zeros_loop 8 n).1 in
    let below = stop_below j stop n p e hi in
    rw (zeros_loop_zeros 8 j n lo hi) (IsFraction-number j stop n le below e lo hi)
