-- ===== src/Protobuf/DeserializerBase/Seen.antt =====
-- The words that remember which fields were seen, as sets of fields.
use native.Mathlib.Nat.{pow-succ', pow-le-pow_right, mul_left_comm}
use native.Mathlib.Decide.{ℕ_discrete}
use qtgrpc.Prelude.{
  ℕ, zero, suc, ◌*◌, ◌/◌, ◌%◌, ◌^◌, ◌≤◌, ◌<◌, ◌≡◌, ◌≢◌, refl, sym, ap, ◌∙◌, arith, max, bit_and,
  bit_or, ◌==◌, not, ◌||◌, if◌then◌else◌, Bool, true, false, List, [], ◌∷◌, get_or, set, length,
}
use qtgrpc.Prelude.Bits.{bit_and_lowest, bit_or_lowest}
use qtgrpc.Protobuf.DeserializerBase.{mark_seen, is_seen}

-- A digit of a word.
abbrev bit : ℕ → ℕ → ℕ
bit zero w = w % 2
bit (suc k) w = bit k (w / 2)

bit-lt : (k w : ℕ) → bit k w < 2
bit-lt zero w = omega arith
bit-lt (suc k) w = bit-lt k (w / 2)

double : (k : ℕ) → 2 ^ suc k ≡ 2 * 2 ^ k
double k = pow-succ' 2 k

pow_pos : (k : ℕ) → 1 ≤ 2 ^ k
pow_pos k = pow-le-pow_right {n = 2} (omega arith) {i = 0} {j = k} (omega arith)

bit-zero : (k : ℕ) → bit k 0 ≡ 0
bit-zero zero = refl
bit-zero (suc k) = bit-zero k

bit_or-zero_below : (n a : ℕ) → a ≤ n → bit_and a 0 ≡ 0
bit_or-zero_below n zero h = refl
bit_or-zero_below zero (suc a) h = absurd (omega arith)
bit_or-zero_below (suc n) (suc a) h =
    omega (arith, bit_and_lowest (suc a) 0, bit_or-zero_below n (suc a / 2) (omega arith))

bit_and-pow : (k w : ℕ) → bit_and w (2 ^ k) ≡ bit k w * 2 ^ k
bit_and-pow zero w =
    omega (arith, bit_and_lowest w 1, bit_or-zero_below (w / 2) (w / 2) (omega arith))
bit_and-pow (suc k) w =
    let e = double k in
    let half : 2 ^ suc k / 2 ≡ 2 ^ k = omega (arith, e) in
    let low : 2 ^ suc k % 2 ≡ 0 = omega (arith, e) in
    let low_digit = rw (low, half) at (bit_and_lowest w (2 ^ suc k)) in
    omega (
      arith,
      low_digit,
      bit_and-pow k (w / 2),
      ap (λ (t : ℕ). bit k (w / 2) * t) e,
      mul_left_comm (bit k (w / 2)) 2 (2 ^ k),
    )

bit-bit_or : (j x y : ℕ) → bit j (bit_or x y) ≡ max (bit j x) (bit j y)
bit-bit_or zero x y = omega (arith, bit_or_lowest x y)
bit-bit_or (suc j) x y =
    let half : bit_or x y / 2 ≡ bit_or (x / 2) (y / 2) = omega (arith, bit_or_lowest x y) in
    rw half (bit-bit_or j (x / 2) (y / 2))

bit-pow_self : (k : ℕ) → bit k (2 ^ k) ≡ 1
bit-pow_self zero = refl
bit-pow_self (suc k) =
    let half : 2 ^ suc k / 2 ≡ 2 ^ k = omega (arith, double k) in rw half (bit-pow_self k)

bit-pow_other : (j k : ℕ) → j ≢ k → bit j (2 ^ k) ≡ 0
bit-pow_other zero zero n = absurd (n refl)
bit-pow_other zero (suc k) n = omega (arith, double k)
bit-pow_other (suc j) zero n = bit-zero j
bit-pow_other (suc j) (suc k) n =
    let half : 2 ^ suc k / 2 ≡ 2 ^ k = omega (arith, double k) in
    rw half (bit-pow_other j k (λ e. n (ap suc e)))

has_bit : (b p : ℕ) → b < 2 → 1 ≤ p → not (b * p == 0) ≡ (b == 1)
has_bit zero p h q = let e : 0 * p ≡ 0 = omega arith in rw e refl
has_bit (suc zero) p h q = let e : 1 * p ≡ p = omega arith in rw e (ground arith)
has_bit (suc (suc b)) p h q = absurd (omega arith)

-- What `is_seen` tests is a digit of a word.
is_seen-bit :
    (i : ℕ) (seen : List ℕ) → is_seen i seen ≡ (bit (i % 64) (get_or seen (i / 64) 0) == 1)
unfolding is_seen
is_seen-bit i seen =
    let w = get_or seen (i / 64) 0 in
    rw (bit_and-pow (i % 64) w)
      (has_bit (bit (i % 64) w) (2 ^ (i % 64)) (bit-lt (i % 64) w) (pow_pos (i % 64)))

pub is_seen-zero : (i : ℕ) (seen : List ℕ) → get_or seen (i / 64) 0 ≡ 0 → is_seen i seen ≡ false
is_seen-zero i seen e =
    is_seen-bit i seen ∙ ap (λ w. bit (i % 64) w == 1) e ∙ ap (λ b. b == 1) (bit-zero (i % 64))

get_or-set_self : (xs : List ℕ) (i v d : ℕ) → i < length xs → get_or (set xs i v) i d ≡ v
get_or-set_self [] i v d h = absurd (omega arith)
get_or-set_self (x ∷ xs) zero v d h = refl
get_or-set_self (x ∷ xs) (suc i) v d h = get_or-set_self xs i v d (omega arith)

get_or-set_ne : (xs : List ℕ) (i j v d : ℕ) → i ≢ j → get_or (set xs i v) j d ≡ get_or xs j d
get_or-set_ne [] i j v d n = refl
get_or-set_ne (x ∷ xs) zero zero v d n = absurd (n refl)
get_or-set_ne (x ∷ xs) zero (suc j) v d n = refl
get_or-set_ne (x ∷ xs) (suc i) zero v d n = refl
get_or-set_ne (x ∷ xs) (suc i) (suc j) v d n = get_or-set_ne xs i j v d (λ e. n (ap suc e))

-- The words for `count` fields.
abbrev pub HoldsFields : ℕ → List ℕ → Type 0
HoldsFields count seen = count ≤ 64 * length seen

digit_eq :
    (b p : ℕ) (t : Bool) → b < 2 → p ≡ (if t then 1 else 0) → (max b p == 1) ≡ (t || (b == 1))
digit_eq b p true h e = rw e (ground arith)
digit_eq b p false h e = rw e (ground arith)

eq-false : (j i : ℕ) → j ≢ i → (j == i) ≡ false
eq-false j i n = ground arith

-- Marking a field adds it to those seen.
pub is_seen-mark_seen :
    (count i j : ℕ) (seen : List ℕ)
    → HoldsFields count seen
    → j < count
    → is_seen i (mark_seen j seen) ≡ (j == i || is_seen i seen)
unfolding mark_seen
is_seen-mark_seen count i j seen h lt =
    let w = get_or seen (j / 64) 0 in
    let w' = bit_or w (2 ^ (j % 64)) in
    rw (is_seen-bit i (set seen (j / 64) w'), is_seen-bit i seen)
      (elim (ℕ_discrete (j / 64) (i / 64)) [
        | yes e ↦
            rw
              (
                ← e,
                get_or-set_self seen (j / 64) w' 0 (omega arith),
                bit-bit_or (i % 64) w (2 ^ (j % 64)),
              )
              (elim (ℕ_discrete (j % 64) (i % 64)) [
                | yes d ↦
                    (let same : (j == i) ≡ true = ground arith in
                      rw same (
                        digit_eq (bit (i % 64) w) _ true (bit-lt (i % 64) w)
                          (rw d (bit-pow_self (i % 64)))))
                | no n ↦ rw (eq-false j i (λ f. n (ap (λ (t : ℕ). t % 64) f))) (
                    digit_eq (bit (i % 64) w) _ false (bit-lt (i % 64) w)
                      (bit-pow_other (i % 64) (j % 64) (λ f. n (sym f))))
              ])
        | no n ↦
            rw
              (
                get_or-set_ne seen (j / 64) (i / 64) w' 0 n,
                eq-false j i (λ f. n (ap (λ (t : ℕ). t / 64) f)),
              )
              refl
      ])
