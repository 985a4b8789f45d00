-- ===== src/WellKnown/Duration/RoundTrip.antt =====
-- A duration that is written is read back.
use native.Mathlib.Nat.{le-mul_of_pos_right}
use qtgrpc.Prelude.{
  ℕ, zero, suc, ◌-◌, ◌*◌, ◌^◌, ◌≤◌, ◌≡◌, refl, ap, ◌∙◌, arith, ltb, ◌==◌, Bool, true, false, some,
  [], ◌∷◌, ◌++◌, length,
}
use qtgrpc.Prelude.Int.{ℤ, pos, negsuc}
use qtgrpc.WellKnown.Duration.{
  Text, seconds_range, nanos_range, magnitude, check_duration_range, check_sign_match, is_valid,
  digits, number, fraction, point_fraction, sign, serialize_duration, span_digits, is_end,
  has_length, match_fraction, with_fraction, match_seconds, to_number, negate, signed,
  read_captured, deserialize_duration,
}
use qtgrpc.WellKnown.Duration.Decimal.{
  is_digit, all_digits, all_digits-digits, to_number-digits, length-digits_le, length-digits_pos,
  ten_pos,
}
use qtgrpc.WellKnown.Duration.Fraction.{IsFraction, fraction-IsFraction}

digits_head : (x : ℕ) (f : Text) → all_digits (x ∷ f) ≡ true → is_digit x ≡ true
unfolding all_digits
digits_head x f h = ground (arith, h)

digits_tail : (x : ℕ) (f : Text) → all_digits (x ∷ f) ≡ true → all_digits f ≡ true
unfolding all_digits
digits_tail x f h = ground (arith, h)

span_digits-append :
    (f : Text) (c : ℕ) (r : Text)
    → all_digits f ≡ true
    → is_digit c ≡ false
    → span_digits (f ++ (c ∷ r)) ≡ (f, c ∷ r)
unfolding span_digits all_digits
span_digits-append [] c r h d = rw d refl
span_digits-append (x ∷ f) c r h d =
    rw (span_digits-append f c r (digits_tail x f h) d, digits_head x f h) refl

has_length-true : (lo hi : ℕ) (s : Text) → lo ≤ length s → length s ≤ hi → has_length lo hi s ≡ true
unfolding has_length
has_length-true lo hi s h k = ground arith

-- What is matched of the fraction stands for the nanoseconds.
record IsCaptured (nanos : ℕ) (f : Text) : Type 0 where
  bounded : to_number 0 f ≤ nanos
  scaled : to_number 0 f * 10 ^ (9 - length f) ≡ nanos

match-fraction :
    (n : ℕ) (f : Text) → IsFraction n f → match_fraction (b'.' ∷ (f ++ (b's' ∷ []))) ≡ some f
unfolding match_fraction
match-fraction n f h =
    rw (span_digits-append f b's' [] h.digital refl, has_length-true 1 9 f h.filled h.short)
      (unfold is_end in refl)

IsFraction-IsCaptured : (n : ℕ) (f : Text) → IsFraction n f → IsCaptured n f
IsFraction-IsCaptured n f h = record {
  bounded = omega (
    arith,
    h.exact,
    le-mul_of_pos_right {m = 10 ^ (9 - length f)} (to_number 0 f) (ten_pos (9 - length f)),
  );
  scaled = h.exact;
}

match_fraction-point_fraction :
    (n : ℕ)
    → n ≤ 999999999
    → (f : Text) × (match_fraction (point_fraction n ++ (b's' ∷ [])) ≡ some f) × IsCaptured n f
unfolding point_fraction
match_fraction-point_fraction zero h = (
  [],
  unfold match_fraction is_end in refl,
  record { bounded = unfold to_number in omega arith; scaled = unfold to_number in omega arith },
)
match_fraction-point_fraction (suc n) h =
    let p = fraction-IsFraction (suc n) (omega arith) h in
    (
      fraction (suc n),
      match-fraction (suc n) (fraction (suc n)) p,
      IsFraction-IsCaptured (suc n) (fraction (suc n)) p,
    )

-- What stands behind the seconds starts with no digit.
starts_behind :
    (n : ℕ) (ds : Text)
    → all_digits ds ≡ true
    → span_digits (ds ++ (point_fraction n ++ (b's' ∷ []))) ≡ (ds, point_fraction n ++ (b's' ∷ []))
unfolding point_fraction
starts_behind zero ds h = span_digits-append ds b's' [] h refl
starts_behind (suc n) ds h = span_digits-append ds b'.' (fraction (suc n) ++ (b's' ∷ [])) h refl

match_seconds-span :
    (s ds rest f : Text)
    → span_digits s ≡ (ds, rest)
    → has_length 1 12 ds ≡ true
    → match_fraction rest ≡ some f
    → match_seconds s ≡ some (ds, f)
unfolding match_seconds
match_seconds-span s ds rest f e h m =
    let front : (span_digits s).0 ≡ ds = ap (λ (p : Text × Text). p.0) e in
    let back : (span_digits s).1 ≡ rest = ap (λ (p : Text × Text). p.1) e in
    rw (front, back, h, m) (unfold with_fraction in refl)

matched :
    (a n : ℕ) (f : Text)
    → a ≤ seconds_range
    → match_fraction (point_fraction n ++ (b's' ∷ [])) ≡ some f
    → match_seconds (number a ++ (point_fraction n ++ (b's' ∷ []))) ≡ some (number a, f)
unfolding number
matched a n f h m =
    match_seconds-span (digits 19 a ++ (point_fraction n ++ (b's' ∷ []))) (digits 19 a)
      (point_fraction n ++ (b's' ∷ [])) f (starts_behind n (digits 19 a) (all_digits-digits 19 a))
      (has_length-true 1 12 (digits 19 a) (length-digits_pos 18 a)
        (length-digits_le 19 11 a (omega arith)))
      m

no_sign : (a n : ℕ) → check_sign_match (pos a) (pos n) ≡ true
unfolding check_sign_match
no_sign zero n = refl
no_sign (suc a) n = refl

is_valid_magnitudes :
    (a n : ℕ) → a ≤ seconds_range → n ≤ nanos_range → is_valid (pos a) (pos n) ≡ true
unfolding is_valid check_duration_range magnitude
is_valid_magnitudes a n h k =
    let below : ltb seconds_range a ≡ false = ground arith in
    let short : ltb nanos_range n ≡ false = ground arith in rw (below, short, no_sign a n) refl

captured :
    (negative : Bool) (a n : ℕ) (f : Text)
    → a ≤ seconds_range
    → n ≤ nanos_range
    → IsCaptured n f
    → read_captured negative (some (number a, f)) ≡ some (signed negative a, signed negative n)
unfolding read_captured number
captured negative a n f h k c =
    let seconds : to_number 0 (digits 19 a) ≡ a = to_number-digits 19 a (omega arith) in
    let valid = is_valid_magnitudes a (to_number 0 f) h (omega (arith, c.bounded)) in
    rw (seconds, valid, c.scaled) refl

-- What stands behind the sign is read as the sizes of the numbers.
read_magnitudes :
    (negative : Bool) (a n : ℕ)
    → a ≤ seconds_range
    → n ≤ nanos_range
    → read_captured negative (match_seconds (number a ++ (point_fraction n ++ (b's' ∷ []))))
      ≡ some (signed negative a, signed negative n)
read_magnitudes negative a n h k =
    let (f, m, c) = match_fraction-point_fraction n k in
    rw (matched a n f h m) (captured negative a n f h k c)

-- A number starts with a digit, which is no sign.
unsigned_front :
    (ds r : Text)
    → all_digits ds ≡ true
    → 1 ≤ length ds
    → deserialize_duration (ds ++ r) ≡ read_captured false (match_seconds (ds ++ r))
unfolding deserialize_duration
unsigned_front [] r h k = absurd (omega (arith, k))
unsigned_front (c ∷ ds) r h k =
    let d = digits_head c ds h in let e : (c == b'-') ≡ false = ground (arith, d) in rw e refl

unsigned_read :
    (a n : ℕ)
    → a ≤ seconds_range
    → n ≤ nanos_range
    → deserialize_duration (number a ++ (point_fraction n ++ (b's' ∷ []))) ≡ some (pos a, pos n)
unfolding signed number
unsigned_read a n h k =
    unsigned_front (digits 19 a) (point_fraction n ++ (b's' ∷ [])) (all_digits-digits 19 a)
      (length-digits_pos 18 a)
    ∙ read_magnitudes false a n h k

signed_read :
    (a n : ℕ)
    → a ≤ seconds_range
    → n ≤ nanos_range
    → deserialize_duration (b'-' ∷ (number a ++ (point_fraction n ++ (b's' ∷ []))))
      ≡ some (signed true a, signed true n)
unfolding deserialize_duration
signed_read a n h k = read_magnitudes true a n h k

within :
    (s n : ℤ) → is_valid s n ≡ true → (magnitude s ≤ seconds_range) × (magnitude n ≤ nanos_range)
unfolding is_valid check_duration_range
within s n h = (ground (arith, h), ground (arith, h))

same_sign : (s n : ℤ) → is_valid s n ≡ true → check_sign_match s n ≡ true
unfolding is_valid
same_sign s n h = ground (arith, h)

-- The sign and the sizes are the duration again.
read_back :
    (s n : ℤ)
    → magnitude s ≤ seconds_range
    → magnitude n ≤ nanos_range
    → check_sign_match s n ≡ true
    → deserialize_duration
        (sign s n ++ (number (magnitude s) ++ (point_fraction (magnitude n) ++ (b's' ∷ []))))
      ≡ some (s, n)
unfolding magnitude sign check_sign_match
read_back (pos zero) (pos n) h k c = unsigned_read 0 n h k
read_back (pos (suc a)) (pos n) h k c = unsigned_read (suc a) n h k
read_back (pos zero) (negsuc n) h k c = signed_read 0 (suc n) h k ∙ unfold signed negate in refl
read_back (pos (suc a)) (negsuc n) h k c = cc
read_back (negsuc a) (pos zero) h k c = signed_read (suc a) 0 h k ∙ unfold signed negate in refl
read_back (negsuc a) (pos (suc n)) h k c = cc
read_back (negsuc a) (negsuc n) h k c =
    signed_read (suc a) (suc n) h k ∙ unfold signed negate in refl

-- A valid duration is written, and what is written is read as that duration.
pub deserialize-serialize_duration :
    (s n : ℤ)
    → is_valid s n ≡ true
    → (t : Text) × (serialize_duration s n ≡ some t) × (deserialize_duration t ≡ some (s, n))
unfolding serialize_duration
deserialize-serialize_duration s n h =
    let (small, short) = within s n h in
    (
      sign s n ++ (number (magnitude s) ++ (point_fraction (magnitude n) ++ (b's' ∷ []))),
      rw h refl,
      read_back s n small short (same_sign s n h),
    )
