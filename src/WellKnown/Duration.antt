-- ===== src/WellKnown/Duration.antt =====
-- The duration of src/wellknown/qprotobufwellknowntypesjsonserializers.cpp, and its check, which
-- src/tools/qtprotobufgen/messagedefinitionprinter.cpp prints. A text is the list of its code units,
-- and the multiplier of the loop is a power of ten.
pub mod Decimal
pub mod Fraction
pub mod RoundTrip
use qtgrpc.Prelude.{
  ℕ, zero, suc, ◌+◌, ◌-◌, ◌*◌, ◌/◌, ◌%◌, ◌^◌, ltb, leb, ◌==◌, if◌then◌else◌, Bool, true, false, not,
  ◌&&◌, ◌||◌, Option, none, some, List, [], ◌∷◌, ◌++◌, length,
}
use qtgrpc.Prelude.Int.{ℤ, pos, negsuc}

abbrev pub Text : Type 0
Text = List ℕ

abbrev pub seconds_range : ℕ
seconds_range = 315576000000

abbrev pub nanos_range : ℕ
nanos_range = 999999999

-- The size of a number: `qAbs`.
unfoldable pub magnitude : ℤ → ℕ
magnitude (pos n) = n
magnitude (negsuc n) = suc n

unfoldable pub check_duration_range : ℤ → ℤ → Bool
check_duration_range seconds nanos =
    if ltb seconds_range (magnitude seconds) then false else not (ltb nanos_range (magnitude nanos))

-- The sign bit of the exclusive or is set where one of the two is negative.
unfoldable pub check_sign_match : ℤ → ℤ → Bool
check_sign_match (pos (suc s)) (negsuc n) = false
check_sign_match (negsuc s) (pos (suc n)) = false
check_sign_match seconds nanos = true

-- `Duration::isValid`
unfoldable pub is_valid : ℤ → ℤ → Bool
is_valid seconds nanos = check_duration_range seconds nanos && check_sign_match seconds nanos

-- `QString::number` of a number that is not negative; a qint64 has nineteen digits at most.
unfoldable pub digits : ℕ → ℕ → Text
digits zero n = []
digits (suc fuel) n =
    let front = digits fuel (n / 10) in
    if ltb n 10 then (b'0' + n) ∷ [] else front ++ ((b'0' + n % 10) ∷ [])

unfoldable pub number : ℕ → Text
number n = digits 19 n

-- The loop over the multiplier 10 ^ k: the zeros that it appends, and where it stops.
unfoldable pub zeros_loop : ℕ → ℕ → Text × ℕ
zeros_loop zero nanos = ([], zero)
zeros_loop (suc k) nanos =
    let (zeros, stop) = zeros_loop k nanos in
    if nanos % 10 ^ suc k == 0
    then ([], suc k)
    else ((if nanos / 10 ^ suc k == 0 then b'0' ∷ zeros else zeros), stop)

-- What stands behind the period.
unfoldable pub fraction : ℕ → Text
fraction nanos = let (zeros, stop) = zeros_loop 8 nanos in zeros ++ number (nanos / 10 ^ stop)

unfoldable pub point_fraction : ℕ → Text
point_fraction zero = []
point_fraction (suc nanos) = b'.' ∷ fraction (suc nanos)

-- The sign comes from the seconds, or from the nanos where there are no seconds.
unfoldable pub sign : ℤ → ℤ → Text
sign (negsuc s) nanos = b'-' ∷ []
sign (pos zero) (negsuc n) = b'-' ∷ []
sign seconds nanos = []

-- `none` is an undefined value.
unfoldable pub serialize_duration : ℤ → ℤ → Option Text
serialize_duration seconds nanos =
    if not (is_valid seconds nanos)
    then none
    else some (
        sign seconds nanos
        ++ (number (magnitude seconds) ++ (point_fraction (magnitude nanos) ++ (b's' ∷ []))))

-- The digits at the front of a text.
unfoldable pub span_digits : Text → Text × Text
span_digits [] = ([], [])
span_digits (c ∷ s) =
    let (ds, rest) = span_digits s in
    if leb b'0' c && leb c b'9' then (c ∷ ds, rest) else ([], c ∷ s)

-- `s$`; the end may have a line feed behind it.
unfoldable pub is_end : Text → Bool
is_end (c ∷ []) = c == b's'
is_end (c ∷ (d ∷ [])) = c == b's' && d == b'\n'
is_end _ = false

unfoldable pub has_length : ℕ → ℕ → Text → Bool
has_length lo hi s = leb lo (length s) && leb (length s) hi

-- `(\.(\d{1,9}))?s$`: what is captured of the fraction.
unfoldable pub match_fraction : Text → Option Text
match_fraction [] = none
match_fraction (c ∷ s) =
    if c == b'.'
    then (let (ds, rest) = span_digits s in
        if has_length 1 9 ds && is_end rest then some ds else none)
    else if is_end (c ∷ s)
    then some []
    else none

unfoldable pub with_fraction : Text → Option Text → Option (Text × Text)
with_fraction ds none = none
with_fraction ds (some fraction) = some (ds, fraction)

-- `\d{1,12}` with what stands behind it.
unfoldable pub match_seconds : Text → Option (Text × Text)
unfolding with_fraction
match_seconds s =
    let (ds, rest) = span_digits s in
    if has_length 1 12 ds then with_fraction ds (match_fraction rest) else none

-- `toLongLong` and `toInt` of at most twelve digits.
unfoldable pub to_number : ℕ → Text → ℕ
to_number n [] = n
to_number n (c ∷ s) = to_number (n * 10 + (c - b'0')) s

unfoldable pub negate : ℤ → ℤ
negate (pos zero) = pos zero
negate (pos (suc n)) = negsuc n
negate (negsuc n) = pos (suc n)

unfoldable pub signed : Bool → ℕ → ℤ
unfolding negate
signed negative n = if negative then negate (pos n) else pos n

-- Behind the match; the check comes before the nanos are scaled.
unfoldable pub read_captured : Bool → Option (Text × Text) → Option (ℤ × ℤ)
read_captured negative none = none
read_captured negative (some (ds, fraction)) =
    let seconds = to_number 0 ds in
    let nanos = to_number 0 fraction in
    if not (is_valid (pos seconds) (pos nanos))
    then none
    else some (signed negative seconds, signed negative (nanos * 10 ^ (9 - length fraction)))

-- `none` is a failure.
unfoldable pub deserialize_duration : Text → Option (ℤ × ℤ)
deserialize_duration [] = read_captured false (match_seconds [])
deserialize_duration (c ∷ s) =
    if c == b'-'
    then read_captured true (match_seconds s)
    else read_captured false (match_seconds (c ∷ s))
