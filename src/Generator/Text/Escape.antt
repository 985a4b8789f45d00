-- ===== src/Generator/Text/Escape.antt =====
-- Texts in the string literals of the generated code.
use qtgrpc.Prelude.{
  ℕ, ◌+◌, ◌-◌, ◌*◌, ◌/◌, ◌%◌, ◌<◌, ◌≡◌, refl, arith, true, false, Bool-cases, inl, inr,
  if◌then◌else◌, ltb, leb, ◌==◌, Bool, ◌&&◌, ◌||◌, Option, none, some, [], ◌∷◌, ◌++◌, All,
}
use qtgrpc.Generator.Text.{Bytes, escape_byte, escape_c_string}

-- Where a reader of the literal stands: between characters, behind a backslash, or behind the first
-- octal digits.
pub data Place : Type 0 where
  between behind : Place
  octal_one octal_two : ℕ → Place

abbrev is_octal : ℕ → Bool
is_octal c = leb b'0' c && leb c b'7'

abbrev is_printable : ℕ → Bool
is_printable c = leb 0x20 c && ltb c 0x7f

-- A byte that the literal stands for, and those behind it.
abbrev yield_byte : ℕ → Option Bytes → Option Bytes
yield_byte c none = none
yield_byte c (some s) = some (c ∷ s)

-- What C makes of the text between the quotes of a literal. A quote would end it, other bytes than
-- printable ASCII are refused, and an octal escape takes three digits.
unfoldable pub read_literal : Place → Bytes → Option Bytes
read_literal between [] = some []
read_literal behind [] = none
read_literal (octal_one a) [] = none
read_literal (octal_two a) [] = none
read_literal between (c ∷ s) =
    let escaped = read_literal behind s in
    let rest = read_literal between s in
    if c == b'\\'
    then escaped
    else if c == b'"'
    then none
    else if is_printable c
    then yield_byte c rest
    else none
read_literal behind (c ∷ s) =
    let rest = read_literal between s in
    let digits = read_literal (octal_one (c - b'0')) s in
    if c == b'"' || c == b'\\' then yield_byte c rest else if is_octal c then digits else none
read_literal (octal_one a) (c ∷ s) =
    let digits = read_literal (octal_two (a * 8 + (c - b'0'))) s in
    if is_octal c then digits else none
read_literal (octal_two a) (c ∷ s) =
    let rest = read_literal between s in
    if is_octal c && ltb (a * 8 + (c - b'0')) 256
    then yield_byte (a * 8 + (c - b'0')) rest
    else none

read_octal_last :
    (a c : ℕ) (s : Bytes)
    → c < 8
    → a * 8 + c < 256
    → read_literal (octal_two a) ((b'0' + c) ∷ s) ≡ yield_byte (a * 8 + c) (read_literal between s)
unfolding read_literal
read_octal_last a c s h v = let e : b'0' + c - b'0' ≡ c = omega arith in rw e (ground arith)

octal_digit :
    (a : ℕ)
    → a < 8
    → (is_octal (b'0' + a) ≡ true)
      × ((b'0' + a == b'"' || b'0' + a == b'\\') ≡ false)
      × (b'0' + a - b'0' ≡ a)
octal_digit a h = (ground arith, ground arith, omega arith)

read_octal_first :
    (a : ℕ) (s : Bytes)
    → a < 8
    → read_literal behind ((b'0' + a) ∷ s) ≡ read_literal (octal_one a) s
unfolding read_literal
read_octal_first a s h = let (o, n, e) = octal_digit a h in rw (n, o, e) refl

read_octal_second :
    (a b : ℕ) (s : Bytes)
    → b < 8
    → read_literal (octal_one a) ((b'0' + b) ∷ s) ≡ read_literal (octal_two (a * 8 + b)) s
unfolding read_literal
read_octal_second a b s h = let (o, n, e) = octal_digit b h in rw (o, e) refl

read_backslash : (s : Bytes) → read_literal between (b'\\' ∷ s) ≡ read_literal behind s
unfolding read_literal
read_backslash s = refl

octal_value : (c : ℕ) → (c / 64 * 8 + c / 8 % 8) * 8 + c % 8 ≡ c
octal_value c = omega arith

read_octal :
    (c : ℕ) (s : Bytes)
    → c < 256
    → read_literal between (b'\\' ∷ ((b'0' + c / 64) ∷ ((b'0' + c / 8 % 8) ∷ ((b'0' + c % 8) ∷ s))))
      ≡ yield_byte c (read_literal between s)
read_octal c s h =
    rw
      (
        read_backslash ((b'0' + c / 64) ∷ ((b'0' + c / 8 % 8) ∷ ((b'0' + c % 8) ∷ s))),
        read_octal_first (c / 64) ((b'0' + c / 8 % 8) ∷ ((b'0' + c % 8) ∷ s)) (omega arith),
        read_octal_second (c / 64) (c / 8 % 8) ((b'0' + c % 8) ∷ s) (omega arith),
        read_octal_last (c / 64 * 8 + c / 8 % 8) (c % 8) s (omega arith) (omega arith),
        octal_value c,
      )
      refl

read_quoted :
    (c : ℕ) (s : Bytes)
    → (c == b'"' || c == b'\\') ≡ true
    → read_literal between (b'\\' ∷ (c ∷ s)) ≡ yield_byte c (read_literal between s)
unfolding read_literal
read_quoted c s h = ground arith

read_printable :
    (c : ℕ) (s : Bytes)
    → (c == b'"' || c == b'\\') ≡ false
    → is_printable c ≡ true
    → read_literal between (c ∷ s) ≡ yield_byte c (read_literal between s)
unfolding read_literal
read_printable c s h p = ground arith

read_literal-escape_byte :
    (c : ℕ) (s : Bytes)
    → c < 256
    → read_literal between (escape_byte c ++ s) ≡ yield_byte c (read_literal between s)
unfolding escape_byte
read_literal-escape_byte c s h = elim (Bool-cases (c == b'"' || c == b'\\')) [
  | inl e ↦ rw e (read_quoted c s e)
  | inr d ↦ elim (Bool-cases (is_printable c)) [
    | inl e ↦ rw (d, e) (read_printable c s d e)
    | inr f ↦ rw (d, f) (read_octal c s h)
  ]
]

read-escape : (s : Bytes) → All (λ c. c < 256) s → read_literal between (escape_c_string s) ≡ some s
unfolding escape_c_string
read-escape [] h = unfold read_literal in refl
read-escape (c ∷ s) (h, hs) =
    rw (read_literal-escape_byte c (escape_c_string s) h, read-escape s hs) refl

-- A compiler reads an escaped text of bytes as that text, whatever bytes it holds: no quote ends the
-- literal early, and no digit behind an octal escape is taken for a part of it.
pub read_literal-escape_c_string :
    (s : Bytes) → All (λ c. c < 256) s → read_literal between (escape_c_string s) ≡ some s
read_literal-escape_c_string s h = read-escape s h
