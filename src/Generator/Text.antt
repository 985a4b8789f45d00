-- ===== src/Generator/Text.antt =====
-- src/tools/qtprotoccommon/utils.cpp: the texts of the generated code. A text is the list of its
-- bytes. The loops of split and replace take fuel, and none means that it ran out.
pub mod Split
pub mod Escape
pub mod Comment
pub mod Identifier
pub mod Headers
pub mod Total
use mathlib.Core.Option
use qtgrpc.Prelude.{
  ℕ, zero, suc, ◌+◌, ◌/◌, ◌%◌, if◌then◌else◌, ltb, leb, ◌==◌, Bool, true, false, not, ◌&&◌, ◌||◌,
  Option, none, some, List, [], ◌∷◌, ◌++◌, map, length, drop,
}
use qtgrpc.Prelude.Ascii.{ascii, same_bytes, starts_with}

abbrev pub Bytes : Type 0
Bytes = List ℕ

-- `find`: what stands before the first occurrence, and what stands behind it. The text that is
-- looked for is not empty.
unfoldable pub cut : Bytes → Bytes → Option (Bytes × Bytes)
cut c [] = none
cut c (x ∷ xs) =
    let rest = Option.map (λ (p : Bytes × Bytes). (x ∷ p.0, p.1)) (cut c xs) in
    if starts_with (x ∷ xs) c then some ([], drop (length c) (x ∷ xs)) else rest

-- What `emplace_back` is called with.
unfoldable pub kept_item : Bool → Bytes → List Bytes
kept_item keep_empty [] = if keep_empty then [] ∷ [] else []
kept_item keep_empty (x ∷ xs) = (x ∷ xs) ∷ []

unfoldable pub split_loop : ℕ → Bytes → Bool → Bytes → Option (List Bytes)
split_loop zero c keep_empty s = none
split_loop (suc fuel) c keep_empty s = elim (cut c s) [
  | none ↦ some (kept_item keep_empty s)
  | some (item, rest) ↦
      Option.map (λ (items : List Bytes). kept_item keep_empty item ++ items)
        (split_loop fuel c keep_empty rest)
]

unfoldable pub split : Bytes → Bytes → Bool → Option (List Bytes)
split s c keep_empty = split_loop (suc (length s)) c keep_empty s

unfoldable pub replace_loop : ℕ → Bytes → Bytes → Bytes → Option Bytes
replace_loop zero from to where' = none
replace_loop (suc fuel) from to where' = elim (cut from where') [
  | none ↦ some where'
  | some (before, rest) ↦
      Option.map (λ (out : Bytes). before ++ (to ++ out)) (replace_loop fuel from to rest)
]

unfoldable pub replace : Bytes → Bytes → Bytes → Option Bytes
replace where' from to =
    if same_bytes from to then some where' else replace_loop (suc (length where')) from to where'

-- One byte of `escapeCString`.
unfoldable pub escape_byte : ℕ → Bytes
escape_byte c =
    if c == b'"' || c == b'\\'
    then b'\\' ∷ c ∷ []
    else if leb 0x20 c && ltb c 0x7f
    then c ∷ []
    else b'\\' ∷ (b'0' + c / 64) ∷ (b'0' + c / 8 % 8) ∷ (b'0' + c % 8) ∷ []

unfoldable pub escape_c_string : Bytes → Bytes
escape_c_string [] = []
escape_c_string (c ∷ s) = escape_byte c ++ escape_c_string s

unfoldable pub escape_block_comment : Bytes → Option Bytes
escape_block_comment s = elim (replace s (ascii "*/") (ascii "* /")) [
  | none ↦ none
  | some t ↦ replace t (ascii "/*") (ascii "/ *")
]

unfoldable pub is_ascii_alpha : ℕ → Bool
is_ascii_alpha c = (leb b'A' c && leb c b'Z') || (leb b'a' c && leb c b'z')

unfoldable pub is_ascii_alnum : ℕ → Bool
unfolding is_ascii_alpha
is_ascii_alnum c = is_ascii_alpha c || (leb b'0' c && leb c b'9')

unfoldable pub valid_byte : ℕ → ℕ
valid_byte c = if is_ascii_alnum c || c == b'_' then c else b'_'

unfoldable pub to_valid_identifier : Bytes → Bytes
to_valid_identifier [] = []
to_valid_identifier (c ∷ name) =
    (if not (is_ascii_alpha c) && not (c == b'_') then b'_' ∷ [] else [])
    ++ map valid_byte (c ∷ name)

-- `<` on std::string.
unfoldable pub less_bytes : Bytes → Bytes → Bool
less_bytes xs [] = false
less_bytes [] (y ∷ ys) = true
less_bytes (x ∷ xs) (y ∷ ys) =
    let rest = less_bytes xs ys in if ltb x y then true else if x == y then rest else false

-- `HeaderComparator`
unfoldable pub header_less : Bytes → Bytes → Bool
header_less lhs rhs =
    let of_core = starts_with rhs (ascii "QtCore/") in
    if starts_with lhs (ascii "QtCore/")
    then (if of_core then less_bytes lhs rhs else false)
    else if of_core
    then true
    else less_bytes lhs rhs
