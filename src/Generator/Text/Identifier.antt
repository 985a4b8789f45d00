-- ===== src/Generator/Text/Identifier.antt =====
-- The identifiers of the generated code.
use qtgrpc.Prelude.{
  ℕ, ◌==◌, ◌≡◌, refl, arith, Bool, true, false, not, ◌&&◌, ◌||◌, [], ◌∷◌, map, Bool-cases, inl, inr,
}
use qtgrpc.Generator.Text.{Bytes, is_ascii_alpha, is_ascii_alnum, valid_byte, to_valid_identifier}

unfoldable pub continues : Bytes → Bool
continues [] = true
continues (c ∷ s) = (is_ascii_alnum c || c == b'_') && continues s

-- A C identifier: letters, digits and underscores, and no digit at the front.
unfoldable pub is_identifier : Bytes → Bool
is_identifier [] = false
is_identifier (c ∷ s) = (is_ascii_alpha c || c == b'_') && continues s

valid_byte_continues : (c : ℕ) → (is_ascii_alnum (valid_byte c) || valid_byte c == b'_') ≡ true
unfolding valid_byte
valid_byte_continues c = ground arith

valid_byte_fixed : (c : ℕ) → (is_ascii_alnum c || c == b'_') ≡ true → valid_byte c ≡ c
unfolding valid_byte
valid_byte_fixed c h = ground arith

map-continues : (s : Bytes) → continues (map valid_byte s) ≡ true
unfolding continues
map-continues [] = refl
map-continues (c ∷ s) = rw (valid_byte_continues c, map-continues s) refl

valid_byte_start :
    (c : ℕ)
    → (not (is_ascii_alpha c) && not (c == b'_')) ≡ false
    → (is_ascii_alpha (valid_byte c) || valid_byte c == b'_') ≡ true
unfolding valid_byte is_ascii_alnum
valid_byte_start c h = ground arith

to_valid_identifier-is_identifier :
    (c : ℕ) (name : Bytes) → is_identifier (to_valid_identifier (c ∷ name)) ≡ true
unfolding is_identifier to_valid_identifier is_ascii_alpha continues
to_valid_identifier-is_identifier c name =
    elim (Bool-cases (not (is_ascii_alpha c) && not (c == b'_'))) [
      | inl e ↦ rw e (map-continues (c ∷ name))
      | inr e ↦ rw (e, valid_byte_start c e, map-continues name) refl
    ]

map-fixed : (s : Bytes) → continues s ≡ true → map valid_byte s ≡ s
unfolding continues
map-fixed [] h = refl
map-fixed (c ∷ s) h = ground (arith, valid_byte_fixed c, map-fixed s)

identifier_fixed : (name : Bytes) → is_identifier name ≡ true → to_valid_identifier name ≡ name
unfolding is_identifier to_valid_identifier is_ascii_alnum
identifier_fixed [] h = refl
identifier_fixed (c ∷ name) h = ground (arith, valid_byte_fixed c, map-fixed name)

-- The result for a name that is not empty is an identifier of C, and it is not changed again.
to_valid_identifier_lem :
    (c : ℕ) (name : Bytes)
    → (is_identifier (to_valid_identifier (c ∷ name)) ≡ true)
      × (to_valid_identifier (to_valid_identifier (c ∷ name)) ≡ to_valid_identifier (c ∷ name))
to_valid_identifier_lem c name =
    let e = to_valid_identifier-is_identifier c name in
    (e, identifier_fixed (to_valid_identifier (c ∷ name)) e)
