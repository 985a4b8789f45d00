-- ===== src/Generator/Text/Comment.antt =====
-- Texts in the block comments of the generated code.
use qtgrpc.Prelude.{ℕ, ◌==◌, Bool, false, ◌&&◌, ◌||◌, [], ◌∷◌}
use qtgrpc.Prelude.Ascii.{starts_with}
use qtgrpc.Generator.Text.{Bytes}

-- Two bytes stand next to one another in a text.
unfoldable pub has_pair : ℕ → ℕ → Bytes → Bool
has_pair a b [] = false
has_pair a b (x ∷ xs) = (x == a && starts_with xs (b ∷ [])) || has_pair a b xs

abbrev closing : Bytes → Bool
closing = has_pair b'*' b'/'

abbrev opened : Bytes
opened = b'/' ∷ (b'*' ∷ [])

abbrev apart : Bytes
apart = b'/' ∷ (b' ' ∷ (b'*' ∷ []))
