-- ===== src/Generator/Text/Headers.antt =====
-- The order of the headers that the generated code includes.
use qtgrpc.Prelude.{◌≡◌, refl, arith, true, false, [], ◌∷◌}
use qtgrpc.Generator.Text.{Bytes, less_bytes, header_less}

less_bytes_asym : (a b : Bytes) → less_bytes a b ≡ true → less_bytes b a ≡ false
unfolding less_bytes
less_bytes_asym a [] h = ground arith
less_bytes_asym [] (y ∷ ys) h = refl
less_bytes_asym (x ∷ xs) (y ∷ ys) h = ground (arith, less_bytes_asym xs ys)

less_bytes_connected : (a b : Bytes) → less_bytes a b ≡ false → less_bytes b a ≡ false → a ≡ b
unfolding less_bytes
less_bytes_connected [] [] h k = refl
less_bytes_connected [] (y ∷ ys) h k = cc
less_bytes_connected (x ∷ xs) [] h k = cc
less_bytes_connected (x ∷ xs) (y ∷ ys) h k = ground (arith, less_bytes_connected xs ys)

less_bytes_trans :
    (a b c : Bytes) → less_bytes a b ≡ true → less_bytes b c ≡ true → less_bytes a c ≡ true
unfolding less_bytes
less_bytes_trans a b [] h k = ground arith
less_bytes_trans a [] (z ∷ zs) h k = ground arith
less_bytes_trans [] (y ∷ ys) (z ∷ zs) h k = refl
less_bytes_trans (x ∷ xs) (y ∷ ys) (z ∷ zs) h k = ground (arith, less_bytes_trans xs ys zs)

-- The comparison of two headers orders them strictly: it is transitive, and never holds both ways.
header_less_trans :
    (a b c : Bytes)
    → header_less a b ≡ true
    → header_less b c ≡ true
    → (header_less a c ≡ true) × (header_less c a ≡ false)
unfolding header_less
header_less_trans a b c h k =
    let t = less_bytes_trans a b c in
    (ground (arith, t), ground (arith, t, less_bytes_asym a c, less_bytes_asym b c))

-- Two headers of which none comes first are the same, so a set that is ordered by the comparison
-- loses none.
header_less_connected : (a b : Bytes) → header_less a b ≡ false → header_less b a ≡ false → a ≡ b
unfolding header_less
header_less_connected a b h k = ground (arith, less_bytes_connected a b)
