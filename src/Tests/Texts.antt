-- ===== src/Tests/Texts.antt =====
-- Runs of the functions that make the texts of the generated code.
use qtgrpc.Prelude.{◌≡◌, some, true, List, [], ◌∷◌, arith}
use qtgrpc.Prelude.Ascii.{ascii}
use qtgrpc.Generator.Text.{Bytes, split, replace, escape_c_string}
use qtgrpc.Generator.Text.Split.{join, replace-split}
use qtgrpc.Generator.Text.Escape.{between, read_literal, read_literal-escape_c_string}

replace-split_example :
    (items : List Bytes) × (split (ascii "a.b.") (ascii ".") true ≡ some items)
    × (replace (ascii "a.b.") (ascii ".") (ascii "::") ≡ some (join (ascii "::") items))
replace-split_example = replace-split (ascii "a.b.") (ascii ".") (ascii "::") (cc)

read_literal-escape_c_string_example :
    read_literal between (escape_c_string (b'"' ∷ 200 ∷ b'1' ∷ [])) ≡ some (b'"' ∷ 200 ∷ b'1' ∷ [])
read_literal-escape_c_string_example =
    read_literal-escape_c_string (b'"' ∷ 200 ∷ b'1' ∷ [])
      (omega arith, (omega arith, (omega arith, tt)))
