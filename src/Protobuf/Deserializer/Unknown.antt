-- ===== src/Protobuf/Deserializer/Unknown.antt =====
-- The unknown fields of a message, as src/protobuf/qprotobufmessage.cpp gives them back.
use qtgrpc.Prelude.{ℕ, ◌==◌, ◌≡◌, ◌≢◌, arith, if◌then◌else◌, List, [], ◌∷◌, ◌++◌}
use qtgrpc.Protobuf.Deserializer.{UnknownEntries, store_unknown_entry}

-- `unknownEntries.value(field)`
unfoldable pub unknown_field_data : UnknownEntries → ℕ → List (List ℕ)
unknown_field_data [] field = []
unknown_field_data ((n, entries) ∷ rest) field =
    let others = unknown_field_data rest field in if n == field then entries else others

-- `unknownEntries.keys()`
unfoldable pub unknown_field_numbers : UnknownEntries → List ℕ
unknown_field_numbers [] = []
unknown_field_numbers ((n, entries) ∷ rest) = n ∷ unknown_field_numbers rest

store_same :
    (es : UnknownEntries) (entry : List ℕ) (n : ℕ)
    → unknown_field_data (store_unknown_entry es entry n) n
      ≡ unknown_field_data es n ++ (entry ∷ [])
unfolding unknown_field_data store_unknown_entry
store_same [] entry n = ground arith
store_same ((k, entries) ∷ rest) entry n = ground (arith, store_same rest entry n)

store_other :
    (es : UnknownEntries) (entry : List ℕ) (n field : ℕ)
    → n ≢ field
    → unknown_field_data (store_unknown_entry es entry n) field ≡ unknown_field_data es field
unfolding unknown_field_data store_unknown_entry
store_other [] entry n field h = ground arith
store_other ((k, entries) ∷ rest) entry n field h = ground (arith, store_other rest entry n field h)

-- A stored entry comes last among the data of its field, and the data of every other field stay.
unknown_field_data-store_unknown_entry :
    (es : UnknownEntries) (entry : List ℕ) (n field : ℕ)
    → n ≢ field
    → (unknown_field_data (store_unknown_entry es entry n) n
        ≡ unknown_field_data es n ++ (entry ∷ []))
      × (unknown_field_data (store_unknown_entry es entry n) field ≡ unknown_field_data es field)
unknown_field_data-store_unknown_entry es entry n field h =
    (store_same es entry n, store_other es entry n field h)
