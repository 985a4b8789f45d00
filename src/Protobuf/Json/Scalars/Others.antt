-- ===== src/Protobuf/Json/Scalars/Others.antt =====
-- To write one field leaves the others as they are.
use qtgrpc.Prelude.{ℕ, ◌≡◌, refl, ◌∙◌, arith, false, Bool-cases, inl, inr}
use qtgrpc.Prelude.Ascii.{same_bytes, same_bytes-eq}
use qtgrpc.Protobuf.Json.{
  Text, Json, Members, end, member, value, contains, assign, add_sorted, insert,
}
use qtgrpc.Protobuf.Json.Keys.{is_key_of, find_key}
use qtgrpc.Protobuf.Json.Objects.{Has, find_key-assign, same_bytes-is_key_of}

module _ (to_upper : ℕ → ℕ) where
  find_key-add_other :
      (name key : Text) (v : Json) (obj : Members)
      → is_key_of to_upper name key ≡ false
      → find_key to_upper name (add_sorted key v obj) ≡ find_key to_upper name obj
  unfolding find_key add_sorted
  find_key-add_other name key v end h = rw h refl
  find_key-add_other name key v (member k w rest) h =
      ground (arith, find_key-add_other name key v rest)

  pub find_key-insert_other :
      (name key : Text) (v : Json) (obj : Members)
      → is_key_of to_upper name key ≡ false
      → find_key to_upper name (insert key v obj) ≡ find_key to_upper name obj
  unfolding insert
  find_key-insert_other name key v obj h = elim (Bool-cases (contains key obj)) [
    | inl e ↦ rw e (find_key-assign to_upper name key v obj)
    | inr e ↦ rw e (find_key-add_other name key v obj h)
  ]

  value-assign_other :
      (name key : Text) (v : Json) (obj : Members)
      → same_bytes key name ≡ false
      → value name (assign key v obj) ≡ value name obj
  unfolding value assign
  value-assign_other name key v end h = refl
  value-assign_other name key v (member k w rest) h = elim (Bool-cases (same_bytes k key)) [
    | inl e ↦
        let other : same_bytes k name ≡ false = rw (same_bytes-eq k key e) h in rw (e, other) refl
    | inr e ↦ rw (e, value-assign_other name key v rest h) refl
  ]

  value-add_other :
      (name key : Text) (v : Json) (obj : Members)
      → same_bytes key name ≡ false
      → value name (add_sorted key v obj) ≡ value name obj
  unfolding value add_sorted
  value-add_other name key v end h = rw h refl
  value-add_other name key v (member k w rest) h = ground (arith, value-add_other name key v rest)

  different : (name key : Text) → is_key_of to_upper name key ≡ false → same_bytes key name ≡ false
  different name key h = elim (Bool-cases (same_bytes key name)) [
    | inl e ↦ absurd (cc (same_bytes-is_key_of to_upper key name e, h))
    | inr e ↦ e
  ]

  value-insert_other :
      (name key : Text) (v : Json) (obj : Members)
      → is_key_of to_upper name key ≡ false
      → value name (insert key v obj) ≡ value name obj
  unfolding insert
  value-insert_other name key v obj h = elim (Bool-cases (contains key obj)) [
    | inl e ↦ rw e (value-assign_other name key v obj (different name key h))
    | inr e ↦ rw e (value-add_other name key v obj (different name key h))
  ]

  pub Has-insert_other :
      (name key : Text) (v w : Json) (obj : Members)
      → is_key_of to_upper name key ≡ false
      → Has to_upper name v obj
      → Has to_upper name v (insert key w obj)
  Has-insert_other name key v w obj h p = record {
    found = find_key-insert_other name key w obj h ∙ p.found;
    valued = value-insert_other name key w obj h ∙ p.valued;
  }
