-- ===== src/Protobuf/Json/Objects.antt =====
-- Members of JSON objects, and the keys under which they are found.
use qtgrpc.Prelude.{ℕ, ◌≡◌, refl, arith, true, false, none, some, Bool-cases, inl, inr}
use qtgrpc.Prelude.Ascii.{same_bytes, same_bytes_refl, same_bytes-eq}
use qtgrpc.Protobuf.Json.{
  Text, Json, undefined, Members, end, member, value, contains, assign, add_sorted, insert,
}
use qtgrpc.Protobuf.Json.Keys.{is_key_of, find_key}

value-assign :
    (key : Text) (v : Json) (obj : Members)
    → contains key obj ≡ true
    → value key (assign key v obj) ≡ v
unfolding value contains assign
value-assign key v end h = cc
value-assign key v (member k w rest) h =
    ground (arith, value-assign key v rest, same_bytes_refl key)

value-add_sorted :
    (key : Text) (v : Json) (obj : Members)
    → contains key obj ≡ false
    → value key (add_sorted key v obj) ≡ v
unfolding value contains add_sorted
value-add_sorted key v end h = ground (arith, same_bytes_refl key)
value-add_sorted key v (member k w rest) h =
    ground (arith, value-add_sorted key v rest, same_bytes_refl key)

value-insert : (key : Text) (v : Json) (obj : Members) → value key (insert key v obj) ≡ v
unfolding insert
value-insert key v obj = elim (Bool-cases (contains key obj)) [
  | inl e ↦ rw e (value-assign key v obj e)
  | inr e ↦ rw e (value-add_sorted key v obj e)
]

contains-value :
    (name : Text) (obj : Members) → contains name obj ≡ false → value name obj ≡ undefined
unfolding contains value
contains-value name end h = refl
contains-value name (member k v rest) h = ground (arith, contains-value name rest)

module _ (to_upper : ℕ → ℕ) where
  pub find_key-assign :
      (name key : Text) (v : Json) (obj : Members)
      → find_key to_upper name (assign key v obj) ≡ find_key to_upper name obj
  unfolding find_key assign
  find_key-assign name key v end = refl
  find_key-assign name key v (member k w rest) = ground (arith, find_key-assign name key v rest)

  is_key_of_self : (name : Text) → is_key_of to_upper name name ≡ true
  unfolding is_key_of
  is_key_of_self name = rw (same_bytes_refl name) refl

  pub same_bytes-is_key_of :
      (k name : Text) → same_bytes k name ≡ true → is_key_of to_upper name k ≡ true
  same_bytes-is_key_of k name h = rw (same_bytes-eq k name h) (is_key_of_self name)

  find_key-contains :
      (name : Text) (obj : Members) → find_key to_upper name obj ≡ none → contains name obj ≡ false
  unfolding find_key contains
  find_key-contains name end h = refl
  find_key-contains name (member k v rest) h =
      ground (arith, same_bytes-is_key_of k name, find_key-contains name rest)

  find_key-add_sorted :
      (name : Text) (v : Json) (obj : Members)
      → find_key to_upper name obj ≡ none
      → find_key to_upper name (add_sorted name v obj) ≡ some name
  unfolding find_key add_sorted
  find_key-add_sorted name v end h = ground (arith, is_key_of_self name)
  find_key-add_sorted name v (member k w rest) h =
      ground (arith, is_key_of_self name, find_key-add_sorted name v rest)

  -- An object in which the field has a value that can be found under its name.
  pub record Has (name : Text) (v : Json) (obj : Members) : Type 0 where
    pub found : find_key to_upper name obj ≡ some name
    pub valued : value name obj ≡ v

  pub Has-insert_fresh :
      (name : Text) (v : Json) (obj : Members)
      → find_key to_upper name obj ≡ none
      → Has name v (insert name v obj)
  unfolding insert
  Has-insert_fresh name v obj h =
      let absent = find_key-contains name obj h in
      record {
        found = rw absent (find_key-add_sorted name v obj h);
        valued = rw absent (value-add_sorted name v obj absent);
      }

  found-contains :
      (name : Text) (obj : Members)
      → find_key to_upper name obj ≡ some name
      → contains name obj ≡ true
  unfolding find_key contains
  found-contains name end h = cc
  found-contains name (member k v rest) h =
      ground (arith, same_bytes_refl name, found-contains name rest)

  pub Has-insert :
      (name : Text) (w v : Json) (obj : Members) → Has name w obj → Has name v (insert name v obj)
  unfolding insert
  Has-insert name w v obj h =
      let present = found-contains name obj h.found in
      record {
        found = rw (present, find_key-assign name name v obj) h.found;
        valued = rw present (value-assign name v obj present);
      }

  pub find_key-value :
      (name : Text) (obj : Members) → find_key to_upper name obj ≡ none → value name obj ≡ undefined
  find_key-value name obj h = contains-value name obj (find_key-contains name obj h)
