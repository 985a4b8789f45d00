-- ===== src/Protobuf/Json/Scalars/Ready.antt =====
-- What the object holds once the fields have been written.
use qtgrpc.Prelude.{
  ℕ, ◌+◌, ◌<◌, ◌≤◌, ◌≡◌, ◌≢◌, refl, ◌∙◌, arith, Bool, true, false, if◌then◌else◌, none, some, List,
  [], ◌∷◌, length, Bool-cases, inl, inr,
}
use qtgrpc.Protobuf.Ordering.{PropertyOrdering, json_name, field_flags}
use qtgrpc.Protobuf.Json.{Text, Json, Members, insert}
use qtgrpc.Protobuf.Json.Keys.{is_key_of, find_key}
use qtgrpc.Protobuf.Json.Objects.{Has, Has-insert_fresh}
use qtgrpc.Protobuf.Json.Writer.{
  JsonSerializer, must_serialize_default_value, serialize_scalar_field,
}
use qtgrpc.Protobuf.Json.Scalars.{Field, write_scalars, is_written}
use qtgrpc.Protobuf.Json.Scalars.Others.{find_key-insert_other, Has-insert_other}

module _ (to_upper : ℕ → ℕ) (o : PropertyOrdering) where
  -- The object has the fields that are not left out, and no key for the others.
  abbrev pub IsFirst : Members → ℕ → Json → Bool → Type 0
  IsFirst obj i v true = Has to_upper (json_name o i) v obj
  IsFirst obj i v false = find_key to_upper (json_name o i) obj ≡ none

  abbrev pub IsReady : Members → ℕ → List Field → Type 0
  IsReady obj i [] = Unit {0}
  IsReady obj i ((v, present) ∷ fs) =
      IsFirst obj i v (is_written (field_flags o i) present) × IsReady obj (i + 1) fs

  -- The names of two fields are not taken for one another.
  abbrev pub IsApart : Type 0
  IsApart =
      (i j : ℕ)
      → i < o.num_fields
      → j < o.num_fields
      → i ≢ j
      → is_key_of to_upper (json_name o i) (json_name o j) ≡ false

  written_field :
      (flags : ℕ) (name : Text) (v : Json) (present : Bool) (d : JsonSerializer)
      → (serialize_scalar_field flags name (some (v, present)) d).1.result
        ≡ (if is_written flags present then insert name v d.result else d.result)
  unfolding serialize_scalar_field is_written
  written_field flags name v true d = refl
  written_field flags name v false d = elim (Bool-cases (must_serialize_default_value flags)) [
    | inl e ↦ rw e refl
    | inr e ↦ rw e refl
  ]

  module _ (apart : IsApart) where
    keeps_none :
        (fs : List Field) (k i : ℕ) (d : JsonSerializer)
        → k < i
        → i + length fs ≤ o.num_fields
        → find_key to_upper (json_name o k) d.result ≡ none
        → find_key to_upper (json_name o k) (write_scalars o i fs d).result ≡ none
    unfolding write_scalars
    keeps_none [] k i d lt le h = h
    keeps_none ((v, present) ∷ fs) k i d lt le h =
        keeps_none fs k (i + 1)
          (serialize_scalar_field (field_flags o i) (json_name o i) (some (v, present)) d).1
          (omega arith) (omega arith)
          (rw (written_field (field_flags o i) (json_name o i) v present d)
            (elim (Bool-cases (is_written (field_flags o i) present)) [
              | inl e ↦ rw e (
                  find_key-insert_other to_upper (json_name o k) (json_name o i) v d.result
                    (apart k i (omega arith) (omega arith) (λ q. absurd (omega (arith, q))))
                  ∙ h)
              | inr e ↦ rw e h
            ]))

    keeps_Has :
        (fs : List Field) (k i : ℕ) (w : Json) (d : JsonSerializer)
        → k < i
        → i + length fs ≤ o.num_fields
        → Has to_upper (json_name o k) w d.result
        → Has to_upper (json_name o k) w (write_scalars o i fs d).result
    unfolding write_scalars
    keeps_Has [] k i w d lt le h = h
    keeps_Has ((v, present) ∷ fs) k i w d lt le h =
        keeps_Has fs k (i + 1) w
          (serialize_scalar_field (field_flags o i) (json_name o i) (some (v, present)) d).1
          (omega arith) (omega arith)
          (rw (written_field (field_flags o i) (json_name o i) v present d)
            (elim (Bool-cases (is_written (field_flags o i) present)) [
              | inl e ↦ rw e (
                  Has-insert_other to_upper (json_name o k) (json_name o i) w v d.result
                    (apart k i (omega arith) (omega arith) (λ q. absurd (omega (arith, q)))) h)
              | inr e ↦ rw e h
            ]))

    pub ready :
        (fs : List Field) (i : ℕ) (d : JsonSerializer)
        → i + length fs ≤ o.num_fields
        → ((j : ℕ) → i ≤ j → j < o.num_fields → find_key to_upper (json_name o j) d.result ≡ none)
        → IsReady (write_scalars o i fs d).result i fs
    unfolding write_scalars
    ready [] i d le fresh = tt
    ready ((v, present) ∷ fs) i d le fresh =
        let flags = field_flags o i in
        let name = json_name o i in
        let d' = (serialize_scalar_field flags name (some (v, present)) d).1 in
        let result = written_field flags name v present d in
        elim (Bool-cases (is_written flags present)) [
          | inl e ↦ rw e (
            keeps_Has fs i (i + 1) v d' (omega arith) (omega arith) (
                rw (result, e)
                  (Has-insert_fresh to_upper name v d.result
                    (fresh i (omega arith) (omega arith)))),
            ready fs (i + 1) d' (omega arith) (λ j above below.
                rw (result, e)
                  (find_key-insert_other to_upper (json_name o j) name v d.result
                      (apart j i below (omega arith) (λ q. absurd (omega (arith, above, q))))
                    ∙ fresh j (omega (arith, above)) below)),
          )
          | inr e ↦ rw e (
            keeps_none fs i (i + 1) d' (omega arith) (omega arith)
                (rw (result, e) (fresh i (omega arith) (omega arith))),
            ready fs (i + 1) d' (omega arith)
                (λ j above below. rw (result, e) (fresh j (omega (arith, above)) below)),
          )
        ]
