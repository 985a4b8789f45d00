-- ===== src/Protobuf/Json/Written.antt =====
-- The array that the messages of a repeated field are written to.
use qtgrpc.Prelude.{
  ℕ, ◌+◌, ◌≡◌, refl, sym, ap, ◌∙◌, subst, arith, true, false, Bool-cases, inl, inr, none, some,
  List, [], ◌∷◌,
}
use qtgrpc.Protobuf.Ordering.{PropertyOrdering, json_name, field_flags, test_any_flags}
use qtgrpc.Protobuf.Json.{
  Text, Json, object, array, Items, nil, cons, Members, end, append, to_array,
}
use qtgrpc.Protobuf.Json.Keys.{find_key}
use qtgrpc.Protobuf.Json.Objects.{Has, Has-insert_fresh, Has-insert, find_key-value}
use qtgrpc.Protobuf.Json.Reader.{flag_repeated, repeated_messages, kind_of}
use qtgrpc.Protobuf.Json.Writer.{
  JsonSerializer, reset, must_serialize_default_value, serialize_scalar_field, append_to,
  store_message, end_in, serialize_message_field_begin, serialize_message_field_end,
  serialize_message_field,
}
use qtgrpc.Protobuf.Json.Scalars.{Field, write_scalars}

-- What the message of these fields is written as.
unfoldable pub content : PropertyOrdering → List Field → Members
content child fs = (write_scalars child 0 fs reset).result

unfoldable pub objects : PropertyOrdering → List (List Field) → Items
objects child [] = nil
objects child (fs ∷ ms) = cons (object (content child fs)) (objects child ms)

-- The messages of a repeated field, one after the other; each is given by its fields, which are
-- scalar.
unfoldable pub write_messages :
    PropertyOrdering → ℕ → Text → List (List Field) → JsonSerializer → JsonSerializer
write_messages child flags name [] d = d
write_messages child flags name (fs ∷ ms) d =
    write_messages child flags name ms
      (serialize_message_field (write_scalars child 0 fs) flags name [] d)

abbrev bare : JsonSerializer → JsonSerializer
bare d = record { result = d.result; state = [] }

-- To write the fields leaves the objects that wait as they are, and does not depend on them.
abbrev on_its_own : PropertyOrdering → ℕ → List Field → JsonSerializer → Members
on_its_own o i fs d = (write_scalars o i fs (bare d)).result

field_step :
    (flags : ℕ) (name : Text) (f : Field) (d : JsonSerializer)
    → (serialize_scalar_field flags name (some f) d).1 ≡ record {
      result = (serialize_scalar_field flags name (some f) (bare d)).1.result;
      state = d.state;
    }
unfolding serialize_scalar_field
field_step flags name (v, true) d = refl
field_step flags name (v, false) d = elim (Bool-cases (must_serialize_default_value flags)) [
  | inl e ↦ rw e refl
  | inr e ↦ rw e refl
]

write_scalars_alone :
    (o : PropertyOrdering) (fs : List Field) (i : ℕ) (d : JsonSerializer)
    → write_scalars o i fs d ≡ record { result = on_its_own o i fs d; state = d.state }
unfolding write_scalars
write_scalars_alone o [] i d = refl
write_scalars_alone o (f ∷ fs) i d =
    let flags = field_flags o i in
    let name = json_name o i in
    let after : JsonSerializer = record {
      result = (serialize_scalar_field flags name (some f) (bare d)).1.result;
      state = d.state;
    } in
    ap (write_scalars o (i + 1) fs) (field_step flags name f d)
    ∙ write_scalars_alone o fs (i + 1) after
    ∙ ap
        (λ (e : JsonSerializer). record {
          result = (write_scalars o (i + 1) fs e).result;
          state = d.state;
        })
        (sym (field_step flags name f (bare d)))

abbrev cat : Items → Items → Items
cat nil ys = ys
cat (cons x xs) ys = cons x (cat xs ys)

cat-append : (xs : Items) (v : Json) (ys : Items) → cat (append xs v) ys ≡ cat xs (cons v ys)
unfolding append
cat-append nil v ys = refl
cat-append (cons x xs) v ys = ap (cons x) (cat-append xs v ys)

cat-nil : (xs : Items) → cat xs nil ≡ xs
cat-nil nil = refl
cat-nil (cons x xs) = ap (cons x) (cat-nil xs)

append_step :
    (child : PropertyOrdering) (flags : ℕ) (name : Text) (fs : List Field) (d : JsonSerializer)
    → test_any_flags flags flag_repeated ≡ true
    → serialize_message_field (write_scalars child 0 fs) flags name [] d
      ≡ record { result = append_to name (object (content child fs)) d.result; state = d.state }
unfolding serialize_message_field serialize_message_field_begin serialize_message_field_end end_in
    store_message content
append_step child flags name fs d h =
    rw (write_scalars_alone child fs 0 (record { result = end; state = d.result ∷ d.state }), h)
      refl

write_messages_step :
    (child : PropertyOrdering) (flags : ℕ) (name : Text) (fs : List Field) (ms : List (List Field))
    (d : JsonSerializer)
    → test_any_flags flags flag_repeated ≡ true
    → write_messages child flags name (fs ∷ ms) d
      ≡ write_messages child flags name ms
          (record { result = append_to name (object (content child fs)) d.result; state = d.state })
unfolding write_messages
write_messages_step child flags name fs ms d h =
    ap (write_messages child flags name ms) (append_step child flags name fs d h)

pub kind_of-repeated :
    (flags : ℕ) → kind_of flags ≡ repeated_messages → test_any_flags flags flag_repeated ≡ true
unfolding kind_of
kind_of-repeated flags h = ground arith

module _ (to_upper : ℕ → ℕ) where
  Has-append_to :
      (name : Text) (v : Json) (xs : Items) (obj : Members)
      → Has to_upper name (array xs) obj
      → Has to_upper name (array (append xs v)) (append_to name v obj)
  unfolding append_to to_array
  Has-append_to name v xs obj h =
      rw h.valued (Has-insert to_upper name (array xs) (array (append xs v)) obj h)

  append_to-fresh :
      (name : Text) (v : Json) (obj : Members)
      → find_key to_upper name obj ≡ none
      → Has to_upper name (array (cons v nil)) (append_to name v obj)
  unfolding append_to to_array append
  append_to-fresh name v obj h =
      rw (find_key-value to_upper name obj h)
        (Has-insert_fresh to_upper name (array (cons v nil)) obj h)

  -- The array that is there, with the objects behind it.
  write_messages-Has :
      (child : PropertyOrdering) (flags : ℕ) (name : Text) (ms : List (List Field)) (xs : Items)
      (d : JsonSerializer)
      → test_any_flags flags flag_repeated ≡ true
      → Has to_upper name (array xs) d.result
      → Has to_upper name
          (array (cat xs (objects child ms)))
          (write_messages child flags name ms d).result
  unfolding objects
  write_messages-Has child flags name [] xs d r h =
      unfold write_messages in
      subst (λ v. Has to_upper name (array v) d.result) (sym (cat-nil xs)) h
  write_messages-Has child flags name (fs ∷ ms) xs d r h =
      let v = object (content child fs) in
      let d' : JsonSerializer = record { result = append_to name v d.result; state = d.state } in
      let step = Has-append_to name v xs d.result h in
      rw (write_messages_step child flags name fs ms d r, ← cat-append xs v (objects child ms))
        (write_messages-Has child flags name ms (append xs v) d' r step)

  -- The messages of a field that the object does not have yet.
  pub write_messages-fresh :
      (child : PropertyOrdering) (flags : ℕ) (name : Text) (fs : List Field)
      (ms : List (List Field)) (d : JsonSerializer)
      → test_any_flags flags flag_repeated ≡ true
      → find_key to_upper name d.result ≡ none
      → Has to_upper name
          (array (objects child (fs ∷ ms)))
          (write_messages child flags name (fs ∷ ms) d).result
  unfolding objects
  write_messages-fresh child flags name fs ms d r h =
      let v = object (content child fs) in
      let d' : JsonSerializer = record { result = append_to name v d.result; state = d.state } in
      rw (write_messages_step child flags name fs ms d r) (
        write_messages-Has child flags name ms (cons v nil) d' r
          (append_to-fresh name v d.result h))
