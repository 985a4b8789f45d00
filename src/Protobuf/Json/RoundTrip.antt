-- ===== src/Protobuf/Json/RoundTrip.antt =====
-- Repeated messages, from the objects that are written to those that are handed out.
use qtgrpc.Prelude.{
  ℕ, zero, suc, ◌-◌, ◌<◌, ◌≤◌, ◌==◌, ◌≡◌, refl, ap, ◌∙◌, arith, true, false, Option, none, some,
  List, [], ◌∷◌, map, length, All,
}
use qtgrpc.Protobuf.Ordering.{PropertyOrdering, json_name, field_flags}
use qtgrpc.Protobuf.Deserializer.{Error}
use qtgrpc.Protobuf.Json.{Json, undefined, null, object, array, Items, cons, Members, insert}
use qtgrpc.Protobuf.Json.Keys.{find_key}
use qtgrpc.Protobuf.Json.Written.{
  content, objects, write_messages, kind_of-repeated, write_messages-fresh,
}
use qtgrpc.Protobuf.Json.Objects.{Has, Has-insert}
use qtgrpc.Protobuf.Json.Reader.{
  JsonDeserializerState, fresh_state, JsonDeserializer, repeated_messages, scalar, kind_of, visit,
  visit_value, visit_kind, visit_repeated, visit_element, finds, push_state, index_loop, index_from,
  next_field_index,
}
use qtgrpc.Protobuf.Json.Writer.{JsonSerializer, reset}
use qtgrpc.Protobuf.Json.Scalars.{Field, written, read_message}
use qtgrpc.Protobuf.Json.Scalars.Ready.{IsApart}
use qtgrpc.Protobuf.Json.Scalars.RoundTrip.{none_null, read_message-write_scalars}

module _ (to_upper : ℕ → ℕ) where
  -- The messages of a field, one after the other: where the outer message is asked for its next
  -- field and has found one, a message is read to its end before the outer one is asked again.
  unfoldable pub then_message :
      Option ℕ × JsonDeserializer
      → (JsonDeserializer → List (ℕ × Json) × JsonDeserializer)
      → (JsonDeserializer → List (ℕ × List (ℕ × Json)))
      → List (ℕ × List (ℕ × Json))
  then_message (none, d) read next = []
  then_message (some i, d) read next = let (values, d') = read d in (i, values) ∷ next d'

  unfoldable pub hand_out :
      PropertyOrdering → PropertyOrdering → ℕ → JsonDeserializer → List (ℕ × List (ℕ × Json))
  unfolding then_message
  hand_out o child zero d = []
  hand_out o child (suc k) d =
      then_message (next_field_index to_upper o d)
        (read_message to_upper child (suc child.num_fields)) (hand_out o child k)

  visit-Has :
      (o : PropertyOrdering) (s : JsonDeserializerState) (m : Members) (rest : Items)
      → kind_of (field_flags o s.index) ≡ repeated_messages
      → Has to_upper (json_name o s.index) (array (cons (object m) rest)) s.obj
      → visit to_upper o s
        ≡ finds (record s { obj = insert (json_name o s.index) (array rest) s.obj }) (some m)
  unfolding visit
  visit-Has o s m rest k h =
      rw (h.found, visit, h.valued, k)
        (unfold visit_value visit_kind visit_repeated visit_element in refl)

  index_loop-Has :
      (o : PropertyOrdering) (rounds : ℕ) (s : JsonDeserializerState)
      (below : List JsonDeserializerState) (e : Error) (m : Members) (rest : Items)
      → kind_of (field_flags o s.index) ≡ repeated_messages
      → Has to_upper (json_name o s.index) (array (cons (object m) rest)) s.obj
      → index_loop to_upper o (suc rounds) s below e ≡ (
        some s.index,
        record {
          states =
              fresh_state m
              ∷ (record s { obj = insert (json_name o s.index) (array rest) s.obj } ∷ below);
          last_error = e;
        },
      )
  unfolding index_loop
  index_loop-Has o rounds s below e m rest k h =
      rw (visit-Has o s m rest k h, index_loop) (unfold push_state in refl)

  next_field_index-Has :
      (o : PropertyOrdering) (s : JsonDeserializerState) (below : List JsonDeserializerState)
      (e : Error) (m : Members) (rest : Items)
      → s.index < o.num_fields
      → kind_of (field_flags o s.index) ≡ repeated_messages
      → Has to_upper (json_name o s.index) (array (cons (object m) rest)) s.obj
      → next_field_index to_upper o (record { states = s ∷ below; last_error = e }) ≡ (
        some s.index,
        record {
          states =
              fresh_state m
              ∷ (record {
                obj = insert (json_name o s.index) (array rest) s.obj;
                index = s.index;
                scalar_value = null;
              }
                  ∷ below);
          last_error = e;
        },
      )
  unfolding next_field_index index_from
  next_field_index-Has o s below e m rest lt k h =
      let r : o.num_fields - s.index ≡ suc (o.num_fields - s.index - 1) = omega arith in
      let some_fields : (o.num_fields == 0) ≡ false = ground arith in
      rw (some_fields, r)
        (index_loop-Has o (o.num_fields - s.index - 1) (record s { scalar_value = null }) below e m
          rest k (record { found = h.found; valued = h.valued }))

  then_message-some :
      (i : ℕ) (d after : JsonDeserializer) (values : List (ℕ × Json))
      (read : JsonDeserializer → List (ℕ × Json) × JsonDeserializer)
      (next : JsonDeserializer → List (ℕ × List (ℕ × Json)))
      → read d ≡ (values, after)
      → then_message (some i, d) read next ≡ (i, values) ∷ next after
  unfolding then_message
  then_message-some i d after values read next h = rw h refl

  module _ (o child : PropertyOrdering) where
    -- A message of the type, none of whose values is null.
    abbrev pub IsFilled : List Field → Type 0
    IsFilled fs = length fs ≡ child.num_fields × none_null fs ≡ true

    module _ (scalars : (i : ℕ) → i < child.num_fields → kind_of (field_flags child i) ≡ scalar)
        (apart : IsApart to_upper child) (some_fields : 1 ≤ child.num_fields) where
      -- What is left of a field is handed out in order.
      hand_out-Has :
          (ms : List (List Field)) (s : JsonDeserializerState) (below : List JsonDeserializerState)
          (e : Error)
          → s.index < o.num_fields
          → kind_of (field_flags o s.index) ≡ repeated_messages
          → All IsFilled ms
          → Has to_upper (json_name o s.index) (array (objects child ms)) s.obj
          → hand_out o child (length ms) (record { states = s ∷ below; last_error = e })
            ≡ map (λ (fs : List Field). (s.index, written child 0 fs)) ms
      unfolding hand_out objects
      hand_out-Has [] s below e lt k f h = refl
      hand_out-Has (fs ∷ ms) s below e lt k ((l, n), f) h =
          let name = json_name o s.index in
          let s' : JsonDeserializerState = record {
            obj = insert name (array (objects child ms)) s.obj;
            index = s.index;
            scalar_value = null;
          } in
          rw (next_field_index-Has o s below e (content child fs) (objects child ms) lt k h) (
            then_message-some s.index
              (record { states = fresh_state (content child fs) ∷ s' ∷ below; last_error = e })
              (record { states = s' ∷ below; last_error = e }) (written child 0 fs)
              (read_message to_upper child (suc child.num_fields)) (hand_out o child (length ms))
              (unfold content in
                read_message-write_scalars to_upper child scalars fs reset (s' ∷ below) e apart
                  some_fields l n (λ j lt'. unfold find_key in refl))
            ∙ ap (λ xs. (s.index, written child 0 fs) ∷ xs)
                (hand_out-Has ms s' below e lt k f (
                  Has-insert to_upper name (array (objects child (fs ∷ ms)))
                    (array (objects child ms)) s.obj h)))

      -- The messages of a repeated field that the JSON serializer writes into an object that does not
      -- have the field yet are handed out for that field, each once, in order and with the values
      -- that are not left out. The field is a field of the outer message; the messages have no
      -- serializer of their own, and have fields, which are scalar; no value is null in JSON, and the
      -- names of two fields of a message are not taken for one another.
      pub hand_out-write_messages :
          (i : ℕ) (fs : List Field) (ms : List (List Field)) (d : JsonSerializer)
          (below : List JsonDeserializerState) (e : Error)
          → i < o.num_fields
          → kind_of (field_flags o i) ≡ repeated_messages
          → All IsFilled (fs ∷ ms)
          → find_key to_upper (json_name o i) d.result ≡ none
          → hand_out o child (length (fs ∷ ms)) (record {
            states =
                record {
                  obj = (write_messages child (field_flags o i) (json_name o i) (fs ∷ ms) d).result;
                  index = i;
                  scalar_value = undefined;
                }
                ∷ below;
            last_error = e;
          })
            ≡ map (λ (m : List Field). (i, written child 0 m)) (fs ∷ ms)
      hand_out-write_messages i fs ms d below e lt k f h = hand_out-Has (fs ∷ ms) _ below e lt k f (
          write_messages-fresh to_upper child (field_flags o i) (json_name o i) fs ms d
            (kind_of-repeated (field_flags o i) k) h)
