-- ===== src/Protobuf/Json/Verdict.antt =====
-- What deserializeMessage of QProtobufJsonSerializer returns: the loop of the deserializer base over
-- the fields that the JSON object has. What is read into a value is a parameter.
use qtgrpc.Prelude.{
  ℕ, suc, ◌-◌, ◌<◌, ◌==◌, ◌≡◌, refl, arith, Bool, true, false, none, some, List, [], ◌∷◌,
}
use qtgrpc.Protobuf.Ordering.{PropertyOrdering, json_name, field_flags}
use qtgrpc.Protobuf.Deserializer.{Error, no_error, invalid_format}
use qtgrpc.Protobuf.DeserializerBase.{
  Properties, Format, Outcome, fuel_used, stops, store_cached_value, check_required_fields,
  conclude, finish_message, on_next, field_loop, deserialize_message,
}
use qtgrpc.Protobuf.Json.{Text, null, string, Members, end, member, value}
use qtgrpc.Protobuf.Json.Keys.{find_key}
use qtgrpc.Protobuf.Json.Reader.{
  JsonDeserializerState, fresh_state, JsonDeserializer, repeated_messages, kind_of, fails, visit,
  visit_value, visit_kind, visit_repeated, index_loop, index_from, next_field_index, reset,
  an_object, read_document,
}

-- `hasError`
unfoldable pub is_error : Error → Bool
is_error no_error = false
is_error _ = true

module _ (Value Message : Type 0) where
  -- The JSON format, on the messages of a type.
  abbrev pub json_format :
      (ℕ → ℕ)
      → PropertyOrdering
      → (ℕ → Value → JsonDeserializer → Bool × Value × JsonDeserializer)
      → Format Value Message JsonDeserializer
  json_format to_upper o read = record {
    next_field_index = next_field_index to_upper o;
    read_value = read;
    set_error = λ e d. record d { last_error = e };
    has_error = λ d. is_error d.last_error;
  }

  module _ (to_upper : ℕ → ℕ) (q : Properties Value Message JsonDeserializer)
      (read : ℕ → Value → JsonDeserializer → Bool × Value × JsonDeserializer)
      (o : PropertyOrdering) where
    unfoldable pub verdict :
        Outcome Value Message JsonDeserializer q (json_format to_upper o read)
        → JsonDeserializer
        → Bool × JsonDeserializer
    verdict fuel_used d = (false, d)
    verdict (stops result message d') d = (result, d')

    -- `deserializeMessage` of the deserializer, which does not enforce required fields.
    unfoldable pub walk : ℕ → Message → JsonDeserializer → Bool × JsonDeserializer
    walk fuel message d =
        verdict
          (deserialize_message Value Message JsonDeserializer q (json_format to_upper o read) false
            o fuel message d)
          d

    -- The loop ends with true wherever there is no further field, an error or not.
    walk-next_field_index :
        (fuel : ℕ) (message : Message) (d d' : JsonDeserializer)
        → next_field_index to_upper o d ≡ (none, d')
        → walk (suc fuel) message d ≡ (true, d')
    unfolding walk verdict deserialize_message field_loop on_next finish_message store_cached_value
        conclude check_required_fields
    walk-next_field_index fuel message d d' h = rw h refl

    visit-fails :
        (s : JsonDeserializerState) (key t : Text)
        → kind_of (field_flags o s.index) ≡ repeated_messages
        → find_key to_upper (json_name o s.index) s.obj ≡ some key
        → value key s.obj ≡ string t
        → visit to_upper o s ≡ fails s
    unfolding visit
    visit-fails s key t k f v =
        rw (f, visit, v, k) (unfold visit_value visit_kind visit_repeated in refl)

    index_loop-fails :
        (rounds : ℕ) (s : JsonDeserializerState) (below : List JsonDeserializerState) (e : Error)
        → visit to_upper o s ≡ fails s
        → index_loop to_upper o (suc rounds) s below e
          ≡ (none, record { states = s ∷ below; last_error = invalid_format })
    unfolding index_loop
    index_loop-fails rounds s below e h = rw (h, index_loop) refl

    next_field_index-fails :
        (s : JsonDeserializerState) (below : List JsonDeserializerState) (e : Error) (key t : Text)
        → s.index < o.num_fields
        → kind_of (field_flags o s.index) ≡ repeated_messages
        → find_key to_upper (json_name o s.index) s.obj ≡ some key
        → value key s.obj ≡ string t
        → next_field_index to_upper o (record { states = s ∷ below; last_error = e }) ≡ (
          none,
          record { states = record s { scalar_value = null } ∷ below; last_error = invalid_format },
        )
    unfolding next_field_index index_from
    next_field_index-fails s below e key t lt k f v =
        let r : o.num_fields - s.index ≡ suc (o.num_fields - s.index - 1) = omega arith in
        let some_fields : (o.num_fields == 0) ≡ false = ground arith in
        let s' = record s { scalar_value = null } in
        rw (some_fields, r)
          (index_loop-fails (o.num_fields - s.index - 1) s' below e (visit-fails s' key t k f v))

    -- An object whose first field holds repeated messages, and has a text in the JSON instead of an
    -- array: the call returns true, and the error is set all the same.
    pub read_document-fails :
        (fuel : ℕ) (message : Message) (obj : Members) (key t : Text) (d : JsonDeserializer)
        → 0 < o.num_fields
        → kind_of (field_flags o 0) ≡ repeated_messages
        → find_key to_upper (json_name o 0) obj ≡ some key
        → value key obj ≡ string t
        → read_document (walk (suc fuel) message) (an_object obj) d
          ≡ (true, record { states = []; last_error = invalid_format })
    unfolding read_document reset find_key
    read_document-fails fuel message end key t d lt k f v = cc
    read_document-fails fuel message (member l w rest) key t d lt k f v =
        let fields = fresh_state (member l w rest) in
        let failed = next_field_index-fails fields [] no_error key t lt k f v in
        rw (walk-next_field_index fuel message _ _ failed) refl
