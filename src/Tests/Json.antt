-- ===== src/Tests/Json.antt =====
-- Runs of the JSON serializer and deserializer.
use qtgrpc.Prelude.{
  ◌≡◌, refl, arith, Bool, true, false, some, none, List, [], ◌∷◌, ℕ, zero, suc, ◌<◌,
}
use qtgrpc.Prelude.Int.{pos, negsuc}
use qtgrpc.Prelude.Ascii.{ascii, same_bytes, starts_with}
use qtgrpc.Protobuf.DeserializerBase.{Properties}
use qtgrpc.Protobuf.Ordering.{
  PropertyOrdering, json_name, field_flags, test_any_flags, uint_data_for_index,
}
use qtgrpc.Protobuf.Deserializer.{no_error, invalid_format}
use qtgrpc.Protobuf.Json.{undefined, integer, string, end, member, value}
use qtgrpc.Protobuf.Json.Keys.{convert_loop, convert_json_key_to_json_name, is_key_of, find_key}
use qtgrpc.Protobuf.Json.Reader.{
  kind_of, scalar, repeated_messages, fresh_state, JsonDeserializer, next_field_index, an_object,
  read_document,
}
use qtgrpc.Protobuf.Json.Writer.{reset, must_serialize_default_value}
use qtgrpc.Protobuf.Json.Scalars.{Field, is_written, write_scalars, written, read_scalars}
use qtgrpc.Protobuf.Json.Scalars.Ready.{IsApart}
use qtgrpc.Protobuf.Json.Scalars.RoundTrip.{none_null, read_scalars-write_scalars}
use qtgrpc.Protobuf.Json.Written.{write_messages}
use qtgrpc.Protobuf.Json.RoundTrip.{hand_out, hand_out-write_messages}
use qtgrpc.Protobuf.Json.Stalls.{next_field_index-next_field_index}
use qtgrpc.Protobuf.Json.Verdict.{walk, read_document-fails}
use qtgrpc.Protobuf.Json.Numbers.{
  signed32, lowest, highest, serialize_list, deserialize_list, deserialize_list-serialize_list,
}

-- Nothing is capitalized.
abbrev same : ℕ → ℕ
same c = c

-- One field of repeated messages, named "a".
abbrev repeated : PropertyOrdering
repeated = record {
  num_fields = 1;
  field_number_offset = 2;
  property_index_offset = 3;
  flags_offset = 4;
  full_package_name_size = 0;
  uint_data = 0 ∷ 2 ∷ 1 ∷ 0 ∷ 0x50 ∷ [];
  char_data = 97 ∷ 0 ∷ [];
}

-- A message without fields.
abbrev empty : PropertyOrdering
empty = record {
  num_fields = 0;
  field_number_offset = 0;
  property_index_offset = 0;
  flags_offset = 0;
  full_package_name_size = 0;
  uint_data = [];
  char_data = [];
}

repeated-kind_of : kind_of (field_flags repeated 0) ≡ repeated_messages
unfolding kind_of field_flags test_any_flags uint_data_for_index
repeated-kind_of = refl

next_field_index-next_field_index_example :
    next_field_index same repeated
      (next_field_index same empty
        (record { states = fresh_state end ∷ fresh_state end ∷ []; last_error = no_error })).1
    ≡ (none, record { states = fresh_state end ∷ []; last_error = no_error })
next_field_index-next_field_index_example =
    next_field_index-next_field_index same repeated empty (fresh_state end) [] no_error refl
      (omega arith)

-- Messages that are numbers, and values that are left as they are.
abbrev numbers : Properties ℕ ℕ JsonDeserializer
numbers = record { property = λ m i. m; set_property = λ m i v. (true, v); is_null = λ v. false }

abbrev read : ℕ → ℕ → JsonDeserializer → Bool × ℕ × JsonDeserializer
read i v d = (true, v, d)

read_document-fails_example :
    read_document
      (walk ℕ ℕ same numbers read repeated 5 0)
      (an_object (member (ascii "a") (string (ascii "x")) end))
      (record { states = []; last_error = no_error })
    ≡ (true, record { states = []; last_error = invalid_format })
read_document-fails_example =
    read_document-fails ℕ ℕ same numbers read repeated 4 0
      (member (ascii "a") (string (ascii "x")) end) (ascii "a") (ascii "x")
      (record { states = []; last_error = no_error }) (omega arith) repeated-kind_of
      (unfold find_key is_key_of json_name uint_data_for_index same_bytes starts_with in refl)
      (unfold value same_bytes in refl)

deserialize_list-serialize_list_example :
    deserialize_list (λ t. none) (λ d. none) signed32 (serialize_list (pos 1 ∷ negsuc 4 ∷ []))
    ≡ (true, some (pos 1 ∷ negsuc 4 ∷ []))
unfolding lowest highest
deserialize_list-serialize_list_example =
    deserialize_list-serialize_list (λ t. none) (λ d. none) signed32 (pos 1 ∷ negsuc 4 ∷ [])
      (refl, (refl, tt))

-- Two fields of numbers, named "a" and "b"; the second has its default and is left out.
abbrev two : PropertyOrdering
two = record {
  num_fields = 2;
  field_number_offset = 3;
  property_index_offset = 5;
  flags_offset = 7;
  full_package_name_size = 0;
  uint_data = 0 ∷ 2 ∷ 4 ∷ 1 ∷ 2 ∷ 0 ∷ 1 ∷ 0 ∷ 0 ∷ [];
  char_data = 97 ∷ 0 ∷ 98 ∷ 0 ∷ [];
}

abbrev fields : List Field
fields = (integer (pos 1), true) ∷ (integer (pos 0), false) ∷ []

two-IsApart : IsApart same two
unfolding is_key_of convert_json_key_to_json_name convert_loop json_name uint_data_for_index
    same_bytes
two-IsApart zero zero h k ne = absurd (ne refl)
two-IsApart zero (suc zero) h k ne = refl
two-IsApart (suc zero) zero h k ne = refl
two-IsApart (suc zero) (suc zero) h k ne = absurd (ne refl)
two-IsApart (suc (suc i)) j h k ne = absurd (omega (arith, h))
two-IsApart zero (suc (suc j)) h k ne = absurd (omega (arith, k))
two-IsApart (suc zero) (suc (suc j)) h k ne = absurd (omega (arith, k))

two-kind_of : (i : ℕ) → i < 2 → kind_of (field_flags two i) ≡ scalar
unfolding kind_of field_flags test_any_flags uint_data_for_index
two-kind_of zero h = refl
two-kind_of (suc zero) h = refl
two-kind_of (suc (suc i)) h = absurd (omega (arith, h))

read_scalars-write_scalars_example :
    read_scalars same two 3 (record {
      states = fresh_state (write_scalars two 0 fields reset).result ∷ [];
      last_error = no_error;
    })
    ≡ (0, integer (pos 1)) ∷ []
unfolding written is_written must_serialize_default_value field_flags test_any_flags
    uint_data_for_index
read_scalars-write_scalars_example =
    read_scalars-write_scalars same two two-kind_of fields reset [] no_error two-IsApart refl
      (unfold none_null in refl) (λ j h. unfold find_key in refl)

abbrev others : List Field
others = (integer (pos 0), false) ∷ (integer (negsuc 4), true) ∷ []

hand_out-write_messages_example :
    hand_out same repeated two 2 (record {
      states =
          record {
            obj =
                (write_messages two
                  (field_flags repeated 0)
                  (json_name repeated 0)
                  (fields ∷ others ∷ [])
                  reset).result;
            index = 0;
            scalar_value = undefined;
          }
          ∷ [];
      last_error = no_error;
    })
    ≡ (0, (0, integer (pos 1)) ∷ []) ∷ (0, (1, integer (negsuc 4)) ∷ []) ∷ []
unfolding written is_written must_serialize_default_value field_flags test_any_flags
    uint_data_for_index
hand_out-write_messages_example =
    hand_out-write_messages same repeated two two-kind_of two-IsApart (omega arith) 0 fields
      (others ∷ []) reset [] no_error (omega arith) repeated-kind_of
      ((refl, unfold none_null in refl), ((refl, unfold none_null in refl), tt))
      (unfold find_key in refl)
