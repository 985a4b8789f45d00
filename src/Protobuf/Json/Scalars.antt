-- ===== src/Protobuf/Json/Scalars.antt =====
-- A message of scalar fields, from the object that is written to the values that are handed out.
pub mod Others
pub mod Ready
pub mod RoundTrip
use qtgrpc.Prelude.{
  ℕ, zero, suc, ◌+◌, Bool, true, false, not, ◌||◌, if◌then◌else◌, Option, none, some, List, [], ◌∷◌,
}
use qtgrpc.Protobuf.Ordering.{PropertyOrdering, json_name, field_flags}
use qtgrpc.Protobuf.Json.{Json, undefined}
use qtgrpc.Protobuf.Json.Reader.{JsonDeserializerState, JsonDeserializer, next_field_index}
use qtgrpc.Protobuf.Json.Writer.{
  JsonSerializer, must_serialize_default_value, serialize_scalar_field,
}

-- What the handler gives for a field, and whether the value is present.
abbrev pub Field : Type 0
Field = Json × Bool

-- The fields of a message from an index.
unfoldable pub write_scalars : PropertyOrdering → ℕ → List Field → JsonSerializer → JsonSerializer
write_scalars o i [] d = d
write_scalars o i (f ∷ fs) d =
    write_scalars o (i + 1) fs
      (serialize_scalar_field (field_flags o i) (json_name o i) (some f) d).1

unfoldable pub is_written : ℕ → Bool → Bool
is_written flags present = present || must_serialize_default_value flags

-- The fields that are not left out, by their index.
unfoldable pub written : PropertyOrdering → ℕ → List Field → List (ℕ × Json)
written o i [] = []
written o i ((v, present) ∷ fs) =
    let later = written o (i + 1) fs in
    if is_written (field_flags o i) present then (i, v) ∷ later else later

abbrev pub top_value : List JsonDeserializerState → Json
top_value [] = undefined
top_value (s ∷ below) = s.scalar_value

-- The value that has been found for a field, and what is read after it.
unfoldable pub then_read :
    Option ℕ × JsonDeserializer
    → (JsonDeserializer → List (ℕ × Json) × JsonDeserializer)
    → List (ℕ × Json) × JsonDeserializer
then_read (none, d) read = ([], d)
then_read (some i, d) read = let (values, d') = read d in ((i, top_value d.states) ∷ values, d')

-- A message, field by field, until there is no further one.
unfoldable pub read_message :
    (ℕ → ℕ) → PropertyOrdering → ℕ → JsonDeserializer → List (ℕ × Json) × JsonDeserializer
unfolding then_read
read_message to_upper o zero d = ([], d)
read_message to_upper o (suc fuel) d =
    then_read (next_field_index to_upper o d) (read_message to_upper o fuel)

-- The values alone.
unfoldable pub read_scalars : (ℕ → ℕ) → PropertyOrdering → ℕ → JsonDeserializer → List (ℕ × Json)
unfolding read_message
read_scalars to_upper o fuel d = (read_message to_upper o fuel d).0
