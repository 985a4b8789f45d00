-- ===== src/Tests/Cycles.antt =====
-- A message type that requires itself.
use qtgrpc.Prelude.{ℕ, ◌+◌, ◌≡◌, refl, true, some, [], ◌∷◌}
use qtgrpc.Protobuf.Ordering.{PropertyOrdering}
use qtgrpc.Protobuf.SerializerBase.{
  Message, message, null_pointer, no_properties, property, Format, serialize,
}
use qtgrpc.Protobuf.SerializerBase.Cycles.{is_over, are_over, is_property_over, serialize-Ends}

-- One required message, named "a".
abbrev ordering : PropertyOrdering
ordering = record {
  num_fields = 1;
  field_number_offset = 2;
  property_index_offset = 3;
  flags_offset = 4;
  full_package_name_size = 0;
  uint_data = 0 ∷ 2 ∷ 1 ∷ 0 ∷ 0x110 ∷ [];
  char_data = 97 ∷ 0 ∷ [];
}

-- The format counts the messages.
abbrev counting : Format ℕ ℕ
counting = record {
  message_field_begin = λ st. st;
  message_field_end = λ o i m st. st + 1;
  serialize_enum = λ o i v st. (true, st);
  serialize_scalar_field = λ o i v st. (true, st);
}

abbrev default_message : ℕ → Message ℕ
default_message t = message ordering (property (null_pointer 0) no_properties)

default_message-is_over : (t : ℕ) → is_over 1 (default_message t) ≡ true
unfolding is_over are_over is_property_over
default_message-is_over t = refl

serialize-Ends_example :
    (st : ℕ) × (serialize ℕ ℕ counting default_message 2 (default_message 0) 0 ≡ some st)
serialize-Ends_example =
    serialize-Ends ℕ ℕ counting default_message 1 (λ t h. default_message-is_over t)
      (default_message 0) 0 (default_message-is_over 0)
