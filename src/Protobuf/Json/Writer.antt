-- ===== src/Protobuf/Json/Writer.antt =====
-- `QProtobufJsonSerializerImpl`: the object that is written, and those that wait for it. What the
-- handlers of values and of messages give is a parameter.
use qtgrpc.Prelude.{
  ℕ, ◌+◌, if◌then◌else◌, Bool, true, false, not, ◌&&◌, Option, none, some, List, [], ◌∷◌,
}
use qtgrpc.Prelude.Ascii.{ascii}
use qtgrpc.Protobuf.Ordering.{test_any_flags, flag_map}
use qtgrpc.Protobuf.Json.{
  Text, Json, undefined, object, array, Members, end, value, insert, append, to_array, to_object,
}
use qtgrpc.Protobuf.Json.Reader.{flag_repeated}

-- Oneof, Optional and Required.
abbrev flags_with_default : ℕ
flags_with_default = 0x2 + (0x4 + 0x100)

unfoldable pub must_serialize_default_value : ℕ → Bool
must_serialize_default_value flags = test_any_flags flags flags_with_default

-- The last object of the list stands at the front here.
pub record JsonSerializer : Type 0 where
  pub result : Members
  pub state : List Members

abbrev pub reset : JsonSerializer
reset = record { result = end; state = [] }

-- `array.append(value)` in the array that the object has under the name.
unfoldable pub append_to : Text → Json → Members → Members
append_to name v store = insert name (array (append (to_array (value name store)) v)) store

-- `mapObject.insert(key, value)` in the object that the object has under the name.
unfoldable pub insert_into : Text → Text → Json → Members → Members
insert_into name key v store =
    insert name (object (insert key v (to_object (value name store)))) store

-- `serializeMessageField` of a message whose type has a serializer of its own.
unfoldable pub serialize_custom_field : ℕ → Text → Json → JsonSerializer → JsonSerializer
serialize_custom_field flags name undefined d = d
serialize_custom_field flags name v d =
    if test_any_flags flags flag_repeated
    then record d { result = append_to name v d.result }
    else record d { result = insert name v d.result }

-- `value` is what the conversion to texts gives, and whether that is present.
unfoldable pub serialize_enum :
    ℕ → Text → Option (Json × Bool) → JsonSerializer → Bool × JsonSerializer
serialize_enum flags name none d = (false, d)
serialize_enum flags name (some (v, present)) d =
    if test_any_flags flags flag_repeated
    then (if present then (true, record d { result = insert name v d.result }) else (true, d))
    else if not present && not (must_serialize_default_value flags)
    then (true, d)
    else (true, record d { result = insert name v d.result })

-- `value` is what the handler of the type gives, if there is one, and whether the value is present.
unfoldable pub serialize_scalar_field :
    ℕ → Text → Option (Json × Bool) → JsonSerializer → Bool × JsonSerializer
serialize_scalar_field flags name none d = (false, d)
serialize_scalar_field flags name (some (v, present)) d =
    if not present && not (must_serialize_default_value flags)
    then (true, d)
    else (true, record d { result = insert name v d.result })

unfoldable pub serialize_message_field_begin : JsonSerializer → JsonSerializer
serialize_message_field_begin d = record { result = end; state = d.result ∷ d.state }

-- The object that the field stands in, with the message written into it. The text is that of the
-- property `key` of the message.
unfoldable pub store_message : ℕ → Text → Text → Members → Members → Members
store_message flags name key m store =
    if test_any_flags flags flag_repeated
    then append_to name (object m) store
    else if test_any_flags flags flag_map
    then insert_into name key (value (ascii "value") m) store
    else insert name (object m) store

unfoldable pub end_in : ℕ → Text → Text → Members → List Members → JsonSerializer
end_in flags name key m [] = record { result = m; state = [] }
end_in flags name key m (store ∷ below) = record {
  result = store_message flags name key m store;
  state = below;
}

-- A field is begun before it is ended, so the list is not empty.
unfoldable pub serialize_message_field_end : ℕ → Text → Text → JsonSerializer → JsonSerializer
unfolding end_in
serialize_message_field_end flags name key d = end_in flags name key d.result d.state

-- `serializeMessageField`: `write` is `serializeMessage` of the nested message.
unfoldable pub serialize_message_field :
    (JsonSerializer → JsonSerializer) → ℕ → Text → Text → JsonSerializer → JsonSerializer
serialize_message_field write flags name key d =
    serialize_message_field_end flags name key (write (serialize_message_field_begin d))
