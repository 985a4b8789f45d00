-- ===== src/Protobuf/Json/Reader.antt =====
-- `QProtobufJsonDeserializerImpl`: which field of a message is read next.
use qtgrpc.Prelude.{
  ℕ, zero, suc, ◌+◌, ◌-◌, ◌==◌, if◌then◌else◌, Bool, true, false, ◌&&◌, Option, none, some, List,
  [], ◌∷◌,
}
use qtgrpc.Prelude.Ascii.{ascii}
use qtgrpc.Protobuf.Ordering.{
  PropertyOrdering, field_flags, json_name, test_any_flags, flag_message, flag_map,
}
use qtgrpc.Protobuf.Deserializer.{Error, no_error, invalid_format, unexpected_end_of_stream}
use qtgrpc.Protobuf.Json.{
  Text, Json, undefined, null, string, object, array, Items, nil, cons, Members, end, member, value,
  insert,
}
use qtgrpc.Protobuf.Json.Keys.{find_key}

abbrev pub flag_repeated : ℕ
flag_repeated = 0x40

pub record JsonDeserializerState : Type 0 where
  pub obj : Members
  pub index : ℕ
  pub scalar_value : Json

abbrev pub fresh_state : Members → JsonDeserializerState
fresh_state m = record { obj = m; index = 0; scalar_value = undefined }

-- The last state of the list stands at the front here.
pub record JsonDeserializer : Type 0 where
  pub states : List JsonDeserializerState
  pub last_error : Error

-- How a field is read: the branches of nextFieldIndex, in order.
pub data Kind : Type 0 where
  repeated_messages map_entries single_message scalar : Kind

unfoldable pub kind_of : ℕ → Kind
kind_of flags =
    if test_any_flags flags flag_message && test_any_flags flags flag_repeated
    then repeated_messages
    else if test_any_flags flags flag_map
    then map_entries
    else if test_any_flags flags flag_message
    then single_message
    else scalar

-- What the loop makes of the field at the index: it goes on, it gives up, or it has found a value,
-- for which the object may be pushed as a state of its own.
pub data Visit : Type 0 where
  goes_on fails : JsonDeserializerState → Visit
  finds : JsonDeserializerState → Option Members → Visit

abbrev pub next_index : JsonDeserializerState → JsonDeserializerState
next_index s = record s { index = s.index + 1 }

unfoldable pub visit_element : Text → JsonDeserializerState → Json → Items → Visit
visit_element key s null rest = fails s
visit_element key s (object m) rest =
    finds (record s { obj = insert key (array rest) s.obj }) (some m)
visit_element key s v rest =
    finds (record s { obj = insert key (array rest) s.obj; scalar_value = v }) none

unfoldable pub visit_repeated : Text → JsonDeserializerState → Json → Visit
visit_repeated key s (array nil) = goes_on (record (next_index s) { scalar_value = null })
visit_repeated key s (array (cons v rest)) = visit_element key s v rest
visit_repeated key s v = fails s

unfoldable pub visit_map : Text → JsonDeserializerState → Json → Visit
visit_map key s (object end) = goes_on (next_index s)
visit_map key s (object (member k v rest)) =
    finds (record s { obj = insert key (object rest) s.obj })
      (some (member (ascii "key") (string k) (member (ascii "value") v end)))
visit_map key s v = fails s

unfoldable pub visit_message : JsonDeserializerState → Json → Visit
visit_message s (array items) = fails s
visit_message s undefined = fails s
visit_message s (object m) = finds (next_index s) (some m)
visit_message s v = finds (record (next_index s) { scalar_value = v }) none

unfoldable pub visit_kind : Kind → Text → JsonDeserializerState → Json → Visit
visit_kind repeated_messages key s v = visit_repeated key s v
visit_kind map_entries key s v = visit_map key s v
visit_kind single_message key s v = visit_message s v
visit_kind scalar key s v = finds (record (next_index s) { scalar_value = v }) none

unfoldable pub visit_value : Kind → Text → JsonDeserializerState → Json → Visit
visit_value kind key s null = goes_on (next_index s)
visit_value kind key s v = visit_kind kind key s v

-- `push_back` of the nested object.
unfoldable pub push_state : Option Members → List JsonDeserializerState → List JsonDeserializerState
push_state none states = states
push_state (some m) states = fresh_state m ∷ states

module _ (to_upper : ℕ → ℕ) (o : PropertyOrdering) where
  unfoldable pub visit : JsonDeserializerState → Visit
  visit s = elim (find_key to_upper (json_name o s.index) s.obj) [
    | none ↦ goes_on (next_index s)
    | some key ↦ visit_value (kind_of (field_flags o s.index)) key s (value key s.obj)
  ]

  -- The loop, with the number of fields that are left; the index -1 is none.
  unfoldable pub index_loop :
      ℕ → JsonDeserializerState → List JsonDeserializerState → Error → Option ℕ × JsonDeserializer
  index_loop zero s below e = (none, record { states = below; last_error = e })
  index_loop (suc rounds) s below e = elim (visit s) [
    | goes_on s' ↦ index_loop rounds s' below e
    | fails s' ↦ (none, record { states = s' ∷ below; last_error = invalid_format })
    | finds s' m ↦ (some s.index, record { states = push_state m (s' ∷ below); last_error = e })
  ]

  -- The list of states is not empty while a message that has fields is read.
  unfoldable pub index_from : List JsonDeserializerState → Error → Option ℕ × JsonDeserializer
  index_from [] e = (none, record { states = []; last_error = e })
  index_from (s ∷ below) e =
      index_loop (o.num_fields - s.index) (record s { scalar_value = null }) below e

  unfoldable pub next_field_index : JsonDeserializer → Option ℕ × JsonDeserializer
  next_field_index d = if o.num_fields == 0 then (none, d) else index_from d.states d.last_error

unfoldable pub reset : Members → JsonDeserializer → JsonDeserializer
reset end d = record d { states = [] }
reset (member k v rest) d = record d { states = fresh_state (member k v rest) ∷ [] }

-- What QJsonDocument makes of the data.
pub data Document : Type 0 where
  broken not_an_object : Document
  an_object : Members → Document

-- `deserializeMessage` of QProtobufJsonSerializer; `walk` reads the message.
unfoldable pub read_document :
    (JsonDeserializer → Bool × JsonDeserializer)
    → Document
    → JsonDeserializer
    → Bool × JsonDeserializer
read_document walk broken d = (false, record d { last_error = unexpected_end_of_stream })
read_document walk not_an_object d = (false, record d { last_error = invalid_format })
read_document walk (an_object end) d = (true, record d { last_error = no_error })
read_document walk (an_object (member k v rest)) d =
    let (result, d') = walk (reset (member k v rest) (record d { last_error = no_error })) in
    (result, reset end d')
