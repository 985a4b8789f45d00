-- ===== src/Protobuf/SerializerBase.antt =====
-- src/protobuf/qprotobufserializerbase.cpp: the walk over the fields of a message that the formats
-- share. What a format does for a field is a parameter; a message type is a number.
pub mod Cycles
use mathlib.Core.Option
use qtgrpc.Prelude.{
  ℕ, zero, suc, ◌+◌, ◌==◌, if◌then◌else◌, Bool, true, false, Option, none, some, List, [], ◌∷◌,
  ◌||◌,
}
use qtgrpc.Protobuf.Ordering.{PropertyOrdering, field_flags, test_any_flags}

abbrev flag_required : ℕ
flag_required = 0x100

abbrev flag_enum : ℕ
flag_enum = 0x20

-- A message is its ordering and its properties. A property is empty, a null pointer to a message of
-- a type, a pointer to a message, a list of messages, or a value. With a value stand the messages
-- that the handler of its type makes of it, if there is a handler.
mutual
  pub data Message (Value : Type 0) : Type 0 where
    message : PropertyOrdering → Properties Value → Message Value

  pub data Property (Value : Type 0) : Type 0 where
    empty : Property Value
    null_pointer : ℕ → Property Value
    pointer : Message Value → Property Value
    repeated : Messages Value → Property Value
    plain : Value → Handler Value → Property Value

  pub data Handler (Value : Type 0) : Type 0 where
    no_handler : Handler Value
    hands_back : Messages Value → Handler Value

  pub data Messages (Value : Type 0) : Type 0 where
    no_messages : Messages Value
    next : Message Value → Messages Value → Messages Value

  pub data Properties (Value : Type 0) : Type 0 where
    no_properties : Properties Value
    property : Property Value → Properties Value → Properties Value

-- The virtual functions of a format, on its state; a field is its ordering and its index. A format
-- that overrides serializeMessageField for some types is not covered here.
pub record Format (Value State : Type 0) : Type 0 where
  pub message_field_begin : State → State
  pub message_field_end : PropertyOrdering → ℕ → Message Value → State → State
  pub serialize_enum : PropertyOrdering → ℕ → Value → State → Bool × State
  pub serialize_scalar_field : PropertyOrdering → ℕ → Value → State → Bool × State

unfoldable pub and_then : {State : Type 0} → Option State → (State → Option State) → Option State
and_then none f = none
and_then (some st) f = f st

unfoldable pub is_pending : ℕ → List ℕ → Bool
is_pending t [] = false
is_pending t (u ∷ pending) = t == u || is_pending t pending

module _ (Value State : Type 0) (format : Format Value State) where
  -- Where an enumeration is not known, the result is a warning, and the field is left out.
  unfoldable pub serialize_enum_field : PropertyOrdering → ℕ → Value → State → State
  serialize_enum_field o index v st = (format.serialize_enum o index v st).1

  -- `default` is serializeDefaultMessageField; none means that its fuel ran out.
  module _ (default : ℕ → PropertyOrdering → ℕ → State → Option State) where
    unfoldable mutual
      -- The loop over the fields, from an index.
      pub serialize_properties : PropertyOrdering → ℕ → Properties Value → State → Option State
      serialize_properties o index no_properties st = some st
      serialize_properties o index (property p ps) st =
          and_then (serialize_property o index p st) (serialize_properties o (index + 1) ps)

      pub serialize_property : PropertyOrdering → ℕ → Property Value → State → Option State
      serialize_property o index empty st = some st
      serialize_property o index (null_pointer t) st =
          if test_any_flags (field_flags o index) flag_required
          then default t o index st
          else some st
      serialize_property o index (pointer m) st = serialize_message_field o index m st
      serialize_property o index (repeated ms) st = serialize_each o index ms st
      serialize_property o index (plain v h) st =
          let (done, st') = format.serialize_scalar_field o index v st in
          let handled = serialize_handled o index h st' in
          if test_any_flags (field_flags o index) flag_enum
          then some (serialize_enum_field o index v st)
          else if done
          then some st'
          else handled

      pub serialize_handled : PropertyOrdering → ℕ → Handler Value → State → Option State
      serialize_handled o index no_handler st = some st
      serialize_handled o index (hands_back ms) st = serialize_each o index ms st

      pub serialize_each : PropertyOrdering → ℕ → Messages Value → State → Option State
      serialize_each o index no_messages st = some st
      serialize_each o index (next m ms) st =
          and_then (serialize_message_field o index m st) (serialize_each o index ms)

      -- `serializeMessageField`, with `serializeMessage` of the message in it.
      pub serialize_message_field : PropertyOrdering → ℕ → Message Value → State → Option State
      serialize_message_field o index (message o' ps) st =
          Option.map (format.message_field_end o index (message o' ps))
            (serialize_properties o' 0 ps (format.message_field_begin st))

    unfoldable pub serialize_message : Message Value → State → Option State
    serialize_message (message o ps) st = serialize_properties o 0 ps st

  -- `create` makes the default message of a type. `m_defaultMessageTypes` is passed down to what
  -- stands between its `append` and its `removeLast`, the last type at the front.
  unfoldable pub serialize_default_message_field :
      (ℕ → Message Value) → ℕ → List ℕ → ℕ → PropertyOrdering → ℕ → State → Option State
  serialize_default_message_field create zero pending t o index st = none
  serialize_default_message_field create (suc fuel) pending t o index st =
      let written =
        serialize_message_field (serialize_default_message_field create fuel (t ∷ pending)) o index
          (create t) st in
      if is_pending t pending then some st else written

  -- `serializeMessage`, with no default message begun.
  unfoldable pub serialize : (ℕ → Message Value) → ℕ → Message Value → State → Option State
  serialize create fuel m st =
      serialize_message (serialize_default_message_field create fuel []) m st
