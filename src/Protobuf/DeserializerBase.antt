-- ===== src/Protobuf/DeserializerBase.antt =====
-- `deserializeMessage` and `checkRequiredFields` of src/protobuf/qprotobufdeserializerbase.cpp: the
-- loop over the fields of a message that the formats share. The property values of QVariant, the
-- next field of a format, and what a format reads into a value are parameters.
pub mod Seen
pub mod Required
pub mod Cached
use qtgrpc.Prelude.{
  ℕ, zero, suc, ◌+◌, ◌*◌, ◌/◌, ◌%◌, ◌^◌, bit_and, bit_or, ◌==◌, not, ◌&&◌, ◌||◌, if◌then◌else◌,
  Bool, true, false, Option, none, some, List, [], ◌∷◌, ◌++◌, get_or, set, replicate,
}
use qtgrpc.Protobuf.Ordering.{PropertyOrdering, field_flags, json_name, test_any_flags}
use qtgrpc.Protobuf.Deserializer.{Error, unknown_type, invalid_format}

abbrev pub flag_required : ℕ
flag_required = 0x100

-- `seenFields.assign((ordering->fieldCount() + 63) / 64, 0)`
unfoldable pub unseen_fields : ℕ → List ℕ
unseen_fields count = replicate ((count + 63) / 64) 0

-- `seenFields[fieldIndex / 64] |= quint64(1) << (fieldIndex % 64)`
unfoldable pub mark_seen : ℕ → List ℕ → List ℕ
mark_seen index seen =
    set seen (index / 64) (bit_or (get_or seen (index / 64) 0) (2 ^ (index % 64)))

-- `seenFields[i / 64] & (quint64(1) << (i % 64))`
unfoldable pub is_seen : ℕ → List ℕ → Bool
is_seen i seen = not (bit_and (get_or seen (i / 64) 0) (2 ^ (i % 64)) == 0)

unfoldable pub is_required : PropertyOrdering → ℕ → Bool
is_required o i = test_any_flags (field_flags o i) flag_required

-- `if (!missingFields.isEmpty()) missingFields += ", ";` and the name.
unfoldable pub add_name : List ℕ → List ℕ → List ℕ
add_name [] name = name
add_name (c ∷ text) name = (c ∷ text) ++ (44 ∷ 32 ∷ name)

unfoldable pub missing_fields : PropertyOrdering → List ℕ → ℕ → ℕ → List ℕ → List ℕ
unfolding add_name
missing_fields o seen zero i text = text
missing_fields o seen (suc rounds) i text =
    missing_fields o seen rounds (i + 1)
      (if is_required o i && not (is_seen i seen) then add_name text (json_name o i) else text)

unfoldable pub is_empty : List ℕ → Bool
is_empty [] = true
is_empty (c ∷ text) = false

-- `checkRequiredFields`; where it returns false it sets the error InvalidFormat.
unfoldable pub check_required_fields : Bool → Bool → PropertyOrdering → List ℕ → Bool
unfolding missing_fields is_empty
check_required_fields enforce has_error o seen =
    if not enforce || has_error then true else is_empty (missing_fields o seen o.num_fields 0 [])

module _ (Value Message State : Type 0) where
  -- The properties of a message as QVariants.
  pub record Properties : Type 0 where
    pub property : Message → ℕ → Value
    pub set_property : Message → ℕ → Value → Bool × Message
    pub is_null : Value → Bool

  -- A format: `nextFieldIndex`, what it reads for a field into the cached value, an error where it
  -- fails, and its error state.
  pub record Format : Type 0 where
    pub next_field_index : State → Option ℕ × State
    pub read_value : ℕ → Value → State → Bool × Value × State
    pub set_error : Error → State → State
    pub has_error : State → Bool

  -- `m_cachedIndex` and `m_cachedPropertyValue`; the index -1 is none.
  abbrev pub Cache : Type 0
  Cache = Option (ℕ × Value)

  module _ (q : Properties) (f : Format) where
    unfoldable pub store_value : Bool → ℕ → Value → Message → Bool × Message × Cache
    store_value true index value message = (true, message, some (index, value))
    store_value false index value message =
        let (ok, message') = q.set_property message index value in (ok, message', none)

    -- `storeCachedValue`
    unfoldable pub store_cached_value : Cache → Message → Bool × Message × Cache
    unfolding store_value
    store_cached_value none message = (true, message, none)
    store_cached_value (some (index, value)) message =
        store_value (q.is_null value) index value message

    pub data Outcome : Type 0 where
      fuel_used : Outcome
      stops : Bool → Message → State → Outcome

    abbrev pub cached_index : Cache → ℕ → Bool
    cached_index none index = false
    cached_index (some (i, value)) index = i == index

    -- The value of a field, from the cache or from the message.
    unfoldable pub load_value : Bool → ℕ → Cache → Message → Bool × Value × Message
    unfolding store_cached_value
    load_value true index none message = (true, q.property message index, message)
    load_value true index (some (i, value)) message = (true, value, message)
    load_value false index cache message =
        let (ok, message', cache') = store_cached_value cache message in
        (ok, q.property message' index, message')

    -- What a round makes of the value it has read.
    unfoldable pub after_read :
        Bool × Value × State → ℕ → Message → (Cache → Message → State → Outcome) → Outcome
    after_read (false, value, st) index message go_on = stops false message st
    after_read (true, value, st) index message go_on = go_on (some (index, value)) message st

    -- A round, with the value loaded.
    unfoldable pub after_load :
        Bool × Value × Message → ℕ → State → (Cache → Message → State → Outcome) → Outcome
    unfolding after_read
    after_load (false, value, message) index st go_on =
        stops false message (f.set_error invalid_format st)
    after_load (true, value, message) index st go_on =
        after_read (f.read_value index value st) index message go_on

    module _ (enforce : Bool) (o : PropertyOrdering) where
      unfoldable pub conclude : Bool → Message → State → Outcome
      conclude true message st = stops true message st
      conclude false message st = stops false message (f.set_error invalid_format st)

      -- Behind the loop.
      unfoldable pub finish_message : Bool × Message × Cache → List ℕ → State → Outcome
      unfolding conclude
      finish_message (false, message, cache) seen st =
          stops false message (f.set_error invalid_format st)
      finish_message (true, message, cache) seen st =
          conclude (check_required_fields enforce (f.has_error st) o seen) message st

      unfoldable pub on_next :
          Option ℕ × State
          → Cache
          → Message
          → List ℕ
          → (Cache → Message → List ℕ → State → Outcome)
          → Outcome
      unfolding finish_message after_load load_value
      on_next (none, st) cache message seen go_on =
          finish_message (store_cached_value cache message) seen st
      on_next (some index, st) cache message seen go_on =
          let seen' = if enforce then mark_seen index seen else seen in
          after_load (load_value (cached_index cache index) index cache message) index st
            (λ c m s. go_on c m seen' s)

      -- The loop `for (int fieldIndex = nextFieldIndex(message); ...)`. The number of fields that
      -- follow is not known, so it takes fuel.
      unfoldable pub field_loop : ℕ → Cache → Message → List ℕ → State → Outcome
      unfolding on_next
      field_loop zero cache message seen st = fuel_used
      field_loop (suc fuel) cache message seen st =
          on_next (f.next_field_index st) cache message seen (field_loop fuel)

      unfoldable pub deserialize_message : ℕ → Message → State → Outcome
      unfolding field_loop
      deserialize_message fuel message st =
          field_loop fuel none message (if enforce then unseen_fields o.num_fields else []) st
