-- ===== src/Protobuf/Deserializer.antt =====
-- `QProtobufDeserializerImpl` of src/protobuf/qprotobufserializer.cpp: the walk over the fields of a
-- message, with the unknown fields that it stores (`storeUnknownEntry` of qprotobufmessage.cpp).
-- The loops take fuel, and `none` means that it ran out.
pub mod Rounds
pub mod Backward
pub mod Unknown
use qtgrpc.Prelude.{
  ℕ, zero, suc, ◌+◌, ◌-◌, ◌%◌, ◌^◌, bit_and, ltb, leb, ◌==◌, ◌&&◌, ◌||◌, if◌then◌else◌, Bool, true,
  false, not, Option, none, some, List, [], ◌∷◌, ◌++◌,
}
use qtgrpc.Protobuf.Iterator.{
  Machine, SelfcheckIterator, address_mod, from_view, is_valid, advance, increment, bytes_left,
}
use qtgrpc.Protobuf.Varint.{deserialize_varint_common}
use qtgrpc.Protobuf.Header.{WireTypes, varint, fixed64, length_delimited, fixed32, decode_header}
use qtgrpc.Protobuf.Ordering.{
  PropertyOrdering, index_of_field_number, field_flags, test_any_flags, flag_message, flag_map,
}

-- `QAbstractProtobufSerializer::Error`
pub data Error : Type 0 where
  no_error invalid_header unknown_type unexpected_end_of_stream invalid_format message_too_large :
      Error

-- `QHash<qint32, QList<QByteArray>>`, as an association list.
abbrev pub UnknownEntries : Type 0
UnknownEntries = List (ℕ × List (List ℕ))

-- `m_state` holds where each open message ends, the innermost first.
pub record Deserializer : Type 0 where
  pub m_it : SelfcheckIterator
  pub m_wire_type : WireTypes
  pub m_state : List ℕ
  pub last_error : Error
  pub preserve_unknown_fields : Bool
  pub unknown_entries : UnknownEntries

unfoldable pub reset : Deserializer → ℕ → ℕ → Deserializer
unfolding from_view
reset d first last = record d { m_it = from_view first last; m_state = last ∷ [] }

unfoldable pub set_error : Deserializer → Error → Deserializer
set_error d error = record d { last_error = error }

unfoldable pub has_error : Deserializer → Bool
has_error d = elim d.last_error [ no_error ↦ false | _ ↦ true ]

-- `unknownEntries[fieldNumber].append(entry)`
unfoldable pub store_unknown_entry : UnknownEntries → List ℕ → ℕ → UnknownEntries
store_unknown_entry [] entry field_number = (field_number, entry ∷ []) ∷ []
store_unknown_entry ((n, entries) ∷ rest) entry field_number =
    if n == field_number
    then (n, entries ++ (entry ∷ [])) ∷ rest
    else (n, entries) ∷ store_unknown_entry rest entry field_number

-- The bytes of a view.
unfoldable pub view_bytes : Machine → ℕ → ℕ → List ℕ
view_bytes m a zero = []
view_bytes m a (suc n) = m.load a ∷ view_bytes m (a + 1) n

-- `while ((*m_it) & 0x80) ++m_it; ++m_it;`
unfoldable pub skip_varint : Machine → ℕ → SelfcheckIterator → Option SelfcheckIterator
skip_varint m zero i = none
skip_varint m (suc fuel) i =
    let rest = skip_varint m fuel (increment i) in
    if bit_and (m.load i.it) 0x80 == 0 then some (increment i) else rest

skip_length : Option ℕ × SelfcheckIterator → SelfcheckIterator
skip_length (none, i) = advance i (bytes_left i + 1)
skip_length (some length, i) = advance i length

unfoldable pub skip_length_delimited : Machine → SelfcheckIterator → SelfcheckIterator
unfolding skip_length
skip_length_delimited m i = skip_length (deserialize_varint_common m 64 i)

-- The `switch` of `skipField`. The case that the code marks unreachable leaves the iterator.
unfoldable pub skip_value : Machine → ℕ → WireTypes → SelfcheckIterator → Option SelfcheckIterator
skip_value m fuel varint i = skip_varint m fuel i
skip_value m fuel fixed32 i = some (advance i 4)
skip_value m fuel fixed64 i = some (advance i 8)
skip_value m fuel length_delimited i = some (skip_length_delimited m i)
skip_value m fuel _ i = some i

-- A qsizetype is its bit pattern.
abbrev pub minus_one : ℕ
minus_one = address_mod - 1

abbrev pub is_negative : ℕ → Bool
is_negative n = leb (2 ^ 63) n

-- `std::distance` of two iterators.
abbrev pub distance : SelfcheckIterator → SelfcheckIterator → ℕ
distance from to = (to.it + address_mod - from.it) % address_mod

skipped : Deserializer → SelfcheckIterator → Option SelfcheckIterator → Option (ℕ × Deserializer)
skipped d field_begin none = none
skipped d field_begin (some i) =
    if is_valid i
    then some (distance field_begin i, record d { m_it = i })
    else some (minus_one, set_error (record d { m_it = i }) unexpected_end_of_stream)

unfoldable pub skip_field :
    Machine → ℕ → Deserializer → SelfcheckIterator → Option (ℕ × Deserializer)
unfolding skipped
skip_field m fuel d field_begin = skipped d field_begin (skip_value m fuel d.m_wire_type d.m_it)

-- A call of `nextFieldIndex`: the index, or `none` for -1, and the new state.
abbrev pub Next : Type 0
Next = Option ℕ × Deserializer

open_limit : Machine → Deserializer → ℕ → Option ℕ × SelfcheckIterator → Next
open_limit m d index (none, i) = (none, set_error (record d { m_it = i }) unexpected_end_of_stream)
open_limit m d index (some length, i) =
    if not (is_valid i) || ltb (bytes_left i) length || ltb m.max_size length
    then (none, set_error (record d { m_it = i }) unexpected_end_of_stream)
    else (some index, record d { m_it = i; m_state = ((i.it + length) % address_mod) ∷ d.m_state })

-- A field of the message: a message or map field reads its length and opens a limit.
unfoldable pub enter_field : Machine → PropertyOrdering → Deserializer → ℕ → Next
unfolding open_limit
enter_field m ordering d index =
    if test_any_flags (field_flags ordering index) (flag_message + flag_map)
    then open_limit m d index (deserialize_varint_common m 64 d.m_it)
    else (some index, d)

pop_back : List ℕ → List ℕ
pop_back [] = []
pop_back (last ∷ rest) = rest

-- Behind the loop: the error for an iterator that left its container, `m_state.pop_back()`, -1.
unfoldable pub leave_message : Deserializer → Next
unfolding pop_back set_error
leave_message d =
    let d' = if is_valid d.m_it then d else set_error d unexpected_end_of_stream in
    (none, record d' { m_state = pop_back d.m_state })

-- `m_it == m_state.last()`
at_last : List ℕ → ℕ → Bool
at_last [] a = false
at_last (last ∷ rest) a = a == last

unfoldable pub loop_goes_on : Deserializer → Bool
unfolding at_last
loop_goes_on d = is_valid d.m_it && not (at_last d.m_state d.m_it.it)

-- What one round of the loop does: `return`, `continue`, or no end of `skipVarint`.
pub data Round : Type 0 where
  returns : Next → Round
  continues : Deserializer → Round
  stuck : Round

store_skipped : Machine → SelfcheckIterator → ℕ → Option (ℕ × Deserializer) → Round
unfolding view_bytes store_unknown_entry
store_skipped m field_begin field_number none = stuck
store_skipped m field_begin field_number (some (length, d)) =
    if is_negative length
    then returns (none, d)
    else if ltb 0 length && d.preserve_unknown_fields
    then continues (record d {
      unknown_entries =
          store_unknown_entry d.unknown_entries (view_bytes m field_begin.it length) field_number;
    })
    else continues d

-- A field whose number is not in the ordering.
unfoldable pub skip_unknown : Machine → ℕ → Deserializer → SelfcheckIterator → ℕ → Round
unfolding store_skipped
skip_unknown m fuel d field_begin field_number =
    store_skipped m field_begin field_number (skip_field m fuel d field_begin)

read_field :
    Machine → ℕ → PropertyOrdering → Deserializer → SelfcheckIterator → ℕ → Option ℕ → Round
read_field m fuel ordering d field_begin field_number none =
    skip_unknown m fuel d field_begin field_number
read_field m fuel ordering d field_begin field_number (some index) =
    returns (enter_field m ordering d index)

unfoldable pub field_round : Machine → ℕ → PropertyOrdering → Deserializer → Round
unfolding read_field set_error
field_round m fuel ordering d =
    let header = decode_header m d.m_it d.m_wire_type in
    let d' = record d { m_it = header.it; m_wire_type = header.wire_type } in
    if header.valid
    then read_field m fuel ordering d' d.m_it header.field_index
        (index_of_field_number ordering header.field_index)
    else returns (none, set_error d' invalid_header)

-- `nextFieldIndex`. The first fuel is for the loop of `skipVarint`, the second for its own.
unfoldable pub next_field_index : Machine → ℕ → ℕ → PropertyOrdering → Deserializer → Option Next
next_field_index m skip_fuel zero ordering d = none
next_field_index m skip_fuel (suc fuel) ordering d = elim (loop_goes_on d) [
  | false ↦ some (leave_message d)
  | true ↦ elim (field_round m skip_fuel ordering d) [
    | returns next ↦ some next
    | continues d' ↦ next_field_index m skip_fuel fuel ordering d'
    | stuck ↦ none
  ]
]
