-- ===== src/Protobuf/Deserializer/Backward.antt =====
-- A length-delimited unknown field whose length is 2 ^ 63 or more moves the iterator back, since
-- `operator+=` takes a signed count.
use qtgrpc.Prelude.{
  ℕ, zero, suc, ◌+◌, ◌-◌, ◌%◌, ◌^◌, ◌≤◌, ◌<◌, ◌≡◌, refl, ◌∙◌, arith, true, none, some, List, ◌++◌,
  length,
}
use qtgrpc.Protobuf.Iterator.{
  Machine, SelfcheckIterator, address_mod, is_valid, advance, bytes_left, IsContainer, IsInside,
  Holds, Holds-append, bytes_left-IsInside,
}
use qtgrpc.Protobuf.Varint.{serialize_varint_common, deserialize_varint_common}
use qtgrpc.Protobuf.Varint.Encode.{
  serialize_varint_common_shape, length-serialize_varint_common_ten,
}
use qtgrpc.Protobuf.Varint.RoundTrip.{deserialize-serialize_varint_common}
use qtgrpc.Protobuf.Header.{
  length_delimited, is_supported, of_wire_type, encode_header, decode_header,
}
use qtgrpc.Protobuf.Header.RoundTrip.{decode-encode_header, header_of, encode_header_lem}
use qtgrpc.Protobuf.Ordering.{PropertyOrdering, index_of_field_number}
use qtgrpc.Protobuf.Deserializer.Rounds.{next_returns, next_continues}
use qtgrpc.Protobuf.Deserializer.{
  Deserializer, returns, continues, skip_length_delimited, skip_field, skip_value, store_skipped,
  skip_unknown, field_round, loop_goes_on, next_field_index,
}

-- A header of field `f` and a length that leads back to `back` bytes before the header.
abbrev pub backward_field : ℕ → ℕ → List ℕ
backward_field f back =
    let header = encode_header f length_delimited in
    header ++ serialize_varint_common (2 ^ 64 - (length header + 10 + back))

supported : is_supported length_delimited ≡ true
unfolding is_supported
supported = refl

length-encode_header_le :
    (f : ℕ)
    → f < 2 ^ 29
    → (1 ≤ length (encode_header f length_delimited))
      × (length (encode_header f length_delimited) ≤ 10)
unfolding of_wire_type
length-encode_header_le f h =
    let shape = serialize_varint_common_shape (header_of f length_delimited) (omega arith) in
    rw (encode_header_lem f length_delimited h supported) (shape.1, shape.2)

module _ (m : Machine) (ordering : PropertyOrdering) (d : Deserializer) (f back : ℕ)
    (c : IsContainer d.m_it) (s : IsInside d.m_it) (lo : 0 < f) (hi : f < 2 ^ 29)
    (new : index_of_field_number ordering f ≡ none)
    (holds : Holds m d.m_it.it (backward_field f back))
    (room : length (encode_header f length_delimited) + 10 ≤ bytes_left d.m_it)
    (near : back ≤ d.m_it.it - d.m_it.container_begin) (small : back < 2 ^ 62) where
  abbrev moved : Deserializer
  moved = record d {
    m_it = record d.m_it { it = d.m_it.it - back };
    m_wire_type = length_delimited;
  }

  abbrev header_size : ℕ
  header_size = length (encode_header f length_delimited)

  abbrev far : ℕ
  far = 2 ^ 64 - (header_size + 10 + back)

  abbrev behind_header : SelfcheckIterator
  behind_header = record d.m_it { it = d.m_it.it + header_size }

  abbrev at_value : Deserializer
  at_value = record d { m_it = behind_header; m_wire_type = length_delimited }

  far_bounds : (2 ^ 63 ≤ far) × (far < 2 ^ 64)
  far_bounds = omega (arith, length-encode_header_le f hi)

  room_behind : bytes_left behind_header + header_size ≡ bytes_left d.m_it
  unfolding bytes_left
  room_behind = ground (arith, length-encode_header_le f hi)

  read_far :
      deserialize_varint_common m 64 behind_header
      ≡ (some far, record behind_header { it = behind_header.it + 10 })
  read_far =
      let ten = length-serialize_varint_common_ten far far_bounds.0 far_bounds.1 in
      rw ten at (
        deserialize-serialize_varint_common m 64 behind_header far
          (record { ordered = c.ordered; bounded = c.bounded }) (omega arith) far_bounds.1
          (Holds-append m d.m_it.it (encode_header f length_delimited) (serialize_varint_common far)
            holds).1
          (omega (arith, ten, room_behind)))

  skip_length_delimited_back : skip_length_delimited m behind_header ≡ moved.m_it
  unfolding skip_length_delimited advance bytes_left
  skip_length_delimited_back =
      rw (read_far, skip_length_delimited)
        (ground (arith, bytes_left-IsInside d.m_it s, length-encode_header_le f hi))

  read_header :
      decode_header m d.m_it d.m_wire_type
      ≡ record { valid = true; it = behind_header; field_index = f; wire_type = length_delimited }
  read_header =
      decode-encode_header m d.m_it f length_delimited d.m_wire_type c lo hi supported
        (Holds-append m d.m_it.it (encode_header f length_delimited) (serialize_varint_common far)
          holds).0
        (omega arith)

  skip_field_back :
      (fuel : ℕ)
      → skip_field m fuel at_value d.m_it ≡ some ((address_mod - back) % address_mod, moved)
  unfolding skip_field skip_value is_valid
  skip_field_back fuel = rw skip_length_delimited_back (ground arith)

  field_round_back :
      (fuel : ℕ)
      → field_round m fuel ordering d
        ≡ store_skipped m d.m_it f (some ((address_mod - back) % address_mod, moved))
  unfolding field_round skip_unknown
  field_round_back fuel = rw (read_header, new, skip_field_back fuel)

  field_round_earlier :
      0 < back → (fuel : ℕ) → field_round m fuel ordering d ≡ returns (none, moved)
  unfolding store_skipped
  field_round_earlier pos fuel = rw (field_round_back fuel) (ground arith)

field_round_same :
    (m : Machine) (ordering : PropertyOrdering) (d : Deserializer) (f : ℕ)
    → IsContainer d.m_it
    → IsInside d.m_it
    → 0 < f
    → f < 2 ^ 29
    → index_of_field_number ordering f ≡ none
    → Holds m d.m_it.it (backward_field f 0)
    → length (encode_header f length_delimited) + 10 ≤ bytes_left d.m_it
    → (fuel : ℕ)
    → field_round m fuel ordering d ≡ continues (record d { m_wire_type = length_delimited })
unfolding store_skipped
field_round_same m ordering d f c s lo hi new holds room fuel =
    field_round_back m ordering d f 0 c s lo hi new holds room (omega arith) (omega arith) fuel
    ∙ ground arith

-- An unknown length-delimited field whose length leads back to its own header, with the whole field
-- inside the view and the loop not at its end, sends the loop round for ever: `nextFieldIndex` does
-- not return, whatever fuel its loops get.
pub next_field_index_diverges :
    (m : Machine) (ordering : PropertyOrdering) (d : Deserializer) (f : ℕ)
    → IsContainer d.m_it
    → IsInside d.m_it
    → 0 < f
    → f < 2 ^ 29
    → index_of_field_number ordering f ≡ none
    → Holds m d.m_it.it (backward_field f 0)
    → length (encode_header f length_delimited) + 10 ≤ bytes_left d.m_it
    → loop_goes_on d ≡ true
    → (skip_fuel fuel : ℕ) → next_field_index m skip_fuel fuel ordering d ≡ none
next_field_index_diverges m ordering d f c s lo hi new holds room on skip_fuel zero =
    unfold next_field_index in refl
next_field_index_diverges m ordering d f c s lo hi new holds room on skip_fuel (suc fuel) =
    next_continues m skip_fuel fuel ordering d (record d { m_wire_type = length_delimited }) on
      (field_round_same m ordering d f c s lo hi new holds room skip_fuel)
    ∙ next_field_index_diverges m ordering (record d { m_wire_type = length_delimited }) f c s lo hi
        new holds room (unfold loop_goes_on in on) skip_fuel fuel

-- An unknown length-delimited field whose length leads back to some place before its header, with the
-- whole field and that place inside the view and the loop not at its end, makes `nextFieldIndex`
-- return -1: no error is set, and the limit of the message is left in place.
pub next_field_index_gives_up :
    (m : Machine) (ordering : PropertyOrdering) (d : Deserializer) (f back : ℕ)
    → IsContainer d.m_it
    → IsInside d.m_it
    → 0 < f
    → f < 2 ^ 29
    → index_of_field_number ordering f ≡ none
    → Holds m d.m_it.it (backward_field f back)
    → length (encode_header f length_delimited) + 10 ≤ bytes_left d.m_it
    → loop_goes_on d ≡ true
    → 0 < back
    → back ≤ d.m_it.it - d.m_it.container_begin
    → back < 2 ^ 62
    → (skip_fuel fuel : ℕ)
    → next_field_index m skip_fuel (suc fuel) ordering d
      ≡ some (
        none,
        record d { m_it = record d.m_it { it = d.m_it.it - back }; m_wire_type = length_delimited },
      )
next_field_index_gives_up m ordering d f back c s lo hi new holds room on pos near small skip_fuel
      fuel =
    next_returns m skip_fuel fuel ordering d _ on
      (field_round_earlier m ordering d f back c s lo hi new holds room near small pos skip_fuel)
