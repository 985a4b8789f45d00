-- ===== src/Tests/Protobuf.antt =====
-- Runs of src/protobuf on concrete bytes.
use qtgrpc.Prelude.{ℕ, ◌-◌, ◌^◌, ◌≡◌, refl, arith, true, none, some, List, [], ◌∷◌, length, get_or}
use qtgrpc.Protobuf.Iterator.{Machine, SelfcheckIterator, bytes_left, IsContainer, IsInside, Holds}
use qtgrpc.Prelude.{◌+◌}
use qtgrpc.Protobuf.LengthDelimited.{
  prepend_length_delimited_size, deserialize_length_delimited,
  deserialize-prepend_length_delimited_size,
}
use qtgrpc.Protobuf.Varint.{serialize_varint_common, deserialize_varint_common}
use qtgrpc.Protobuf.Varint.Encode.{base128, serialize_varint_common-base128}
use qtgrpc.Protobuf.Varint.Decode.{IsAhead, deserialize_varint_common-IsAhead}
use qtgrpc.Protobuf.Varint.RoundTrip.{deserialize-serialize_varint_common}
use qtgrpc.Protobuf.Header.{
  length_delimited, unknown, encode_header, decode_header, is_supported, of_wire_type,
}
use qtgrpc.Protobuf.Header.RoundTrip.{decode-encode_header}
use qtgrpc.Protobuf.Ordering.{PropertyOrdering, index_of_field_number}
use qtgrpc.Protobuf.Deserializer.{Deserializer, no_error, loop_goes_on, next_field_index}
use qtgrpc.Protobuf.Deserializer.Backward.{
  backward_field, next_field_index_diverges, next_field_index_gives_up,
}

-- Memory that holds the given bytes from address 16 on.
abbrev pub memory : List ℕ → Machine
memory bytes = record {
  load = λ a. get_or bytes (a - 16) 0;
  wide_shift = λ x k. 0;
  max_size = 2 ^ 63 - 1;
}

abbrev pub view : ℕ → SelfcheckIterator
view n = record { container_begin = 16; container_end = n; it = 16 }

pub view-IsContainer : IsContainer (view 30)
view-IsContainer = omega arith

pub view-IsInside : IsInside (view 30)
view-IsInside = omega arith

abbrev varint_300 : List ℕ
varint_300 = 172 ∷ 2 ∷ []

deserialize-serialize_varint_common_example :
    deserialize_varint_common (memory varint_300) 32 (view 30)
    ≡ (some 300, record (view 30) { it = 18 })
unfolding serialize_varint_common bytes_left
deserialize-serialize_varint_common_example =
    deserialize-serialize_varint_common (memory varint_300) 32 (view 30) 300 view-IsContainer
      (omega arith) (omega arith) (refl, (refl, tt)) (omega arith)

decode-encode_header_example : decode_header (memory (10 ∷ [])) (view 30) unknown ≡ record {
  valid = true;
  it = record (view 30) { it = 17 };
  field_index = 1;
  wire_type = length_delimited;
}
unfolding encode_header serialize_varint_common bytes_left is_supported of_wire_type
decode-encode_header_example =
    decode-encode_header (memory (10 ∷ [])) (view 30) 1 length_delimited unknown view-IsContainer
      (omega arith) (omega arith) refl (refl, tt) (omega arith)

serialize_varint_common-base128_example : serialize_varint_common 300 ≡ base128 9 300
serialize_varint_common-base128_example = serialize_varint_common-base128 300 (omega arith)

deserialize_varint_common-IsAhead_example :
    IsAhead (view 30) (deserialize_varint_common (memory varint_300) 64 (view 30)).1
deserialize_varint_common-IsAhead_example =
    deserialize_varint_common-IsAhead (memory varint_300) 64 (view 30) view-IsContainer
      view-IsInside

-- A message type with no fields.
abbrev no_fields : PropertyOrdering
no_fields = record {
  num_fields = 0;
  field_number_offset = 1;
  property_index_offset = 1;
  flags_offset = 1;
  full_package_name_size = 0;
  uint_data = 0 ∷ [];
  char_data = 0 ∷ 0 ∷ [];
}

no_fields_lem : index_of_field_number no_fields 1 ≡ none
unfolding index_of_field_number
no_fields_lem = refl

abbrev deserializer : SelfcheckIterator → Deserializer
deserializer i = record {
  m_it = i;
  m_wire_type = unknown;
  m_state = i.container_end ∷ [];
  last_error = no_error;
  preserve_unknown_fields = true;
  unknown_entries = [];
}

-- A length of 2 ^ 64 - 11, which leads back to the header.
abbrev back_to_header : List ℕ
back_to_header = 10 ∷ 245 ∷ 255 ∷ 255 ∷ 255 ∷ 255 ∷ 255 ∷ 255 ∷ 255 ∷ 255 ∷ 1 ∷ []

back_to_header-Holds : Holds (memory back_to_header) 16 (backward_field 1 0)
unfolding encode_header serialize_varint_common of_wire_type
back_to_header-Holds =
    (refl, (refl, (refl, (refl, (refl, (refl, (refl, (refl, (refl, (refl, (refl, tt)))))))))))

next_field_index_diverges_example :
    next_field_index (memory back_to_header) 7 100 no_fields (deserializer (view 30)) ≡ none
unfolding encode_header serialize_varint_common of_wire_type bytes_left loop_goes_on
next_field_index_diverges_example =
    next_field_index_diverges (memory back_to_header) no_fields (deserializer (view 30)) 1
      view-IsContainer view-IsInside (omega arith) (omega arith) no_fields_lem back_to_header-Holds
      (omega arith) refl 7 100

-- The iterator stands one byte behind the begin, and the length leads back to it.
abbrev later : SelfcheckIterator
later = record { container_begin = 15; container_end = 30; it = 16 }

abbrev back_to_begin : List ℕ
back_to_begin = 10 ∷ 244 ∷ 255 ∷ 255 ∷ 255 ∷ 255 ∷ 255 ∷ 255 ∷ 255 ∷ 255 ∷ 1 ∷ []

back_to_begin-Holds : Holds (memory back_to_begin) 16 (backward_field 1 1)
unfolding encode_header serialize_varint_common of_wire_type
back_to_begin-Holds =
    (refl, (refl, (refl, (refl, (refl, (refl, (refl, (refl, (refl, (refl, (refl, tt)))))))))))

next_field_index_gives_up_example :
    next_field_index (memory back_to_begin) 7 1 no_fields (deserializer later)
    ≡ some (
      none,
      record (deserializer later) {
        m_it = record later { it = 15 };
        m_wire_type = length_delimited;
      },
    )
unfolding encode_header serialize_varint_common of_wire_type bytes_left loop_goes_on
next_field_index_gives_up_example =
    next_field_index_gives_up (memory back_to_begin) no_fields (deserializer later) 1 1
      (omega arith) (omega arith) (omega arith) (omega arith) no_fields_lem back_to_begin-Holds
      (omega arith) refl (omega arith) (omega arith) (omega arith) 7 0

abbrev two_bytes : List ℕ
two_bytes = 7 ∷ 8 ∷ []

deserialize-prepend_length_delimited_size_example :
    deserialize_length_delimited (memory (2 ∷ two_bytes)) (view 30) ≡ (
      some two_bytes,
      record (view 30) { it = 16 + length (prepend_length_delimited_size two_bytes) },
    )
unfolding prepend_length_delimited_size serialize_varint_common bytes_left
deserialize-prepend_length_delimited_size_example =
    deserialize-prepend_length_delimited_size (memory (2 ∷ two_bytes)) (view 30) two_bytes
      view-IsContainer view-IsInside (omega arith) (refl, (refl, (refl, tt))) (omega arith)
