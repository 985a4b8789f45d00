-- ===== src/Protobuf/Serializer.antt =====
-- `QProtobufSerializerImpl` of src/protobuf/qprotobufserializer.cpp: the bytes written so far, those of
-- the messages around, and the unknown fields that are written again.
use qtgrpc.Prelude.{
  ℕ, ◌%◌, ◌^◌, ◌<◌, ◌≡◌, refl, arith, if◌then◌else◌, Bool, true, List, [], ◌∷◌, ◌++◌, length,
}
use qtgrpc.Protobuf.Varint.{serialize_varint_common}
use qtgrpc.Protobuf.Header.{length_delimited, encode_header}
use qtgrpc.Protobuf.LengthDelimited.{prepend_length_delimited_size}
use qtgrpc.Protobuf.Deserializer.{UnknownEntries}

-- `m_state` holds the bytes of the messages around, the innermost first.
pub record Serializer : Type 0 where
  pub m_state : List (List ℕ)
  pub m_result : List ℕ

unfoldable pub reset : Serializer → Serializer
reset s = record { m_state = []; m_result = [] }

-- `QByteArrayList::join`
join : List (List ℕ) → List ℕ
join [] = []
join (entry ∷ entries) = entry ++ join entries

-- The bytes of all entries, in the order in which the hash gives them.
unfoldable pub unknown_bytes : UnknownEntries → List ℕ
unfolding join
unknown_bytes [] = []
unknown_bytes ((n, entries) ∷ rest) = join entries ++ unknown_bytes rest

unfoldable pub serialize_unknown_fields : Bool → UnknownEntries → Serializer → Serializer
serialize_unknown_fields preserve entries s =
    if preserve then record s { m_result = s.m_result ++ unknown_bytes entries } else s

unfoldable pub serialize_message_field_begin : Serializer → Serializer
serialize_message_field_begin s = record { m_state = s.m_result ∷ s.m_state; m_result = [] }

-- `takeLast` and the appends behind it. The code asserts that a state is there.
close_field : ℕ → List (List ℕ) → List ℕ → Serializer
close_field field_number [] result = record { m_state = []; m_result = result }
close_field field_number (last ∷ state) result = record {
  m_state = state;
  m_result =
      last
      ++ (encode_header field_number length_delimited
          ++ (serialize_varint_common (length result % 2 ^ 32) ++ result));
}

unfoldable pub serialize_message_field_end : Bool → UnknownEntries → ℕ → Serializer → Serializer
unfolding close_field
serialize_message_field_end preserve entries field_number s =
    let s' = serialize_unknown_fields preserve entries s in
    close_field field_number s'.m_state s'.m_result

-- A message field whose fields write `body`, with its unknown fields behind them, comes out as its
-- header and those bytes with their length in front, behind what was written before, as long as the
-- length has 32 bits; and the messages around are as they were.
field_end-field_begin :
    (entries : UnknownEntries) (field_number : ℕ) (body : List ℕ) (s : Serializer)
    → length (body ++ unknown_bytes entries) < 2 ^ 32
    → serialize_message_field_end true entries field_number
        (record (serialize_message_field_begin s) { m_result = body })
      ≡ record s {
        m_result =
            s.m_result
            ++ (encode_header field_number length_delimited
                ++ prepend_length_delimited_size (body ++ unknown_bytes entries));
      }
unfolding serialize_message_field_end serialize_message_field_begin serialize_unknown_fields
    prepend_length_delimited_size
field_end-field_begin entries field_number body s h =
    let e : length (body ++ unknown_bytes entries) % 2 ^ 32
        ≡ length (body ++ unknown_bytes entries) =
      omega arith in
    rw e refl
