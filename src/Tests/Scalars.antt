-- ===== src/Tests/Scalars.antt =====
-- Runs of the scalar serializers on concrete values.
use qtgrpc.Prelude.{◌-◌, ◌^◌, ◌≡◌, refl, arith, some, [], ◌∷◌}
use qtgrpc.Tests.Protobuf.{memory, view, view-IsContainer, view-IsInside}
use qtgrpc.Protobuf.Iterator.{Machine, bytes_left}
use qtgrpc.Protobuf.Varint.{serialize_varint_common}
use qtgrpc.Protobuf.LengthDelimited.{prepend_length_delimited_size}
use qtgrpc.Protobuf.Scalars.{
  sign_mask, zig_zag, serialize_zigzag, zigzag, serialize_each, serialize_list_type,
  deserialize_list,
}
use qtgrpc.Protobuf.Scalars.Codecs.{IsBelow, zigzag-IsCodec}
use qtgrpc.Protobuf.Scalars.Lists.{deserialize_list-serialize_list_type}

abbrev packed : Machine
packed = memory (2 ∷ 6 ∷ 3 ∷ [])

deserialize_list-serialize_list_type_example :
    deserialize_list (zigzag packed 32) packed (view 30)
    ≡ (some (3 ∷ (2 ^ 32 - 2) ∷ []), record (view 30) { it = 19 })
unfolding serialize_list_type serialize_each prepend_length_delimited_size zigzag serialize_zigzag
    zig_zag sign_mask serialize_varint_common bytes_left
deserialize_list-serialize_list_type_example =
    deserialize_list-serialize_list_type packed (zigzag packed 32) (IsBelow (2 ^ 32))
      (zigzag-IsCodec packed 31 (omega arith)) 3 ((2 ^ 32 - 2) ∷ []) (view 30) view-IsContainer
      view-IsInside (omega arith, (omega arith, tt)) (omega arith) (refl, (refl, (refl, tt)))
      (omega arith)
