-- ===== src/Protobuf/Scalars/Codecs.antt =====
-- Each kind of scalar can stand in a packed list.
use qtgrpc.Prelude.{ℕ, suc, ◌^◌, ◌<◌, arith}
use qtgrpc.Protobuf.Iterator.{Machine}
use qtgrpc.Protobuf.Varint.Encode.{serialize_varint_common_shape}
use qtgrpc.Protobuf.Varint.RoundTrip.{deserialize-serialize_varint_common}
use qtgrpc.Protobuf.Scalars.{
  zig_zag, sign_extend, serialize_zigzag, serialize_signed, unsigned, zigzag, signed, fixed,
}
use qtgrpc.Protobuf.Scalars.ZigZag.{
  zig_zag-lt, sign_extend-lt, deserialize-serialize_zigzag, deserialize-serialize_signed, pow_word,
}
use qtgrpc.Protobuf.Scalars.Fixed.{length-serialize_fixed, deserialize-serialize_fixed}
use qtgrpc.Protobuf.Scalars.Lists.{IsCodec}

abbrev pub IsBelow : ℕ → ℕ → Type 0
IsBelow bound v = v < bound

module _ (m : Machine) (k : ℕ) (w : k < 64) where
  unsigned-IsCodec : IsCodec m (unsigned m (suc k)) (IsBelow (2 ^ suc k))
  unfolding unsigned
  unsigned-IsCodec = record {
    takes_bytes = λ v h. (serialize_varint_common_shape v (omega (arith, pow_word k w))).1;
    reads_back = λ i v c s h holds room.
        deserialize-serialize_varint_common m (suc k) i v c (omega arith) h holds room;
  }

  pub zigzag-IsCodec : IsCodec m (zigzag m (suc k)) (IsBelow (2 ^ suc k))
  unfolding zigzag serialize_zigzag
  zigzag-IsCodec = record {
    takes_bytes = λ v h.
        (serialize_varint_common_shape (zig_zag (suc k) v)
          (omega (arith, zig_zag-lt k v h, pow_word k w))).1;
    reads_back = λ i v c s h holds room. deserialize-serialize_zigzag m k i v c w h holds room;
  }

  signed-IsCodec : IsCodec m (signed m (suc k)) (IsBelow (2 ^ suc k))
  unfolding signed serialize_signed
  signed-IsCodec = record {
    takes_bytes =
        λ v h. (serialize_varint_common_shape (sign_extend (suc k) v) (sign_extend-lt k v w h)).1;
    reads_back = λ i v c s h holds room. deserialize-serialize_signed m k i v c w h holds room;
  }

fixed-IsCodec : (m : Machine) (size : ℕ) → IsCodec m (fixed m (suc size)) (IsBelow (256 ^ suc size))
unfolding fixed
fixed-IsCodec m size = record {
  takes_bytes = λ v h. omega (arith, length-serialize_fixed (suc size) v);
  reads_back =
      λ i v c s h holds room. deserialize-serialize_fixed m (suc size) i v c s h holds room;
}
