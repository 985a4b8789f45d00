-- ===== src/Protobuf/Scalars/Lists.antt =====
-- Lists of scalars, packed behind one length, for any scalar that is read back as it was written.
use qtgrpc.Prelude.{
  ℕ, zero, suc, ◌+◌, ◌-◌, ◌^◌, ◌≤◌, ◌<◌, ◌≡◌, refl, ap, arith, ◌==◌, ltb, true, false, some, List,
  [], ◌∷◌, length, length-append, All,
}
use qtgrpc.Protobuf.Iterator.{
  Machine, SelfcheckIterator, is_valid, bytes_left, IsContainer, IsInside, Holds, Holds-append,
  advance_inside,
}
use qtgrpc.Protobuf.Varint.{serialize_varint_common}
use qtgrpc.Protobuf.Varint.RoundTrip.{deserialize-serialize_varint_common}
use qtgrpc.Protobuf.LengthDelimited.{prepend_length_delimited_size}
use qtgrpc.Protobuf.Scalars.{
  Codec, serialize_each, serialize_list_type, append_rest, then_read, list_turn, list_loop,
  read_elements, deserialize_list,
}

-- What a list asks of its scalars: values in range take a byte or more, and are read back where
-- they were written.
pub record IsCodec (m : Machine) (codec : Codec) (InRange : ℕ → Type 0) : Type 0 where
  pub takes_bytes : (v : ℕ) → InRange v → 0 < length (codec.serialize_basic v)
  pub reads_back :
      (i : SelfcheckIterator) (v : ℕ)
      → IsContainer i
      → IsInside i
      → InRange v
      → Holds m i.it (codec.serialize_basic v)
      → length (codec.serialize_basic v) ≤ bytes_left i
      → codec.deserialize_basic i
        ≡ (some v, record i { it = i.it + length (codec.serialize_basic v) })

module _ (m : Machine) (codec : Codec) (InRange : ℕ → Type 0) (law : IsCodec m codec InRange) where
  list_loop-serialize_each :
      (vs : List ℕ) (fuel last : ℕ) (i : SelfcheckIterator)
      → IsContainer i
      → IsInside i
      → All InRange vs
      → Holds m i.it (serialize_each codec vs)
      → i.it + length (serialize_each codec vs) ≡ last
      → last ≤ i.container_end
      → length (serialize_each codec vs) < fuel
      → list_loop codec fuel last i ≡ (some vs, record i { it = last })
  unfolding list_loop list_turn then_read append_rest
  list_loop-serialize_each vs zero last i c s r h e fits more = absurd (omega arith)
  list_loop-serialize_each [] (suc fuel) last i c s r h e fits more =
      let here : i.it ≡ last = unfold serialize_each in omega (arith, e) in
      let stop : (i.it == last) ≡ true = ground arith in
      rw stop (ap (λ (n : ℕ). (some [], record i { it = n })) here)
  list_loop-serialize_each (v ∷ vs) (suc fuel) last i c s (p, r) h e fits more =
      let bytes = codec.serialize_basic v in
      let l : length (serialize_each codec (v ∷ vs))
          ≡ length bytes + length (serialize_each codec vs) =
        unfold serialize_each in length-append bytes (serialize_each codec vs) in
      let some_bytes = law.takes_bytes v p in
      let (first, rest) =
        Holds-append m i.it bytes (serialize_each codec vs) (unfold serialize_each in h) in
      let j : SelfcheckIterator = record i { it = i.it + length bytes } in
      let go_on : (i.it == last) ≡ false = ground arith in
      let room : length bytes ≤ bytes_left i = unfold bytes_left in ground arith in
      let read = law.reads_back i v c s p first room in
      let others =
        list_loop-serialize_each vs fuel last j
          (record { ordered = c.ordered; bounded = c.bounded })
          (record { from = omega (arith, s.from); to = omega (arith, e, l, fits) }) r rest
          (omega arith) fits (omega (arith, l, more)) in
      rw (go_on, read, others) refl

  read_elements-serialize_each :
      (vs : List ℕ) (i : SelfcheckIterator)
      → IsContainer i
      → IsInside i
      → All InRange vs
      → length (serialize_each codec vs) < 2 ^ 63
      → Holds m i.it (serialize_each codec vs)
      → length (serialize_each codec vs) ≤ bytes_left i
      → read_elements codec (some (length (serialize_each codec vs)), i)
        ≡ (some vs, record i { it = i.it + length (serialize_each codec vs) })
  unfolding read_elements
  read_elements-serialize_each vs i c s r small h room =
      let n = length (serialize_each codec vs) in
      let last : SelfcheckIterator = record i { it = i.it + n } in
      let to : i.it + n ≤ i.container_end = unfold bytes_left in ground arith in
      let valid : is_valid last ≡ true = unfold is_valid in ground arith in
      let countable : ltb (2 ^ 63 - 1) n ≡ false = ground arith in
      rw (advance_inside i n c s (omega arith), countable, valid)
        (list_loop-serialize_each vs (bytes_left i + 1) (i.it + n) i c s r h refl to (omega arith))

  -- Where the container holds a packed list that the serializer wrote, of less than 2 ^ 63 bytes, the
  -- deserializer returns the list, and stops behind its last byte.
  pub deserialize_list-serialize_list_type :
      (v : ℕ) (vs : List ℕ) (i : SelfcheckIterator)
      → IsContainer i
      → IsInside i
      → All InRange (v ∷ vs)
      → length (serialize_each codec (v ∷ vs)) < 2 ^ 63
      → Holds m i.it (serialize_list_type codec (v ∷ vs))
      → length (serialize_list_type codec (v ∷ vs)) ≤ bytes_left i
      → deserialize_list codec m i
        ≡ (some (v ∷ vs), record i { it = i.it + length (serialize_list_type codec (v ∷ vs)) })
  unfolding deserialize_list serialize_list_type prepend_length_delimited_size
  deserialize_list-serialize_list_type v vs i c s r small h room =
      let body = serialize_each codec (v ∷ vs) in
      let size = serialize_varint_common (length body) in
      let l = length-append size body in
      let (first, rest) = Holds-append m i.it size body h in
      let read =
        deserialize-serialize_varint_common m 64 i (length body) c (omega arith) (omega arith) first
          (omega arith) in
      let j : SelfcheckIterator = record i { it = i.it + length size } in
      let to : i.it + length size + length body ≤ i.container_end =
        unfold bytes_left in ground arith in
      let left : length body ≤ bytes_left j = unfold bytes_left in ground arith in
      let elements =
        read_elements-serialize_each (v ∷ vs) j
          (record { ordered = c.ordered; bounded = c.bounded })
          (record { from = omega (arith, s.from); to = omega arith }) r small rest left in
      rw (read, elements, l) (ap (λ (n : ℕ). (some (v ∷ vs), record i { it = n })) (omega arith))
