-- ===== src/Protobuf/Scalars/Fixed.antt =====
-- Fixed-width values: bytes in little-endian order.
use native.Mathlib.Nat.{pow-succ'}
use qtgrpc.Prelude.{
  ℕ, zero, suc, ◌+◌, ◌/◌, ◌^◌, ◌≤◌, ◌<◌, ◌≡◌, refl, arith, ltb, false, some, length,
}
use qtgrpc.Protobuf.Iterator.{
  Machine, SelfcheckIterator, bytes_left, IsContainer, IsInside, Holds, advance_inside,
}
use qtgrpc.Protobuf.Scalars.{serialize_fixed, load_little_endian, deserialize_fixed}

pub length-serialize_fixed : (size v : ℕ) → length (serialize_fixed size v) ≡ size
unfolding serialize_fixed
length-serialize_fixed zero v = refl
length-serialize_fixed (suc size) v = omega (arith, length-serialize_fixed size (v / 256))

load-serialize_fixed :
    (m : Machine) (size a v : ℕ)
    → v < 256 ^ size
    → Holds m a (serialize_fixed size v)
    → load_little_endian m size a ≡ v
unfolding serialize_fixed load_little_endian
load-serialize_fixed m zero a v h holds = omega arith
load-serialize_fixed m (suc size) a v h (e, holds) = omega (
  arith,
  e,
  pow-succ' 256 size,
  load-serialize_fixed m size (a + 1) (v / 256) (omega (arith, pow-succ' 256 size)) holds,
)

-- Where the container holds what the serializer wrote for a value of a type of fixed width, the
-- deserializer returns it, and stops behind its last byte.
pub deserialize-serialize_fixed :
    (m : Machine) (size : ℕ) (i : SelfcheckIterator) (v : ℕ)
    → IsContainer i
    → IsInside i
    → v < 256 ^ size
    → Holds m i.it (serialize_fixed size v)
    → length (serialize_fixed size v) ≤ bytes_left i
    → deserialize_fixed m size i
      ≡ (some v, record i { it = i.it + length (serialize_fixed size v) })
unfolding deserialize_fixed
deserialize-serialize_fixed m size i v c s h holds room =
    let l = length-serialize_fixed size v in
    let enough : ltb (bytes_left i) size ≡ false = ground arith in
    rw
      (
        enough,
        load-serialize_fixed m size i.it v h holds,
        advance_inside i size c s (omega arith),
        l,
      )
      refl
