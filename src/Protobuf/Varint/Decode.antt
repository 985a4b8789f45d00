-- ===== src/Protobuf/Varint/Decode.antt =====
-- `deserializeVarintCommon` on any input, well formed or not.
use qtgrpc.Prelude.{
  ℕ, zero, suc, ◌+◌, ◌^◌, ◌%◌, ◌≤◌, ◌<◌, ◌≡◌, refl, arith, Option, none, some, inl, inr, ◌⊎◌,
}
use qtgrpc.Protobuf.Iterator.{
  Machine, SelfcheckIterator, increment, bytes_left, IsContainer, IsInside, increment-IsContainer,
  increment-IsInside, bytes_left-IsInside,
}
use qtgrpc.Protobuf.Varint.{accumulate, varint_loop, cast_to, deserialize_varint_common}

-- Two numbers of rounds that are both above the bytes left give the same result: the loop ends by
-- itself.
pub varint_loop_fuel :
    (m : Machine) (fuel more : ℕ) (i : SelfcheckIterator) (value k : ℕ)
    → IsContainer i
    → bytes_left i < fuel
    → bytes_left i < more
    → varint_loop m fuel i value k ≡ varint_loop m more i value k
unfolding varint_loop
varint_loop_fuel m zero more i value k c h g = absurd (omega arith)
varint_loop_fuel m (suc fuel) zero i value k c h g = absurd (omega arith)
varint_loop_fuel m (suc fuel) (suc more) i value k c h g = ground (
  arith,
  increment-IsInside i c,
  varint_loop_fuel m fuel more (increment i) (accumulate m (m.load i.it) value k) (k + 7)
      (increment-IsContainer i c),
)

-- Where a varint ends: in the same container, at or behind where it began.
pub record IsAhead (i j : SelfcheckIterator) : Type 0 where
  pub same_begin : j.container_begin ≡ i.container_begin
  pub same_end : j.container_end ≡ i.container_end
  pub forward : i.it ≤ j.it
  pub inside : j.it ≤ i.container_end

varint_loop-IsAhead :
    (m : Machine) (fuel : ℕ) (i : SelfcheckIterator) (value k : ℕ)
    → IsContainer i
    → IsInside i
    → IsAhead i (varint_loop m fuel i value k).1
unfolding varint_loop
varint_loop-IsAhead m zero i value k c h = ground arith
varint_loop-IsAhead m (suc fuel) i value k c h = ground (
  arith,
  increment-IsInside i c,
  varint_loop-IsAhead m fuel (increment i) (accumulate m (m.load i.it) value k) (k + 7)
      (increment-IsContainer i c),
)

accumulate-lt : (m : Machine) (byte value k : ℕ) → accumulate m byte value k < 2 ^ 64
unfolding accumulate
accumulate-lt m byte value k = omega arith

-- A varint that is read has taken a byte, and its value is a quint64.
varint_loop_takes :
    (m : Machine) (fuel : ℕ) (i : SelfcheckIterator) (value k v : ℕ) (j : SelfcheckIterator)
    → IsContainer i
    → varint_loop m fuel i value k ≡ (some v, j)
    → (i.it < j.it) × (v < 2 ^ 64)
unfolding varint_loop
varint_loop_takes m zero i value k v j c e = cc
varint_loop_takes m (suc fuel) i value k v j c e = ground (
  arith,
  increment-IsInside i c,
  accumulate-lt m (m.load i.it) value k,
  varint_loop_takes m fuel (increment i) (accumulate m (m.load i.it) value k) (k + 7) v j
      (increment-IsContainer i c),
)

-- A varint that is not read has used up the container.
varint_loop_starves :
    (m : Machine) (fuel : ℕ) (i : SelfcheckIterator) (value k : ℕ) (j : SelfcheckIterator)
    → IsContainer i
    → IsInside i
    → bytes_left i < fuel
    → varint_loop m fuel i value k ≡ (none, j)
    → j.it ≡ i.container_end
unfolding varint_loop
varint_loop_starves m zero i value k j c s h e = absurd (omega arith)
varint_loop_starves m (suc fuel) i value k j c s h e = ground (
  arith,
  increment-IsInside i c,
  bytes_left-IsInside i s,
  varint_loop_starves m fuel (increment i) (accumulate m (m.load i.it) value k) (k + 7) j
      (increment-IsContainer i c),
)

cast_to_outcome :
    (bits : ℕ) (i : SelfcheckIterator) (r : Option ℕ × SelfcheckIterator)
    → ((v : ℕ) (j : SelfcheckIterator) → r ≡ (some v, j) → i.it < j.it)
    → ((j : SelfcheckIterator) → r ≡ (none, j) → j.it ≡ i.container_end)
    → ((v : ℕ) × ((cast_to bits r).0 ≡ some v) × (i.it < (cast_to bits r).1.it))
      ⊎ (((cast_to bits r).0 ≡ none) × ((cast_to bits r).1.it ≡ i.container_end))
cast_to_outcome bits i (some v, j) hs hn = inl (v % 2 ^ bits, refl, hs v j refl)
cast_to_outcome bits i (none, j) hs hn = inr (refl, hn j refl)

module _ (m : Machine) (bits : ℕ) (i : SelfcheckIterator) (c : IsContainer i) (s : IsInside i) where
  -- Whatever the bytes, an iterator that begins inside its container ends inside it, at or behind where
  -- it began.
  pub deserialize_varint_common-IsAhead : IsAhead i (deserialize_varint_common m bits i).1
  unfolding deserialize_varint_common
  deserialize_varint_common-IsAhead =
      ground (arith, varint_loop-IsAhead m (bytes_left i + 1) i 0 0 c s)

  -- An iterator that begins inside its container has moved on where a value is returned, and stands at
  -- the end of the container where none is.
  deserialize_varint_common_outcome :
      let r = deserialize_varint_common m bits i in
      ((v : ℕ) × (r.0 ≡ some v) × (i.it < r.1.it)) ⊎ ((r.0 ≡ none) × (r.1.it ≡ i.container_end))
  unfolding deserialize_varint_common
  deserialize_varint_common_outcome =
      cast_to_outcome bits i (varint_loop m (bytes_left i + 1) i 0 0)
        (λ v j e. (varint_loop_takes m (bytes_left i + 1) i 0 0 v j c e).0)
        (λ j e. varint_loop_starves m (bytes_left i + 1) i 0 0 j c s (omega arith) e)
