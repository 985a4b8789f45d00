-- ===== src/Protobuf/Deserializer/Rounds.antt =====
-- One round of the loop of `nextFieldIndex`, by what the round does.
use qtgrpc.Prelude.{ℕ, suc, ◌≡◌, arith, true, false, some, none}
use qtgrpc.Protobuf.Iterator.{Machine}
use qtgrpc.Protobuf.Ordering.{PropertyOrdering}
use qtgrpc.Protobuf.Deserializer.{
  Deserializer, Next, returns, continues, stuck, field_round, loop_goes_on, leave_message,
  next_field_index,
}

module _ (m : Machine) (skip_fuel fuel : ℕ) (o : PropertyOrdering) (d : Deserializer) where
  next_leaves :
      loop_goes_on d ≡ false → next_field_index m skip_fuel (suc fuel) o d ≡ some (leave_message d)
  unfolding next_field_index
  next_leaves off = ground arith

  pub next_returns :
      (n : Next)
      → loop_goes_on d ≡ true
      → field_round m skip_fuel o d ≡ returns n
      → next_field_index m skip_fuel (suc fuel) o d ≡ some n
  unfolding next_field_index
  next_returns n on r = ground arith

  pub next_continues :
      (d' : Deserializer)
      → loop_goes_on d ≡ true
      → field_round m skip_fuel o d ≡ continues d'
      → next_field_index m skip_fuel (suc fuel) o d ≡ next_field_index m skip_fuel fuel o d'
  unfolding next_field_index
  next_continues d' on r = ground arith

  next_stuck :
      loop_goes_on d ≡ true
      → field_round m skip_fuel o d ≡ stuck
      → next_field_index m skip_fuel (suc fuel) o d ≡ none
  unfolding next_field_index
  next_stuck on r = ground arith
