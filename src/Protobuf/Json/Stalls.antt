-- ===== src/Protobuf/Json/Stalls.antt =====
-- A nested message whose type has no fields.
use qtgrpc.Prelude.{ℕ, zero, suc, ◌+◌, ◌<◌, ◌≡◌, refl, arith, none, List, ◌∷◌}
use qtgrpc.Protobuf.Ordering.{PropertyOrdering}
use qtgrpc.Protobuf.Deserializer.{Error}
use qtgrpc.Protobuf.Json.{Json, null, end}
use qtgrpc.Protobuf.Json.Keys.{find_key}
use qtgrpc.Protobuf.Json.Reader.{
  goes_on, JsonDeserializerState, fresh_state, visit, index_loop, index_from, next_field_index,
}

abbrev state_at : ℕ → Json → JsonDeserializerState
state_at i v = record { obj = end; index = i; scalar_value = v }

module _ (to_upper : ℕ → ℕ) (o : PropertyOrdering) where
  visit-end : (i : ℕ) (v : Json) → visit to_upper o (state_at i v) ≡ goes_on (state_at (i + 1) v)
  unfolding visit find_key
  visit-end i v = refl

  -- An object with no members has no field.
  index_loop-end :
      (rounds i : ℕ) (v : Json) (below : List JsonDeserializerState) (e : Error)
      → index_loop to_upper o rounds (state_at i v) below e
        ≡ (none, record { states = below; last_error = e })
  unfolding index_loop
  index_loop-end zero i v below e = refl
  index_loop-end (suc rounds) i v below e =
      rw (visit-end i v, index_loop) (index_loop-end rounds (i + 1) v below e)

  -- A message type without fields leaves the state of its object behind. The message around it then
  -- looks for its own fields in that empty object: it finds none, whatever it has left, and ends.
  pub next_field_index-next_field_index :
      (child : PropertyOrdering) (parent : JsonDeserializerState)
      (below : List JsonDeserializerState) (e : Error)
      → child.num_fields ≡ 0
      → 0 < o.num_fields
      → next_field_index to_upper o
          (next_field_index to_upper child
            (record { states = fresh_state end ∷ (parent ∷ below); last_error = e })).1
        ≡ (none, record { states = parent ∷ below; last_error = e })
  unfolding next_field_index index_from
  next_field_index-next_field_index child parent below e z h =
      rw (z, next_field_index)
        (ground (arith, index_loop-end o.num_fields 0 null (parent ∷ below) e))
