-- ===== src/Protobuf/Json/Scalars/RoundTrip.antt =====
-- The values of scalar fields come back.
use qtgrpc.Prelude.{
  ℕ, zero, suc, ◌+◌, ◌-◌, ◌<◌, ◌≤◌, ◌≡◌, ◌==◌, refl, ap, subst, ◌∙◌, arith, Bool, true, false, not,
  ◌&&◌, none, some, List, [], ◌∷◌, length, Bool-cases, inl, inr,
}
use qtgrpc.Protobuf.Ordering.{PropertyOrdering, json_name, field_flags}
use qtgrpc.Protobuf.Deserializer.{Error}
use qtgrpc.Protobuf.Json.{
  Text, Json, undefined, null, boolean, integer, double, string, array, object, Members,
}
use qtgrpc.Protobuf.Json.Keys.{find_key}
use qtgrpc.Protobuf.Json.Objects.{Has}
use qtgrpc.Protobuf.Json.Reader.{
  JsonDeserializerState, JsonDeserializer, fresh_state, scalar, kind_of, goes_on, finds, next_index,
  visit, visit_value, visit_kind, push_state, index_loop, index_from, next_field_index,
}
use qtgrpc.Protobuf.Json.Writer.{JsonSerializer}
use qtgrpc.Protobuf.Json.Scalars.{
  Field, write_scalars, is_written, written, top_value, then_read, read_message, read_scalars,
}
use qtgrpc.Protobuf.Json.Scalars.Ready.{IsFirst, IsReady, IsApart, ready}

-- A value that a key of an object may have and that is not passed over.
abbrev is_null : Json → Bool
is_null null = true
is_null _ = false

unfoldable pub none_null : List Field → Bool
none_null [] = true
none_null ((v, present) ∷ fs) = not (is_null v) && none_null fs

module _ (to_upper : ℕ → ℕ) (o : PropertyOrdering) where
  abbrev state_at : Members → ℕ → Json → JsonDeserializerState
  state_at obj i v = record { obj = obj; index = i; scalar_value = v }

  visit_value-scalar :
      (key : Text) (s : JsonDeserializerState) (v : Json)
      → is_null v ≡ false
      → visit_value scalar key s v ≡ finds (record (next_index s) { scalar_value = v }) none
  unfolding visit_value visit_kind
  visit_value-scalar key s undefined h = refl
  visit_value-scalar key s null h = cc
  visit_value-scalar key s (boolean b) h = refl
  visit_value-scalar key s (integer n) h = refl
  visit_value-scalar key s (double n) h = refl
  visit_value-scalar key s (string t) h = refl
  visit_value-scalar key s (array xs) h = refl
  visit_value-scalar key s (object m) h = refl

  visit-Has :
      (obj : Members) (i : ℕ) (u v : Json)
      → kind_of (field_flags o i) ≡ scalar
      → is_null v ≡ false
      → Has to_upper (json_name o i) v obj
      → visit to_upper o (state_at obj i u) ≡ finds (state_at obj (i + 1) v) none
  unfolding visit
  visit-Has obj i u v k h p =
      rw (p.found, visit, p.valued, k) (visit_value-scalar (json_name o i) (state_at obj i u) v h)

  visit-absent :
      (obj : Members) (i : ℕ) (u : Json)
      → find_key to_upper (json_name o i) obj ≡ none
      → visit to_upper o (state_at obj i u) ≡ goes_on (state_at obj (i + 1) u)
  unfolding visit
  visit-absent obj i u h = rw (h, visit) refl

  index_loop-finds :
      (n : ℕ) (s s' : JsonDeserializerState) (below : List JsonDeserializerState) (e : Error)
      → visit to_upper o s ≡ finds s' none
      → index_loop to_upper o (suc n) s below e
        ≡ (some s.index, record { states = s' ∷ below; last_error = e })
  unfolding index_loop push_state
  index_loop-finds n s s' below e h = rw (h, index_loop) refl

  index_loop-goes_on :
      (n : ℕ) (s s' : JsonDeserializerState) (below : List JsonDeserializerState) (e : Error)
      → visit to_upper o s ≡ goes_on s'
      → index_loop to_upper o (suc n) s below e ≡ index_loop to_upper o n s' below e
  unfolding index_loop
  index_loop-goes_on n s s' below e h = rw (h, index_loop) refl

  read_next :
      (fuel i n : ℕ) (obj : Members) (u : Json) (below : List JsonDeserializerState) (e : Error)
      → 1 ≤ o.num_fields
      → i + n ≡ o.num_fields
      → read_message to_upper o
          (suc fuel)
          (record { states = state_at obj i u ∷ below; last_error = e })
        ≡ then_read
            (index_loop to_upper o n (state_at obj i null) below e)
            (read_message to_upper o fuel)
  unfolding read_message next_field_index index_from
  read_next fuel i n obj u below e some_fields h =
      let z : (o.num_fields == 0) ≡ false = ground arith in
      let rounds : o.num_fields - i ≡ n = omega arith in rw (z, rounds) refl

  -- What is found comes first.
  then_read-some :
      (i : ℕ) (d : JsonDeserializer) (read : JsonDeserializer → List (ℕ × Json) × JsonDeserializer)
      (values : List (ℕ × Json)) (after : JsonDeserializer)
      → read d ≡ (values, after)
      → then_read (some i, d) read ≡ ((i, top_value d.states) ∷ values, after)
  unfolding then_read
  then_read-some i d read values after h = rw h refl

  module _ (scalars : (i : ℕ) → i < o.num_fields → kind_of (field_flags o i) ≡ scalar) where
    loop_lem :
        (fs : List Field) (i fuel : ℕ) (obj : Members) (below : List JsonDeserializerState)
        (e : Error)
        → i + length fs ≡ o.num_fields
        → length fs ≤ fuel
        → IsReady to_upper o obj i fs
        → none_null fs ≡ true
        → then_read
            (index_loop to_upper o (length fs) (state_at obj i null) below e)
            (read_message to_upper o fuel)
          ≡ (written o i fs, record { states = below; last_error = e })
    unfolding written none_null
    loop_lem [] i fuel obj below e h le p n = unfold index_loop then_read in refl
    loop_lem ((v, present) ∷ fs) i zero obj below e h le p n = absurd (omega (arith, le))
    loop_lem ((v, present) ∷ fs) i (suc fuel) obj below e h le (first, others) n =
        let filled : is_null v ≡ false = ground (arith, n) in
        let rest : none_null fs ≡ true = ground (arith, n) in
        elim (Bool-cases (is_written (field_flags o i) present)) [
          | inl w ↦
              let here = subst (λ b. IsFirst to_upper o obj i v b) w first in
              let found = visit-Has obj i null v (scalars i (omega (arith, h))) filled here in
              rw
                (
                  w,
                  index_loop-finds (length fs) (state_at obj i null) (state_at obj (i + 1) v) below
                      e found,
                )
                (then_read-some i
                  (record { states = state_at obj (i + 1) v ∷ below; last_error = e })
                  (read_message to_upper o (suc fuel)) (written o (i + 1) fs)
                  (record { states = below; last_error = e })
                  (read_next fuel (i + 1) (length fs) obj v below e (omega (arith, h))
                      (omega (arith, h))
                    ∙ loop_lem fs (i + 1) fuel obj below e (omega (arith, h)) (omega (arith, le))
                        others rest))
          | inr w ↦
              let missing = subst (λ b. IsFirst to_upper o obj i v b) w first in
              rw
                (
                  w,
                  index_loop-goes_on (length fs) (state_at obj i null) (state_at obj (i + 1) null)
                      below e (visit-absent obj i null missing),
                )
                (loop_lem fs (i + 1) (suc fuel) obj below e (omega (arith, h)) (omega (arith, le))
                  others rest)
        ]

    -- A message that has fields is read whole, and its state is taken off.
    pub read_message-write_scalars :
        (fs : List Field) (d : JsonSerializer) (below : List JsonDeserializerState) (e : Error)
        → IsApart to_upper o
        → 1 ≤ o.num_fields
        → length fs ≡ o.num_fields
        → none_null fs ≡ true
        → ((j : ℕ) → j < o.num_fields → find_key to_upper (json_name o j) d.result ≡ none)
        → read_message to_upper o (suc o.num_fields) (record {
          states = fresh_state (write_scalars o 0 fs d).result ∷ below;
          last_error = e;
        })
          ≡ (written o 0 fs, record { states = below; last_error = e })
    read_message-write_scalars fs d below e apart some_fields l n fresh =
        let obj = (write_scalars o 0 fs d).result in
        read_next o.num_fields 0 (length fs) obj undefined below e some_fields (omega (arith, l))
        ∙ loop_lem fs 0 o.num_fields obj below e (omega (arith, l)) (omega (arith, l))
            (ready to_upper o apart fs 0 d (omega (arith, l)) (λ j above lt. fresh j lt)) n

    read_scalars-fieldless :
        (d : JsonDeserializer)
        → o.num_fields ≡ 0
        → read_scalars to_upper o (suc o.num_fields) d ≡ []
    unfolding read_scalars read_message next_field_index
    read_scalars-fieldless d h =
        let z : (o.num_fields == 0) ≡ true = ground arith in
        rw (read_scalars, read_message, z) (unfold then_read in refl)

    -- The fields of a message of scalar fields that the serializer does not leave out are those that
    -- the deserializer hands out, with their values and in the order of the fields, and it ends there.
    -- No value is null in JSON, the names of two fields are not taken for one another, and the
    -- object that is written to has no key for any of them.
    pub read_scalars-write_scalars :
        (fs : List Field) (d : JsonSerializer) (below : List JsonDeserializerState) (e : Error)
        → IsApart to_upper o
        → length fs ≡ o.num_fields
        → none_null fs ≡ true
        → ((j : ℕ) → j < o.num_fields → find_key to_upper (json_name o j) d.result ≡ none)
        → read_scalars to_upper o (suc o.num_fields) (record {
          states = fresh_state (write_scalars o 0 fs d).result ∷ below;
          last_error = e;
        })
          ≡ written o 0 fs
    unfolding written
    read_scalars-write_scalars [] d below e apart l n fresh =
        read_scalars-fieldless _ (omega (arith, l))
    read_scalars-write_scalars (f ∷ fs) d below e apart l n fresh =
        unfold read_scalars in
        ap (λ r. r.0)
          (read_message-write_scalars (f ∷ fs) d below e apart (omega (arith, l)) l n fresh)
