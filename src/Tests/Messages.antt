-- ===== src/Tests/Messages.antt =====
-- Runs of the loop over the fields of a message.
use qtgrpc.Prelude.{
  ℕ, zero, suc, ◌+◌, ◌≡◌, refl, arith, if◌then◌else◌, Bool, true, false, Option, none, some, List,
  [], ◌∷◌,
}
use qtgrpc.Protobuf.Ordering.{PropertyOrdering, json_name, uint_data_for_index}
use qtgrpc.Protobuf.DeserializerBase.{
  unseen_fields, is_empty, check_required_fields, Properties, Format, deserialize_message,
}
use qtgrpc.Protobuf.DeserializerBase.Required.{
  IsNamed, mark_all, all_present, check_required_fields-mark_all,
}
use qtgrpc.Protobuf.DeserializerBase.Cached.{
  IsStore, observed, direct_loop, deserialize_message-direct_loop,
}

-- One required field, named "a".
abbrev ordering : PropertyOrdering
ordering = record {
  num_fields = 1;
  field_number_offset = 2;
  property_index_offset = 3;
  flags_offset = 4;
  full_package_name_size = 0;
  uint_data = 0 ∷ 2 ∷ 1 ∷ 0 ∷ 256 ∷ [];
  char_data = 97 ∷ 0 ∷ [];
}

ordering-IsNamed : IsNamed ordering
unfolding is_empty json_name uint_data_for_index
ordering-IsNamed zero h = refl
ordering-IsNamed (suc i) h = absurd (omega arith)

check_required_fields-mark_all_example :
    check_required_fields true false ordering (mark_all (0 ∷ []) (unseen_fields 1))
    ≡ all_present ordering (0 ∷ []) 1 0
check_required_fields-mark_all_example =
    check_required_fields-mark_all ordering (0 ∷ []) ordering-IsNamed (omega arith, tt)

-- Messages with two numbers.
abbrev get : ℕ × ℕ → ℕ → ℕ
get (a, b) zero = a
get (a, b) (suc i) = b

abbrev put : ℕ × ℕ → ℕ → ℕ → Bool × (ℕ × ℕ)
put (a, b) zero v = (true, (v, b))
put (a, b) (suc i) v = (true, (a, v))

abbrev numbers : Properties ℕ (ℕ × ℕ) (List ℕ)
numbers = record { property = get; set_property = put; is_null = λ v. false }

put-ok : (m : ℕ × ℕ) (i v : ℕ) → (put m i v).0 ≡ true
put-ok (a, b) zero v = refl
put-ok (a, b) (suc i) v = refl

get-put : (m : ℕ × ℕ) (i v : ℕ) → get (put m i v).1 i ≡ v
get-put (a, b) zero v = refl
get-put (a, b) (suc i) v = refl

put-put : (m : ℕ × ℕ) (i v w : ℕ) → (put (put m i v).1 i w).1 ≡ (put m i w).1
put-put (a, b) zero v w = refl
put-put (a, b) (suc i) v w = refl

numbers-IsStore : IsStore ℕ (ℕ × ℕ) (List ℕ) numbers
numbers-IsStore = record {
  stores = put-ok;
  get_set = get-put;
  set_set = put-put;
  not_null = λ v. refl;
}

-- The fields that follow; each adds one to its value.
abbrev next : List ℕ → Option ℕ × List ℕ
next [] = (none, [])
next (i ∷ rest) = (some i, rest)

abbrev format : Format ℕ (ℕ × ℕ) (List ℕ)
format = record {
  next_field_index = next;
  read_value = λ i v rest. (true, v + 1, rest);
  set_error = λ e rest. rest;
  has_error = λ rest. false;
}

deserialize_message-direct_loop_example :
    observed ℕ (ℕ × ℕ) (List ℕ) numbers format (
      deserialize_message ℕ
        (ℕ × ℕ)
        (List ℕ)
        numbers
        format
        true
        ordering
        9
        (5, 6)
        (0 ∷ 1 ∷ 1 ∷ 0 ∷ []))
    ≡ direct_loop ℕ
        (ℕ × ℕ)
        (List ℕ)
        numbers
        format
        true
        ordering
        9
        (5, 6)
        (if true then unseen_fields ordering.num_fields else [])
        (0 ∷ 1 ∷ 1 ∷ 0 ∷ [])
deserialize_message-direct_loop_example =
    deserialize_message-direct_loop ℕ (ℕ × ℕ) (List ℕ) numbers format true ordering numbers-IsStore
      9 (5, 6) (0 ∷ 1 ∷ 1 ∷ 0 ∷ [])
