-- ===== src/Protobuf/SerializerBase/Cycles.antt =====
-- Required fields whose types form a cycle.
use mathlib.Core.Option
use qtgrpc.Prelude.{
  ℕ, zero, suc, ◌+◌, ◌<◌, ◌≤◌, ◌==◌, ==_iff, ◌≡◌, refl, arith, ltb, ltb→lt, if◌then◌else◌, Bool,
  true, false, ◌&&◌, Option, none, some, List, [], ◌∷◌, Bool-cases, inl, inr,
}
use qtgrpc.Protobuf.Ordering.{PropertyOrdering, field_flags, test_any_flags}
use qtgrpc.Protobuf.SerializerBase.{
  Message, message, Property, empty, null_pointer, pointer, repeated, plain, Handler, no_handler,
  hands_back, Messages, no_messages, next, Properties, no_properties, property, Format, and_then,
  flag_required, flag_enum, serialize_enum_field, serialize_properties, serialize_property,
  serialize_handled, serialize_each, serialize_message_field, serialize_message, is_pending,
  serialize_default_message_field, serialize,
}

-- The null pointers of a message are to types below a bound.
unfoldable mutual
  pub is_over : {Value : Type 0} → ℕ → Message Value → Bool
  is_over n (message o ps) = are_over n ps

  pub are_over : {Value : Type 0} → ℕ → Properties Value → Bool
  are_over n no_properties = true
  are_over n (property p ps) = is_property_over n p && are_over n ps

  pub is_property_over : {Value : Type 0} → ℕ → Property Value → Bool
  is_property_over n empty = true
  is_property_over n (null_pointer t) = ltb t n
  is_property_over n (pointer m) = is_over n m
  is_property_over n (repeated ms) = is_each_over n ms
  is_property_over n (plain v h) = is_handled_over n h

  pub is_handled_over : {Value : Type 0} → ℕ → Handler Value → Bool
  is_handled_over n no_handler = true
  is_handled_over n (hands_back ms) = is_each_over n ms

  pub is_each_over : {Value : Type 0} → ℕ → Messages Value → Bool
  is_each_over n no_messages = true
  is_each_over n (next m ms) = is_over n m && is_each_over n ms

both : (a b : Bool) → (a && b) ≡ true → (a ≡ true) × (b ≡ true)
both true b h = (refl, h)
both false b h = cc

abbrev Ends : {State : Type 0} → Option State → Type 0
Ends {State} r = (st : State) × (r ≡ some st)

Ends-and_then :
    {State : Type 0}
    → (r : Option State) (f : State → Option State) → Ends r
    → ((st : State) → Ends (f st))
    → Ends (and_then r f)
unfolding and_then
Ends-and_then none f (st, e) h = cc
Ends-and_then (some st') f (st, e) h = h st'

Ends-map :
    {State : Type 0} → (r : Option State) (f : State → State) → Ends r → Ends (Option.map f r)
Ends-map none f (st, e) = cc
Ends-map (some st') f (st, e) = (f st', refl)

Ends-if :
    {State : Type 0}
    → (b : Bool) (r r' : Option State) → Ends r
    → Ends r'
    → Ends (if b then r else r')
Ends-if true r r' h k = h
Ends-if false r r' h k = k

-- How many types below a bound are not pending.
unfoldable left : ℕ → List ℕ → ℕ
left zero pending = 0
left (suc n) pending =
    let below = left n pending in if is_pending n pending then below else suc below

left_none : (n : ℕ) → left n [] ≡ n
unfolding left is_pending
left_none zero = refl
left_none (suc n) = rw (left_none n) refl

left_le : (n t : ℕ) (pending : List ℕ) → left n (t ∷ pending) ≤ left n pending
unfolding left is_pending
left_le zero t pending = omega arith
left_le (suc n) t pending = ground (arith, left_le n t pending)

left_lt :
    (n t : ℕ) (pending : List ℕ)
    → t < n
    → is_pending t pending ≡ false
    → left n (t ∷ pending) < left n pending
unfolding left is_pending
left_lt zero t pending lt h = absurd (omega arith)
left_lt (suc n) t pending lt h = elim (Bool-cases (n == t)) [
  | inl e ↦
      let eq : n ≡ t = (==_iff n t).0 e in
      let out : is_pending n pending ≡ false = rw eq h in
      rw (e, out) (omega (arith, left_le n t pending))
  | inr e ↦ ground (arith, left_le n t pending, left_lt n t pending)
]

module _ (Value State : Type 0) (format : Format Value State) where
  module _ (n : ℕ) (default : ℕ → PropertyOrdering → ℕ → State → Option State)
      (default-Ends : (t : ℕ)
        → t < n
        → (o : PropertyOrdering) (i : ℕ) (st : State) → Ends (default t o i st)) where
    mutual
      unfolding is_over are_over is_property_over is_handled_over is_each_over serialize_properties
          serialize_property serialize_handled serialize_each serialize_message_field

      properties-Ends :
          (o : PropertyOrdering) (i : ℕ) (ps : Properties Value) (st : State)
          → are_over n ps ≡ true
          → Ends (serialize_properties Value State format default o i ps st)
      properties-Ends o i no_properties st h = (st, refl)
      properties-Ends o i (property p ps) st h =
          let (first, others) = both (is_property_over n p) (are_over n ps) h in
          Ends-and_then (serialize_property Value State format default o i p st)
            (serialize_properties Value State format default o (i + 1) ps)
            (property-Ends o i p st first) (λ st'. properties-Ends o (i + 1) ps st' others)

      property-Ends :
          (o : PropertyOrdering) (i : ℕ) (p : Property Value) (st : State)
          → is_property_over n p ≡ true
          → Ends (serialize_property Value State format default o i p st)
      property-Ends o i empty st h = (st, refl)
      property-Ends o i (null_pointer t) st h =
          Ends-if (test_any_flags (field_flags o i) flag_required) (default t o i st) (some st)
            (default-Ends t (ltb→lt t n h) o i st) (st, refl)
      property-Ends o i (pointer m) st h = field-Ends o i m st h
      property-Ends o i (repeated ms) st h = each-Ends o i ms st h
      property-Ends o i (plain v k) st h =
          let (done, st') = format.serialize_scalar_field o i v st in
          let handled = serialize_handled Value State format default o i k st' in
          let direct = serialize_enum_field Value State format o i v st in
          Ends-if (test_any_flags (field_flags o i) flag_enum) (some direct)
            (if done then some st' else handled) (direct, refl)
            (Ends-if done (some st') handled (st', refl) (handled-Ends o i k st' h))

      handled-Ends :
          (o : PropertyOrdering) (i : ℕ) (k : Handler Value) (st : State)
          → is_handled_over n k ≡ true
          → Ends (serialize_handled Value State format default o i k st)
      handled-Ends o i no_handler st h = (st, refl)
      handled-Ends o i (hands_back ms) st h = each-Ends o i ms st h

      each-Ends :
          (o : PropertyOrdering) (i : ℕ) (ms : Messages Value) (st : State)
          → is_each_over n ms ≡ true
          → Ends (serialize_each Value State format default o i ms st)
      each-Ends o i no_messages st h = (st, refl)
      each-Ends o i (next m ms) st h =
          let (first, others) = both (is_over n m) (is_each_over n ms) h in
          Ends-and_then (serialize_message_field Value State format default o i m st)
            (serialize_each Value State format default o i ms) (field-Ends o i m st first)
            (λ st'. each-Ends o i ms st' others)

      field-Ends :
          (o : PropertyOrdering) (i : ℕ) (m : Message Value) (st : State)
          → is_over n m ≡ true
          → Ends (serialize_message_field Value State format default o i m st)
      field-Ends o i (message o' ps) st h =
          Ends-map
            (serialize_properties Value State format default o' 0 ps
              (format.message_field_begin st))
            (format.message_field_end o i (message o' ps))
            (properties-Ends o' 0 ps (format.message_field_begin st) h)

    message-Ends :
        (m : Message Value) (st : State)
        → is_over n m ≡ true
        → Ends (serialize_message Value State format default m st)
    unfolding is_over serialize_message
    message-Ends (message o ps) st h = properties-Ends o 0 ps st h

  module _ (create : ℕ → Message Value) (n : ℕ)
      (create_over : (t : ℕ) → t < n → is_over n (create t) ≡ true) where
    default_field-Ends :
        (fuel : ℕ) (pending : List ℕ)
        → left n pending < fuel
        → (t : ℕ) → t < n
        → (o : PropertyOrdering) (i : ℕ) (st : State)
        → Ends (serialize_default_message_field Value State format create fuel pending t o i st)
    unfolding serialize_default_message_field
    default_field-Ends zero pending f t lt o i st = absurd (omega arith)
    default_field-Ends (suc fuel) pending f t lt o i st = elim (Bool-cases (is_pending t pending)) [
      | inl e ↦ rw e (st, refl)
      | inr e ↦
          let fewer = left_lt n t pending lt e in
          rw e (
            field-Ends n
              (serialize_default_message_field Value State format create fuel (t ∷ pending))
              (default_field-Ends fuel (t ∷ pending) (omega (arith, fewer))) o i (create t) st
              (create_over t lt))
    ]

    -- Required fields whose types form a cycle do not keep the serializer from ending: with as many
    -- rounds of default messages as there are message types, and one more, it gives a result.
    pub serialize-Ends :
        (m : Message Value) (st : State)
        → is_over n m ≡ true
        → (st' : State) × (serialize Value State format create (suc n) m st ≡ some st')
    unfolding serialize
    serialize-Ends m st h =
        message-Ends n (serialize_default_message_field Value State format create (suc n) [])
          (default_field-Ends (suc n) [] (omega (arith, left_none n))) m st h
