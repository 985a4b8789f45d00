-- ===== src/Protobuf/DeserializerBase/Cached.antt =====
-- The cache of the last property value against storing every value at once.
use qtgrpc.Prelude.{
  ℕ, zero, suc, ◌≡◌, refl, sym, ap, ◌∙◌, arith, ◌==◌, if◌then◌else◌, Bool, true, false, Bool-cases,
  inl, inr, Option, none, some, List, [],
}
use qtgrpc.Protobuf.Ordering.{PropertyOrdering}
use qtgrpc.Protobuf.Deserializer.{invalid_format}
use qtgrpc.Protobuf.DeserializerBase.{
  unseen_fields, mark_seen, check_required_fields, Properties, Format, Cache, store_value,
  store_cached_value, Outcome, fuel_used, stops, cached_index, load_value, after_read, after_load,
  conclude, finish_message, on_next, field_loop, deserialize_message,
}

module _ (Value Message State : Type 0) where
  -- A stored value is there, and the last one counts; no value is null.
  pub record IsStore (q : Properties Value Message State) : Type 0 where
    pub stores : (m : Message) (i : ℕ) (v : Value) → (q.set_property m i v).0 ≡ true
    pub get_set : (m : Message) (i : ℕ) (v : Value) → q.property (q.set_property m i v).1 i ≡ v
    pub set_set :
        (m : Message) (i : ℕ) (v w : Value)
        → (q.set_property (q.set_property m i v).1 i w).1 ≡ (q.set_property m i w).1
    pub not_null : (v : Value) → q.is_null v ≡ false

  -- The outcome, without the message that a failure leaves behind.
  pub data Observed : Type 0 where
    unfinished : Observed
    refused : State → Observed
    accepted : Message → State → Observed

  module _ (q : Properties Value Message State) (f : Format Value Message State) where
    unfoldable pub observed : Outcome Value Message State q f → Observed
    observed fuel_used = unfinished
    observed (stops true message st) = accepted message st
    observed (stops false message st) = refused st

    module _ (enforce : Bool) (o : PropertyOrdering) where
      -- The reference: each value is loaded, read and stored at once.
      unfoldable pub stored :
          Bool × Value × State → ℕ → Message → (Message → State → Observed) → Observed
      stored (false, value, st) index message go_on = refused st
      stored (true, value, st) index message go_on = go_on (q.set_property message index value).1 st

      unfoldable pub judged : Bool → Message → State → Observed
      judged true message st = accepted message st
      judged false message st = refused (f.set_error invalid_format st)

      unfoldable pub direct_next :
          Option ℕ × State → Message → List ℕ → (Message → List ℕ → State → Observed) → Observed
      unfolding stored judged
      direct_next (none, st) message seen go_on =
          judged (check_required_fields enforce (f.has_error st) o seen) message st
      direct_next (some index, st) message seen go_on =
          let seen' = if enforce then mark_seen index seen else seen in
          stored (f.read_value index (q.property message index) st) index message
            (λ m s. go_on m seen' s)

      unfoldable pub direct_loop : ℕ → Message → List ℕ → State → Observed
      unfolding direct_next
      direct_loop zero message seen st = unfinished
      direct_loop (suc fuel) message seen st =
          direct_next (f.next_field_index st) message seen (direct_loop fuel)

      -- The message with what the cache holds.
      unfoldable pub flush : Cache Value Message State → Message → Message
      flush none message = message
      flush (some (index, value)) message = (q.set_property message index value).1

      module _ (law : IsStore q) where
        conclude-judged :
            (b : Bool) (message : Message) (st : State)
            → observed (conclude Value Message State q f enforce o b message st)
              ≡ judged b message st
        unfolding conclude observed judged
        conclude-judged true message st = refl
        conclude-judged false message st = refl

        finish_message-judged :
            (cache : Cache Value Message State) (message : Message) (seen : List ℕ) (st : State)
            → observed (
                finish_message Value Message State q f enforce o
                  (store_cached_value Value Message State q f cache message)
                  seen
                  st)
              ≡ judged
                  (check_required_fields enforce (f.has_error st) o seen)
                  (flush cache message)
                  st
        unfolding finish_message store_cached_value store_value flush
        finish_message-judged none message seen st =
            conclude-judged (check_required_fields enforce (f.has_error st) o seen) message st
        finish_message-judged (some (index, value)) message seen st =
            rw (law.not_null value, law.stores message index value)
              (conclude-judged (check_required_fields enforce (f.has_error st) o seen)
                (q.set_property message index value).1 st)

        after_read-stored :
            (r : Bool × Value × State) (index : ℕ) (message whole : Message)
            (go_on : Cache Value Message State → Message → State → Outcome Value Message State q f)
            (next : Message → State → Observed)
            → ((v : Value) → (q.set_property message index v).1 ≡ (q.set_property whole index v).1)
            → ((c : Cache Value Message State) (m : Message) (st : State)
                → observed (go_on c m st) ≡ next (flush c m) st)
            → observed (after_read Value Message State q f r index message go_on)
              ≡ stored r index whole next
        unfolding after_read stored flush observed
        after_read-stored (false, value, st) index message whole go_on next e h = refl
        after_read-stored (true, value, st) index message whole go_on next e h =
            h (some (index, value)) message st ∙ ap (λ m. next m st) (e value)

        read_cached :
            (cache : Cache Value Message State) (index : ℕ) (message : Message) (st : State)
            (go_on : Cache Value Message State → Message → State → Outcome Value Message State q f)
            (next : Message → State → Observed)
            → ((c : Cache Value Message State) (m : Message) (st : State)
                → observed (go_on c m st) ≡ next (flush c m) st)
            → observed (
                after_load Value Message State q f
                  (load_value Value Message State q f
                    (cached_index Value Message State q f cache index)
                    index
                    cache
                    message)
                  index
                  st
                  go_on)
              ≡ stored
                  (f.read_value index (q.property (flush cache message) index) st)
                  index
                  (flush cache message)
                  next
        unfolding after_load load_value store_cached_value store_value flush
        read_cached none index message st go_on next h =
            after_read-stored (f.read_value index (q.property message index) st) index message
              message go_on next (λ v. refl) h
        read_cached (some (i, value)) index message st go_on next h =
            elim (Bool-cases (i == index)) [
              | inl e ↦
                  let same : i ≡ index = ground arith in
                  rw e (
                    rw same (
                      rw (law.get_set message index value) (
                        after_read-stored (f.read_value index value st) index message
                          (q.set_property message index value).1 go_on next
                          (λ v. sym (law.set_set message index value v)) h)))
              | inr e ↦
                  rw (e, law.not_null value, law.stores message i value)
                    (after_read-stored
                      (f.read_value index (q.property (q.set_property message i value).1 index) st)
                      index (q.set_property message i value).1 (q.set_property message i value).1
                      go_on next (λ v. refl) h)
            ]

        on_next-direct_next :
            (r : Option ℕ × State) (cache : Cache Value Message State) (message : Message)
            (seen : List ℕ)
            (go_on : Cache Value Message State
              → Message
              → List ℕ
              → State
              → Outcome Value Message State q f)
            (next : Message → List ℕ → State → Observed)
            → ((c : Cache Value Message State) (m : Message) (s : List ℕ) (st : State)
                → observed (go_on c m s st) ≡ next (flush c m) s st)
            → observed (on_next Value Message State q f enforce o r cache message seen go_on)
              ≡ direct_next r (flush cache message) seen next
        unfolding on_next direct_next
        on_next-direct_next (none, st) cache message seen go_on next h =
            finish_message-judged cache message seen st
        on_next-direct_next (some index, st) cache message seen go_on next h =
            let seen' = if enforce then mark_seen index seen else seen in
            read_cached cache index message st (λ c m s. go_on c m seen' s) (λ m s. next m seen' s)
              (λ c m s. h c m seen' s)

        field_loop-direct_loop :
            (fuel : ℕ) (cache : Cache Value Message State) (message : Message) (seen : List ℕ)
            (st : State)
            → observed (field_loop Value Message State q f enforce o fuel cache message seen st)
              ≡ direct_loop fuel (flush cache message) seen st
        unfolding field_loop direct_loop observed
        field_loop-direct_loop zero cache message seen st = refl
        field_loop-direct_loop (suc fuel) cache message seen st =
            on_next-direct_next (f.next_field_index st) cache message seen
              (field_loop Value Message State q f enforce o fuel) (direct_loop fuel)
              (field_loop-direct_loop fuel)

        -- Keeping the last property value in a cache changes nothing: a message is accepted or refused,
        -- and filled, as if each value were loaded, read and stored at once. The properties of the message
        -- take every value, keep the last one, and are never null.
        pub deserialize_message-direct_loop :
            (fuel : ℕ) (message : Message) (st : State)
            → observed (deserialize_message Value Message State q f enforce o fuel message st)
              ≡ direct_loop fuel message (if enforce then unseen_fields o.num_fields else []) st
        unfolding deserialize_message flush
        deserialize_message-direct_loop fuel message st =
            field_loop-direct_loop fuel none message _ st
