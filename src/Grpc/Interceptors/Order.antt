-- ===== src/Grpc/Interceptors/Order.antt =====
-- In which order the interceptors of a channel are called.
use mathlib.Core.List.{reverse, append-nil, append_assoc}
use qtgrpc.Prelude.{
  ℕ, ◌≡◌, refl, sym, ap, ◌∙◌, arith, ◌==◌, if◌then◌else◌, Bool, true, false, Option, none, some,
  List, [], ◌∷◌, ◌++◌, ◌||◌, Bool-cases, inl, inr, map,
}
use qtgrpc.Grpc.Interceptors.{
  Capability, start, initial_metadata, message_received, write_message, writes_done,
  trailing_metadata, finished, cancel, capability_to_index, interceptor_types, InterceptionFlow,
  outbound, inbound, flow, Interceptor, bind_one, bindings_of, extract_from, set_flags, make_entry,
  Entry, Chain, empty_chain, add_impl, all_set, add_all, replace_by, set, has_handler_for, Engine,
  push_back, add_interceptor, add_interceptors, set_interceptor_chain, call_each, in_flow, invoke,
  intercept, Callback, capability_of,
}

or_false : (b : Bool) → (b || false) ≡ b
or_false true = refl
or_false false = refl

or_assoc : (a b c : Bool) → ((a || b) || c) ≡ (a || (b || c))
or_assoc true b c = refl
or_assoc false b c = refl

module _ (Interface : Type 0) where
  abbrev listed : Option Interface → List Interface
  listed none = []
  listed (some interface) = interface ∷ []

  abbrev is_some : Option Interface → Bool
  is_some none = false
  is_some (some interface) = true

  -- What a sequence of interceptors offers for a capability, in order.
  abbrev pub offered : Capability → List (Interceptor Interface) → List Interface
  offered c [] = []
  offered c (i ∷ rest) = listed (i c) ++ offered c rest

  abbrev offers : Capability → List (Interceptor Interface) → Bool
  offers c [] = false
  offers c (i ∷ rest) = is_some (i c) || offers c rest

  -- The same for some of the types, one after the other.
  abbrev listed_in : List Capability → Capability → Interceptor Interface → List Interface
  listed_in [] c i = []
  listed_in (d ∷ ds) c i =
      (if capability_to_index d == capability_to_index c then listed (i d) else [])
      ++ listed_in ds c i

  abbrev flagged_in : List Capability → Capability → Interceptor Interface → Bool
  flagged_in [] c i = false
  flagged_in (d ∷ ds) c i =
      (if capability_to_index d == capability_to_index c then is_some (i d) else false)
      || flagged_in ds c i

  listed_in_types :
      (c : Capability) (i : Interceptor Interface) → listed_in interceptor_types c i ≡ listed (i c)
  unfolding capability_to_index
  listed_in_types start i = append-nil (listed (i start))
  listed_in_types initial_metadata i = append-nil (listed (i initial_metadata))
  listed_in_types message_received i = append-nil (listed (i message_received))
  listed_in_types write_message i = append-nil (listed (i write_message))
  listed_in_types writes_done i = append-nil (listed (i writes_done))
  listed_in_types trailing_metadata i = append-nil (listed (i trailing_metadata))
  listed_in_types finished i = append-nil (listed (i finished))
  listed_in_types cancel i = append-nil (listed (i cancel))

  flagged_in_types :
      (c : Capability) (i : Interceptor Interface)
      → flagged_in interceptor_types c i ≡ is_some (i c)
  unfolding capability_to_index
  flagged_in_types start i = or_false (is_some (i start))
  flagged_in_types initial_metadata i = or_false (is_some (i initial_metadata))
  flagged_in_types message_received i = or_false (is_some (i message_received))
  flagged_in_types write_message i = or_false (is_some (i write_message))
  flagged_in_types writes_done i = or_false (is_some (i writes_done))
  flagged_in_types trailing_metadata i = or_false (is_some (i trailing_metadata))
  flagged_in_types finished i = or_false (is_some (i finished))
  flagged_in_types cancel i = or_false (is_some (i cancel))

  abbrev pushed : Capability → Option Interface → (ℕ → List Interface) → ℕ → List Interface
  pushed d none handlers = handlers
  pushed d (some interface) handlers =
      push_back Interface (capability_to_index d) interface handlers

  abbrev with_flag : Capability → Option Interface → (Capability → Bool) → Capability → Bool
  with_flag d none flags = flags
  with_flag d (some interface) flags =
      λ e. capability_to_index d == capability_to_index e || flags e

  add_interceptor-bind_one :
      (d : Capability) (o : Option Interface) (rest : List (Capability × Interface))
      (handlers : ℕ → List Interface)
      → add_interceptor Interface (bind_one Interface d o rest) handlers
        ≡ add_interceptor Interface rest (pushed d o handlers)
  unfolding add_interceptor bind_one
  add_interceptor-bind_one d none rest handlers = refl
  add_interceptor-bind_one d (some interface) rest handlers = refl

  set_flags-bind_one :
      (d : Capability) (o : Option Interface) (rest : List (Capability × Interface))
      (flags : Capability → Bool)
      → set_flags Interface (bind_one Interface d o rest) flags
        ≡ set_flags Interface rest (with_flag d o flags)
  unfolding set_flags bind_one
  set_flags-bind_one d none rest flags = refl
  set_flags-bind_one d (some interface) rest flags = refl

  pushed_at :
      (d c : Capability) (o : Option Interface) (handlers : ℕ → List Interface)
      → pushed d o handlers (capability_to_index c)
        ≡ handlers (capability_to_index c)
          ++ (if capability_to_index d == capability_to_index c then listed o else [])
  unfolding push_back
  pushed_at d c none handlers = elim (Bool-cases (capability_to_index d == capability_to_index c)) [
    | inl e ↦ rw e (sym (append-nil (handlers (capability_to_index c))))
    | inr e ↦ rw e (sym (append-nil (handlers (capability_to_index c))))
  ]
  pushed_at d c (some interface) handlers =
      elim (Bool-cases (capability_to_index d == capability_to_index c)) [
        | inl e ↦ rw e refl
        | inr e ↦ rw e (sym (append-nil (handlers (capability_to_index c))))
      ]

  with_flag_at :
      (d c : Capability) (o : Option Interface) (flags : Capability → Bool)
      → with_flag d o flags c
        ≡ (flags c || (if capability_to_index d == capability_to_index c then is_some o else false))
  with_flag_at d c none flags = ground arith
  with_flag_at d c (some interface) flags = ground arith

  add_interceptor-bindings_of :
      (ds : List Capability) (i : Interceptor Interface) (c : Capability)
      (handlers : ℕ → List Interface)
      → add_interceptor Interface (bindings_of Interface ds i) handlers (capability_to_index c)
        ≡ handlers (capability_to_index c) ++ listed_in ds c i
  unfolding bindings_of
  add_interceptor-bindings_of [] i c handlers =
      unfold add_interceptor in sym (append-nil (handlers (capability_to_index c)))
  add_interceptor-bindings_of (d ∷ ds) i c handlers =
      ap (λ f. f (capability_to_index c))
        (add_interceptor-bind_one d (i d) (bindings_of Interface ds i) handlers)
      ∙ add_interceptor-bindings_of ds i c (pushed d (i d) handlers)
      ∙ ap (λ l. l ++ listed_in ds c i) (pushed_at d c (i d) handlers)
      ∙ append_assoc (handlers (capability_to_index c)) _ (listed_in ds c i)

  set_flags-bindings_of :
      (ds : List Capability) (i : Interceptor Interface) (c : Capability)
      (flags : Capability → Bool)
      → set_flags Interface (bindings_of Interface ds i) flags c ≡ (flags c || flagged_in ds c i)
  unfolding bindings_of
  set_flags-bindings_of [] i c flags = unfold set_flags in sym (or_false (flags c))
  set_flags-bindings_of (d ∷ ds) i c flags =
      ap (λ f. f c) (set_flags-bind_one d (i d) (bindings_of Interface ds i) flags)
      ∙ set_flags-bindings_of ds i c (with_flag d (i d) flags)
      ∙ ap (λ b. b || flagged_in ds c i) (with_flag_at d c (i d) flags)
      ∙ or_assoc (flags c) _ (flagged_in ds c i)

  -- One more interceptor.
  add_interceptors-append :
      (entries : List (Entry Interface)) (e : Entry Interface) (handlers : ℕ → List Interface)
      → add_interceptors Interface (entries ++ (e ∷ [])) handlers
        ≡ add_interceptor Interface e.bindings (add_interceptors Interface entries handlers)
  unfolding add_interceptors
  add_interceptors-append [] e handlers = refl
  add_interceptors-append (d ∷ entries) e handlers =
      add_interceptors-append entries e (add_interceptor Interface d.bindings handlers)

  abbrev pub none_yet : ℕ → List Interface
  none_yet j = []

  pub handlers-add_all :
      (is : List (Interceptor Interface)) (c : Capability) (chain : Chain Interface)
      → add_interceptors Interface
          (add_all Interface is chain).interceptors
          none_yet
          (capability_to_index c)
        ≡ add_interceptors Interface chain.interceptors none_yet (capability_to_index c)
          ++ offered c is
  unfolding add_all
  handlers-add_all [] c chain = sym (append-nil _)
  handlers-add_all (i ∷ is) c chain =
      let chain' = add_impl Interface (extract_from Interface i) chain in
      let one : add_interceptors Interface chain'.interceptors none_yet (capability_to_index c)
          ≡ add_interceptors Interface chain.interceptors none_yet (capability_to_index c)
            ++ listed (i c) =
        unfold add_impl make_entry extract_from in
        ap (λ f. f (capability_to_index c))
          (add_interceptors-append chain.interceptors
            (make_entry Interface (extract_from Interface i)) none_yet)
        ∙ add_interceptor-bindings_of interceptor_types i c
            (add_interceptors Interface chain.interceptors none_yet)
        ∙ ap
            (λ l.
              add_interceptors Interface chain.interceptors none_yet (capability_to_index c) ++ l)
            (listed_in_types c i) in
      handlers-add_all is c chain'
      ∙ ap (λ l. l ++ offered c is) one
      ∙ append_assoc _ (listed (i c)) (offered c is)

  flags-add_all :
      (is : List (Interceptor Interface)) (c : Capability) (chain : Chain Interface)
      → (add_all Interface is chain).combined_capabilities c
        ≡ (chain.combined_capabilities c || offers c is)
  unfolding add_all
  flags-add_all [] c chain = sym (or_false (chain.combined_capabilities c))
  flags-add_all (i ∷ is) c chain =
      let chain' = add_impl Interface (extract_from Interface i) chain in
      let one : chain'.combined_capabilities c ≡ (chain.combined_capabilities c || is_some (i c)) =
        unfold add_impl make_entry extract_from in
        ap (λ b. chain.combined_capabilities c || b)
          (set_flags-bindings_of interceptor_types i c (λ d. false) ∙ flagged_in_types c i) in
      flags-add_all is c chain'
      ∙ ap (λ b. b || offers c is) one
      ∙ or_assoc (chain.combined_capabilities c) (is_some (i c)) (offers c is)

  offered-empty :
      (c : Capability) (is : List (Interceptor Interface)) → offers c is ≡ false → offered c is ≡ []
  offered-empty c [] h = refl
  offered-empty c (i ∷ is) h = listed_empty (i c) (offered-empty c is) h
    where
      listed_empty :
          (o : Option Interface)
          → (offers c is ≡ false → offered c is ≡ [])
          → (is_some o || offers c is) ≡ false
          → listed o ++ offered c is ≡ []
      listed_empty none ih h' = ih h'
      listed_empty (some interface) ih h' = cc

  pub all_set-map : (is : List (Interceptor Interface)) → all_set Interface (map some is) ≡ some is
  unfolding all_set
  all_set-map [] = refl
  all_set-map (i ∷ is) = rw (all_set-map is) refl

  -- In the order of the flow of a capability.
  abbrev pub in_order : InterceptionFlow → List Interface → List Interface
  in_order outbound handlers = handlers
  in_order inbound handlers = reverse handlers

  module _ {A : Type 0} (method : Interface → A → A) where
    in_flow_lem :
        (f : InterceptionFlow) (handlers : List Interface) (a : A)
        → in_flow Interface method f handlers a ≡ call_each Interface method (in_order f handlers) a
    unfolding in_flow
    in_flow_lem outbound handlers a = refl
    in_flow_lem inbound handlers a = refl

    in_order-empty :
        (f : InterceptionFlow) (handlers : List Interface) (a : A)
        → handlers ≡ []
        → call_each Interface method (in_order f handlers) a ≡ a
    unfolding call_each
    in_order-empty outbound handlers a h = rw h refl
    in_order-empty inbound handlers a h = rw h refl

    -- With interceptors set on a channel, none of them null, an operation calls at each capability but
    -- start those that offer it and no others, each once: outbound in the order of the list, inbound
    -- in the opposite order. It does so whatever the chain and the engine held before.
    pub intercept-set_interceptor_chain :
        (callback : Callback) (is : List (Interceptor Interface)) (chain : Chain Interface)
        (engine : Engine Interface) (a : A)
        → let c = capability_of callback in
          intercept Interface method callback
            (set_interceptor_chain Interface (set Interface (map some is) chain).1 engine)
            a
          ≡ call_each Interface method (in_order (flow c) (offered c is)) a
    unfolding intercept invoke set_interceptor_chain has_handler_for set replace_by add_interceptors
    intercept-set_interceptor_chain callback is chain engine a =
        let c = capability_of callback in
        let e = handlers-add_all is c (empty_chain Interface) in
        let f = flags-add_all is c (empty_chain Interface) in
        rw (all_set-map is) (elim (Bool-cases (offers c is)) [
          | inl h ↦ rw (f, h, e) (in_flow_lem (flow c) (offered c is) a)
          | inr h ↦
              rw (f, h) (sym (in_order-empty (flow c) (offered c is) a (offered-empty c is h)))
        ])
