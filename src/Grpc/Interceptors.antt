-- ===== src/Grpc/Interceptors.antt =====
-- src/grpc/qgrpcinterceptor.h, qgrpcinterceptorchain.h and .cpp, and qgrpcinterceptorengine_p.h: the
-- interceptors of a channel, and the order in which an engine calls them. An interceptor is what it
-- offers for each capability; flags and fixed arrays are functions. Ownership is not modelled.
pub mod Order
pub mod Start
use mathlib.Core.List.{reverse}
use mathlib.Core.Option
use qtgrpc.Prelude.{
  ℕ, ◌==◌, if◌then◌else◌, Bool, true, false, Option, none, some, List, [], ◌∷◌, ◌++◌, ◌||◌, length,
  get_elem?,
}

pub data Capability : Type 0 where
  start initial_metadata message_received write_message : Capability
  writes_done trailing_metadata finished cancel : Capability

-- `capabilityToIndex`
unfoldable pub capability_to_index : Capability → ℕ
capability_to_index start = 0
capability_to_index initial_metadata = 1
capability_to_index message_received = 2
capability_to_index write_message = 3
capability_to_index writes_done = 4
capability_to_index trailing_metadata = 5
capability_to_index finished = 6
capability_to_index cancel = 7

-- The order of `InterceptorTypes`.
abbrev pub interceptor_types : List Capability
interceptor_types =
    start ∷ initial_metadata ∷ message_received ∷ write_message ∷ writes_done ∷ trailing_metadata
    ∷ finished ∷ cancel ∷ []

pub data InterceptionFlow : Type 0 where
  outbound inbound : InterceptionFlow

-- The table of QGRPC_INTERCEPTOR_INFO.
unfoldable pub flow : Capability → InterceptionFlow
flow start = outbound
flow initial_metadata = inbound
flow message_received = inbound
flow write_message = outbound
flow writes_done = outbound
flow trailing_metadata = inbound
flow finished = inbound
flow cancel = outbound

-- The engine's functions but `onStart`, which alone is cut short where an interceptor drops the call.
pub data Callback : Type 0 where
  on_initial_metadata on_message_received on_write_message on_writes_done : Callback
  on_trailing_metadata on_finished on_cancel : Callback

-- The `Info::capability` of the interface that each passes to `invoke`.
unfoldable pub capability_of : Callback → Capability
capability_of on_initial_metadata = initial_metadata
capability_of on_message_received = message_received
capability_of on_write_message = write_message
capability_of on_writes_done = writes_done
capability_of on_trailing_metadata = trailing_metadata
capability_of on_finished = finished
capability_of on_cancel = cancel

-- `QFlags` of capabilities.
abbrev pub Capabilities : Type 0
Capabilities = Capability → Bool

module _ (Interface : Type 0) where
  -- Which of the interfaces an interceptor derives from.
  abbrev pub Interceptor : Type 0
  Interceptor = Capability → Option Interface

  abbrev pub Bindings : Type 0
  Bindings = List (Capability × Interface)

  unfoldable pub bind_one : Capability → Option Interface → Bindings → Bindings
  bind_one c none rest = rest
  bind_one c (some interface) rest = (c, interface) ∷ rest

  unfoldable pub bindings_of : List Capability → Interceptor → Bindings
  unfolding bind_one
  bindings_of [] i = []
  bindings_of (c ∷ cs) i = bind_one c (i c) (bindings_of cs i)

  -- `InterceptorCapabilityBinding::extractFrom`
  unfoldable pub extract_from : Interceptor → Bindings
  unfolding bindings_of
  extract_from = bindings_of interceptor_types

  pub record Entry : Type 0 where
    pub bindings : Bindings
    pub capabilities : Capabilities

  -- `capabilities.setFlag(binding.capability)` for each binding.
  unfoldable pub set_flags : Bindings → Capabilities → Capabilities
  set_flags [] flags = flags
  set_flags ((c, interface) ∷ rest) flags =
      set_flags rest (λ d. capability_to_index c == capability_to_index d || flags d)

  unfoldable pub make_entry : Bindings → Entry
  unfolding set_flags
  make_entry bindings = record {
    bindings = bindings;
    capabilities = set_flags bindings (λ c. false);
  }

  -- `QGrpcInterceptorChainPrivate`
  pub record Chain : Type 0 where
    pub combined_capabilities : Capabilities
    pub interceptors : List Entry

  unfoldable pub clear : Chain → Chain
  clear chain = record { combined_capabilities = λ c. false; interceptors = [] }

  abbrev pub empty_chain : Chain
  empty_chain = record { combined_capabilities = λ c. false; interceptors = [] }

  unfoldable pub add_impl : Bindings → Chain → Chain
  unfolding make_entry
  add_impl bindings chain = record {
    combined_capabilities =
        λ c. chain.combined_capabilities c || (make_entry bindings).capabilities c;
    interceptors = chain.interceptors ++ (make_entry bindings ∷ []);
  }

  -- `add`: a null interceptor is refused.
  unfoldable pub add : Option Interceptor → Chain → Bool × Chain
  add none chain = (false, chain)
  add (some i) chain = (true, add_impl (extract_from i) chain)

  unfoldable pub all_set : List (Option Interceptor) → Option (List Interceptor)
  all_set [] = some []
  all_set (none ∷ rest) = none
  all_set (some i ∷ rest) = elim (all_set rest) [ none ↦ none | some is ↦ some (i ∷ is) ]

  unfoldable pub add_all : List Interceptor → Chain → Chain
  add_all [] chain = chain
  add_all (i ∷ rest) chain = add_all rest (add_impl (extract_from i) chain)

  unfoldable pub replace_by : Option (List Interceptor) → Chain → Bool × Chain
  replace_by none chain = (false, chain)
  replace_by (some is) chain = (true, add_all is empty_chain)

  -- `set`: one null interceptor refuses them all.
  unfoldable pub set : List (Option Interceptor) → Chain → Bool × Chain
  unfolding all_set replace_by
  set is chain = replace_by (all_set is) chain

  unfoldable pub has_handler_for : Chain → Capability → Bool
  has_handler_for chain c = chain.combined_capabilities c

  unfoldable pub size : Chain → ℕ
  size chain = length chain.interceptors

  -- `capabilitiesAt`, for an index in range.
  unfoldable pub capabilities_at : Chain → ℕ → Option Capabilities
  capabilities_at chain index =
      Option.map (λ (e : Entry). e.capabilities) (get_elem? chain.interceptors index)

  -- `QGrpcInterceptorEngine`
  pub record Engine : Type 0 where
    pub capability_handlers : ℕ → List Interface
    pub interceptor_chain : Chain

  -- `m_capabilityHandlers[idx].push_back(binding.interface)`
  unfoldable pub push_back : ℕ → Interface → (ℕ → List Interface) → ℕ → List Interface
  push_back idx interface handlers j =
      if idx == j then handlers j ++ (interface ∷ []) else handlers j

  -- `addInterceptor`
  unfoldable pub add_interceptor : Bindings → (ℕ → List Interface) → ℕ → List Interface
  unfolding push_back
  add_interceptor [] handlers = handlers
  add_interceptor ((c, interface) ∷ rest) handlers =
      add_interceptor rest (push_back (capability_to_index c) interface handlers)

  unfoldable pub add_interceptors : List Entry → (ℕ → List Interface) → ℕ → List Interface
  add_interceptors [] handlers = handlers
  add_interceptors (e ∷ entries) handlers =
      add_interceptors entries (add_interceptor e.bindings handlers)

  unfoldable pub set_interceptor_chain : Chain → Engine → Engine
  set_interceptor_chain chain engine = record {
    capability_handlers = add_interceptors chain.interceptors (λ j. []);
    interceptor_chain = chain;
  }

  module _ {A : Type 0} (method : Interface → A → A) where
    -- The loop over handlers. An argument that a handler gets by reference is passed on.
    unfoldable pub call_each : List Interface → A → A
    call_each [] a = a
    call_each (interface ∷ rest) a = call_each rest (method interface a)

    unfoldable pub in_flow : InterceptionFlow → List Interface → A → A
    in_flow outbound handlers a = call_each handlers a
    in_flow inbound handlers a = call_each (reverse handlers) a

    -- `invoke`
    unfoldable pub invoke : Callback → Engine → A → A
    unfolding in_flow
    invoke callback engine a =
        let c = capability_of callback in
        in_flow (flow c) (engine.capability_handlers (capability_to_index c)) a

    -- How an operation calls an interception: where the chain has a handler for its capability.
    unfoldable pub intercept : Callback → Engine → A → A
    intercept callback engine a =
        if has_handler_for engine.interceptor_chain (capability_of callback)
        then invoke callback engine a
        else a

pub data Continuation : Type 0 where
  proceed drop : Continuation

module _ (Interface : Type 0) {A : Type 0} (method : Interface → A → Continuation × A) where
  -- A handler's verdict, and what the others make of the call.
  unfoldable pub unless_dropped : Continuation × A → (A → Continuation × A) → Continuation × A
  unless_dropped (proceed, a) next = next a
  unless_dropped (drop, a) next = (drop, a)

  unfoldable pub start_each : List Interface → A → Continuation × A
  unfolding unless_dropped
  start_each [] a = (proceed, a)
  start_each (interface ∷ rest) a = unless_dropped (method interface a) (start_each rest)

  -- `onStart`
  unfoldable pub on_start : Engine Interface → A → Continuation × A
  unfolding start_each
  on_start engine a = start_each (engine.capability_handlers (capability_to_index start)) a
