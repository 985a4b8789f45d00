-- ===== src/Grpc/Operation/Start.antt =====
-- The start of an RPC: `serializeInitialMessage` of src/grpc/qgrpcoperation.cpp and `initOperation` of
-- src/grpc/qgrpcclientbase.cpp, up to the call of the channel.
use qtgrpc.Prelude.{
  ◌≡◌, refl, ap, ◌∙◌, ◌++◌, List, Bool, true, false, if◌then◌else◌, Option, none, some, [], ◌∷◌,
}
use qtgrpc.Grpc.Handler.{Bytes, Status}
use qtgrpc.Grpc.Interceptors.{
  Callback, Capability, Engine, Continuation, proceed, drop, has_handler_for, on_start,
}
use qtgrpc.Grpc.Operation.{
  OperationState, invalid, valid, is_finished_state, serialization_failure, Types, Serializer,
  Hooks, Operation, is_finished, queue_finished, async_finish_invalid, aborted_status, run_hook,
  check_thread, check_serializer, blank_operation, make_operation, on_finished, deliver_from,
  deliver_queued,
}
use qtgrpc.Grpc.Operation.Events.{reports}
use qtgrpc.Grpc.Operation.Frozen.{on_finished_first}

module _ (types : Types) where
  open types use {Interface, Message, CallOptions, World}

  unfoldable pub initial_outcome :
      Option Status → Bytes → Operation types → Option Bytes × Operation types
  initial_outcome none bytes op = (some bytes, op)
  initial_outcome (some status) bytes op = (none, async_finish_invalid types status op)

  unfoldable pub initial_data :
      Serializer types → Message → Operation types → Option Bytes × Operation types
  unfolding initial_outcome
  initial_data s message op =
      let (bytes, error) = s.serialize message in
      initial_outcome (serialization_failure error) bytes op

  -- A dropped call is reported later; its state stays.
  unfoldable pub after_start :
      Serializer types
      → Continuation × (Message × CallOptions × World)
      → Operation types
      → Option Bytes × Operation types
  unfolding initial_data
  after_start s (proceed, (message, options, world)) op =
      initial_data s message (record op { options = options; world = world })
  after_start s (drop, (message, options, world)) op = (
    none,
    queue_finished types (aborted_status types) (record op { options = options; world = world }),
  )

  module _ (hooks : Hooks types) where
    -- `serializeInitialMessage`
    unfoldable pub serialize_initial_message :
        Engine Interface
        → Serializer types
        → Message
        → Operation types
        → Option Bytes × Operation types
    unfolding after_start
    serialize_initial_message engine s message op =
        if has_handler_for Interface engine.interceptor_chain Capability.start
        then after_start s (on_start Interface hooks.start engine (message, op.options, op.world))
            op
        else initial_data s message op

    -- On a valid operation, which has a channel and a serializer.
    unfoldable pub start_with :
        Option (Engine Interface)
        → Option (Serializer types)
        → Message
        → Operation types
        → Option Bytes × Operation types
    unfolding serialize_initial_message
    start_with (some engine) (some s) message op = serialize_initial_message engine s message op
    start_with _ _ message op = (none, op)

    unfoldable pub start_in :
        OperationState → Message → Operation types → Option Bytes × Operation types
    unfolding start_with
    start_in valid message op = start_with op.channel op.serializer message op
    start_in _ message op = (none, op)

    -- `initOperation`: what the channel is called with, and the operation.
    unfoldable pub init_operation :
        Option (Engine Interface × Option (Serializer types))
        → Bool
        → CallOptions
        → World
        → Message
        → Option Bytes × Operation types
    unfolding start_in
    init_operation c same_thread options world message =
        let op = make_operation types c same_thread options world in start_in op.state message op

    -- Handed to the channel with nothing queued, or about to be reported, once.
    abbrev pub IsAnswered : Option Bytes × Operation types → Type 0
    IsAnswered (none, op) =
        (status : Status) × reports (deliver_queued types hooks op).emissions ≡ status ∷ []
    IsAnswered (some bytes, op) = op.state ≡ valid × op.queued ≡ [] × reports op.emissions ≡ []

    -- A valid operation with nothing queued or reported.
    record IsFresh (op : Operation types) : Type 0 where
      is_valid : op.state ≡ valid
      unqueued : op.queued ≡ []
      unreported : reports op.emissions ≡ []

    deliver_from-append :
        (queued : List Status) (status : Status) (op : Operation types)
        → queued ≡ []
        → deliver_from types hooks (queued ++ (status ∷ [])) op
          ≡ on_finished types hooks status (record op { queued = [] })
    unfolding deliver_from
    deliver_from-append queued status op q = rw q refl

    answer :
        (status : Status) (op : Operation types)
        → is_finished types op ≡ false
        → op.queued ≡ []
        → reports op.emissions ≡ []
        → IsAnswered (none, queue_finished types status op)
    unfolding queue_finished deliver_queued
    answer status op f q r =
        let op' : Operation types = record op { queued = op.queued ++ (status ∷ []) } in
        let op'' : Operation types = record op { queued = [] } in
        let f' : is_finished types op'' ≡ false = unfold is_finished in f in
        let status' =
          (run_hook types hooks Callback.on_finished hooks.finished op.channel
            (status, op.world)).0 in
        (
          status',
          ap (λ (o : Operation types). reports o.emissions)
                (deliver_from-append op.queued status op' q)
              ∙ (on_finished_first types hooks status op'' f').1
              ∙ ap (λ l. status' ∷ l) r,
        )

    unfinished : (op : Operation types) → op.state ≡ valid → is_finished types op ≡ false
    unfolding is_finished is_finished_state
    unfinished op v = rw v refl

    initial_outcome-IsAnswered :
        (failure : Option Status) (bytes : Bytes) (op : Operation types)
        → IsFresh op
        → IsAnswered (initial_outcome failure bytes op)
    unfolding initial_outcome async_finish_invalid
    initial_outcome-IsAnswered none bytes op i = (i.is_valid, i.unqueued, i.unreported)
    initial_outcome-IsAnswered (some status) bytes op i =
        answer status (record op { state = invalid }) (unfold is_finished is_finished_state in refl)
          i.unqueued i.unreported

    initial_data-IsAnswered :
        (s : Serializer types) (message : Message) (op : Operation types)
        → IsFresh op
        → IsAnswered (initial_data s message op)
    unfolding initial_data
    initial_data-IsAnswered s message op i =
        let (bytes, error) = s.serialize message in
        initial_outcome-IsAnswered (serialization_failure error) bytes op i

    after_start-IsAnswered :
        (s : Serializer types) (r : Continuation × (Message × CallOptions × World))
        (op : Operation types)
        → IsFresh op
        → IsAnswered (after_start s r op)
    unfolding after_start
    after_start-IsAnswered s (proceed, (message, options, world)) op i =
        initial_data-IsAnswered s message (record op { options = options; world = world })
          (record { is_valid = i.is_valid; unqueued = i.unqueued; unreported = i.unreported })
    after_start-IsAnswered s (drop, (message, options, world)) op i =
        let op' : Operation types = record op { options = options; world = world } in
        answer (aborted_status types) op' (unfinished op' i.is_valid) i.unqueued i.unreported

    serialize_initial_message-IsAnswered :
        (engine : Engine Interface) (s : Serializer types) (message : Message)
        (op : Operation types)
        → IsFresh op
        → IsAnswered (serialize_initial_message engine s message op)
    unfolding serialize_initial_message
    serialize_initial_message-IsAnswered engine s message op i =
        elim (has_handler_for Interface engine.interceptor_chain Capability.start)
          as (λ b. IsAnswered (
            if b
            then after_start s
                (on_start Interface hooks.start engine (message, op.options, op.world)) op
            else initial_data s message op)) [
              | true ↦ after_start-IsAnswered s _ op i
              | false ↦ initial_data-IsAnswered s message op i
            ]

    answer_invalid :
        (op : Operation types)
        → op ≡ blank_operation types op.channel op.serializer op.options op.world
        → IsAnswered (none, async_finish_invalid types (aborted_status types) op)
    unfolding async_finish_invalid
    answer_invalid op e =
        answer (aborted_status types) (record op { state = invalid })
          (unfold is_finished is_finished_state in refl) (ap (λ (o : Operation types). o.queued) e)
          (ap (λ (o : Operation types). reports o.emissions) e ∙ unfold reports in refl)

    -- Every RPC that a client starts is answered: either it is handed to the channel, with nothing
    -- reported or queued, or one turn of the event loop later `finished` has been emitted, once. So it
    -- is where there is no channel or no serializer, on the wrong thread, when an interceptor drops the
    -- call, and when its message cannot be serialized.
    pub init_operation-IsAnswered :
        (c : Option (Engine Interface × Option (Serializer types))) (same_thread : Bool)
        (options : CallOptions) (world : World) (message : Message)
        → IsAnswered (init_operation c same_thread options world message)
    unfolding init_operation start_in start_with make_operation check_serializer check_thread
        async_finish_invalid queue_finished
    init_operation-IsAnswered none same_thread options world message =
        answer_invalid (blank_operation types none none options world) refl
    init_operation-IsAnswered (some (engine, none)) same_thread options world message =
        answer_invalid (blank_operation types (some engine) none options world) refl
    init_operation-IsAnswered (some (engine, some s)) false options world message =
        answer_invalid (blank_operation types (some engine) (some s) options world) refl
    init_operation-IsAnswered (some (engine, some s)) true options world message =
        serialize_initial_message-IsAnswered engine s message
          (record (blank_operation types (some engine) (some s) options world) { state = valid })
          (record { is_valid = refl; unqueued = refl; unreported = unfold reports in refl })
