-- ===== src/Grpc/Operation.antt =====
-- src/grpc/qgrpcoperation.cpp, with the setters of src/grpc/qgrpcoperationcontext.cpp that run
-- interceptors, and how src/grpc/qgrpcclientbase.cpp starts an RPC. What an operation and its context
-- emit is recorded, the newest first. Interceptors see their argument and a world of their own; that
-- they do not call the operation back is a restriction of the model. Metadata are in order.
pub mod Events
pub mod Finished
pub mod Frozen
pub mod Start
use qtgrpc.Prelude.{ℕ, if◌then◌else◌, Bool, true, false, Option, none, some, List, [], ◌∷◌, ◌++◌}
use qtgrpc.Grpc.Status.{aborted, resource_exhausted, internal}
use qtgrpc.Grpc.Handler.{Bytes, Headers, Status}
use qtgrpc.Protobuf.Deserializer.{Error, no_error, message_too_large}
use qtgrpc.Grpc.Interceptors.{Callback, Engine, Continuation, intercept}

-- `QGrpcOperationPrivate::State`
pub data OperationState : Type 0 where
  invalid valid finished : OperationState

unfoldable pub is_finished_state : OperationState → Bool
is_finished_state finished = true
is_finished_state _ = false

-- The first is `QGrpcOperation::finished`; the requests are signals of the context to the transport.
pub data Emission : Type 0 where
  emits_finished : Status → Emission
  initial_metadata_received : Headers → Emission
  cancel_requested writes_done_requested : Emission
  write_message_requested : Bytes → Emission

-- `serializationFailure`, on `lastError`.
unfoldable pub serialization_failure : Error → Option Status
serialization_failure no_error = none
serialization_failure message_too_large =
    some (record { code = resource_exhausted; message = none })
serialization_failure _ = some (record { code = internal; message = none })

pub record Types : Type 1 where
  pub Interface : Type 0
  pub Message : Type 0
  pub CallOptions : Type 0
  pub World : Type 0

module _ (types : Types) where
  open types use {Interface, Message, CallOptions, World}

  -- The program's serializer, with the error that it leaves.
  pub record Serializer : Type 0 where
    pub serialize : Message → Bytes × Error
    pub deserialize : Message → Bytes → Bool × Message

  -- The methods of the program's interceptors.
  pub record Hooks : Type 0 where
    pub start :
        Interface → Message × CallOptions × World → Continuation × (Message × CallOptions × World)
    pub initial_metadata : Interface → Headers × World → Headers × World
    pub message_received : Interface → Bytes × World → Bytes × World
    pub write_message : Interface → Message × World → Message × World
    pub writes_done : Interface → World → World
    pub trailing_metadata : Interface → Headers × World → Headers × World
    pub finished : Interface → Status × World → Status × World
    pub cancel : Interface → World → World

  -- `channel` is what a lock of the weak pointer gives: the channel's interceptors, or none.
  pub record Operation : Type 0 where
    pub message_data : Bytes
    pub channel : Option (Engine Interface)
    pub state : OperationState
    pub serializer : Option Serializer
    pub options : CallOptions
    pub server_initial_metadata : Headers
    pub server_trailing_metadata : Headers
    -- The statuses that wait in the event loop.
    pub queued : List Status
    pub emissions : List Emission
    pub world : World

  abbrev pub emit : Emission → Operation → Operation
  emit emission op = record op { emissions = emission ∷ op.emissions }

  unfoldable pub is_finished : Operation → Bool
  is_finished op = is_finished_state op.state

  -- `invokeMethod` with `Qt::QueuedConnection`.
  unfoldable pub queue_finished : Status → Operation → Operation
  queue_finished status op = record op { queued = op.queued ++ (status ∷ []) }

  unfoldable pub async_finish_invalid : Status → Operation → Operation
  unfolding queue_finished
  async_finish_invalid status op = queue_finished status (record op { state = invalid })

  abbrev pub aborted_status : Status
  aborted_status = record { code = aborted; message = none }

  unfoldable pub check_thread : Bool → Operation → Operation
  check_thread true op = record op { state = valid }
  check_thread false op = async_finish_invalid aborted_status op

  unfoldable pub check_serializer : Bool → Option Serializer → Operation → Operation
  unfolding check_thread
  check_serializer same_thread none op = async_finish_invalid aborted_status op
  check_serializer same_thread (some s) op = check_thread same_thread op

  -- Before the checks of the constructor.
  abbrev pub blank_operation :
      Option (Engine Interface) → Option Serializer → CallOptions → World → Operation
  blank_operation channel serializer options world = record {
    message_data = [];
    channel = channel;
    state = invalid;
    serializer = serializer;
    options = options;
    server_initial_metadata = [];
    server_trailing_metadata = [];
    queued = [];
    emissions = [];
    world = world;
  }

  -- The constructor, on the channel and its serializer.
  unfoldable pub make_operation :
      Option (Engine Interface × Option Serializer) → Bool → CallOptions → World → Operation
  unfolding check_serializer
  make_operation none same_thread options world =
      async_finish_invalid aborted_status (blank_operation none none options world)
  make_operation (some (engine, serializer)) same_thread options world =
      check_serializer same_thread serializer
        (blank_operation (some engine) serializer options world)

  module _ (hooks : Hooks) where
    -- An inbound or outbound capability, where the channel still exists.
    unfoldable pub run_hook :
        {A : Type 0} → Callback → (Interface → A → A) → Option (Engine Interface) → A → A
    run_hook c method none a = a
    run_hook c method (some engine) a = intercept Interface method c engine a

    -- The slot of the context's `messageReceived`.
    unfoldable pub on_message_received : Bytes → Operation → Operation
    unfolding run_hook
    on_message_received bytes op =
        let (bytes', world) =
          run_hook Callback.on_message_received hooks.message_received op.channel
            (bytes, op.world) in
        record op { message_data = bytes'; world = world }

    -- The slot of the context's `finished`.
    unfoldable pub on_finished : Status → Operation → Operation
    unfolding run_hook is_finished
    on_finished status op =
        if is_finished op
        then op
        else (let (status', world) =
              run_hook Callback.on_finished hooks.finished op.channel (status, op.world) in
            emit (emits_finished status') (record op { state = finished; world = world }))

    -- A queued call of `asyncFinishInvalid` or of a dropped start, when the event loop runs it.
    unfoldable pub deliver_from : List Status → Operation → Operation
    unfolding on_finished
    deliver_from [] op = op
    deliver_from (status ∷ rest) op = on_finished status (record op { queued = rest })

    unfoldable pub deliver_queued : Operation → Operation
    unfolding deliver_from
    deliver_queued op = deliver_from op.queued op

    unfoldable pub cancel_on : Option (Engine Interface) → Operation → Operation
    cancel_on none op = op
    cancel_on (some engine) op =
        emit cancel_requested (record op {
          world = intercept Interface hooks.cancel Callback.on_cancel engine op.world;
        })

    unfoldable pub cancel : Operation → Operation
    unfolding cancel_on is_finished
    cancel op = if is_finished op then op else cancel_on op.channel op

    unfoldable pub writes_done_on : Option (Engine Interface) → Operation → Operation
    writes_done_on none op = op
    writes_done_on (some engine) op = emit writes_done_requested (record op {
      world = intercept Interface hooks.writes_done Callback.on_writes_done engine op.world;
    })

    unfoldable pub writes_done : Operation → Operation
    unfolding writes_done_on
    writes_done op = writes_done_on op.channel op

    -- `emit finished`, and `emit cancelRequested` where the slots have left the operation alive.
    unfoldable pub write_failed : Bool → Status → Operation → Operation
    unfolding on_finished
    write_failed alive status op =
        if alive then emit cancel_requested (on_finished status op) else on_finished status op

    unfoldable pub write_outcome : Bool → Option Status → Bytes → Operation → Operation
    unfolding write_failed
    write_outcome alive none bytes op = emit (write_message_requested bytes) op
    write_outcome alive (some status) bytes op = write_failed alive status op

    unfoldable pub write_serialized : Bool → Serializer → Message × World → Operation → Operation
    unfolding write_outcome
    write_serialized alive s (message, world) op =
        let (bytes, error) = s.serialize message in
        write_outcome alive (serialization_failure error) bytes (record op { world = world })

    -- `none` is the dereference of a null serializer.
    unfoldable pub write_on :
        Bool
        → Option (Engine Interface)
        → Option Serializer
        → Message
        → Operation
        → Option Operation
    unfolding write_serialized
    write_on alive none s message op = some op
    write_on alive (some engine) none message op = none
    write_on alive (some engine) (some s) message op = some (
        write_serialized alive s
          (intercept Interface hooks.write_message Callback.on_write_message engine
            (message, op.world))
          op)

    unfoldable pub write_message : Bool → Message → Operation → Option Operation
    unfolding write_on
    write_message alive message op = write_on alive op.channel op.serializer message op

    -- `QGrpcOperationContext::setServerInitialMetadata`
    unfoldable pub set_server_initial_metadata : Headers → Operation → Operation
    unfolding run_hook
    set_server_initial_metadata metadata op =
        let (metadata', world) =
          run_hook Callback.on_initial_metadata hooks.initial_metadata op.channel
            (metadata, op.world) in
        emit (initial_metadata_received metadata')
          (record op { server_initial_metadata = metadata'; world = world })

    -- `QGrpcOperationContext::setServerTrailingMetadata`; equal metadata are stored again.
    unfoldable pub set_server_trailing_metadata : Headers → Operation → Operation
    unfolding run_hook
    set_server_trailing_metadata metadata op =
        let (metadata', world) =
          run_hook Callback.on_trailing_metadata hooks.trailing_metadata op.channel
            (metadata, op.world) in
        record op { server_trailing_metadata = metadata'; world = world }

  unfoldable pub read_with : Option Serializer → Bytes → Message → Bool × Message
  read_with none bytes message = (false, message)
  read_with (some s) bytes message = s.deserialize message bytes

  unfoldable pub read_into : Option Message → Operation → Bool × Option Message
  unfolding read_with
  read_into none op = (false, none)
  read_into (some message) op =
      let (success, message') = read_with op.serializer op.message_data message in
      (success, some message')
