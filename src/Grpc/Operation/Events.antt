-- ===== src/Grpc/Operation/Events.antt =====
-- What happens to an operation over its life, and which steps leave its reports alone.
use qtgrpc.Prelude.{◌≡◌, refl, if◌then◌else◌, Bool, true, false, Option, none, some, List, [], ◌∷◌}
use qtgrpc.Grpc.Handler.{Bytes, Headers, Status}
use qtgrpc.Grpc.Interceptors.{Engine}
use qtgrpc.Grpc.Operation.{
  Emission, emits_finished, initial_metadata_received, cancel_requested, writes_done_requested,
  write_message_requested, Types, Hooks, Operation, is_finished, on_message_received, on_finished,
  deliver_queued, cancel_on, cancel, writes_done_on, writes_done, write_message,
  set_server_initial_metadata, set_server_trailing_metadata,
}

-- The statuses that `finished` has reported, the newest first.
unfoldable pub reports : List Emission → List Status
reports [] = []
reports (emits_finished status ∷ rest) = status ∷ reports rest
reports (initial_metadata_received m ∷ rest) = reports rest
reports (cancel_requested ∷ rest) = reports rest
reports (writes_done_requested ∷ rest) = reports rest
reports (write_message_requested b ∷ rest) = reports rest

module _ (types : Types) (hooks : Hooks types) where
  open types use {Interface, Message}

  -- What happens to an operation: what the transport tells its context, what the program calls, a
  -- turn of the event loop, and the end of the channel.
  pub data Event : Type 0 where
    message_arrives : Bytes → Event
    initial_metadata_arrives trailing_metadata_arrives : Headers → Event
    finishes : Status → Event
    cancels ends_writes queue_runs channel_ends : Event
    writes : Bool → Message → Event

  abbrev pub end_channel : Operation types → Operation types
  end_channel op = record op { channel = none }

  unfoldable pub step : Event → Operation types → Option (Operation types)
  step (message_arrives bytes) op = some (on_message_received types hooks bytes op)
  step (initial_metadata_arrives m) op = some (set_server_initial_metadata types hooks m op)
  step (trailing_metadata_arrives m) op = some (set_server_trailing_metadata types hooks m op)
  step (finishes status) op = some (on_finished types hooks status op)
  step cancels op = some (cancel types hooks op)
  step ends_writes op = some (writes_done types hooks op)
  step queue_runs op = some (deliver_queued types hooks op)
  step channel_ends op = some (end_channel op)
  step (writes alive message) op = write_message types hooks alive message op

  unfoldable pub then_run :
      (Operation types → Option (Operation types))
      → Option (Operation types)
      → Option (Operation types)
  then_run next none = none
  then_run next (some op) = next op

  -- None where a null serializer has been used.
  unfoldable pub run : List Event → Operation types → Option (Operation types)
  unfolding then_run
  run [] op = some op
  run (e ∷ es) op = then_run (run es) (step e op)

  -- Steps that leave the reports alone, once the operation has finished.
  pub record Keeps (op op' : Operation types) : Type 0 where
    pub same_reports : reports op'.emissions ≡ reports op.emissions
    pub same_finished : is_finished types op' ≡ is_finished types op
    pub same_serializer : op'.serializer ≡ op.serializer
    pub same_channel : op'.channel ≡ op.channel

  Keeps-refl : (op : Operation types) → Keeps op op
  Keeps-refl op = record {
    same_reports = refl;
    same_finished = refl;
    same_serializer = refl;
    same_channel = refl;
  }

  pub on_message_received-Keeps :
      (bytes : Bytes) (op : Operation types) → Keeps op (on_message_received types hooks bytes op)
  unfolding on_message_received is_finished
  on_message_received-Keeps bytes op = record {
    same_reports = refl;
    same_finished = refl;
    same_serializer = refl;
    same_channel = refl;
  }

  pub initial_metadata-Keeps :
      (m : Headers) (op : Operation types) → Keeps op (set_server_initial_metadata types hooks m op)
  unfolding set_server_initial_metadata is_finished reports
  initial_metadata-Keeps m op = record {
    same_reports = refl;
    same_finished = refl;
    same_serializer = refl;
    same_channel = refl;
  }

  pub trailing_metadata-Keeps :
      (m : Headers) (op : Operation types)
      → Keeps op (set_server_trailing_metadata types hooks m op)
  unfolding set_server_trailing_metadata is_finished
  trailing_metadata-Keeps m op = record {
    same_reports = refl;
    same_finished = refl;
    same_serializer = refl;
    same_channel = refl;
  }

  cancel_on-Keeps :
      (channel : Option (Engine Interface)) (op : Operation types)
      → Keeps op (cancel_on types hooks channel op)
  unfolding cancel_on is_finished reports
  cancel_on-Keeps none op = Keeps-refl op
  cancel_on-Keeps (some engine) op = record {
    same_reports = refl;
    same_finished = refl;
    same_serializer = refl;
    same_channel = refl;
  }

  pub cancel-Keeps : (op : Operation types) → Keeps op (cancel types hooks op)
  unfolding cancel
  cancel-Keeps op = if_Keeps (is_finished types op)
    where
      if_Keeps : (b : Bool) → Keeps op (if b then op else cancel_on types hooks op.channel op)
      if_Keeps true = Keeps-refl op
      if_Keeps false = cancel_on-Keeps op.channel op

  pub writes_done_on-Keeps :
      (channel : Option (Engine Interface)) (op : Operation types)
      → Keeps op (writes_done_on types hooks channel op)
  unfolding writes_done_on is_finished reports
  writes_done_on-Keeps none op = Keeps-refl op
  writes_done_on-Keeps (some engine) op = record {
    same_reports = refl;
    same_finished = refl;
    same_serializer = refl;
    same_channel = refl;
  }
