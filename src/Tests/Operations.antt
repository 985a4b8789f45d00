-- ===== src/Tests/Operations.antt =====
-- Runs of operations on concrete inputs.
use qtgrpc.Prelude.{ℕ, ◌+◌, ◌≡◌, refl, true, false, none, some, List, [], ◌∷◌}
use qtgrpc.Protobuf.Deserializer.{no_error, invalid_format}
use qtgrpc.Grpc.Status.{internal, not_found}
use qtgrpc.Grpc.Handler.{Status}
use qtgrpc.Grpc.Interceptors.{Callback, Engine, empty_chain, proceed}
use qtgrpc.Grpc.Operation.{
  Types, Serializer, Hooks, Operation, is_finished, is_finished_state, make_operation,
  check_serializer, check_thread, run_hook, on_finished,
}
use qtgrpc.Grpc.Operation.Events.{reports, finishes, cancels, queue_runs, writes, run}
use qtgrpc.Grpc.Operation.Finished.{
  Reported, make_operation-IsSound, with_serializer, run-make_operation,
}
use qtgrpc.Grpc.Operation.Frozen.{reports-on_finished}
use qtgrpc.Grpc.Operation.Start.{init_operation, IsAnswered, init_operation-IsAnswered}

abbrev types : Types
types = record { Interface = ℕ; Message = List ℕ; CallOptions = ℕ; World = ℕ }

-- Interceptors that count their calls.
abbrev hooks : Hooks types
hooks = record {
  start = λ i s. (proceed, s);
  initial_metadata = λ i s. (s.0, s.1 + 1);
  message_received = λ i s. (s.0, s.1 + 1);
  write_message = λ i s. (s.0, s.1 + 1);
  writes_done = λ i w. w + 1;
  trailing_metadata = λ i s. (s.0, s.1 + 1);
  finished = λ i s. (s.0, s.1 + 1);
  cancel = λ i w. w + 1;
}

abbrev engine : Engine ℕ
engine = record { capability_handlers = λ n. 5 ∷ []; interceptor_chain = empty_chain ℕ }

-- One that writes any message, and one that writes none.
abbrev writer : Serializer types
writer = record { serialize = λ m. (m, no_error); deserialize = λ m bytes. (true, bytes) }

abbrev broken : Serializer types
broken = record { serialize = λ m. ([], invalid_format); deserialize = λ m bytes. (false, m) }

abbrev missing : Status
missing = record { code = not_found; message = none }

abbrev failed : Status
failed = record { code = internal; message = none }

run-make_operation_example :
    (op : Operation types) × run types hooks
        (finishes missing ∷ cancels ∷ finishes failed ∷ writes true (1 ∷ []) ∷ [])
        (make_operation types (with_serializer types hooks (some (engine, writer))) true 0 0)
      ≡ some op
    × Reported types hooks (reports op.emissions) (is_finished types op)
run-make_operation_example =
    run-make_operation types hooks
      (finishes missing ∷ cancels ∷ finishes failed ∷ writes true (1 ∷ []) ∷ [])
      (some (engine, writer)) true 0 0

abbrev operation : Operation types
operation = make_operation types (with_serializer types hooks (some (engine, writer))) true 0 0

operation_unfinished : is_finished types operation ≡ false
unfolding make_operation check_serializer check_thread is_finished is_finished_state
operation_unfinished = refl

reports-on_finished_example :
    (op : Operation types) × run types hooks
        (queue_runs ∷ finishes failed ∷ [])
        (on_finished types hooks missing operation)
      ≡ some op
    × reports op.emissions
      ≡ (run_hook types hooks Callback.on_finished hooks.finished operation.channel
          (missing, operation.world)).0
        ∷ []
reports-on_finished_example =
    reports-on_finished types hooks (queue_runs ∷ finishes failed ∷ []) missing operation
      (make_operation-IsSound types hooks (some (engine, writer)) true 0 0) operation_unfinished

init_operation-IsAnswered_example :
    IsAnswered types hooks
      (init_operation types hooks (some (engine, some broken)) true 0 0 (1 ∷ []))
init_operation-IsAnswered_example =
    init_operation-IsAnswered types hooks (some (engine, some broken)) true 0 0 (1 ∷ [])
