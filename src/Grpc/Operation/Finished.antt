-- ===== src/Grpc/Operation/Finished.antt =====
-- How often an operation reports that it has finished, over any events.
use qtgrpc.Prelude.{
  ◌≡◌, ◌≢◌, ◌⊎◌, inl, inr, refl, ap, subst, Bool, true, false, Bool-cases, Option, none, some, List,
  [], ◌∷◌,
}
use qtgrpc.Grpc.Handler.{Bytes, Status}
use qtgrpc.Grpc.Interceptors.{Callback, Engine, intercept}
use qtgrpc.Grpc.Operation.{
  is_finished_state, serialization_failure, cancel_requested, Types, Serializer, Hooks, Operation,
  emit, is_finished, queue_finished, async_finish_invalid, check_thread, check_serializer,
  make_operation, run_hook, on_finished, deliver_from, deliver_queued, writes_done, write_failed,
  write_outcome, write_serialized, write_on, write_message,
}
use qtgrpc.Grpc.Operation.Events.{
  reports, Event, message_arrives, initial_metadata_arrives, trailing_metadata_arrives, finishes,
  cancels, ends_writes, queue_runs, channel_ends, writes, step, then_run, run, Keeps,
  on_message_received-Keeps, initial_metadata-Keeps, trailing_metadata-Keeps, cancel-Keeps,
  writes_done_on-Keeps,
}

module _ (types : Types) (hooks : Hooks types) where
  open types use {Interface, Message}

  -- An operation that has finished has reported one status; another has reported none.
  abbrev pub Reported : List Status → Bool → Type 0
  Reported statuses true = (status : Status) × statuses ≡ status ∷ []
  Reported statuses false = statuses ≡ []

  abbrev pub IsOnce : Operation types → Type 0
  IsOnce op = Reported (reports op.emissions) (is_finished types op)

  -- It has a serializer, or no channel.
  abbrev pub CanWrite : Operation types → Type 0
  CanWrite op = op.channel ≡ none ⊎ op.serializer ≢ none

  pub record IsSound (op : Operation types) : Type 0 where
    pub once : IsOnce op
    pub can_write : CanWrite op

  Keeps-IsSound : (op op' : Operation types) → Keeps types hooks op op' → IsSound op → IsSound op'
  Keeps-IsSound op op' k s = record {
    once = rw (k.same_reports, k.same_finished) s.once;
    can_write = rw (k.same_serializer, k.same_channel) s.can_write;
  }

  pub on_finished-IsSound :
      (status : Status) (op : Operation types)
      → IsSound op
      → IsSound (on_finished types hooks status op)
  unfolding on_finished reports is_finished is_finished_state
  on_finished-IsSound status op s =
      let status' =
        (run_hook types hooks Callback.on_finished hooks.finished op.channel
          (status, op.world)).0 in
      elim (Bool-cases (is_finished types op)) [
        | inl e ↦ rw e s
        | inr e ↦
            let none_yet : Reported (reports op.emissions) false =
              subst (Reported (reports op.emissions)) e s.once in
            rw e
              (record { once = (status', ap (λ l. status' ∷ l) none_yet); can_write = s.can_write })
      ]

  deliver_from-IsSound :
      (queued : List Status) (op : Operation types)
      → IsSound op
      → IsSound (deliver_from types hooks queued op)
  unfolding deliver_from
  deliver_from-IsSound [] op s = s
  deliver_from-IsSound (status ∷ rest) op s =
      on_finished-IsSound status (record op { queued = rest })
        (Keeps-IsSound op (record op { queued = rest })
          (unfold is_finished in
            record {
              same_reports = refl;
              same_finished = refl;
              same_serializer = refl;
              same_channel = refl;
            })
          s)

  emit_cancel-IsSound :
      (op : Operation types) → IsSound op → IsSound (emit types cancel_requested op)
  unfolding reports is_finished
  emit_cancel-IsSound op s = record { once = s.once; can_write = s.can_write }

  write_outcome-IsSound :
      (alive : Bool) (failure : Option Status) (bytes : Bytes) (op : Operation types)
      → IsSound op
      → IsSound (write_outcome types hooks alive failure bytes op)
  unfolding write_outcome write_failed reports is_finished
  write_outcome-IsSound alive none bytes op s = record { once = s.once; can_write = s.can_write }
  write_outcome-IsSound true (some status) bytes op s =
      emit_cancel-IsSound _ (on_finished-IsSound status op s)
  write_outcome-IsSound false (some status) bytes op s = on_finished-IsSound status op s

  -- An outcome that is there, and sound.
  abbrev pub Returns : Option (Operation types) → Type 0
  Returns none = ⊥
  Returns (some op) = IsSound op

  write_serialized-IsSound :
      (alive : Bool) (s : Serializer types) (message : Message × types.World) (op : Operation types)
      → IsSound op
      → IsSound (write_serialized types hooks alive s message op)
  unfolding write_serialized is_finished
  write_serialized-IsSound alive s (message, world) op i =
      let (bytes, error) = s.serialize message in
      write_outcome-IsSound alive (serialization_failure error) bytes (record op { world = world })
        (record { once = i.once; can_write = i.can_write })

  write_on-IsSound :
      (alive : Bool) (channel : Option (Engine Interface)) (s : Option (Serializer types))
      (message : Message) (op : Operation types)
      → channel ≡ none ⊎ s ≢ none
      → IsSound op
      → Returns (write_on types hooks alive channel s message op)
  unfolding write_on
  write_on-IsSound alive none s message op w i = i
  write_on-IsSound alive (some engine) none message op (inl e) i = cc
  write_on-IsSound alive (some engine) none message op (inr n) i = absurd (n refl)
  write_on-IsSound alive (some engine) (some s) message op w i =
      write_serialized-IsSound alive s
        (intercept Interface hooks.write_message Callback.on_write_message engine
          (message, op.world))
        op i

  step-IsSound :
      (e : Event types hooks) (op : Operation types) → IsSound op → Returns (step types hooks e op)
  unfolding step
  step-IsSound (message_arrives bytes) op s =
      Keeps-IsSound op _ (on_message_received-Keeps types hooks bytes op) s
  step-IsSound (initial_metadata_arrives m) op s =
      Keeps-IsSound op _ (initial_metadata-Keeps types hooks m op) s
  step-IsSound (trailing_metadata_arrives m) op s =
      Keeps-IsSound op _ (trailing_metadata-Keeps types hooks m op) s
  step-IsSound (finishes status) op s = on_finished-IsSound status op s
  step-IsSound cancels op s = Keeps-IsSound op _ (cancel-Keeps types hooks op) s
  step-IsSound ends_writes op s =
      unfold writes_done in Keeps-IsSound op _ (writes_done_on-Keeps types hooks op.channel op) s
  step-IsSound queue_runs op s = unfold deliver_queued in deliver_from-IsSound op.queued op s
  step-IsSound channel_ends op s =
      unfold is_finished in record { once = s.once; can_write = inl refl }
  step-IsSound (writes alive message) op s =
      unfold write_message in
      write_on-IsSound alive op.channel op.serializer message op s.can_write s

  then_run-IsSound :
      (next : Operation types → Option (Operation types)) (o : Option (Operation types))
      → ((op : Operation types) → IsSound op → Returns (next op))
      → Returns o
      → Returns (then_run types hooks next o)
  unfolding then_run
  then_run-IsSound next none f r = elim r [ ]
  then_run-IsSound next (some op) f r = f op r

  pub run-IsSound :
      (es : List (Event types hooks)) (op : Operation types)
      → IsSound op
      → Returns (run types hooks es op)
  unfolding run
  run-IsSound [] op s = s
  run-IsSound (e ∷ es) op s =
      then_run-IsSound (run types hooks es) (step types hooks e op) (run-IsSound es)
        (step-IsSound e op s)

  -- A channel that has a serializer, or none at all.
  abbrev pub with_serializer :
      Option (Engine Interface × Serializer types)
      → Option (Engine Interface × Option (Serializer types))
  with_serializer none = none
  with_serializer (some (engine, s)) = some (engine, some s)

  pub make_operation-IsSound :
      (c : Option (Engine Interface × Serializer types)) (same_thread : Bool)
      (options : types.CallOptions) (world : types.World)
      → IsSound (make_operation types (with_serializer c) same_thread options world)
  unfolding make_operation check_serializer check_thread async_finish_invalid queue_finished
      is_finished is_finished_state reports
  make_operation-IsSound none same_thread options world = record {
    once = refl;
    can_write = inl refl;
  }
  make_operation-IsSound (some (engine, s)) true options world = record {
    once = refl;
    can_write = inr (λ e. cc);
  }
  make_operation-IsSound (some (engine, s)) false options world = record {
    once = refl;
    can_write = inr (λ e. cc);
  }

  pub returned :
      (o : Option (Operation types))
      → Returns o
      → (op : Operation types) × o ≡ some op
        × Reported (reports op.emissions) (is_finished types op)
  returned none r = elim r [ ]
  returned (some op) r = (op, refl, r.once)

  -- An operation that is made without a channel, or with one that has a serializer, comes through any
  -- sequence of events, and then `finished` has been emitted once if the operation counts as finished,
  -- and not at all if it does not.
  pub run-make_operation :
      (es : List (Event types hooks)) (c : Option (Engine Interface × Serializer types))
      (same_thread : Bool) (options : types.CallOptions) (world : types.World)
      → (op : Operation types) × run types hooks es
            (make_operation types (with_serializer c) same_thread options world)
          ≡ some op
        × Reported (reports op.emissions) (is_finished types op)
  run-make_operation es c same_thread options world =
      returned _ (run-IsSound es _ (make_operation-IsSound c same_thread options world))
