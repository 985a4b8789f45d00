-- ===== src/Grpc/Operation/Frozen.antt =====
-- What an operation has reported is final.
use qtgrpc.Prelude.{◌≡◌, refl, ap, subst, ◌∙◌, Bool, true, false, Option, none, some, List, [], ◌∷◌}
use qtgrpc.Grpc.Handler.{Bytes, Status}
use qtgrpc.Grpc.Interceptors.{Callback, Engine, intercept}
use qtgrpc.Grpc.Operation.{
  is_finished_state, serialization_failure, Types, Serializer, Hooks, Operation, is_finished,
  run_hook, on_finished, deliver_from, deliver_queued, writes_done, write_failed, write_outcome,
  write_serialized, write_on, write_message,
}
use qtgrpc.Grpc.Operation.Events.{
  reports, Event, message_arrives, initial_metadata_arrives, trailing_metadata_arrives, finishes,
  cancels, ends_writes, queue_runs, channel_ends, writes, step, then_run, run, Keeps,
  on_message_received-Keeps, initial_metadata-Keeps, trailing_metadata-Keeps, cancel-Keeps,
  writes_done_on-Keeps,
}
use qtgrpc.Grpc.Operation.Finished.{IsSound, Reported, on_finished-IsSound, run-IsSound, returned}

module _ (types : Types) (hooks : Hooks types) where
  open types use {Interface, Message}

  -- What a finished operation leaves alone.
  record Frozen (op op' : Operation types) : Type 0 where
    still_finished : is_finished types op' ≡ true
    still_reports : reports op'.emissions ≡ reports op.emissions

  Keeps-Frozen :
      (op op' : Operation types)
      → Keeps types hooks op op'
      → is_finished types op ≡ true
      → Frozen op op'
  Keeps-Frozen op op' k f = record {
    still_finished = k.same_finished ∙ f;
    still_reports = k.same_reports;
  }

  on_finished-Frozen :
      (status : Status) (op : Operation types)
      → is_finished types op ≡ true
      → Frozen op (on_finished types hooks status op)
  unfolding on_finished
  on_finished-Frozen status op f = rw f (record { still_finished = f; still_reports = refl })

  deliver_from-Frozen :
      (queued : List Status) (op : Operation types)
      → is_finished types op ≡ true
      → Frozen op (deliver_from types hooks queued op)
  unfolding deliver_from
  deliver_from-Frozen [] op f = record { still_finished = f; still_reports = refl }
  deliver_from-Frozen (status ∷ rest) op f =
      let op' : Operation types = record op { queued = rest } in
      let f' : is_finished types op' ≡ true = unfold is_finished in f in
      let z = on_finished-Frozen status op' f' in
      record { still_finished = z.still_finished; still_reports = z.still_reports }

  write_outcome-Frozen :
      (alive : Bool) (failure : Option Status) (bytes : Bytes) (op : Operation types)
      → is_finished types op ≡ true
      → Frozen op (write_outcome types hooks alive failure bytes op)
  unfolding write_outcome write_failed
  write_outcome-Frozen alive none bytes op f =
      unfold reports is_finished in record { still_finished = f; still_reports = refl }
  write_outcome-Frozen true (some status) bytes op f =
      let z = on_finished-Frozen status op f in
      unfold reports is_finished in
      record { still_finished = z.still_finished; still_reports = z.still_reports }
  write_outcome-Frozen false (some status) bytes op f = on_finished-Frozen status op f

  abbrev FrozenIn : Operation types → Option (Operation types) → Type 0
  FrozenIn op none = Unit {0}
  FrozenIn op (some op') = Frozen op op'

  write_serialized-Frozen :
      (alive : Bool) (s : Serializer types) (message : Message × types.World) (op : Operation types)
      → is_finished types op ≡ true
      → Frozen op (write_serialized types hooks alive s message op)
  unfolding write_serialized
  write_serialized-Frozen alive s (message, world) op f =
      let (bytes, error) = s.serialize message in
      let op' : Operation types = record op { world = world } in
      let f' : is_finished types op' ≡ true = unfold is_finished in f in
      let z = write_outcome-Frozen alive (serialization_failure error) bytes op' f' in
      record { still_finished = z.still_finished; still_reports = z.still_reports }

  write_on-Frozen :
      (alive : Bool) (channel : Option (Engine Interface)) (s : Option (Serializer types))
      (message : Message) (op : Operation types)
      → is_finished types op ≡ true
      → FrozenIn op (write_on types hooks alive channel s message op)
  unfolding write_on
  write_on-Frozen alive none s message op f = record { still_finished = f; still_reports = refl }
  write_on-Frozen alive (some engine) none message op f = tt
  write_on-Frozen alive (some engine) (some s) message op f =
      write_serialized-Frozen alive s
        (intercept Interface hooks.write_message Callback.on_write_message engine
          (message, op.world))
        op f

  step-Frozen :
      (e : Event types hooks) (op : Operation types)
      → is_finished types op ≡ true
      → FrozenIn op (step types hooks e op)
  unfolding step
  step-Frozen (message_arrives bytes) op f =
      Keeps-Frozen op _ (on_message_received-Keeps types hooks bytes op) f
  step-Frozen (initial_metadata_arrives m) op f =
      Keeps-Frozen op _ (initial_metadata-Keeps types hooks m op) f
  step-Frozen (trailing_metadata_arrives m) op f =
      Keeps-Frozen op _ (trailing_metadata-Keeps types hooks m op) f
  step-Frozen (finishes status) op f = on_finished-Frozen status op f
  step-Frozen cancels op f = Keeps-Frozen op _ (cancel-Keeps types hooks op) f
  step-Frozen ends_writes op f =
      unfold writes_done in Keeps-Frozen op _ (writes_done_on-Keeps types hooks op.channel op) f
  step-Frozen queue_runs op f = unfold deliver_queued in deliver_from-Frozen op.queued op f
  step-Frozen channel_ends op f =
      unfold is_finished in record { still_finished = f; still_reports = refl }
  step-Frozen (writes alive message) op f =
      unfold write_message in write_on-Frozen alive op.channel op.serializer message op f

  Frozen-trans : (op op' op'' : Operation types) → Frozen op op' → Frozen op' op'' → Frozen op op''
  Frozen-trans op op' op'' z w = record {
    still_finished = w.still_finished;
    still_reports = w.still_reports ∙ z.still_reports;
  }

  then_run-Frozen :
      (next : Operation types → Option (Operation types)) (op : Operation types)
      (o : Option (Operation types))
      → ((op' : Operation types) → is_finished types op' ≡ true → FrozenIn op' (next op'))
      → FrozenIn op o
      → FrozenIn op (then_run types hooks next o)
  unfolding then_run
  then_run-Frozen next op none f z = tt
  then_run-Frozen next op (some op') f z = further (next op') (f op' z.still_finished)
    where
      further : (o : Option (Operation types)) → FrozenIn op' o → FrozenIn op o
      further none w = tt
      further (some op'') w = Frozen-trans op op' op'' z w

  run-Frozen :
      (es : List (Event types hooks)) (op : Operation types)
      → is_finished types op ≡ true
      → FrozenIn op (run types hooks es op)
  unfolding run
  run-Frozen [] op f = record { still_finished = f; still_reports = refl }
  run-Frozen (e ∷ es) op f =
      then_run-Frozen (run types hooks es) op (step types hooks e op) (run-Frozen es)
        (step-Frozen e op f)

  pub on_finished_first :
      (status : Status) (op : Operation types)
      → is_finished types op ≡ false
      → is_finished types (on_finished types hooks status op) ≡ true
        × reports (on_finished types hooks status op).emissions
          ≡ (run_hook types hooks Callback.on_finished hooks.finished op.channel
              (status, op.world)).0
            ∷ reports op.emissions
  unfolding on_finished is_finished is_finished_state reports
  on_finished_first status op e = rw e (refl, refl)

  -- The first status that reaches an operation is the one it reports, as the interceptors of its
  -- channel leave it: whatever happens after that, nothing else is reported. The operation is one that
  -- has reported nothing, and has a serializer or no channel.
  pub reports-on_finished :
      (es : List (Event types hooks)) (status : Status) (op : Operation types)
      → IsSound types hooks op
      → is_finished types op ≡ false
      → (op' : Operation types) × run types hooks es (on_finished types hooks status op) ≡ some op'
        × reports op'.emissions
          ≡ (run_hook types hooks Callback.on_finished hooks.finished op.channel
              (status, op.world)).0
            ∷ []
  reports-on_finished es status op s e =
      let none_yet : reports op.emissions ≡ [] =
        subst (Reported types hooks (reports op.emissions)) e s.once in
      let op₁ = on_finished types hooks status op in
      let (f, first) = on_finished_first status op e in
      let (op', r, z) =
        returned types hooks (run types hooks es op₁)
          (run-IsSound types hooks es op₁ (on_finished-IsSound types hooks status op s)) in
      let frozen : Frozen op₁ op' = subst (FrozenIn op₁) r (run-Frozen es op₁ f) in
      let status' =
        (run_hook types hooks Callback.on_finished hooks.finished op.channel
          (status, op.world)).0 in
      (op', r, frozen.still_reports ∙ first ∙ ap (λ l. status' ∷ l) none_yet)
