-- ===== src/Tests/Rpc.antt =====
-- Runs of interceptors, operations and channels on concrete inputs.
use qtgrpc.Prelude.{ℕ, ◌≡◌, true, false, none, some, List, [], ◌∷◌, ◌++◌, map}
use qtgrpc.Tests.Grpc.{stream, fresh}
use qtgrpc.Grpc.Handler.{Rpc, active, identity}
use qtgrpc.Grpc.Handler.Send.{Compress}
use qtgrpc.Grpc.Handler.Send.Fifo.{
  recording, messages, writes, writes_are_done, calls, adds_all, messages-calls,
}
use qtgrpc.Grpc.Interceptors.{
  Callback, Capability, capability_of, flow, empty_chain, Chain, Engine, Interceptor, set,
  set_interceptor_chain, call_each, intercept,
}
use qtgrpc.Grpc.Interceptors.Order.{offered, in_order, intercept-set_interceptor_chain}

abbrev no_compression : Compress
no_compression algorithm payload = none

abbrev recorder : Rpc (recording stream)
recorder = record {
  has_context = true;
  queue = [];
  stream = some (false, []);
  parser = fresh.parser;
  negotiated_encoding = none;
  has_decompressor = false;
  state = active;
  end_stream_at_first_data = false;
  writes_done_sent = false;
  draining_queue = false;
  in_flight_user_write = false;
  queued_bytes = 0;
  bytes_to_write = 0;
  filter_server_metadata = true;
  deadline_running = false;
  request_encoding = identity;
  pending_written = 0;
  delete_later = false;
  signals = [];
}

messages-calls_example :
    messages stream (
      calls stream no_compression
        (writes (1 ∷ []) ∷ writes (2 ∷ []) ∷ writes_are_done ∷ [])
        recorder)
    ≡ messages stream recorder
      ++ adds_all stream no_compression
          (writes (1 ∷ []) ∷ writes (2 ∷ []) ∷ writes_are_done ∷ [])
          recorder
messages-calls_example =
    messages-calls stream no_compression (writes (1 ∷ []) ∷ writes (2 ∷ []) ∷ writes_are_done ∷ [])
      recorder

-- Two interceptors that record their call; the second does not see a start.
abbrev first : Interceptor ℕ
first c = some 1

abbrev second : Interceptor ℕ
second Capability.start = none
second c = some 2

abbrev no_chain : Chain ℕ
no_chain = empty_chain ℕ

abbrev no_engine : Engine ℕ
no_engine = record { capability_handlers = λ n. []; interceptor_chain = no_chain }

abbrev called : ℕ → List ℕ → List ℕ
called i log = i ∷ log

intercept-set_interceptor_chain_example :
    intercept ℕ called Callback.on_finished
      (set_interceptor_chain ℕ (set ℕ (map some (first ∷ second ∷ [])) no_chain).1 no_engine)
      []
    ≡ call_each ℕ called
        (in_order ℕ
          (flow Capability.finished)
          (offered ℕ Capability.finished (first ∷ second ∷ [])))
        []
unfolding capability_of
intercept-set_interceptor_chain_example =
    intercept-set_interceptor_chain ℕ called Callback.on_finished (first ∷ second ∷ []) no_chain
      no_engine []
