-- ===== src/Grpc/Limits/Windows.antt =====
-- What the resolved limits satisfy.
use qtgrpc.Prelude.{ℕ, ◌*◌, ◌^◌, ◌≤◌, ◌<◌, ◌≡◌, arith, min, max, Option, List, [], ◌∷◌}
use qtgrpc.Grpc.Limits.{
  EnvValue, clamp_to_range, max_payload_size, default_maximum_receive_message_size,
  construct_maximum_receive_size, ReconnectBackoff, construct_reconnect_backoff, reset_backoff,
  grow_backoff, default_stream_window, minimum_stream_window, Http2Constants, resolve_window,
  read_env_unsigned_int, value_or, construct_receive_window_sizes, q_bound,
}

-- The values that Qt Network's constants are documented to have room for: the session's default
-- window is at least the stream window's floor, and the largest window is a 31-bit number that is
-- not below the session's default.
pub record IsHttp2 (k : Http2Constants) : Type 0 where
  pub floor : minimum_stream_window ≤ k.default_session_window_size
  pub room : k.default_session_window_size ≤ k.max_session_receive_window_size
  pub bounded : k.max_session_receive_window_size < 2 ^ 31

clamp_to_range_bounds :
    (v floor cap : ℕ)
    → floor ≤ cap
    → cap < 2 ^ 32
    → (floor ≤ clamp_to_range v floor cap) × (clamp_to_range v floor cap ≤ cap)
unfolding clamp_to_range
clamp_to_range_bounds v floor cap h k = ground arith

-- For a floor that is not above the cap, and a cap of 32 bits, clamping picks the nearest value of the
-- range.
clamp_to_range-min-max :
    (v floor cap : ℕ)
    → floor ≤ cap
    → cap < 2 ^ 32
    → clamp_to_range v floor cap ≡ min cap (max floor v)
unfolding clamp_to_range
clamp_to_range-min-max v floor cap h k = ground arith

module _ (k : Http2Constants) (ok : IsHttp2 k) (stream_env connection_env : EnvValue) where
  resolve_window_bounds :
      (env : EnvValue) (dflt floor : ℕ)
      → floor ≤ k.max_session_receive_window_size
      → (floor ≤ resolve_window k env dflt floor)
        × (resolve_window k env dflt floor ≤ k.max_session_receive_window_size)
  unfolding resolve_window
  resolve_window_bounds env dflt floor h =
      clamp_to_range_bounds (value_or (read_env_unsigned_int env) dflt) floor
        k.max_session_receive_window_size h (omega (arith, ok.bounded))

  -- For constants as documented, and whatever the environment says, the advertised windows keep their floors and the cap, and a stream
  -- never gets a larger window than its connection.
  pub construct_receive_window_sizes_bounds :
      let w = construct_receive_window_sizes k stream_env connection_env in
      (minimum_stream_window ≤ w.stream)
      × (w.stream ≤ w.connection)
      × (k.default_session_window_size ≤ w.connection)
      × (w.connection ≤ k.max_session_receive_window_size)
  unfolding construct_receive_window_sizes
  construct_receive_window_sizes_bounds =
      let s = resolve_window k stream_env default_stream_window minimum_stream_window in
      let dflt = q_bound k.default_session_window_size (s * 4) k.max_session_receive_window_size in
      ground (
        arith,
        ok.floor,
        ok.room,
        resolve_window_bounds stream_env default_stream_window minimum_stream_window,
        resolve_window_bounds connection_env dflt k.default_session_window_size,
      )

-- The order of precedence, and the cap: a call's option hides the channel's, which hides the
-- environment's, which hides the default; the one in force is cut at the largest payload.
construct_maximum_receive_size_lem :
    (call channel env : Option ℕ)
    → construct_maximum_receive_size call channel env
      ≡ min max_payload_size
          (value_or call (value_or channel (value_or env default_maximum_receive_message_size)))
unfolding construct_maximum_receive_size
construct_maximum_receive_size_lem call channel env = ground arith

-- What an attempt to connect and a success do to the backoff.
pub data BackoffEvent : Type 0 where
  grows resets : BackoffEvent

abbrev pub run_backoff : (ℕ → ℕ) → ReconnectBackoff → List BackoffEvent → ReconnectBackoff
run_backoff grown b [] = b
run_backoff grown b (grows ∷ events) = run_backoff grown (grow_backoff grown b) events
run_backoff grown b (resets ∷ events) = run_backoff grown (reset_backoff b) events

pub record IsBounded (b : ReconnectBackoff) : Type 0 where
  pub above_initial : b.initial ≤ b.current
  pub below_maximum : b.current ≤ b.maximum

module _ (grown : ℕ → ℕ) (grows_up : (n : ℕ) → n ≤ grown n) where
  run_backoff-IsBounded :
      (b : ReconnectBackoff) (events : List BackoffEvent)
      → IsBounded b
      → IsBounded (run_backoff grown b events)
  run_backoff-IsBounded b [] h = h
  run_backoff-IsBounded b (grows ∷ events) h =
      run_backoff-IsBounded (grow_backoff grown b) events
        (unfold grow_backoff in ground (arith, grows_up b.current))
  run_backoff-IsBounded b (resets ∷ events) h =
      run_backoff-IsBounded (reset_backoff b) events (unfold reset_backoff in ground arith)

  -- From the backoff that the channel constructs, through any attempts and successes, the delay stays
  -- between the initial and the maximum one, as long as the growth does not shrink it.
  reconnect_backoff-IsBounded :
      (initial maximum env_initial env_maximum : Option ℕ) (dflt_initial dflt_maximum : ℕ)
      (events : List BackoffEvent)
      → IsBounded (
          run_backoff grown
            (construct_reconnect_backoff initial maximum env_initial env_maximum dflt_initial
              dflt_maximum)
            events)
  reconnect_backoff-IsBounded initial maximum env_initial env_maximum dflt_initial dflt_maximum
        events =
      run_backoff-IsBounded _ events (unfold construct_reconnect_backoff in ground arith)
