-- ===== src/Grpc/Limits.antt =====
-- The byte and time limits of src/grpc/qgrpchttp2channel.cpp: how options, environment variables and
-- defaults are resolved and clamped. Warnings are not modelled.
pub mod Windows
use qtgrpc.Prelude.{
  ℕ, ◌-◌, ◌*◌, ◌%◌, ◌^◌, ◌≤◌, ◌≡◌, arith, min, ltb, leb, if◌then◌else◌, Option, none, some,
}
pub use qtgrpc.Prelude.Env.{EnvValue, absent, negative, integer}

-- `readEnvUnsignedInt`
unfoldable pub read_env_unsigned_int : EnvValue → Option ℕ
read_env_unsigned_int absent = none
read_env_unsigned_int negative = none
read_env_unsigned_int (integer v) = some v

unfoldable pub clamp_to_range : ℕ → ℕ → ℕ → ℕ
clamp_to_range configured floor cap =
    if ltb cap configured then cap else if ltb configured floor then floor else configured % 2 ^ 32

-- GrpcMaxPayloadSize on a platform with a 64-bit qsizetype.
abbrev pub max_payload_size : ℕ
max_payload_size = min (2 ^ 32 - 1) (2 ^ 63 - 1 - 5)

abbrev pub default_maximum_receive_message_size : ℕ
default_maximum_receive_message_size = 4 * 1024 * 1024

-- `std::optional::value_or`
abbrev pub value_or {ℓ} : {A : Type ℓ} → Option A → A → A
value_or none d = d
value_or (some v) d = v

-- `constructMaximumReceiveSize`: the call's option, the channel's, the environment, the default.
unfoldable pub construct_maximum_receive_size : Option ℕ → Option ℕ → Option ℕ → ℕ
unfolding clamp_to_range
construct_maximum_receive_size (some call) channel env = clamp_to_range call 0 max_payload_size
construct_maximum_receive_size none (some channel) env = clamp_to_range channel 0 max_payload_size
construct_maximum_receive_size none none (some env) = clamp_to_range env 0 max_payload_size
construct_maximum_receive_size none none none = default_maximum_receive_message_size

unfoldable pub resolve_ms : Option ℕ → Option ℕ → ℕ → ℕ
resolve_ms (some v) env dflt = v
resolve_ms none (some e) dflt = e
resolve_ms none none dflt = dflt

-- ReconnectBackoff
pub record ReconnectBackoff : Type 0 where
  pub current : ℕ
  pub initial : ℕ
  pub maximum : ℕ

abbrev pub make_backoff : ℕ → ℕ → ReconnectBackoff
make_backoff init max = record { current = init; initial = init; maximum = max }

unfoldable pub construct_reconnect_backoff :
    Option ℕ → Option ℕ → Option ℕ → Option ℕ → ℕ → ℕ → ReconnectBackoff
unfolding resolve_ms
construct_reconnect_backoff initial maximum env_initial env_maximum dflt_initial dflt_maximum =
    let effective_initial = resolve_ms initial env_initial dflt_initial in
    let effective_maximum = resolve_ms maximum env_maximum dflt_maximum in
    if ltb effective_maximum effective_initial
    then make_backoff effective_maximum effective_maximum
    else make_backoff effective_initial effective_maximum

unfoldable pub reset_backoff : ReconnectBackoff → ReconnectBackoff
reset_backoff b = record b { current = b.initial }

-- The part of `nextDelay` that changes the state. `grown` is `std::ceil(current * 1.6)`, which the
-- code computes in double; the jitter of the returned delay is random and not modelled.
unfoldable pub grow_backoff : (ℕ → ℕ) → ReconnectBackoff → ReconnectBackoff
grow_backoff grown b = record b {
  current = if leb b.maximum (grown b.current) then b.maximum else grown b.current;
}

-- Bounds of the HTTP/2 windows. Those named `Http2::` are constants of Qt Network.
abbrev pub default_stream_window : ℕ
default_stream_window = 4 * 1024 * 1024

abbrev pub minimum_stream_window : ℕ
minimum_stream_window = 1024

pub record Http2Constants : Type 0 where
  pub max_session_receive_window_size : ℕ
  pub default_session_window_size : ℕ

pub record ReceiveWindowSizes : Type 0 where
  pub stream : ℕ
  pub connection : ℕ

-- `qBound`
unfoldable pub q_bound : ℕ → ℕ → ℕ → ℕ
q_bound lo v hi = if ltb (if ltb hi v then hi else v) lo then lo else if ltb hi v then hi else v

unfoldable pub resolve_window : Http2Constants → EnvValue → ℕ → ℕ → ℕ
unfolding read_env_unsigned_int
resolve_window k env dflt floor =
    clamp_to_range (value_or (read_env_unsigned_int env) dflt) floor
      k.max_session_receive_window_size

unfoldable pub construct_receive_window_sizes :
    Http2Constants → EnvValue → EnvValue → ReceiveWindowSizes
construct_receive_window_sizes k stream_env connection_env =
    let stream = resolve_window k stream_env default_stream_window minimum_stream_window in
    let connection_default =
      q_bound k.default_session_window_size (stream * 4) k.max_session_receive_window_size in
    let connection =
      resolve_window k connection_env connection_default k.default_session_window_size in
    if ltb connection stream
    then record { stream = connection; connection = connection }
    else record { stream = stream; connection = connection }
