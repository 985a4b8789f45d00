-- ===== src/Grpc/Settings.antt =====
-- The settings of src/grpc/qgrpcchanneloptions.cpp that concern reconnection, metadata sizes and
-- compression. What QDecompressHelper supports is a parameter; warnings are not modelled.
pub mod Valid
use qtgrpc.Prelude.{
  ℕ, ◌==◌, ltb, if◌then◌else◌, Bool, true, false, Option, none, some, ◌&&◌, ◌||◌, not,
}
use qtgrpc.Prelude.Int.{ℤ, pos, negsuc}
use qtgrpc.Grpc.Limits.{value_or}

unfoldable pub clamp_non_negative : ℤ → ℤ
clamp_non_negative (pos n) = pos n
clamp_non_negative (negsuc n) = pos 0

-- In milliseconds.
abbrev pub default_initial_reconnect_backoff : ℤ
default_initial_reconnect_backoff = pos 1000

abbrev pub default_maximum_reconnect_backoff : ℤ
default_maximum_reconnect_backoff = pos 120000

abbrev pub default_connect_timeout : ℤ
default_connect_timeout = pos 20000

-- In bytes.
abbrev pub default_maximum_metadata_size : ℕ
default_maximum_metadata_size = 16384

abbrev pub minimum_metadata_size : ℕ
minimum_metadata_size = 4096

-- The flags of `CompressionAlgorithms`.
pub record Algorithms : Type 0 where
  pub identity : Bool
  pub deflate : Bool
  pub gzip : Bool

unfoldable pub supported_compression_algorithms : Bool → Bool → Algorithms
supported_compression_algorithms has_deflate has_gzip = record {
  identity = true;
  deflate = has_deflate;
  gzip = has_gzip;
}

-- The fields that the setters below change.
pub record Settings : Type 0 where
  pub accepted_compression_algorithms : Algorithms
  pub initial_reconnect_backoff : Option ℤ
  pub maximum_reconnect_backoff : Option ℤ
  pub connect_timeout : Option ℤ
  pub maximum_metadata_size : Option ℕ

unfoldable pub default_settings : Bool → Bool → Settings
default_settings has_deflate has_gzip = record {
  accepted_compression_algorithms = supported_compression_algorithms has_deflate has_gzip;
  initial_reconnect_backoff = none;
  maximum_reconnect_backoff = none;
  connect_timeout = none;
  maximum_metadata_size = none;
}

-- The comparison of a setter with the value that is set.
unfoldable pub is_set_to : Option ℤ → ℤ → Bool
is_set_to (some (pos m)) (pos n) = m == n
is_set_to (some (negsuc m)) (negsuc n) = m == n
is_set_to _ _ = false

unfoldable pub is_size : Option ℕ → ℕ → Bool
is_size none n = false
is_size (some m) n = m == n

unfoldable pub same_flag : Bool → Bool → Bool
same_flag true b = b
same_flag false b = not b

unfoldable pub same_algorithms : Algorithms → Algorithms → Bool
same_algorithms a b =
    same_flag a.identity b.identity && (same_flag a.deflate b.deflate && same_flag a.gzip b.gzip)

unfoldable pub set_initial_reconnect_backoff : ℤ → Settings → Settings
set_initial_reconnect_backoff delay o =
    let clamped = clamp_non_negative delay in
    if is_set_to o.initial_reconnect_backoff clamped
    then o
    else record o { initial_reconnect_backoff = some clamped }

unfoldable pub set_maximum_reconnect_backoff : ℤ → Settings → Settings
set_maximum_reconnect_backoff delay o =
    let clamped = clamp_non_negative delay in
    if is_set_to o.maximum_reconnect_backoff clamped
    then o
    else record o { maximum_reconnect_backoff = some clamped }

unfoldable pub set_connect_timeout : ℤ → Settings → Settings
set_connect_timeout timeout o =
    let clamped = clamp_non_negative timeout in
    if is_set_to o.connect_timeout clamped then o else record o { connect_timeout = some clamped }

unfoldable pub raise_size : ℕ → ℕ
raise_size size = if ltb size minimum_metadata_size then minimum_metadata_size else size

unfoldable pub set_maximum_metadata_size : ℕ → Settings → Settings
set_maximum_metadata_size size o =
    if is_size o.maximum_metadata_size (raise_size size)
    then o
    else record o { maximum_metadata_size = some (raise_size size) }

-- `algorithms &= supported`, and then the flag Identity.
unfoldable pub usable : Algorithms → Algorithms → Algorithms
usable a supported = record {
  identity = true;
  deflate = a.deflate && supported.deflate;
  gzip = a.gzip && supported.gzip;
}

unfoldable pub set_accepted_compression_algorithms : Bool → Bool → Algorithms → Settings → Settings
set_accepted_compression_algorithms has_deflate has_gzip algorithms o =
    let accepted = usable algorithms (supported_compression_algorithms has_deflate has_gzip) in
    if same_algorithms o.accepted_compression_algorithms accepted
    then o
    else record o { accepted_compression_algorithms = accepted }

unfoldable pub get_initial_reconnect_backoff : Settings → ℤ
get_initial_reconnect_backoff o =
    value_or o.initial_reconnect_backoff default_initial_reconnect_backoff

unfoldable pub get_maximum_reconnect_backoff : Settings → ℤ
get_maximum_reconnect_backoff o =
    value_or o.maximum_reconnect_backoff default_maximum_reconnect_backoff

unfoldable pub get_connect_timeout : Settings → ℤ
get_connect_timeout o = value_or o.connect_timeout default_connect_timeout

unfoldable pub get_maximum_metadata_size : Settings → ℕ
get_maximum_metadata_size o = value_or o.maximum_metadata_size default_maximum_metadata_size
