-- ===== src/Protobuf/Limits.antt =====
-- The size limits of src/protobuf/qprotobufserializer.cpp, and `serialize` and `deserialize` around
-- the walk over a message.
use qtgrpc.Prelude.{
  ℕ, ◌-◌, ◌*◌, ◌%◌, ◌^◌, ◌<◌, ◌≡◌, arith, min, ltb, if◌then◌else◌, Bool, true, false, Option, none,
  some, List, [], length,
}
use qtgrpc.Prelude.Env.{EnvValue, absent, negative, integer}
use qtgrpc.Protobuf.Deserializer.{Error, no_error, message_too_large}

-- MaxSerializeMessageSizeLimit and MaxDeserializeMessageSizeLimit
abbrev pub max_message_size_limit : ℕ
max_message_size_limit = 2 * 1024 * 1024 * 1024 - 1

unfoldable pub clamp_maximum_input_size : ℕ → ℕ
clamp_maximum_input_size configured =
    if ltb max_message_size_limit configured then max_message_size_limit else configured % 2 ^ 32

-- A variable that is not set and one that is no integer are both `absent`.
unfoldable pub read_env_maximum_input_size : EnvValue → Option ℕ
read_env_maximum_input_size absent = none
read_env_maximum_input_size negative = none
read_env_maximum_input_size (integer n) = some (clamp_maximum_input_size n)

-- The fields of `QProtobufSerializerPrivate` that the limits use.
pub record Settings : Type 0 where
  pub last_error : Error
  pub maximum_input_size : Option ℕ

limit_or_default : Option ℕ → Option ℕ → ℕ
limit_or_default (some n) env = n
limit_or_default none (some n) = n
limit_or_default none none = max_message_size_limit

unfoldable pub effective_maximum_input_size : EnvValue → Settings → ℕ
unfolding limit_or_default
effective_maximum_input_size env s =
    limit_or_default s.maximum_input_size (read_env_maximum_input_size env)

unfoldable pub set_maximum_input_size : ℕ → Settings → Settings
set_maximum_input_size size s = record s {
  maximum_input_size = some (clamp_maximum_input_size size);
}

unfoldable pub set_message_too_large_error : Settings → Settings
set_message_too_large_error s = record s { last_error = message_too_large }

unfoldable pub clear_error : Settings → Settings
clear_error s = record s { last_error = no_error }

is_no_error : Error → Bool
is_no_error no_error = true
is_no_error _ = false

-- `walk` reads the message: it may set an error.
unfoldable pub deserialize_message :
    EnvValue → (Settings → Settings) → ℕ → Settings → Bool × Settings
unfolding is_no_error
deserialize_message env walk size s =
    let s' = clear_error s in
    if ltb (effective_maximum_input_size env s') size
    then (false, set_message_too_large_error s')
    else (is_no_error (walk s').last_error, walk s')

-- `walk` gives the bytes of the message.
unfoldable pub serialize_message : (Settings → List ℕ × Settings) → Settings → List ℕ × Settings
serialize_message walk s =
    let (result, s') = walk (clear_error s) in
    if ltb max_message_size_limit (length result)
    then ([], set_message_too_large_error s')
    else (result, s')

-- With a maximum set, input whose size is above that maximum or above the limit of the format is
-- refused as too large, whatever the environment says and whatever walk is given.
deserialize_message-set_maximum_input_size :
    (env : EnvValue) (walk : Settings → Settings) (maximum size : ℕ) (s : Settings)
    → min maximum max_message_size_limit < size
    → deserialize_message env walk size (set_maximum_input_size maximum s)
      ≡ (false, record (set_maximum_input_size maximum s) { last_error = message_too_large })
unfolding deserialize_message effective_maximum_input_size set_maximum_input_size
    set_message_too_large_error clear_error clamp_maximum_input_size
deserialize_message-set_maximum_input_size env walk maximum size s h = ground arith
