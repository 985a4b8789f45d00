-- ===== src/Prelude/Env.antt =====
-- What the environment says of a variable that holds a number.
use Prim.Native.Nat.{ℕ}

-- An environment variable as `qEnvironmentVariableIntegerValue` gives it: unset or no integer, a
-- negative integer, or another.
pub data EnvValue : Type 0 where
  absent negative : EnvValue
  integer : ℕ → EnvValue
