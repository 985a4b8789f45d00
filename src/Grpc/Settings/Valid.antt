-- ===== src/Grpc/Settings/Valid.antt =====
-- What the settings of a channel are after any use of their setters.
use qtgrpc.Prelude.{ℕ, ◌≤◌, ◌&&◌, arith, if◌then◌else◌, Bool, ◌≡◌, refl, true, false, List, [], ◌∷◌}
use qtgrpc.Prelude.Int.{ℤ, pos, negsuc}
use qtgrpc.Grpc.Settings.{
  clamp_non_negative, Algorithms, supported_compression_algorithms, Settings, default_settings,
  set_initial_reconnect_backoff, set_maximum_reconnect_backoff, set_connect_timeout, raise_size,
  set_maximum_metadata_size, usable, set_accepted_compression_algorithms,
  get_initial_reconnect_backoff, get_maximum_reconnect_backoff, get_connect_timeout,
  get_maximum_metadata_size, is_set_to, is_size, minimum_metadata_size,
}

pub data Setting : Type 0 where
  initial_backoff maximum_backoff timeout : ℤ → Setting
  metadata_size : ℕ → Setting
  accepted : Algorithms → Setting

pub data IsNonNegative : ℤ → Type 0 where
  pos-IsNonNegative : (n : ℕ) → IsNonNegative (pos n)

-- The flag Identity, and no algorithm that is not supported.
unfoldable pub IsUsable : Bool → Bool → Algorithms → Type 0
IsUsable has_deflate has_gzip a =
    (a.identity ≡ true) × (a.deflate ≡ (a.deflate && has_deflate)) × (a.gzip ≡ (a.gzip && has_gzip))

unfoldable pub IsValid : Bool → Bool → Settings → Type 0
IsValid has_deflate has_gzip o =
    IsNonNegative (get_initial_reconnect_backoff o)
    × IsNonNegative (get_maximum_reconnect_backoff o)
    × IsNonNegative (get_connect_timeout o)
    × (minimum_metadata_size ≤ get_maximum_metadata_size o)
    × IsUsable has_deflate has_gzip o.accepted_compression_algorithms

clamp_non_negative-IsNonNegative : (d : ℤ) → IsNonNegative (clamp_non_negative d)
unfolding clamp_non_negative
clamp_non_negative-IsNonNegative (pos n) = pos-IsNonNegative n
clamp_non_negative-IsNonNegative (negsuc n) = pos-IsNonNegative 0

and_self : (b : Bool) → b ≡ (b && b)
and_self true = refl
and_self false = refl

and_again : (a b : Bool) → (a && b) ≡ ((a && b) && b)
and_again true b = and_self b
and_again false b = refl

minimum-le-raise_size : (n : ℕ) → minimum_metadata_size ≤ raise_size n
unfolding raise_size
minimum-le-raise_size n = ground arith

module _ (has_deflate has_gzip : Bool) where
  unfoldable pub apply : Setting → Settings → Settings
  apply (initial_backoff d) o = set_initial_reconnect_backoff d o
  apply (maximum_backoff d) o = set_maximum_reconnect_backoff d o
  apply (timeout d) o = set_connect_timeout d o
  apply (metadata_size n) o = set_maximum_metadata_size n o
  apply (accepted a) o = set_accepted_compression_algorithms has_deflate has_gzip a o

  unfoldable pub apply_all : List Setting → Settings → Settings
  apply_all [] o = o
  apply_all (s ∷ ss) o = apply_all ss (apply s o)

  usable-IsUsable :
      (a : Algorithms)
      → IsUsable has_deflate has_gzip
          (usable a (supported_compression_algorithms has_deflate has_gzip))
  unfolding IsUsable usable supported_compression_algorithms
  usable-IsUsable a = (refl, and_again a.deflate has_deflate, and_again a.gzip has_gzip)

  if-IsValid :
      (b : Bool) (o p : Settings)
      → IsValid has_deflate has_gzip o
      → IsValid has_deflate has_gzip p
      → IsValid has_deflate has_gzip (if b then o else p)
  if-IsValid true o p h i = h
  if-IsValid false o p h i = i

  apply-IsValid :
      (s : Setting) (o : Settings)
      → IsValid has_deflate has_gzip o
      → IsValid has_deflate has_gzip (apply s o)
  unfolding apply IsValid set_initial_reconnect_backoff set_maximum_reconnect_backoff
      set_connect_timeout set_maximum_metadata_size set_accepted_compression_algorithms
      get_initial_reconnect_backoff get_maximum_reconnect_backoff get_connect_timeout
      get_maximum_metadata_size
  apply-IsValid (initial_backoff d) o (i, m, c, n, a) =
      if-IsValid (is_set_to o.initial_reconnect_backoff (clamp_non_negative d)) o _ (i, m, c, n, a)
        (clamp_non_negative-IsNonNegative d, m, c, n, a)
  apply-IsValid (maximum_backoff d) o (i, m, c, n, a) =
      if-IsValid (is_set_to o.maximum_reconnect_backoff (clamp_non_negative d)) o _ (i, m, c, n, a)
        (i, clamp_non_negative-IsNonNegative d, c, n, a)
  apply-IsValid (timeout d) o (i, m, c, n, a) =
      if-IsValid (is_set_to o.connect_timeout (clamp_non_negative d)) o _ (i, m, c, n, a)
        (i, m, clamp_non_negative-IsNonNegative d, n, a)
  apply-IsValid (metadata_size s) o (i, m, c, n, a) =
      if-IsValid (is_size o.maximum_metadata_size (raise_size s)) o _ (i, m, c, n, a)
        (i, m, c, minimum-le-raise_size s, a)
  apply-IsValid (accepted s) o (i, m, c, n, a) =
      if-IsValid _ o _ (i, m, c, n, a) (i, m, c, n, usable-IsUsable s)

  apply_all-kept :
      (ss : List Setting) (o : Settings)
      → IsValid has_deflate has_gzip o
      → IsValid has_deflate has_gzip (apply_all ss o)
  unfolding apply_all
  apply_all-kept [] o h = h
  apply_all-kept (s ∷ ss) o h = apply_all-kept ss (apply s o) (apply-IsValid s o h)

  -- Whatever a client sets, the delays that the channel options return are not negative, the limit on
  -- metadata is at least 4 KiB, and the accepted algorithms include Identity and none that is not
  -- supported.
  pub apply_all-IsValid :
      (ss : List Setting)
      → IsValid has_deflate has_gzip (apply_all ss (default_settings has_deflate has_gzip))
  unfolding IsValid IsUsable default_settings supported_compression_algorithms
      get_initial_reconnect_backoff get_maximum_reconnect_backoff get_connect_timeout
      get_maximum_metadata_size
  apply_all-IsValid ss = apply_all-kept ss (default_settings has_deflate has_gzip) (
    pos-IsNonNegative 1000,
    pos-IsNonNegative 120000,
    pos-IsNonNegative 20000,
    omega arith,
    (refl, and_self has_deflate, and_self has_gzip),
  )
