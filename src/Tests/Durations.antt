-- ===== src/Tests/Durations.antt =====
-- Runs of the writer and the reader of durations.
use qtgrpc.Prelude.{◌≡◌, refl, some}
use qtgrpc.Prelude.Int.{pos, negsuc}
use qtgrpc.WellKnown.Duration.{
  Text, magnitude, check_duration_range, check_sign_match, is_valid, serialize_duration,
  deserialize_duration,
}
use qtgrpc.WellKnown.Duration.RoundTrip.{deserialize-serialize_duration}

-- -0.25 s.
deserialize-serialize_duration_example :
    (t : Text) × (serialize_duration (pos 0) (negsuc 249999999) ≡ some t)
    × (deserialize_duration t ≡ some (pos 0, negsuc 249999999))
deserialize-serialize_duration_example =
    deserialize-serialize_duration (pos 0) (negsuc 249999999)
      (unfold is_valid check_duration_range check_sign_match magnitude in refl)
