-- ===== src/Grpc/Options/Stale.antt =====
-- Metadata set through the deprecated hash.
use qtgrpc.Prelude.{◌≡◌, refl, false, [], ◌∷◌}
use qtgrpc.Prelude.Ascii.{same_bytes, same_bytes_refl}
use qtgrpc.Grpc.Handler.{Bytes}
use qtgrpc.Grpc.Options.{
  count, counts_agree, same_entries, insert_or_assign, default_options, set_hash, contains_metadata,
  add_metadata,
}

-- Two different values of a key are added to fresh options. To set then a hash that has the newer one
-- alone changes nothing: both are still in the metadata.
pub set_hash-add_metadata :
    (key older newer : Bytes)
    → same_bytes older newer ≡ false
    → (set_hash
        ((key, newer) ∷ [])
        (add_metadata key newer (add_metadata key older default_options))).metadata
      ≡ (key, newer) ∷ (key, older) ∷ []
unfolding set_hash add_metadata contains_metadata insert_or_assign same_entries counts_agree count
set_hash-add_metadata key older newer d =
    rw (same_bytes_refl key, d, same_bytes_refl newer) (rw (same_bytes_refl key) refl)
