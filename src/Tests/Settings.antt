-- ===== src/Tests/Settings.antt =====
-- Metadata of options on concrete values.
use qtgrpc.Prelude.{◌≡◌, refl, true, false, List, some, [], ◌∷◌}
use qtgrpc.Prelude.Ascii.{ascii, same_bytes}
use qtgrpc.Grpc.Handler.{Headers}
use qtgrpc.Grpc.Options.{
  Options, find, count, counts_agree, same_entries, try_emplace, emplace_missing, keep_first,
  to_hash, insert_or_assign, default_options, set_hash, set_multi_hash, contains_metadata,
  add_metadata,
}
use qtgrpc.Grpc.Options.Views.{sets_multi_hash, adds, edit, edits, find-edits}
use qtgrpc.Prelude.Int.{negsuc}
use qtgrpc.Grpc.Settings.{default_settings}
use qtgrpc.Grpc.Settings.Valid.{
  Setting, initial_backoff, metadata_size, accepted, IsValid, apply_all, apply_all-IsValid,
}
use qtgrpc.Grpc.Options.Stale.{set_hash-add_metadata}

abbrev headers : Headers
headers = (ascii "a", ascii "2") ∷ (ascii "a", ascii "1") ∷ []

-- Two values of a key are set and a third one is added.
abbrev changed : Options
changed = edits (sets_multi_hash headers ∷ adds (ascii "a") (ascii "3") ∷ []) default_options

newest : find (ascii "a") changed.deprecated_metadata ≡ some (ascii "3")
unfolding find edits edit set_multi_hash add_metadata contains_metadata count same_entries
    counts_agree same_bytes to_hash keep_first try_emplace emplace_missing insert_or_assign
newest = refl

find-edits_example :
    find (ascii "a") changed.deprecated_metadata ≡ find (ascii "a") changed.metadata
find-edits_example =
    find-edits (sets_multi_hash headers ∷ adds (ascii "a") (ascii "3") ∷ []) (ascii "a")

set_hash-add_metadata_example :
    (set_hash ((ascii "a", ascii "2") ∷ []) (
      add_metadata
        (ascii "a")
        (ascii "2")
        (add_metadata (ascii "a") (ascii "1") default_options))).metadata
    ≡ headers
unfolding same_bytes
set_hash-add_metadata_example = set_hash-add_metadata (ascii "a") (ascii "1") (ascii "2") refl

-- A negative delay, a small limit, and algorithms that are not all supported.
abbrev settings : List Setting
settings =
    initial_backoff (negsuc 4)
    ∷ metadata_size 10
    ∷ accepted (record { identity = false; deflate = true; gzip = true })
    ∷ []

apply_all-IsValid_example :
    IsValid true false (apply_all true false settings (default_settings true false))
apply_all-IsValid_example = apply_all-IsValid true false settings
