-- ===== src/Grpc/Options.antt =====
-- The metadata of src/grpc/qgrpccommonoptions.cpp, and its setters in qgrpccalloptions.cpp, which
-- qgrpcchanneloptions.cpp repeats. A hash is the list of its entries as it is iterated; in a
-- QMultiHash the newest value of a key comes first. The other settings are not modelled here.
pub mod Views
pub mod Stale
use qtgrpc.Prelude.{
  ℕ, ◌+◌, ◌==◌, if◌then◌else◌, Bool, true, false, Option, none, some, [], ◌∷◌, ◌++◌, ◌&&◌, length,
}
use qtgrpc.Prelude.Ascii.{same_bytes}
use qtgrpc.Grpc.Handler.{Bytes, Headers}

-- The first entry of a key.
unfoldable pub find : Bytes → Headers → Option Bytes
find key [] = none
find key ((k, v) ∷ entries) =
    let rest = find key entries in if same_bytes k key then some v else rest

-- `try_emplace` of QHash: an entry of the key stays.
unfoldable pub emplace_missing : Option Bytes → Bytes → Bytes → Headers → Headers
emplace_missing none key value hash = hash ++ ((key, value) ∷ [])
emplace_missing (some v) key value hash = hash

unfoldable pub try_emplace : Bytes → Bytes → Headers → Headers
try_emplace key value hash = emplace_missing (find key hash) key value hash

-- The loop of `toHash`, with its result so far.
unfoldable pub keep_first : Headers → Headers → Headers
keep_first [] out = out
keep_first ((k, v) ∷ multi_hash) out = keep_first multi_hash (try_emplace k v out)

unfoldable pub to_hash : Headers → Headers
to_hash multi_hash = keep_first multi_hash []

-- `insertOrAssign` of QHash.
unfoldable pub insert_or_assign : Bytes → Bytes → Headers → Headers
insert_or_assign key value [] = (key, value) ∷ []
insert_or_assign key value ((k, v) ∷ entries) =
    let rest = insert_or_assign key value entries in
    if same_bytes k key then (k, value) ∷ entries else (k, v) ∷ rest

-- How often a pair occurs.
unfoldable pub count : Bytes → Bytes → Headers → ℕ
count key value [] = 0
count key value ((k, v) ∷ entries) =
    let rest = count key value entries in
    if same_bytes k key && same_bytes v value then 1 + rest else rest

unfoldable pub counts_agree : Headers → Headers → Headers → Bool
counts_agree [] xs ys = true
counts_agree ((k, v) ∷ entries) xs ys = (count k v xs == count k v ys) && counts_agree entries xs ys

-- `operator==` of QHash and of QMultiHash: the same pairs, in any order.
unfoldable pub same_entries : Headers → Headers → Bool
same_entries xs ys = (length xs == length ys) && counts_agree xs xs ys

-- The two fields of QGrpcCommonOptions that hold the metadata.
pub record Options : Type 0 where
  pub metadata : Headers
  pub deprecated_metadata : Headers

abbrev pub default_options : Options
default_options = record { metadata = []; deprecated_metadata = [] }

-- `setMetadata` with a QHash.
unfoldable pub set_hash : Headers → Options → Options
set_hash md o =
    if same_entries o.deprecated_metadata md
    then o
    else record { metadata = md; deprecated_metadata = md }

-- `setMetadata` with a QMultiHash.
unfoldable pub set_multi_hash : Headers → Options → Options
set_multi_hash md o =
    if same_entries o.metadata md
    then o
    else record { metadata = md; deprecated_metadata = to_hash md }

-- `std::find` among the values of the key.
unfoldable pub contains_metadata : Bytes → Bytes → Options → Bool
contains_metadata key value o = if count key value o.metadata == 0 then false else true

unfoldable pub add_metadata : Bytes → Bytes → Options → Options
add_metadata key value o = if contains_metadata key value o then o else record {
  metadata = (key, value) ∷ o.metadata;
  deprecated_metadata = insert_or_assign key value o.deprecated_metadata;
}
