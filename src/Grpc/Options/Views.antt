-- ===== src/Grpc/Options/Views.antt =====
-- The two views of the metadata: every value of a key, and the newest.
use qtgrpc.Prelude.{
  arith, if◌then◌else◌, Bool, ◌≡◌, refl, true, false, Option, none, some, List, [], ◌∷◌, ◌++◌,
  Bool-cases, inl, inr, sym, ◌∙◌,
}
use qtgrpc.Prelude.Ascii.{same_bytes, same_bytes-eq}
use qtgrpc.Grpc.Handler.{Bytes, Headers}
use qtgrpc.Grpc.Options.{
  same_entries, find, emplace_missing, try_emplace, keep_first, to_hash, insert_or_assign, Options,
  default_options, set_hash, set_multi_hash, contains_metadata, add_metadata,
}

abbrev or_else : Option Bytes → Option Bytes → Option Bytes
or_else none b = b
or_else (some a) b = some a

find-append :
    (key : Bytes) (xs ys : Headers) → find key (xs ++ ys) ≡ or_else (find key xs) (find key ys)
unfolding find
find-append key [] ys = refl
find-append key ((k, v) ∷ xs) ys = ground (arith, find-append key xs ys)

find_same : (k key : Bytes) (xs : Headers) → same_bytes k key ≡ true → find k xs ≡ find key xs
find_same k key xs e = cc (same_bytes-eq k key e)

or_else-none : (o : Option Bytes) → or_else o none ≡ o
or_else-none none = refl
or_else-none (some a) = refl

or_else_assoc : (a b c : Option Bytes) → or_else (or_else a b) c ≡ or_else a (or_else b c)
or_else_assoc none b c = refl
or_else_assoc (some a) b c = refl

find-emplace_missing :
    (k v key : Bytes) (out : Headers) (o : Option Bytes)
    → find k out ≡ o
    → find key (emplace_missing o k v out) ≡ or_else (find key out) (find key ((k, v) ∷ []))
unfolding emplace_missing
find-emplace_missing k v key out none e = find-append key out ((k, v) ∷ [])
find-emplace_missing k v key out (some w) e = elim (Bool-cases (same_bytes k key)) [
  | inl s ↦ let found : find key out ≡ some w = sym (find_same k key out s) ∙ e in rw found refl
  | inr d ↦ sym (unfold find in rw d (or_else-none (find key out)))
]

find-head :
    (k v key : Bytes) (xs : Headers)
    → or_else (find key ((k, v) ∷ [])) (find key xs) ≡ find key ((k, v) ∷ xs)
unfolding find
find-head k v key xs = ground arith

find-keep_first :
    (key : Bytes) (multi_hash out : Headers)
    → find key (keep_first multi_hash out) ≡ or_else (find key out) (find key multi_hash)
unfolding keep_first try_emplace find
find-keep_first key [] out = sym (or_else-none (find key out))
find-keep_first key ((k, v) ∷ rest) out =
    rw
      (
        find-keep_first key rest (try_emplace k v out),
        find-emplace_missing k v key out (find k out) refl,
        or_else_assoc (find key out) (find key ((k, v) ∷ [])) (find key rest),
        find-head k v key rest,
      )
      refl

both_same :
    (k l key : Bytes) → same_bytes l k ≡ false → same_bytes l key ≡ true → same_bytes k key ≡ false
both_same k l key d e = elim (Bool-cases (same_bytes k key)) [
  | inl f ↦ absurd (cc (d, same_bytes-eq k key f))
  | inr f ↦ f
]

inserts_past :
    (k v key l w : Bytes) (xs : Headers)
    → same_bytes l k ≡ false
    → find key ((l, w) ∷ ((k, v) ∷ xs)) ≡ find key ((k, v) ∷ ((l, w) ∷ xs))
unfolding find
inserts_past k v key l w xs d = ground (arith, both_same k l key d)

find-insert_or_assign :
    (k v key : Bytes) (xs : Headers) → find key (insert_or_assign k v xs) ≡ find key ((k, v) ∷ xs)
unfolding find insert_or_assign
find-insert_or_assign k v key [] = refl
find-insert_or_assign k v key ((l, w) ∷ xs) = elim (Bool-cases (same_bytes l k)) [
  | inl e ↦ rw (e, same_bytes-eq l k e) (ground arith)
  | inr d ↦ rw (d, find-insert_or_assign k v key xs) (inserts_past k v key l w xs d)
]

find-to_hash : (key : Bytes) (md : Headers) → find key (to_hash md) ≡ find key md
unfolding to_hash find
find-to_hash key md = find-keep_first key md []

-- What a client does to the metadata of its options.
pub data Edit : Type 0 where
  sets_hash sets_multi_hash : Headers → Edit
  adds : Bytes → Bytes → Edit

unfoldable pub edit : Edit → Options → Options
edit (sets_hash md) o = set_hash md o
edit (sets_multi_hash md) o = set_multi_hash md o
edit (adds key value) o = add_metadata key value o

unfoldable pub edits : List Edit → Options → Options
edits [] o = o
edits (e ∷ es) o = edits es (edit e o)

-- The hash holds the newest value of each key.
pub HoldsNewest : Options → Type 0
HoldsNewest o = (key : Bytes) → find key o.deprecated_metadata ≡ find key o.metadata

HoldsNewest-if :
    (b : Bool) (o p : Options) → HoldsNewest o → HoldsNewest p → HoldsNewest (if b then o else p)
HoldsNewest-if true o p h i = h
HoldsNewest-if false o p h i = i

find-cons :
    (k v key : Bytes) (xs ys : Headers)
    → find key xs ≡ find key ys
    → find key ((k, v) ∷ xs) ≡ find key ((k, v) ∷ ys)
unfolding find
find-cons k v key xs ys e = rw e refl

HoldsNewest-edit : (e : Edit) (o : Options) → HoldsNewest o → HoldsNewest (edit e o)
unfolding edit set_hash set_multi_hash add_metadata HoldsNewest
HoldsNewest-edit (sets_hash md) o h key =
    HoldsNewest-if (same_entries o.deprecated_metadata md) o _ h (λ key'. refl) key
HoldsNewest-edit (sets_multi_hash md) o h key =
    HoldsNewest-if (same_entries o.metadata md) o _ h (λ key'. find-to_hash key' md) key
HoldsNewest-edit (adds k v) o h key =
    HoldsNewest-if (contains_metadata k v o) o _ h
      (λ key'.
        find-insert_or_assign k v key' o.deprecated_metadata ∙ find-cons k v key' _ _ (h key'))
      key

HoldsNewest-edits : (es : List Edit) (o : Options) → HoldsNewest o → HoldsNewest (edits es o)
unfolding edits
HoldsNewest-edits [] o h = h
HoldsNewest-edits (e ∷ es) o h = HoldsNewest-edits es (edit e o) (HoldsNewest-edit e o h)

-- Whatever a client sets and adds, the deprecated view of the metadata has for every key the newest
-- of its values, and no value for a key that has none.
pub find-edits :
    (es : List Edit) (key : Bytes)
    → find key (edits es default_options).deprecated_metadata
      ≡ find key (edits es default_options).metadata
find-edits es = unfold HoldsNewest in HoldsNewest-edits es default_options (λ key. refl)
