-- ===== src/Generator/Text/Split.antt =====
-- What split and replace do to a text.
use mathlib.Core.Option
use qtgrpc.Prelude.{
  ℕ, zero, suc, ◌<◌, ◌≡◌, ◌≢◌, refl, sym, ap, ◌∙◌, arith, true, false, Option, none, some, subst,
  List, [], ◌∷◌, ◌++◌, length, drop, length-drop, Bool-cases, Option-cases, inl, inr, All,
}
use qtgrpc.Prelude.Ascii.{same_bytes, same_bytes-eq, starts_with}
use qtgrpc.Generator.Text.{Bytes, cut, kept_item, split_loop, split, replace_loop, replace}

-- The items with the separator between them.
unfoldable pub join : Bytes → List Bytes → Bytes
join c [] = []
join c (x ∷ []) = x
join c (x ∷ (y ∷ ys)) = x ++ (c ++ join c (y ∷ ys))

pub starts_with-append : (xs c : Bytes) → starts_with xs c ≡ true → xs ≡ c ++ drop (length c) xs
unfolding starts_with
starts_with-append xs [] h = ground arith
starts_with-append [] (y ∷ c) h = cc
starts_with-append (x ∷ xs) (y ∷ c) h = ground (arith, starts_with-append xs c)

starts_with-grow : (xs ys c : Bytes) → starts_with xs c ≡ true → starts_with (xs ++ ys) c ≡ true
unfolding starts_with
starts_with-grow [] ys [] h = ground arith
starts_with-grow (x ∷ xs) ys [] h = refl
starts_with-grow [] ys (y ∷ c) h = cc
starts_with-grow (x ∷ xs) ys (y ∷ c) h = ground (arith, starts_with-grow xs ys c)

length-drop-lt :
    (c : Bytes) (x : ℕ) (xs : Bytes) → c ≢ [] → length (drop (length c) (x ∷ xs)) < length (x ∷ xs)
length-drop-lt [] x xs ne = absurd (ne refl)
length-drop-lt (y ∷ c) x xs ne = omega (arith, length-drop (length c) xs)

-- The separator does not occur in a text.
abbrev pub IsWhole : Bytes → Bytes → Type 0
IsWhole c s = cut c s ≡ none

pub record IsCut (c s before rest : Bytes) : Type 0 where
  pub whole : s ≡ before ++ (c ++ rest)
  pub shorter : length rest < length s
  pub first : IsWhole c before

abbrev pub CutOf : Bytes → Bytes → Option (Bytes × Bytes) → Type 0
CutOf c s none = Unit {0}
CutOf c s (some (before, rest)) = IsCut c s before rest

IsCut-here :
    (c : Bytes) (x : ℕ) (xs : Bytes)
    → c ≢ []
    → starts_with (x ∷ xs) c ≡ true
    → IsCut c (x ∷ xs) [] (drop (length c) (x ∷ xs))
unfolding cut
IsCut-here c x xs ne h = record {
  whole = starts_with-append (x ∷ xs) c h;
  shorter = length-drop-lt c x xs ne;
  first = refl;
}

IsWhole-cons :
    (c : Bytes) (x : ℕ) (b : Bytes)
    → starts_with (x ∷ b) c ≡ false
    → IsWhole c b
    → IsWhole c (x ∷ b)
unfolding cut
IsWhole-cons c x b d h = rw (d, h) refl

before-misses :
    (c : Bytes) (x : ℕ) (b ys : Bytes)
    → starts_with (x ∷ (b ++ ys)) c ≡ false
    → starts_with (x ∷ b) c ≡ false
before-misses c x b ys d = elim (Bool-cases (starts_with (x ∷ b) c)) [
  | inl e ↦ absurd (cc (starts_with-grow (x ∷ b) ys c e, d))
  | inr e ↦ e
]

IsCut-cons :
    (c : Bytes) (x : ℕ) (xs b r : Bytes)
    → starts_with (x ∷ xs) c ≡ false
    → IsCut c xs b r
    → IsCut c (x ∷ xs) (x ∷ b) r
IsCut-cons c x xs b r d p = record {
  whole = ap (λ t. x ∷ t) p.whole;
  shorter = omega (arith, p.shorter);
  first = IsWhole-cons c x b (before-misses c x b (c ++ r) (rw (← p.whole) d)) p.first;
}

CutOf-cons :
    (c : Bytes) (x : ℕ) (xs : Bytes) (o : Option (Bytes × Bytes))
    → starts_with (x ∷ xs) c ≡ false
    → CutOf c xs o
    → CutOf c (x ∷ xs) (Option.map (λ (p : Bytes × Bytes). (x ∷ p.0, p.1)) o)
CutOf-cons c x xs none d h = tt
CutOf-cons c x xs (some (b, r)) d h = IsCut-cons c x xs b r d h

pub cut-CutOf : (c s : Bytes) → c ≢ [] → CutOf c s (cut c s)
unfolding cut
cut-CutOf c [] ne = tt
cut-CutOf c (x ∷ xs) ne = elim (Bool-cases (starts_with (x ∷ xs) c)) [
  | inl e ↦ rw e (IsCut-here c x xs ne e)
  | inr d ↦ rw d (CutOf-cons c x xs (cut c xs) d (cut-CutOf c xs ne))
]

-- The outcome of a split: texts that do not hold the separator, and that make the text when they
-- are joined by it.
pub record IsSplit (c s : Bytes) (items : List Bytes) : Type 0 where
  pub some_items : items ≢ []
  pub joined : join c items ≡ s
  pub all_whole : All (IsWhole c) items

IsSplit-one : (c s : Bytes) → IsWhole c s → IsSplit c s (s ∷ [])
unfolding join
IsSplit-one c s h = record { some_items = cc; joined = refl; all_whole = (h, tt) }

join-cons : (c x : Bytes) (ys : List Bytes) → ys ≢ [] → join c (x ∷ ys) ≡ x ++ (c ++ join c ys)
unfolding join
join-cons c x [] ne = absurd (ne refl)
join-cons c x (y ∷ ys) ne = refl

IsSplit-more :
    (c s b r : Bytes) (items : List Bytes)
    → IsCut c s b r
    → IsSplit c r items
    → IsSplit c s (b ∷ items)
IsSplit-more c s b r items p q = record {
  some_items = cc;
  joined = join-cons c b items q.some_items ∙ (ap (λ t. b ++ (c ++ t)) q.joined ∙ sym p.whole);
  all_whole = (p.first, q.all_whole);
}

kept_item-true : (s : Bytes) → kept_item true s ≡ s ∷ []
unfolding kept_item
kept_item-true [] = refl
kept_item-true (x ∷ s) = refl

-- The two loops make the same rounds.
loops_lem :
    (fuel : ℕ) (c to s : Bytes)
    → c ≢ []
    → length s < fuel
    → (items : List Bytes) × (split_loop fuel c true s ≡ some items)
      × (replace_loop fuel c to s ≡ some (join to items))
      × IsSplit c s items
unfolding split_loop replace_loop
loops_lem zero c to s ne h = absurd (omega arith)
loops_lem (suc fuel) c to s ne h = elim (Option-cases (cut c s)) [
  | inl e ↦ (
    s ∷ [],
    rw (e, split_loop, kept_item-true s) refl,
    rw (e, replace_loop) (unfold join in refl),
    IsSplit-one c s e,
  )
  | inr ((b, r), e) ↦
      let p : IsCut c s b r = subst (CutOf c s) e (cut-CutOf c s ne) in
      let (items, read, replaced, q) = loops_lem fuel c to r ne (omega (arith, p.shorter)) in
      (
        b ∷ items,
        rw (e, split_loop, read, kept_item-true b) refl,
        rw (e, replace_loop, replaced, join-cons to b items q.some_items) refl,
        IsSplit-more c s b r items p q,
      )
]

-- With the empty items kept, a text is split into texts that do not hold the separator, and to join
-- them by the separator gives the text back. The separator is not empty.
join-split :
    (s c : Bytes)
    → c ≢ []
    → (items : List Bytes) × (split s c true ≡ some items) × IsSplit c s items
unfolding split
join-split s c ne =
    let (items, read, _, q) = loops_lem (suc (length s)) c c s ne (omega arith) in (items, read, q)

join_same : (c to s : Bytes) (items : List Bytes) → c ≡ to → join c items ≡ s → s ≡ join to items
join_same c to s items e h = cc

-- Both at once.
pub replace_lem :
    (s from to : Bytes)
    → from ≢ []
    → (items : List Bytes) × (split s from true ≡ some items)
      × (replace s from to ≡ some (join to items))
      × IsSplit from s items
unfolding split replace
replace_lem s from to ne =
    let (items, read, replaced, q) = loops_lem (suc (length s)) from to s ne (omega arith) in
    (
      items,
      read,
      elim (Bool-cases (same_bytes from to)) [
        | inl e ↦ rw e (ap some (join_same from to s items (same_bytes-eq from to e) q.joined))
        | inr e ↦ rw e replaced
      ],
      q,
    )

-- To replace is to split and to join again with the other text, also where the two texts are the same
-- and the code returns at once. The text that is replaced is not empty.
pub replace-split :
    (s from to : Bytes)
    → from ≢ []
    → (items : List Bytes) × (split s from true ≡ some items)
      × (replace s from to ≡ some (join to items))
replace-split s from to ne =
    let (items, read, replaced, _) = replace_lem s from to ne in (items, read, replaced)
