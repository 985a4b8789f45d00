-- ===== src/Generator/Text/Total.antt =====
-- A text is split, whether the empty items are kept or not.
use qtgrpc.Prelude.{
  ℕ, zero, suc, ◌<◌, ◌≡◌, ◌≢◌, refl, subst, arith, Bool, some, List, [], ◌++◌, length, Option-cases,
  inl, inr,
}
use qtgrpc.Generator.Text.{Bytes, cut, kept_item, split_loop, split}
use qtgrpc.Generator.Text.Split.{IsCut, CutOf, cut-CutOf}

split_loop_total :
    (fuel : ℕ) (c : Bytes) (keep_empty : Bool) (s : Bytes)
    → c ≢ []
    → length s < fuel
    → (items : List Bytes) × (split_loop fuel c keep_empty s ≡ some items)
unfolding split_loop
split_loop_total zero c keep_empty s ne h = absurd (omega arith)
split_loop_total (suc fuel) c keep_empty s ne h = elim (Option-cases (cut c s)) [
  | inl e ↦ (kept_item keep_empty s, rw (e, split_loop) refl)
  | inr ((b, r), e) ↦
      let p : IsCut c s b r = subst (CutOf c s) e (cut-CutOf c s ne) in
      let (items, read) = split_loop_total fuel c keep_empty r ne (omega (arith, p.shorter)) in
      (kept_item keep_empty b ++ items, rw (e, split_loop, read) refl)
]

pub split_total :
    (s c : Bytes) (keep_empty : Bool)
    → c ≢ []
    → (items : List Bytes) × (split s c keep_empty ≡ some items)
unfolding split
split_total s c keep_empty ne = split_loop_total (suc (length s)) c keep_empty s ne (omega arith)
