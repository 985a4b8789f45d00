-- ===== src/Protobuf/DeserializerBase/Required.antt =====
-- Required fields: a message is complete exactly when each has been read.
use qtgrpc.Prelude.{
  ℕ, zero, suc, ◌+◌, ◌/◌, ◌<◌, ◌≡◌, refl, sym, ap, ◌∙◌, arith, ◌==◌, not, ◌&&◌, ◌||◌, if◌then◌else◌,
  Bool, true, false, List, [], ◌∷◌, All, length, replicate, get_or, length-replicate, length-set,
}
use qtgrpc.Protobuf.Ordering.{PropertyOrdering, json_name}
use qtgrpc.Protobuf.DeserializerBase.{
  unseen_fields, mark_seen, is_seen, is_required, add_name, missing_fields, is_empty,
  check_required_fields,
}
use qtgrpc.Protobuf.DeserializerBase.Seen.{HoldsFields, is_seen-zero, is_seen-mark_seen}

-- Whether an index is among some.
unfoldable pub occurs : ℕ → List ℕ → Bool
occurs i [] = false
occurs i (j ∷ js) = j == i || occurs i js

-- What a loop over fields has marked.
unfoldable pub mark_all : List ℕ → List ℕ → List ℕ
mark_all [] seen = seen
mark_all (j ∷ js) seen = mark_all js (mark_seen j seen)

-- Each required field from `i` on is among the indices.
unfoldable pub all_present : PropertyOrdering → List ℕ → ℕ → ℕ → Bool
all_present o indices zero i = true
all_present o indices (suc rounds) i =
    (not (is_required o i) || occurs i indices) && all_present o indices rounds (i + 1)

abbrev pub AllBelow : ℕ → List ℕ → Type 0
AllBelow count = All (λ j. j < count)

length-mark_seen : (j : ℕ) (seen : List ℕ) → length (mark_seen j seen) ≡ length seen
unfolding mark_seen
length-mark_seen j seen = length-set seen (j / 64) _

or_swap : (a b c : Bool) → ((a || b) || c) ≡ (b || (a || c))
or_swap true true c = refl
or_swap true false c = refl
or_swap false b c = refl

and_assoc : (a b c : Bool) → ((a && b) && c) ≡ (a && (b && c))
and_assoc true b c = refl
and_assoc false b c = refl

and_true : (a : Bool) → (a && true) ≡ a
and_true true = refl
and_true false = refl

and_false : (a : Bool) → (a && false) ≡ false
and_false true = refl
and_false false = refl

is_seen-mark_all :
    (count i : ℕ) (js seen : List ℕ)
    → HoldsFields count seen
    → AllBelow count js
    → is_seen i (mark_all js seen) ≡ (is_seen i seen || occurs i js)
unfolding mark_all occurs
is_seen-mark_all count i [] seen h b = ground arith
is_seen-mark_all count i (j ∷ js) seen h (lt, b) =
    let e = is_seen-mark_seen count i j seen h lt in
    let ih =
      is_seen-mark_all count i js (mark_seen j seen) (omega (arith, length-mark_seen j seen)) b in
    ih ∙ ap (λ t. t || occurs i js) e ∙ or_swap (j == i) (is_seen i seen) (occurs i js)

get_or-replicate : (n k : ℕ) → get_or (replicate {A = ℕ} n 0) k 0 ≡ 0
get_or-replicate zero k = refl
get_or-replicate (suc n) zero = refl
get_or-replicate (suc n) (suc k) = get_or-replicate n k

is_seen-unseen_fields : (i count : ℕ) → is_seen i (unseen_fields count) ≡ false
unfolding unseen_fields
is_seen-unseen_fields i count =
    is_seen-zero i (replicate ((count + 63) / 64) 0) (get_or-replicate ((count + 63) / 64) (i / 64))

HoldsFields-unseen_fields : (count : ℕ) → HoldsFields count (unseen_fields count)
unfolding unseen_fields
HoldsFields-unseen_fields count = omega (arith, length-replicate {A = ℕ} ((count + 63) / 64) 0)

is_empty-add_name :
    (text name : List ℕ) → is_empty name ≡ false → is_empty (add_name text name) ≡ false
unfolding add_name is_empty
is_empty-add_name [] name h = h
is_empty-add_name (c ∷ text) name h = refl

is_empty-text :
    (required seen : Bool) (text name : List ℕ)
    → is_empty name ≡ false
    → is_empty (if required && not seen then add_name text name else text)
      ≡ (is_empty text && (not required || seen))
is_empty-text true true text name h = sym (and_true (is_empty text))
is_empty-text true false text name h =
    is_empty-add_name text name h ∙ sym (and_false (is_empty text))
is_empty-text false seen text name h = sym (and_true (is_empty text))

-- The fields have names in JSON.
abbrev pub IsNamed : PropertyOrdering → Type 0
IsNamed o = (i : ℕ) → i < o.num_fields → is_empty (json_name o i) ≡ false

module _ (o : PropertyOrdering) (named : IsNamed o) (js seen : List ℕ) where
  is_empty-missing_fields :
      (rounds i : ℕ) (text : List ℕ)
      → i + rounds ≡ o.num_fields
      → ((i : ℕ) → is_seen i seen ≡ occurs i js)
      → is_empty (missing_fields o seen rounds i text)
        ≡ (is_empty text && all_present o js rounds i)
  unfolding missing_fields all_present
  is_empty-missing_fields zero i text e h = ground arith
  is_empty-missing_fields (suc rounds) i text e h =
      let text' =
        if is_required o i && not (is_seen i seen) then add_name text (json_name o i) else text in
      let name = named i (omega arith) in
      let here : is_empty text' ≡ (is_empty text && (not (is_required o i) || occurs i js)) =
        is_empty-text (is_required o i) (is_seen i seen) text (json_name o i) name
        ∙ ap (λ t. is_empty text && (not (is_required o i) || t)) (h i) in
      is_empty-missing_fields rounds (i + 1) text' (omega arith) h
      ∙ ap (λ t. t && all_present o js rounds (i + 1)) here
      ∙ and_assoc (is_empty text) (not (is_required o i) || occurs i js)
          (all_present o js rounds (i + 1))

-- With required fields enforced and no error so far, a message counts as complete exactly when each
-- required field is among those that the loop has marked. The fields have names in JSON.
pub check_required_fields-mark_all :
    (o : PropertyOrdering) (js : List ℕ)
    → IsNamed o
    → AllBelow o.num_fields js
    → check_required_fields true false o (mark_all js (unseen_fields o.num_fields))
      ≡ all_present o js o.num_fields 0
unfolding check_required_fields
check_required_fields-mark_all o js named b =
    let none_seen = unseen_fields o.num_fields in
    let marked : (i : ℕ) → is_seen i (mark_all js none_seen) ≡ occurs i js = λ i.
      is_seen-mark_all o.num_fields i js none_seen (HoldsFields-unseen_fields o.num_fields) b
      ∙ ap (λ t. t || occurs i js) (is_seen-unseen_fields i o.num_fields) in
    is_empty-missing_fields o named js (mark_all js none_seen) o.num_fields 0 [] (omega arith)
      marked
