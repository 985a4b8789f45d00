-- ===== src/Generator/Namespace/Scope.antt =====
-- The names that are written inside of a scope.
use mathlib.Core.List.{append_assoc, append-nil}
use qtgrpc.Prelude.{
  ◌≡◌, ◌≢◌, refl, sym, ap, ◌∙◌, [], ◌∷◌, ◌++◌, length, drop, Bool-cases, inl, inr, ◌⊎◌,
}
use qtgrpc.Prelude.Ascii.{ascii, same_bytes, starts_with, same_bytes-eq}
use qtgrpc.Generator.Text.{Bytes}
use qtgrpc.Generator.Text.Split.{starts_with-append}
use qtgrpc.Generator.Namespace.{scope_in, get_scope_namespace, qualified}

qualified_filled :
    (namespaces name : Bytes)
    → namespaces ≢ []
    → qualified namespaces name ≡ namespaces ++ (ascii "::" ++ name)
unfolding qualified
qualified_filled [] name ne = absurd (ne refl)
qualified_filled (c ∷ namespaces) name ne = refl

inner-filled : (scope rest : Bytes) → (scope ++ ascii "::") ++ rest ≢ []
inner-filled [] rest e = cc
inner-filled (c ∷ scope) rest e = cc

-- Inside of a scope, what is left of the namespaces reaches the same name.
reached :
    (scope rest name : Bytes)
    → scope ≢ []
    → rest ≢ []
    → qualified scope (qualified rest name) ≡ qualified ((scope ++ ascii "::") ++ rest) name
reached scope rest name ne ne' =
    rw
      (
        qualified_filled rest name ne',
        qualified_filled scope (rest ++ (ascii "::" ++ name)) ne,
        qualified_filled ((scope ++ ascii "::") ++ rest) name (inner-filled scope rest),
      )
      (sym (append_assoc scope (ascii "::") (rest ++ (ascii "::" ++ name)))
        ∙ sym (append_assoc (scope ++ ascii "::") rest (ascii "::" ++ name)))

scope_in-qualified :
    (original scope name : Bytes)
    → scope ≢ []
    → original ≢ scope ++ ascii "::"
    → (qualified (scope_in original scope) name ≡ qualified original name)
      ⊎ (qualified scope (qualified (scope_in original scope) name) ≡ qualified original name)
unfolding scope_in qualified
scope_in-qualified original scope name ne ended = elim (Bool-cases (same_bytes original scope)) [
  | inl e ↦ rw e (inr (ap (λ t. qualified t name) (sym (same_bytes-eq original scope e))))
  | inr d ↦ elim (Bool-cases (starts_with original (scope ++ ascii "::"))) [
    | inl e ↦
        let rest = drop (length (scope ++ ascii "::")) original in
        let whole : original ≡ (scope ++ ascii "::") ++ rest =
          starts_with-append original (scope ++ ascii "::") e in
        let filled : rest ≢ [] = λ z.
          ended
            (whole ∙ (ap (λ t. (scope ++ ascii "::") ++ t) z ∙ append-nil (scope ++ ascii "::"))) in
        rw (d, e) (inr (reached scope rest name ne filled ∙ ap (λ t. qualified t name) (sym whole)))
    | inr f ↦ rw (d, f) (inl refl)
  ]
]

-- The name that is written inside of a scope is the full name, or becomes it with the scope in front,
-- where the namespaces do not end with the separator behind the scope.
pub qualified-get_scope_namespace :
    (original scope name : Bytes)
    → original ≢ scope ++ ascii "::"
    → (qualified (get_scope_namespace original scope) name ≡ qualified original name)
      ⊎ (qualified scope (qualified (get_scope_namespace original scope) name)
          ≡ qualified original name)
unfolding get_scope_namespace
qualified-get_scope_namespace original [] name ended = inl refl
qualified-get_scope_namespace original (c ∷ scope) name ended =
    scope_in-qualified original (c ∷ scope) name (λ e. cc) ended
