-- ===== src/Generator/Options/Sound.antt =====
-- What the code generators take for granted of their options.
use qtgrpc.Prelude.{
  ◌≡◌, ◌≢◌, refl, sym, subst, if◌then◌else◌, Bool, true, false, Option, none, some, List, [], ◌∷◌,
  ◌++◌, map, Bool-cases, inl, inr,
}
use qtgrpc.Prelude.Ascii.{ascii, same_bytes}
use qtgrpc.Generator.Text.{Bytes}
use qtgrpc.Generator.Text.Total.{split_total}
use qtgrpc.Generator.Text.Identifier.{is_identifier}
use qtgrpc.Generator.Options.{
  Options, default_options, non_final, pragma, Parsed, parsed, failed, to_ascii_lower,
  composite_value, extract_composite_option_value, set_filename, complete_in, complete_filename,
  set_export_macro, export_macro_option, extra_namespace_option, header_guard_option, apply_option,
  option_loop, set_from_string,
}

abbrev pub options_of : Parsed → Options
options_of (parsed o) = o
options_of (failed o) = o

-- A macro that is set is an identifier and has a file name, and the file is only generated for a
-- macro that is set.
pub record IsSound (o : Options) : Type 0 where
  pub named : o.export_macro ≢ [] → is_identifier o.export_macro ≡ true
  pub filed : o.export_macro ≢ [] → o.export_macro_filename ≢ []
  pub exported : o.generate_macro_export_file ≡ true → o.export_macro ≢ []

record IsTaken (r : Option Parsed) : Type 0 where
  outcome : Parsed
  taken : r ≡ some outcome
  sound : IsSound (options_of outcome)

IsTaken-if :
    (b : Bool) (r r' : Option Parsed) → IsTaken r → IsTaken r' → IsTaken (if b then r else r')
IsTaken-if true r r' h k = h
IsTaken-if false r r' h k = k

identifier-ne : (m : Bytes) → is_identifier m ≡ true → m ≢ []
unfolding is_identifier
identifier-ne [] h e = cc
identifier-ne (c ∷ m) h e = cc

-- The options that a change of other fields leaves.
kept :
    (o o' : Options)
    → o'.export_macro ≡ o.export_macro
    → o'.export_macro_filename ≡ o.export_macro_filename
    → o'.generate_macro_export_file ≡ o.generate_macro_export_file
    → IsSound o
    → IsSound o'
kept o o' m f g h = record {
  named = λ ne. rw m (h.named (rw (← m) ne));
  filed = λ ne. rw f (h.filed (rw (← m) ne));
  exported = λ e. rw m (h.exported (rw (← g) e));
}

set_filename-export_macro :
    (rest : List Bytes) (o : Options) → (set_filename rest o).export_macro ≡ o.export_macro
unfolding set_filename
set_filename-export_macro [] o = refl
set_filename-export_macro (f ∷ []) o = refl
set_filename-export_macro (f ∷ (g ∷ rest)) o = refl

suffixed : (xs : Bytes) → (xs ++ ascii "_exports.qpb.h") ≢ []
suffixed [] e = cc
suffixed (x ∷ xs) e = cc

complete_in-IsSound :
    (name : Bytes) (o : Options)
    → o.export_macro_filename ≡ name
    → is_identifier o.export_macro ≡ true
    → IsSound (complete_in name o)
unfolding complete_in
complete_in-IsSound [] o e h = record {
  named = λ ne. h;
  filed = λ ne. suffixed (map to_ascii_lower o.export_macro);
  exported = λ g. identifier-ne o.export_macro h;
}
complete_in-IsSound (c ∷ name) o e h = record {
  named = λ ne. h;
  filed = λ ne f. cc;
  exported = λ g. identifier-ne o.export_macro h;
}

set_export_macro-IsSound :
    (values : List Bytes) (o : Options)
    → IsSound o
    → IsSound (options_of (set_export_macro values o))
unfolding set_export_macro complete_filename
set_export_macro-IsSound [] o h = h
set_export_macro-IsSound (macro ∷ rest) o h = elim (Bool-cases (is_identifier macro)) [
  | inl e ↦
      let o' = set_filename rest (record o { export_macro = macro }) in
      let m = set_filename-export_macro rest (record o { export_macro = macro }) in
      rw e (complete_in-IsSound o'.export_macro_filename o' refl (rw m e))
  | inr e ↦ rw e h
]

extract-total : (option : Bytes) → (v : Bytes) × (extract_composite_option_value option ≡ some v)
unfolding extract_composite_option_value
extract-total option =
    let (parts, e) = split_total option (ascii "=") false (cc) in
    (composite_value parts, rw (e, extract_composite_option_value) refl)

export_macro_option-IsTaken :
    (option : Bytes) (o : Options) → IsSound o → IsTaken (export_macro_option option o)
unfolding export_macro_option
export_macro_option-IsTaken option o h =
    let (v, e) = extract-total option in
    let (values, f) = split_total v (ascii ":") false (cc) in
    record {
      outcome = set_export_macro values o;
      taken = rw (e, export_macro_option, f) refl;
      sound = set_export_macro-IsSound values o h;
    }

extra_namespace_option-IsTaken :
    (option : Bytes) (o : Options) → IsSound o → IsTaken (extra_namespace_option option o)
unfolding extra_namespace_option
extra_namespace_option-IsTaken option o h =
    let (v, e) = extract-total option in
    record {
      outcome = parsed (record o { extra_namespace = v });
      taken = rw (e, extra_namespace_option) refl;
      sound = kept o (record o { extra_namespace = v }) refl refl refl h;
    }

guarded :
    (b : Bool) (o : Options)
    → IsSound o
    → IsSound (if b then record o { header_guard = pragma } else o)
guarded true o h = kept o (record o { header_guard = pragma }) refl refl refl h
guarded false o h = h

header_guard_option-IsTaken :
    (option : Bytes) (o : Options) → IsSound o → IsTaken (header_guard_option option o)
unfolding header_guard_option
header_guard_option-IsTaken option o h =
    let (v, e) = extract-total option in
    let o' = if same_bytes v (ascii "pragma") then record o { header_guard = pragma } else o in
    record {
      outcome = parsed o';
      taken = rw (e, header_guard_option) refl;
      sound = guarded (same_bytes v (ascii "pragma")) o h;
    }

same-IsTaken :
    (o o' : Options)
    → o'.export_macro ≡ o.export_macro
    → o'.export_macro_filename ≡ o.export_macro_filename
    → o'.generate_macro_export_file ≡ o.generate_macro_export_file
    → IsSound o
    → IsTaken (some (parsed o'))
same-IsTaken o o' m f g h = record { outcome = parsed o'; taken = refl; sound = kept o o' m f g h }

apply_option-IsTaken : (option : Bytes) (o : Options) → IsSound o → IsTaken (apply_option option o)
unfolding apply_option
apply_option-IsTaken option o h =
    IsTaken-if _ _ _ (same-IsTaken o (record o { generate_comments = true }) refl refl refl h) (
      IsTaken-if _ _ _ (same-IsTaken o (record o { is_folder = true }) refl refl refl h) (
        IsTaken-if _ _ _ (same-IsTaken o o refl refl refl h) (
          IsTaken-if _ _ _ (extra_namespace_option-IsTaken option o h) (
            IsTaken-if _ _ _ (export_macro_option-IsTaken option o h) (
              IsTaken-if _ _ _ (same-IsTaken o (record o { qml = true }) refl refl refl h) (
                IsTaken-if _ _ _ (header_guard_option-IsTaken option o h) (
                  IsTaken-if _ _ _
                    (same-IsTaken o (record o { mutable_getter_conflicts = true }) refl refl refl h)
                    (IsTaken-if _ _ _
                      (same-IsTaken o (record o { message_generation_type = non_final }) refl refl
                        refl h)
                      (IsTaken-if _ _ _
                        (same-IsTaken o (record o { property_generation_type = non_final }) refl
                          refl refl h)
                        (same-IsTaken o o refl refl refl h))))))))))

abbrev options_from : Option Parsed → Options
options_from none = default_options
options_from (some p) = options_of p

IsTaken-IsSound : (r : Option Parsed) → IsTaken r → IsSound (options_from r)
IsTaken-IsSound r h = subst (λ r'. IsSound (options_from r')) (sym h.taken) h.sound

loop-IsTaken : (items : List Bytes) (r : Option Parsed) → IsTaken r → IsTaken (option_loop items r)
unfolding option_loop
loop-IsTaken items none h = cc (h.taken)
loop-IsTaken items (some (failed o)) h = h
loop-IsTaken [] (some (parsed o)) h = h
loop-IsTaken (option ∷ rest) (some (parsed o)) h =
    loop-IsTaken rest (apply_option option o)
      (apply_option-IsTaken option o (IsTaken-IsSound (some (parsed o)) h))

-- The options of any text are taken, up to the first error, and keep what the generators take for
-- granted: a macro that is set is an identifier and has a file name, and the file is only generated
-- for a macro that is set.
pub set_from_string-IsSound :
    (options : Bytes) (o : Options)
    → IsSound o
    → (p : Parsed) × (set_from_string options o ≡ some p) × IsSound (options_of p)
unfolding set_from_string
set_from_string-IsSound options o h =
    let (items, e) = split_total options (ascii ";") false (cc) in
    let t = loop-IsTaken items (some (parsed o)) (same-IsTaken o o refl refl refl h) in
    (t.outcome, rw (e, set_from_string) t.taken, t.sound)
