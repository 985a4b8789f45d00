-- ===== src/Generator/Options.antt =====
-- src/tools/qtprotoccommon/options.cpp: the options of the code generators, which protoc passes in one
-- text. The object that all of them share is the state; none means that the fuel of a split ran out.
pub mod Sound
use qtgrpc.Prelude.{
  ℕ, if◌then◌else◌, leb, ◌==◌, ◌+◌, Bool, true, false, ◌&&◌, Option, none, some, List, [], ◌∷◌,
  ◌++◌, map,
}
use qtgrpc.Prelude.Ascii.{ascii, same_bytes, starts_with}
use qtgrpc.Generator.Text.{Bytes, split}
use qtgrpc.Generator.Text.Identifier.{is_identifier}

pub data FinalPolicy : Type 0 where
  final non_final : FinalPolicy

pub data HeaderGuardType : Type 0 where
  pragma proto_filename : HeaderGuardType

pub record Options : Type 0 where
  pub generate_comments : Bool
  pub is_folder : Bool
  pub generate_field_enum : Bool
  pub extra_namespace : Bytes
  pub export_macro : Bytes
  pub export_macro_filename : Bytes
  pub generate_macro_export_file : Bool
  pub qml : Bool
  pub mutable_getter_conflicts : Bool
  pub message_generation_type : FinalPolicy
  pub property_generation_type : FinalPolicy
  pub header_guard : HeaderGuardType

abbrev pub default_options : Options
default_options = record {
  generate_comments = false;
  is_folder = false;
  generate_field_enum = true;
  extra_namespace = [];
  export_macro = [];
  export_macro_filename = [];
  generate_macro_export_file = false;
  qml = false;
  mutable_getter_conflicts = false;
  message_generation_type = final;
  property_generation_type = final;
  header_guard = proto_filename;
}

-- Without the last byte.
unfoldable pub drop_last : Bytes → Bytes
drop_last [] = []
drop_last (x ∷ []) = []
drop_last (x ∷ (y ∷ ys)) = x ∷ drop_last (y ∷ ys)

unfoldable pub ends_with_byte : Bytes → ℕ → Bool
ends_with_byte [] c = false
ends_with_byte (x ∷ []) c = x == c
ends_with_byte (x ∷ (y ∷ ys)) c = ends_with_byte (y ∷ ys) c

unfoldable pub unquoted : Bytes → Bytes
unquoted [] = []
unquoted (x ∷ xs) = if x == b'"' && ends_with_byte (x ∷ xs) b'"' then drop_last xs else x ∷ xs

unfoldable pub composite_value : List Bytes → Bytes
composite_value (key ∷ (v ∷ [])) = unquoted v
composite_value _ = []

unfoldable pub extract_composite_option_value : Bytes → Option Bytes
extract_composite_option_value option = elim (split option (ascii "=") false) [
  | none ↦ none
  | some parts ↦ some (composite_value parts)
]

-- The options, and whether they were all taken; an error leaves the ones before it set.
pub data Parsed : Type 0 where
  parsed failed : Options → Parsed

unfoldable pub to_ascii_lower : ℕ → ℕ
to_ascii_lower c = if leb b'A' c && leb c b'Z' then c + 32 else c

-- The file name that the option gives, and the one that is made from the macro.
unfoldable pub set_filename : List Bytes → Options → Options
set_filename [] o = o
set_filename (filename ∷ []) o = record o { export_macro_filename = filename }
set_filename (filename ∷ (generate ∷ rest)) o = record o {
  export_macro_filename = filename;
  generate_macro_export_file = same_bytes generate (ascii "true");
}

unfoldable pub complete_in : Bytes → Options → Options
complete_in [] o = record o {
  export_macro_filename = map to_ascii_lower o.export_macro ++ ascii "_exports.qpb.h";
}
complete_in (c ∷ name) o = o

unfoldable pub complete_filename : Options → Options
unfolding complete_in
complete_filename o = complete_in o.export_macro_filename o

unfoldable pub set_export_macro : List Bytes → Options → Parsed
set_export_macro [] o = parsed o
set_export_macro (macro ∷ rest) o =
    if is_identifier macro
    then parsed (complete_filename (set_filename rest (record o { export_macro = macro })))
    else failed o

unfoldable pub export_macro_option : Bytes → Options → Option Parsed
export_macro_option option o = elim (extract_composite_option_value option) [
  | none ↦ none
  | some v ↦ elim (split v (ascii ":") false) [
    | none ↦ none
    | some values ↦ some (set_export_macro values o)
  ]
]

unfoldable pub extra_namespace_option : Bytes → Options → Option Parsed
extra_namespace_option option o = elim (extract_composite_option_value option) [
  | none ↦ none
  | some v ↦ some (parsed (record o { extra_namespace = v }))
]

unfoldable pub header_guard_option : Bytes → Options → Option Parsed
header_guard_option option o = elim (extract_composite_option_value option) [
  | none ↦ none
  | some v ↦
      some
        (parsed (if same_bytes v (ascii "pragma") then record o { header_guard = pragma } else o))
]

unfoldable pub apply_option : Bytes → Options → Option Parsed
apply_option option o =
    if same_bytes option (ascii "COPY_COMMENTS")
    then some (parsed (record o { generate_comments = true }))
    else if same_bytes option (ascii "GENERATE_PACKAGE_SUBFOLDERS")
    then some (parsed (record o { is_folder = true }))
    else if same_bytes option (ascii "FIELD_ENUM")
    then some (parsed o)
    else if starts_with option (ascii "EXTRA_NAMESPACE")
    then extra_namespace_option option o
    else if starts_with option (ascii "EXPORT_MACRO")
    then export_macro_option option o
    else if same_bytes option (ascii "QML")
    then some (parsed (record o { qml = true }))
    else if starts_with option (ascii "HEADER_GUARD")
    then header_guard_option option o
    else if same_bytes option (ascii "ALLOW_MUTABLE_GETTER_CONFLICTS")
    then some (parsed (record o { mutable_getter_conflicts = true }))
    else if same_bytes option (ascii "GENERATE_NON_FINAL_MESSAGES")
    then some (parsed (record o { message_generation_type = non_final }))
    else if same_bytes option (ascii "GENERATE_NON_FINAL_PROPERTIES")
    then some (parsed (record o { property_generation_type = non_final }))
    else some (parsed o)

-- The loop, from what the option before has led to.
unfoldable pub option_loop : List Bytes → Option Parsed → Option Parsed
option_loop options none = none
option_loop options (some (failed o)) = some (failed o)
option_loop [] (some (parsed o)) = some (parsed o)
option_loop (option ∷ rest) (some (parsed o)) = option_loop rest (apply_option option o)

unfoldable pub set_from_string : Bytes → Options → Option Parsed
set_from_string options o = elim (split options (ascii ";") false) [
  | none ↦ none
  | some items ↦ option_loop items (some (parsed o))
]
