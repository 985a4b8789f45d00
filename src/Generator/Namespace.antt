-- ===== src/Generator/Namespace.antt =====
-- The C++ namespaces and names of the generated code, in src/tools/qtprotoccommon/generatorcommon.cpp.
pub mod Scope
use qtgrpc.Prelude.{
  ◌==◌, if◌then◌else◌, Bool, true, false, ◌||◌, Option, none, some, [], ◌∷◌, ◌++◌, length, drop,
}
use qtgrpc.Prelude.Ascii.{ascii, same_bytes, starts_with}
use qtgrpc.Generator.Text.{Bytes, replace}

-- `rfind('.')`, as what stands before the last period.
unfoldable pub before_last_period : Bytes → Option Bytes
before_last_period [] = none
before_last_period (c ∷ s) = elim (before_last_period s) [
  | none ↦ if c == b'.' then some [] else none
  | some t ↦ some (c ∷ t)
]

-- Namespaces with a separator between them, unless one is empty.
unfoldable pub joined_by : Bytes → Bytes → Bytes → Bytes
joined_by separator [] namespaces = namespaces
joined_by separator (c ∷ output) [] = c ∷ output
joined_by separator (c ∷ output) (d ∷ namespaces) = (c ∷ output) ++ (separator ++ (d ∷ namespaces))

-- The namespaces of the Qt types stand in one of their own.
unfoldable pub own_namespace : Bytes → Bytes → Bytes
own_namespace separator namespaces =
    if same_bytes namespaces (ascii "QtCore") || same_bytes namespaces (ascii "QtGui")
    then ascii "QtProtobufPrivate" ++ (separator ++ namespaces)
    else namespaces

-- `getFullNamespace`; the extra namespace is empty where it is not asked for, and none means that the
-- fuel of replace ran out.
unfoldable pub get_full_namespace : Bytes → Bytes → Bytes → Option Bytes
get_full_namespace extra full_name separator = elim (before_last_period full_name) [
  | none ↦ some extra
  | some front ↦ elim (replace front (ascii ".") separator) [
    | none ↦ none
    | some namespaces ↦ some (joined_by separator extra (own_namespace separator namespaces))
  ]
]

unfoldable pub scope_in : Bytes → Bytes → Bytes
scope_in original scope =
    let inner = scope ++ ascii "::" in
    if same_bytes original scope
    then []
    else if starts_with original inner
    then drop (length inner) original
    else original

-- `getScopeNamespace`
unfoldable pub get_scope_namespace : Bytes → Bytes → Bytes
unfolding scope_in
get_scope_namespace original [] = original
get_scope_namespace original (c ∷ scope) = scope_in original (c ∷ scope)

-- `fullName` and `scopeName` of produceEnumTypeMap, from the namespaces and the name.
unfoldable pub qualified : Bytes → Bytes → Bytes
qualified [] name = name
qualified (c ∷ namespaces) name = (c ∷ namespaces) ++ (ascii "::" ++ name)
