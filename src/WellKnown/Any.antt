-- ===== src/WellKnown/Any.antt =====
-- src/wellknown/qprotobufanysupport.cpp: a message of any type as its bytes with the name of the type.
-- A text is the list of its code units; what a serializer does is a parameter.
pub mod Nested
use qtgrpc.Prelude.{
  ◌==◌, if◌then◌else◌, Bool, true, false, ◌||◌, Option, none, some, List, [], ◌∷◌, ◌++◌, ℕ,
}
use qtgrpc.Prelude.Ascii.{ascii, same_bytes}

abbrev pub Text : Type 0
Text = List ℕ

abbrev pub Bytes : Type 0
Bytes = List ℕ

-- The class Any of the program, and the generated class google::protobuf::Any.
pub record Any : Type 0 where
  pub type_url : Text
  pub value : Bytes

pub record RealAny : Type 0 where
  pub type_url : Text
  pub value : Bytes

abbrev pub default_url_prefix : Text
default_url_prefix = ascii "type.googleapis.com"

abbrev pub to_real : Any → RealAny
to_real any = record { type_url = any.type_url; value = any.value }

abbrev of_real : RealAny → Any
of_real real = record { type_url = real.type_url; value = real.value }

unfoldable pub contains_slash : Text → Bool
contains_slash [] = false
contains_slash (c ∷ s) = c == b'/' || contains_slash s

-- `mid(lastIndexOf('/') + 1)`
unfoldable pub last_segment : Text → Text
last_segment [] = []
last_segment (c ∷ s) =
    let later = last_segment s in if contains_slash s then later else if c == b'/' then s else c ∷ s

-- `fromMessageImpl`, of the name of the type of the message and its serialized bytes.
unfoldable pub from_message : Text → Bytes → Text → Any
from_message full_name serialized type_url_prefix = record {
  type_url = type_url_prefix ++ (b'/' ∷ full_name);
  value = serialized;
}

-- `unpackImpl`: the message, if it is of the type and is read.
unfoldable pub unpack : {Message : Type 0} → Text → (Bytes → Option Message) → Any → Option Message
unpack full_name deserialize any =
    if same_bytes (last_segment any.type_url) full_name then deserialize any.value else none

-- Of the generated class.
abbrev pub any_full_name : Text
any_full_name = ascii "google.protobuf.Any"

-- `fromAnyMessageImpl`
unfoldable pub from_any_message : (RealAny → Bytes) → Any → Text → Any
unfolding from_message
from_any_message serialize any type_url_prefix =
    from_message any_full_name (serialize (to_real any)) type_url_prefix

unfoldable pub read_any : Option RealAny → Option Any
read_any none = none
read_any (some real) = some (of_real real)

-- `unpack<Any>`
unfoldable pub unpack_any : (Bytes → Option RealAny) → Any → Option Any
unpack_any deserialize any = read_any (unpack any_full_name deserialize any)
