-- ===== src/Protobuf/Json.antt =====
-- The values of QJsonValue, QJsonArray and QJsonObject that src/protobuf/qprotobufjsonserializer.cpp
-- works on. A text is the list of its code units, and an object the list of its members, which are
-- iterated in the order of their keys.
pub mod Keys
pub mod Reader
pub mod Writer
pub mod Objects
pub mod Written
pub mod RoundTrip
pub mod Verdict
pub mod Stalls
pub mod Numbers
pub mod Scalars
use qtgrpc.Prelude.{ℕ, ltb, ◌==◌, if◌then◌else◌, Bool, true, false, ◌||◌, List, [], ◌∷◌}
use qtgrpc.Prelude.Int.{ℤ}
use qtgrpc.Prelude.Ascii.{same_bytes}

abbrev pub Text : Type 0
Text = List ℕ

-- A number is held as a qint64, or as a double by its bit pattern.
mutual
  pub data Json : Type 0 where
    undefined null : Json
    boolean : Bool → Json
    integer : ℤ → Json
    double : ℕ → Json
    string : Text → Json
    array : Items → Json
    object : Members → Json

  pub data Items : Type 0 where
    nil : Items
    cons : Json → Items → Items

  pub data Members : Type 0 where
    end : Members
    member : Text → Json → Members → Members

-- `QJsonObject::value`
unfoldable pub value : Text → Members → Json
value key end = undefined
value key (member k v rest) = let later = value key rest in if same_bytes k key then v else later

unfoldable pub contains : Text → Members → Bool
contains key end = false
contains key (member k v rest) = same_bytes k key || contains key rest

unfoldable pub assign : Text → Json → Members → Members
assign key v end = end
assign key v (member k w rest) =
    let later = assign key v rest in if same_bytes k key then member k v rest else member k w later

-- `<` on QString, by code units.
unfoldable pub less_text : Text → Text → Bool
less_text xs [] = false
less_text [] (y ∷ ys) = true
less_text (x ∷ xs) (y ∷ ys) =
    let rest = less_text xs ys in if ltb x y then true else if x == y then rest else false

unfoldable pub add_sorted : Text → Json → Members → Members
add_sorted key v end = member key v end
add_sorted key v (member k w rest) =
    let later = add_sorted key v rest in
    if less_text key k then member key v (member k w rest) else member k w later

-- `QJsonObject::insert`
unfoldable pub insert : Text → Json → Members → Members
insert key v obj = if contains key obj then assign key v obj else add_sorted key v obj

-- `QJsonArray::append`
unfoldable pub append : Items → Json → Items
append nil v = cons v nil
append (cons w rest) v = cons w (append rest v)

-- `toArray` and `toObject`: a value of another type gives an empty one.
unfoldable pub to_array : Json → Items
to_array (array items) = items
to_array _ = nil

unfoldable pub to_object : Json → Members
to_object (object members) = members
to_object _ = end
