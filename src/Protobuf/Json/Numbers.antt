-- ===== src/Protobuf/Json/Numbers.antt =====
-- src/protobuf/protobufscalarjsonserializers_p.h: the integers of a message in JSON, but for the
-- unsigned ones of 64 bits, and lists of them. The conversions of texts and of doubles are
-- parameters.
use qtgrpc.Prelude.{
  ℕ, ◌^◌, ◌-◌, ◌==◌, ◌≡◌, refl, arith, leb, if◌then◌else◌, Bool, true, false, not, ◌&&◌, ◌||◌,
  Option, none, some, List, [], ◌∷◌, All, Bool-cases, inl, inr,
}
use qtgrpc.Prelude.Int.{ℤ, pos, negsuc, le_int}
use qtgrpc.Protobuf.Json.{Text, Json, integer, double, string, array, Items, nil, cons}

-- The types by their ranges: int32, sint32 and sfixed32; uint32 and fixed32; int64, sint64 and
-- sfixed64.
pub data IntType : Type 0 where
  signed32 unsigned32 signed64 : IntType

unfoldable pub lowest : IntType → ℤ
lowest signed32 = negsuc (2 ^ 31 - 1)
lowest unsigned32 = pos 0
lowest signed64 = negsuc (2 ^ 63 - 1)

unfoldable pub highest : IntType → ℤ
highest signed32 = pos (2 ^ 31 - 1)
highest unsigned32 = pos (2 ^ 32 - 1)
highest signed64 = pos (2 ^ 63 - 1)

abbrev pub in_range : IntType → ℤ → Bool
in_range t n = le_int (lowest t) n && le_int n (highest t)

-- The test that only the types of 32 bits make.
unfoldable pub is_checked : IntType → Bool
is_checked signed64 = false
is_checked _ = true

abbrev is_digit : ℕ → Bool
is_digit c = leb b'0' c && leb c b'9'

-- `\d*$`: the end of the text, or a line feed in front of it.
unfoldable pub digits_end : Text → Bool
digits_end [] = true
digits_end (c ∷ []) = c == b'\n' || is_digit c
digits_end (c ∷ (d ∷ s)) = is_digit c && digits_end (d ∷ s)

-- `\d+$`
unfoldable pub some_digits : Text → Bool
some_digits [] = false
some_digits (c ∷ s) = is_digit c && digits_end s

-- `^-?\d+$`
unfoldable pub validate_json_number_string : Text → Bool
validate_json_number_string [] = false
validate_json_number_string (c ∷ s) = if c == b'-' then some_digits s else some_digits (c ∷ s)

unfoldable pub serialize_int : ℤ → Json
serialize_int n = integer n

unfoldable pub serialize_items : List ℤ → Items
serialize_items [] = nil
serialize_items (n ∷ ns) = cons (serialize_int n) (serialize_items ns)

unfoldable pub serialize_list : List ℤ → Json
serialize_list ns = array (serialize_items ns)

zero_in_range : (t : IntType) → in_range t (pos 0) ≡ true
unfolding lowest highest
zero_in_range signed32 = refl
zero_in_range unsigned32 = refl
zero_in_range signed64 = refl

-- `toLongLong` of a text, and `convertDoubleTo` with the test that nothing is lost, from the bit
-- pattern of a double.
module _ (to_long_long : Text → Option ℤ) (exact_integer : ℕ → Option ℤ) where
  -- The number that the switch finds; `ok` is false before it.
  unfoldable pub raw_number : Json → Option ℤ
  raw_number (string t) = if validate_json_number_string t then to_long_long t else none
  raw_number (integer n) = some n
  raw_number (double d) = exact_integer d
  raw_number _ = none

  unfoldable pub within_limits : IntType → Option ℤ → Bool × ℤ
  within_limits t none = (false, pos 0)
  within_limits t (some n) =
      if is_checked t && not (in_range t n) then (false, pos 0) else (true, n)

  unfoldable pub deserialize_int : IntType → Json → Bool × ℤ
  deserialize_int t v = within_limits t (raw_number v)

  -- The loop of `deserializeList`, with `ok` and the list so far in front of what follows.
  unfoldable pub read_items : IntType → Bool → Items → Bool × List ℤ
  read_items t ok nil = (ok, [])
  read_items t ok (cons v rest) =
      let (ok', n) = deserialize_int t v in
      let (ok'', ns) = read_items t true rest in if ok' then (ok'', n ∷ ns) else (false, [])

  -- The call is made with `ok` false; a value that is no array gives no list.
  unfoldable pub deserialize_list : IntType → Json → Bool × Option (List ℤ)
  deserialize_list t (array items) = let (ok, ns) = read_items t false items in (ok, some ns)
  deserialize_list t _ = (false, none)

  abbrev is_filled : List ℤ → Bool
  is_filled [] = false
  is_filled (n ∷ ns) = true

  deserialize_int-serialize_int :
      (t : IntType) (n : ℤ) → in_range t n ≡ true → deserialize_int t (serialize_int n) ≡ (true, n)
  unfolding deserialize_int serialize_int raw_number within_limits
  deserialize_int-serialize_int t n h = ground (arith)

  read_items-serialize_items :
      (t : IntType) (ok : Bool) (ns : List ℤ)
      → All (λ n. in_range t n ≡ true) ns
      → read_items t ok (serialize_items ns) ≡ ((if is_filled ns then true else ok), ns)
  unfolding read_items serialize_items
  read_items-serialize_items t ok [] h = refl
  read_items-serialize_items t ok (n ∷ []) (h, hs) = rw (deserialize_int-serialize_int t n h) refl
  read_items-serialize_items t ok (n ∷ (m ∷ ns)) (h, hs) =
      rw (deserialize_int-serialize_int t n h, read_items-serialize_items t true (m ∷ ns) hs) refl

  -- A list of integers of the type is read back as it was written, but with a failure if it is empty.
  pub deserialize_list-serialize_list :
      (t : IntType) (ns : List ℤ)
      → All (λ n. in_range t n ≡ true) ns
      → deserialize_list t (serialize_list ns) ≡ (is_filled ns, some ns)
  unfolding deserialize_list serialize_list
  deserialize_list-serialize_list t [] h = unfold read_items serialize_items in refl
  deserialize_list-serialize_list t (n ∷ ns) h =
      rw (read_items-serialize_items t false (n ∷ ns) h) refl

  within_limits_range :
      (t : IntType) (o : Option ℤ) → is_checked t ≡ true → in_range t (within_limits t o).1 ≡ true
  unfolding within_limits
  within_limits_range t none h = zero_in_range t
  within_limits_range t (some n) h = elim (Bool-cases (in_range t n)) [
    | inl e ↦ rw (h, e) e
    | inr e ↦ rw (h, e) (zero_in_range t)
  ]

  -- Whatever stands in the JSON, the number that is read for a type of 32 bits is in the range of the
  -- type.
  deserialize_int_range :
      (t : IntType) (v : Json) → is_checked t ≡ true → in_range t (deserialize_int t v).1 ≡ true
  unfolding deserialize_int
  deserialize_int_range t v h = within_limits_range t (raw_number v) h
