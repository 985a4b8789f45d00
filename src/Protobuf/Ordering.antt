-- ===== src/Protobuf/Ordering.antt =====
-- src/protobuf/qprotobufpropertyordering.cpp and .h: the metadata of a message type, laid out as an
-- array of uint behind the struct `Data` and an array of char behind that. A read outside the
-- arrays, which the asserts of the code exclude, gives 0 here.
use qtgrpc.Prelude.{
  ℕ, zero, suc, ◌+◌, ◌-◌, ◌*◌, ◌%◌, ◌^◌, ltb, ◌==◌, ◌||◌, if◌then◌else◌, Option, none, some, List,
  [], ◌∷◌, ◌++◌, length, get_or, set, replicate, take, drop, bit_and, Bool, not,
}

abbrev uint : ℕ → ℕ
uint n = n % 2 ^ 32

-- ProtobufFieldNumMin, ProtobufFieldNumMax, ProtobufFieldMaxCount of qtprotobufdefs_p.h
abbrev pub field_num_min : ℕ
field_num_min = 1

abbrev pub field_num_max : ℕ
field_num_max = 536870911

abbrev pub field_max_count : ℕ
field_max_count = 536870911

-- Values of `FieldFlag`, those that the deserializer tests.
abbrev pub flag_message : ℕ
flag_message = 0x10

abbrev pub flag_map : ℕ
flag_map = 0x80

-- `flags.testFlag(f)` for a flag of one bit, and `flags.testAnyFlags(mask)`.
unfoldable pub test_any_flags : ℕ → ℕ → Bool
test_any_flags flags mask = not (bit_and flags mask == 0)

pub record PropertyOrdering : Type 0 where
  pub num_fields : ℕ
  pub field_number_offset : ℕ
  pub property_index_offset : ℕ
  pub flags_offset : ℕ
  pub full_package_name_size : ℕ
  pub uint_data : List ℕ
  pub char_data : List ℕ

pub record FieldDefinition : Type 0 where
  pub json_name : List ℕ
  pub field_number : ℕ
  pub property_index : ℕ
  pub flags : ℕ

unfoldable pub uint_data_for_index : PropertyOrdering → ℕ → ℕ → ℕ
uint_data_for_index o index offset = get_or o.uint_data (offset + index) 0

-- The int -1 of an invalid index, and of a value above the largest int, is `none`.
int_of : ℕ → Option ℕ
int_of n = if ltb (2 ^ 31 - 1) n then none else some n

unfoldable pub field_number : PropertyOrdering → ℕ → Option ℕ
unfolding uint_data_for_index int_of
field_number o index =
    if ltb index o.num_fields
    then int_of (uint_data_for_index o index o.field_number_offset)
    else none

unfoldable pub property_index : PropertyOrdering → ℕ → Option ℕ
unfolding uint_data_for_index int_of
property_index o index =
    if ltb index o.num_fields
    then int_of (uint_data_for_index o index o.property_index_offset)
    else none

unfoldable pub field_flags : PropertyOrdering → ℕ → ℕ
unfolding uint_data_for_index
field_flags o index =
    if ltb index o.num_fields then uint_data_for_index o index o.flags_offset else 0

unfoldable pub json_name : PropertyOrdering → ℕ → List ℕ
unfolding uint_data_for_index
json_name o index =
    if ltb index o.num_fields
    then (let offset = uint_data_for_index o index 0 in
        let length = uint_data_for_index o (index + 1) 0 - 1 - offset in
        take length (drop offset o.char_data))
    else []

unfoldable pub message_full_name : PropertyOrdering → List ℕ
message_full_name o = take o.full_package_name_size o.char_data

-- The loop over `i` from `index` on, with `rounds` indices to go.
unfoldable pub index_loop : PropertyOrdering → ℕ → ℕ → ℕ → Option ℕ
index_loop o number index zero = none
index_loop o number index (suc rounds) =
    let rest = index_loop o number (index + 1) rounds in
    if uint_data_for_index o index o.field_number_offset == number then some index else rest

unfoldable pub index_of_field_number : PropertyOrdering → ℕ → Option ℕ
unfolding index_loop
index_of_field_number o number = if ltb 0 number then index_loop o number 0 o.num_fields else none

-- The four cells of one field, written by `build`.
unfoldable pub write_field : ℕ → List ℕ → ℕ → ℕ → FieldDefinition → List ℕ
write_field n cells i name_offset f =
    set
      (set (set (set cells i name_offset) (i + uint (n * 1 + 1)) f.field_number)
        (i + uint (n * 2 + 1)) f.property_index)
      (i + uint (n * 3 + 1)) (uint f.flags)

-- The loop of `build` over the fields: the cells, and the offset behind the last name. A field
-- number out of range makes `build` return nullptr.
unfoldable pub write_fields : ℕ → List ℕ → ℕ → ℕ → List FieldDefinition → Option (List ℕ × ℕ)
unfolding write_field
write_fields n cells i name_offset [] = some (cells, name_offset)
write_fields n cells i name_offset (f ∷ fs) =
    let rest =
      write_fields n (write_field n cells i name_offset f) (i + 1)
        (uint (name_offset + length f.json_name + 1)) fs in
    if ltb field_num_max f.field_number || ltb f.field_number field_num_min then none else rest

unfoldable pub write_names : List FieldDefinition → List ℕ
write_names [] = 0 ∷ []
write_names (f ∷ fs) = f.json_name ++ (0 ∷ write_names fs)

finish_build : ℕ → List ℕ → List FieldDefinition → Option (List ℕ × ℕ) → Option PropertyOrdering
finish_build n name fs none = none
finish_build n name fs (some (cells, name_offset)) = some (record {
  num_fields = uint n;
  field_number_offset = uint (n * 1 + 1);
  property_index_offset = uint (n * 2 + 1);
  flags_offset = uint (n * 3 + 1);
  full_package_name_size = uint (length name);
  uint_data = set cells n name_offset;
  char_data = name ++ (0 ∷ write_names fs);
})

-- `build`. `none` is nullptr.
unfoldable pub build : List ℕ → List FieldDefinition → Option PropertyOrdering
unfolding finish_build
build name fs =
    let n = length fs in
    if ltb field_max_count n
    then none
    else finish_build n name fs
        (write_fields n (replicate (4 * n + 1) 0) 0 (uint (uint (length name) + 1)) fs)
