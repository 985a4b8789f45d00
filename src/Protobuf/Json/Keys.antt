-- ===== src/Protobuf/Json/Keys.antt =====
-- The keys of JSON objects. How a code unit is capitalized is a parameter.
use qtgrpc.Prelude.{
  ℕ, ◌==◌, ◌≡◌, refl, arith, if◌then◌else◌, Bool, true, false, Option, none, some, [], ◌∷◌, ◌||◌,
}
use qtgrpc.Prelude.Ascii.{same_bytes}
use qtgrpc.Protobuf.Json.{Text, Members, end, member}

unfoldable pub has_underscore : Text → Bool
has_underscore [] = false
has_underscore (c ∷ name) = c == b'_' || has_underscore name

module _ (to_upper : ℕ → ℕ) where
  -- The loop, with `nextUpperCase`.
  unfoldable pub convert_loop : Bool → Text → Text
  convert_loop next_upper_case [] = []
  convert_loop next_upper_case (c ∷ name) =
      let skipped = convert_loop true name in
      let rest = convert_loop false name in
      if c == b'_' then skipped else (if next_upper_case then to_upper c else c) ∷ rest

  unfoldable pub convert_json_key_to_json_name : Text → Text
  convert_json_key_to_json_name name = convert_loop false name

  -- The lambda of `find_if`.
  unfoldable pub is_key_of : Text → Text → Bool
  is_key_of json_name key =
      same_bytes json_name key || same_bytes json_name (convert_json_key_to_json_name key)

  -- `find_if` over the keys.
  unfoldable pub find_key : Text → Members → Option Text
  find_key json_name end = none
  find_key json_name (member k v rest) =
      let later = find_key json_name rest in if is_key_of json_name k then some k else later

  module _ (keeps : (c : ℕ) → (to_upper c == b'_') ≡ (c == b'_')) where
    convert_loop-has_underscore :
        (b : Bool) (name : Text) → has_underscore (convert_loop b name) ≡ false
    unfolding has_underscore convert_loop
    convert_loop-has_underscore b [] = refl
    convert_loop-has_underscore b (c ∷ name) = ground (
      arith,
      keeps c,
      convert_loop-has_underscore true name,
      convert_loop-has_underscore false name,
    )

    convert_fixed : (name : Text) → has_underscore name ≡ false → convert_loop false name ≡ name
    unfolding has_underscore convert_loop
    convert_fixed [] h = refl
    convert_fixed (c ∷ name) h = ground (arith, convert_fixed name)

    -- The name that a key stands for has no underscore, and it is not changed again, where no other
    -- code unit than the underscore is capitalized to it.
    convert_json_key_to_json_name_lem :
        (name : Text)
        → (has_underscore (convert_json_key_to_json_name name) ≡ false)
          × (convert_json_key_to_json_name (convert_json_key_to_json_name name)
              ≡ convert_json_key_to_json_name name)
    unfolding convert_json_key_to_json_name
    convert_json_key_to_json_name_lem name =
        let h = convert_loop-has_underscore false name in
        (h, convert_fixed (convert_loop false name) h)
