-- ===== src/WellKnown/Any/Nested.antt =====
-- Messages in an Any, which may stand in further ones.
use qtgrpc.Prelude.{
  ℕ, zero, suc, ◌≡◌, refl, ap, ◌∙◌, arith, if◌then◌else◌, true, false, Option, none, some, List, [],
  ◌∷◌, ◌++◌, length,
}
use qtgrpc.Prelude.Ascii.{same_bytes, same_bytes_refl}
use qtgrpc.WellKnown.Any.{
  Text, Bytes, Any, RealAny, any_full_name, contains_slash, last_segment, from_message, unpack,
  from_any_message, read_any, unpack_any, to_real,
}

contains_slash-append : (p n : Text) → contains_slash (p ++ (b'/' ∷ n)) ≡ true
unfolding contains_slash
contains_slash-append [] n = refl
contains_slash-append (c ∷ p) n = ground (arith, contains_slash-append p n)

last_segment-append : (p n : Text) → contains_slash n ≡ false → last_segment (p ++ (b'/' ∷ n)) ≡ n
unfolding last_segment
last_segment-append [] n h = rw h refl
last_segment-append (c ∷ p) n h = rw (contains_slash-append p n) (last_segment-append p n h)

-- A message that is packed is read again as a message of its own type, and of no other.
unpack-from_message :
    {Message : Type 0}
    → (name other : Text) (read : Bytes → Option Message) (bytes : Bytes) (prefix : Text)
    → contains_slash name ≡ false
    → unpack other read (from_message name bytes prefix)
      ≡ (if same_bytes name other then read bytes else none)
unfolding unpack from_message
unpack-from_message name other read bytes prefix h = rw (last_segment-append prefix name h) refl

-- An Any in further ones, one for each prefix, and out of them.
unfoldable pub wrap : (RealAny → Bytes) → List Text → Any → Any
wrap serialize [] any = any
wrap serialize (p ∷ ps) any = from_any_message serialize (wrap serialize ps any) p

unfoldable pub unwrap : (Bytes → Option RealAny) → ℕ → Option Any → Option Any
unwrap deserialize k none = none
unwrap deserialize zero (some any) = some any
unwrap deserialize (suc k) (some any) = unwrap deserialize k (unpack_any deserialize any)

module _ (serialize : RealAny → Bytes) (deserialize : Bytes → Option RealAny)
    (inverse : (real : RealAny) → deserialize (serialize real) ≡ some real) where
  unpack_any-from_any_message :
      (any : Any) (prefix : Text)
      → unpack_any deserialize (from_any_message serialize any prefix) ≡ some any
  unfolding unpack_any from_any_message contains_slash
  unpack_any-from_any_message any prefix =
      rw
        (
          unpack-from_message any_full_name any_full_name deserialize (serialize (to_real any))
              prefix refl,
          same_bytes_refl any_full_name,
          inverse,
        )
        (unfold read_any in refl)

  unwrap-wrap :
      (prefixes : List Text) (any : Any)
      → unwrap deserialize (length prefixes) (some (wrap serialize prefixes any)) ≡ some any
  unfolding unwrap wrap
  unwrap-wrap [] any = refl
  unwrap-wrap (p ∷ ps) any =
      ap (unwrap deserialize (length ps)) (unpack_any-from_any_message (wrap serialize ps any) p)
      ∙ unwrap-wrap ps any

  -- A message of a type whose name has no slash is packed, and the Any is packed into further ones.
  -- To unpack them all gives an Any from which the message is read as a message of its own type, and
  -- of no other, whatever the prefixes are, where an Any that is serialized is read back.
  pub unpack-wrap :
      {Message : Type 0}
      → (name other : Text) (read : Bytes → Option Message) (bytes : Bytes) (prefix : Text)
        (prefixes : List Text)
      → contains_slash name ≡ false
      → (any : Any) × (unwrap deserialize
            (length prefixes)
            (some (wrap serialize prefixes (from_message name bytes prefix)))
          ≡ some any)
        × (unpack other read any ≡ (if same_bytes name other then read bytes else none))
  unpack-wrap name other read bytes prefix prefixes h = (
    from_message name bytes prefix,
    unwrap-wrap prefixes (from_message name bytes prefix),
    unpack-from_message name other read bytes prefix h,
  )
