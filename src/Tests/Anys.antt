-- ===== src/Tests/Anys.antt =====
-- Runs on messages that are packed into others.
use qtgrpc.Prelude.{ℕ, zero, suc, ◌≡◌, refl, Option, some, none, [], ◌∷◌}
use qtgrpc.Prelude.Ascii.{ascii, same_bytes}
use qtgrpc.WellKnown.Any.{
  Any, RealAny, Text, Bytes, contains_slash, default_url_prefix, from_message, unpack,
}
use qtgrpc.WellKnown.Any.Nested.{wrap, unwrap, unpack-wrap}

-- A serializer that writes a one in front of each unit of the name, and a zero in front of the bytes.
abbrev write : Text → Bytes → Bytes
write [] v = 0 ∷ v
write (c ∷ name) v = 1 ∷ (c ∷ write name v)

abbrev with_unit : ℕ → Option RealAny → Option RealAny
with_unit c none = none
with_unit c (some real) = some (record real { type_url = c ∷ real.type_url })

abbrev read : Bytes → Option RealAny
read (zero ∷ v) = some (record { type_url = []; value = v })
read (suc k ∷ (c ∷ s)) = with_unit c (read s)
read _ = none

read-write :
    (name : Text) (v : Bytes) → read (write name v) ≡ some (record { type_url = name; value = v })
read-write [] v = refl
read-write (c ∷ name) v = rw (read-write name v) refl

abbrev keep : Bytes → Option Bytes
keep v = some v

unpack-wrap_example :
    (any : Any) × (unwrap read 1 (
        some (
          wrap
            (λ real. write real.type_url real.value)
            (default_url_prefix ∷ [])
            (from_message (ascii "my.Type") (1 ∷ []) (ascii "a/b"))))
      ≡ some any)
    × (unpack (ascii "my.Type") keep any ≡ some (1 ∷ []))
unfolding same_bytes
unpack-wrap_example =
    unpack-wrap (λ real. write real.type_url real.value) read
      (λ real. read-write real.type_url real.value) (ascii "my.Type") (ascii "my.Type") keep
      (1 ∷ []) (ascii "a/b") (default_url_prefix ∷ []) (unfold contains_slash in refl)
