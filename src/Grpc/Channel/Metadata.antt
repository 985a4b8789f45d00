-- ===== src/Grpc/Channel/Metadata.antt =====
-- What user metadata can do to the headers of a request.
use qtgrpc.Prelude.{
  arith, if◌then◌else◌, ◌≡◌, refl, true, false, List, [], ◌∷◌, ◌++◌, Bool-cases, inl, inr,
}
use mathlib.Core.List.{append-nil}
use qtgrpc.Prelude.Ascii.{same_bytes, same_bytes-eq}
use qtgrpc.Grpc.Handler.{Bytes, Headers}
use qtgrpc.Grpc.Channel.{
  is_reserved, iterate_metadata, Request, own_headers, construct_initial_headers,
}

-- The values of a header, in order.
unfoldable pub values_of : Bytes → Headers → List Bytes
values_of key [] = []
values_of key ((k, v) ∷ headers) =
    let rest = values_of key headers in if same_bytes k key then v ∷ rest else rest

values_of-append :
    (key : Bytes) (xs ys : Headers)
    → values_of key (xs ++ ys) ≡ values_of key xs ++ values_of key ys
unfolding values_of
values_of-append key [] ys = refl
values_of-append key ((k, v) ∷ xs) ys = ground (arith, values_of-append key xs ys)

reserved_ne :
    (k key : Bytes) → is_reserved key ≡ true → is_reserved k ≡ false → same_bytes k key ≡ false
reserved_ne k key r n = elim (Bool-cases (same_bytes k key)) [
  | inl e ↦ absurd (cc (same_bytes-eq k key e))
  | inr e ↦ e
]

values_of-iterate_metadata :
    (to_lower : Bytes → Bytes) (key : Bytes) (metadata : Headers)
    → is_reserved key ≡ true
    → values_of key (iterate_metadata to_lower metadata) ≡ []
unfolding values_of iterate_metadata
values_of-iterate_metadata to_lower key [] r = refl
values_of-iterate_metadata to_lower key ((k, v) ∷ metadata) r =
    elim (Bool-cases (is_reserved (to_lower k))) [
      | inl e ↦ rw e (values_of-iterate_metadata to_lower key metadata r)
      | inr e ↦
          rw (e, reserved_ne (to_lower k) key r e)
            (values_of-iterate_metadata to_lower key metadata r)
    ]

-- The values of a header that the transport reserves are the transport's own: no metadata of the
-- channel or of the call changes them or adds to them.
pub values_of-construct_initial_headers :
    (to_lower : Bytes → Bytes) (key : Bytes) (r : Request)
    → is_reserved key ≡ true
    → values_of key (construct_initial_headers to_lower r) ≡ values_of key (own_headers r)
unfolding construct_initial_headers
values_of-construct_initial_headers to_lower key r h =
    let own = own_headers r in
    let channel = iterate_metadata to_lower r.channel_metadata in
    let call = iterate_metadata to_lower r.call_metadata in
    rw
      (
        values_of-append key own (channel ++ call),
        values_of-append key channel call,
        values_of-iterate_metadata to_lower key r.channel_metadata h,
        values_of-iterate_metadata to_lower key r.call_metadata h,
      )
      (append-nil (values_of key own))
