-- ===== src/Grpc/Channel/ContentType.antt =====
-- `setupContentTypeNegotiation` of src/grpc/qgrpchttp2channel.cpp: the content type of the requests,
-- and the format that a content type in the channel's metadata selects. A format stands for its
-- suffix (src/grpc/qgrpcserializationformat.cpp).
use qtgrpc.Prelude.{
  if◌then◌else◌, ◌≡◌, refl, Bool, true, false, not, Option, none, some, [], ◌++◌, ◌&&◌, ◌||◌,
  Bool-cases, inl, inr,
}
use qtgrpc.Prelude.Ascii.{ascii, same_bytes, same_bytes-eq, same_bytes_refl}
use qtgrpc.Grpc.Handler.{Bytes}

abbrev pub default_content_type : Bytes
default_content_type = ascii "application/grpc"

-- `defaultContentType + '+' + suffix`, if there is one.
unfoldable pub with_suffix : Bytes → Bytes
with_suffix [] = default_content_type
with_suffix suffix = default_content_type ++ (ascii "+" ++ suffix)

-- The auto-detection, for a value that is not the default.
unfoldable pub detect_format : Bytes → Bytes
detect_format value =
    if same_bytes value (ascii "application/grpc+json")
    then ascii "json"
    else if same_bytes value (ascii "application/grpc+proto")
        || same_bytes value default_content_type
    then ascii "proto"
    else []

is_empty : Bytes → Bool
is_empty [] = true
is_empty _ = false

-- The suffix of the channel's format behind the detection. `entry` is the content type in the
-- metadata.
unfoldable pub negotiated_suffix : Bytes → Option Bytes → Bytes
unfolding is_empty
negotiated_suffix suffix none = suffix
negotiated_suffix suffix (some value) =
    if is_empty suffix && not (same_bytes value default_content_type)
    then detect_format value
    else suffix

-- The content type, and the suffix that the options are left with.
unfoldable pub setup_content_type_negotiation : Bytes → Option Bytes → Bytes × Bytes
setup_content_type_negotiation suffix entry =
    let negotiated = negotiated_suffix suffix entry in
    (
      if same_bytes suffix negotiated then with_suffix suffix else with_suffix negotiated,
      negotiated,
    )

-- The content type of the requests always names the format that the channel is left with.
setup_content_type_negotiation_lem :
    (suffix : Bytes) (entry : Option Bytes)
    → (setup_content_type_negotiation suffix entry).0
      ≡ with_suffix (setup_content_type_negotiation suffix entry).1
unfolding setup_content_type_negotiation
setup_content_type_negotiation_lem suffix entry =
    elim (Bool-cases (same_bytes suffix (negotiated_suffix suffix entry))) [
      | inl e ↦
          rw (← same_bytes-eq suffix (negotiated_suffix suffix entry) e)
            (rw (same_bytes_refl suffix) refl)
      | inr e ↦ rw e refl
    ]
