-- ===== src/Grpc/Status.antt =====
-- The status codes of src/grpc/qtgrpcnamespace.h, and the maps from HTTP/2 errors and from HTTP
-- statuses to them in src/grpc/qgrpchttp2channel.cpp.
use qtgrpc.Prelude.{ℕ, ◌≡◌, ◌≢◌, ◌↔◌, ◌||◌, refl, arith, ◌==◌, if◌then◌else◌, Option, some, none}

pub data StatusCode : Type 0 where
  ok cancelled unknown invalid_argument deadline_exceeded not_found already_exists : StatusCode
  permission_denied resource_exhausted failed_precondition aborted out_of_range : StatusCode
  unimplemented internal unavailable data_loss unauthenticated : StatusCode

-- The enumerator's value.
unfoldable pub value : StatusCode → ℕ
value ok = 0
value cancelled = 1
value unknown = 2
value invalid_argument = 3
value deadline_exceeded = 4
value not_found = 5
value already_exists = 6
value permission_denied = 7
value resource_exhausted = 8
value failed_precondition = 9
value aborted = 10
value out_of_range = 11
value unimplemented = 12
value internal = 13
value unavailable = 14
value data_loss = 15
value unauthenticated = 16

-- `QtGrpcPrivate::StatusCodeCount`
abbrev pub status_code_count : ℕ
status_code_count = 16

-- `static_cast<StatusCode>(n)`, for the numbers that name an enumerator.
unfoldable pub to_status_code : ℕ → Option StatusCode
to_status_code n =
    if n == 0
    then some ok
    else if n == 1
    then some cancelled
    else if n == 2
    then some unknown
    else if n == 3
    then some invalid_argument
    else if n == 4
    then some deadline_exceeded
    else if n == 5
    then some not_found
    else if n == 6
    then some already_exists
    else if n == 7
    then some permission_denied
    else if n == 8
    then some resource_exhausted
    else if n == 9
    then some failed_precondition
    else if n == 10
    then some aborted
    else if n == 11
    then some out_of_range
    else if n == 12
    then some unimplemented
    else if n == 13
    then some internal
    else if n == 14
    then some unavailable
    else if n == 15
    then some data_loss
    else if n == 16
    then some unauthenticated
    else none

-- The error codes are those of RFC 7540, section 7.
unfoldable pub http2_error_to_status_code : ℕ → StatusCode
http2_error_to_status_code error =
    if error == 0x7
    then unavailable
    else if error == 0x8
    then cancelled
    else if error == 0xb
    then resource_exhausted
    else if error == 0xc
    then permission_denied
    else if error == 0xd
    then unknown
    else internal

unfoldable pub http2_status_to_status_code : ℕ → StatusCode
http2_status_to_status_code status =
    if status == 200
    then ok
    else if status == 400
    then internal
    else if status == 401
    then unauthenticated
    else if status == 403
    then permission_denied
    else if status == 404
    then unimplemented
    else if status == 429 || status == 502 || status == 503 || status == 504
    then unavailable
    else unknown

value-of : (n : ℕ) (c : StatusCode) → to_status_code n ≡ some c → value c ≡ n
unfolding to_status_code value
value-of n c h = ground arith

to_status_code-value : (c : StatusCode) → to_status_code (value c) ≡ some c
unfolding to_status_code value
to_status_code-value ok = refl
to_status_code-value _ = refl

-- The cast of a number gives a status code exactly when the number is the value of that code.
to_status_code_iff : (n : ℕ) (c : StatusCode) → (to_status_code n ≡ some c) ↔ (value c ≡ n)
to_status_code_iff n c = (value-of n c, λ e. rw⁻¹ e (to_status_code-value c))

-- Only the HTTP status 200 counts as success.
http2_status_ok : (n : ℕ) → (http2_status_to_status_code n ≡ ok) ↔ (n ≡ 200)
unfolding http2_status_to_status_code
http2_status_ok n = (λ h. ground arith, λ h. ground arith)

-- No HTTP/2 error of a stream counts as success.
http2_error_ne_ok : (n : ℕ) → http2_error_to_status_code n ≢ ok
unfolding http2_error_to_status_code
http2_error_ne_ok n = λ h. ground arith
