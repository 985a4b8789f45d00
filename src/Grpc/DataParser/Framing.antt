-- ===== src/Grpc/DataParser/Framing.antt =====
-- Frames as a sender writes them come out of the parser one by one, however the bytes are cut.
use qtgrpc.Prelude.{
  ℕ, zero, suc, ◌+◌, ◌^◌, ◌≤◌, ◌<◌, ◌≡◌, refl, arith, ◌==◌, not, List, [], ◌∷◌, ◌++◌, length,
  length-append, length-drop, take, drop, get_or, sym, ap,
}
use native.Mathlib.Nat.{zero-add, suc-add}
use qtgrpc.Grpc.DataParser.{
  Frame, frame, oversize, GrpcDataParser, message_length, parse_next_frame, feed, frame_message,
}

take-append {ℓ} : {A : Type ℓ} (xs ys : List A) → take (length xs) (xs ++ ys) ≡ xs
take-append [] ys = refl
take-append (x ∷ xs) ys = ap (◌∷◌ x) (take-append xs ys)

drop-nil {ℓ} : {A : Type ℓ} (n : ℕ) → drop {A = A} n [] ≡ []
drop-nil zero = refl
drop-nil (suc n) = refl

drop-append {ℓ} : {A : Type ℓ} (xs ys : List A) → drop (length xs) (xs ++ ys) ≡ ys
drop-append [] ys = refl
drop-append (x ∷ xs) ys = drop-append xs ys

message_length-frame_message :
    (flag : ℕ) (payload rest : List ℕ)
    → length payload < 2 ^ 32
    → message_length (frame_message flag payload ++ rest) ≡ length payload
unfolding message_length frame_message
message_length-frame_message flag payload rest h = omega arith

drop-add {ℓ} : {A : Type ℓ} (n k : ℕ) (xs : List A) → drop (n + k) xs ≡ drop k (drop n xs)
drop-add zero k xs = rw zero-add refl
drop-add (suc n) k [] = rw suc-add (sym (drop-nil k))
drop-add (suc n) k (x ∷ xs) = rw suc-add (drop-add n k xs)

parse_whole :
    (limit flag : ℕ) (payload rest bytes : List ℕ)
    → length payload ≤ limit
    → message_length bytes ≡ length payload
    → drop 5 bytes ≡ payload ++ rest
    → get_or bytes 0 0 ≡ flag
    → length bytes ≡ 5 + length payload + length rest
    → parse_next_frame (record { max_receive_size = limit; container = bytes }) ≡ (
      frame (record { payload = payload; is_compressed = not (flag == 0) }),
      record { max_receive_size = limit; container = rest },
    )
unfolding parse_next_frame
parse_whole limit flag payload rest bytes small size behind first long = rw size (
    ground (
      arith,
      drop-add 5 (length payload) bytes,
      ap (take (length payload)) behind,
      ap (drop (length payload)) behind,
      take-append payload rest,
      drop-append payload rest,
    ))

-- A frame that is written in front of other bytes is the next one parsed, with its payload and its
-- compressed flag, and the other bytes stay, as long as its size has 32 bits and the limit allows it.
pub parse-frame_message :
    (limit flag : ℕ) (payload rest : List ℕ)
    → length payload < 2 ^ 32
    → length payload ≤ limit
    → parse_next_frame
        (record { max_receive_size = limit; container = frame_message flag payload ++ rest })
      ≡ (
        frame (record { payload = payload; is_compressed = not (flag == 0) }),
        record { max_receive_size = limit; container = rest },
      )
parse-frame_message limit flag payload rest fits small =
    parse_whole limit flag payload rest (frame_message flag payload ++ rest) small
      (message_length-frame_message flag payload rest fits) (unfold frame_message in refl)
      (unfold frame_message in refl)
      (unfold frame_message in omega (arith, length-append payload rest))

header_length :
    (flag : ℕ) (payload rest : List ℕ)
    → length (frame_message flag payload ++ rest) ≡ 5 + length payload + length rest
unfolding frame_message
header_length flag payload rest = omega (arith, length-append payload rest)

-- A frame whose payload is above the limit and has a 32-bit size is refused with that size, and the
-- buffer is cleared.
parse_oversize :
    (limit flag : ℕ) (payload rest : List ℕ)
    → length payload < 2 ^ 32
    → limit < length payload
    → parse_next_frame
        (record { max_receive_size = limit; container = frame_message flag payload ++ rest })
      ≡ (oversize (length payload), record { max_receive_size = limit; container = [] })
unfolding parse_next_frame
parse_oversize limit flag payload rest fits large =
    rw (message_length-frame_message flag payload rest fits)
      (ground (arith, header_length flag payload rest))

take-append_le {ℓ} :
    {A : Type ℓ} (n : ℕ) (xs ys : List A) → n ≤ length xs → take n (xs ++ ys) ≡ take n xs
take-append_le zero xs ys h = refl
take-append_le (suc n) [] ys h = absurd (omega arith)
take-append_le (suc n) (x ∷ xs) ys h = ap (◌∷◌ x) (take-append_le n xs ys (omega arith))

drop-append_le {ℓ} :
    {A : Type ℓ} (n : ℕ) (xs ys : List A) → n ≤ length xs → drop n (xs ++ ys) ≡ drop n xs ++ ys
drop-append_le zero xs ys h = refl
drop-append_le (suc n) [] ys h = absurd (omega arith)
drop-append_le (suc n) (x ∷ xs) ys h = drop-append_le n xs ys (omega arith)

header-append :
    (bytes more : List ℕ)
    → 5 ≤ length bytes
    → (message_length (bytes ++ more) ≡ message_length bytes)
      × (get_or (bytes ++ more) 0 0 ≡ get_or bytes 0 0)
unfolding message_length
header-append (a ∷ b ∷ c ∷ d ∷ e ∷ bytes) more h = (refl, refl)
header-append _ more h = absurd (omega arith)

-- Bytes that arrive later do not change a frame that is complete: it is parsed the same, and the
-- late bytes stay behind what was left.
pub parse-feed :
    (p : GrpcDataParser) (f : Frame) (q : GrpcDataParser) (more : List ℕ)
    → parse_next_frame p ≡ (frame f, q)
    → parse_next_frame (feed p more) ≡ (frame f, feed q more)
unfolding parse_next_frame feed
parse-feed p f q more e =
    let bytes = p.container in
    let size = message_length bytes in
    ground (
      arith,
      header-append bytes more,
      length-append bytes more,
      drop-append_le 5 bytes more,
      take-append_le size (drop 5 bytes) more,
      drop-append_le (5 + size) bytes more,
      length-drop 5 bytes,
    )
