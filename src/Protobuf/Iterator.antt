-- ===== src/Protobuf/Iterator.antt =====
-- src/protobuf/qprotobufselfcheckiterator_p.h: a pointer that knows the container it runs over.
-- A pointer is an address, and addresses wrap at 64 bits. What the memory holds, and what a shift
-- by the width of its operand or more gives (undefined in C++), come with the machine, and so does
-- the largest size of a QByteArray.
use qtgrpc.Prelude.{ℕ, ◌+◌, ◌-◌, ◌%◌, ◌^◌, ◌≤◌, ◌<◌, ◌≡◌, Bool, ◌&&◌, arith, leb, ◌≢◌}
use qtgrpc.Prelude.{if◌then◌else◌, List, [], ◌∷◌, ◌++◌, length, subst}

abbrev pub address_mod : ℕ
address_mod = 2 ^ 64

pub record Machine : Type 0 where
  -- The byte at an address.
  pub load : ℕ → ℕ
  -- What `x << k` gives on a quint64 for 64 ≤ k.
  pub wide_shift : ℕ → ℕ → ℕ
  -- `QByteArray::maxSize()`
  pub max_size : ℕ

pub record SelfcheckIterator : Type 0 where
  pub container_begin : ℕ
  pub container_end : ℕ
  pub it : ℕ

-- A view is its first address and the one behind its last byte.
unfoldable pub from_view : ℕ → ℕ → SelfcheckIterator
from_view first last = record { container_begin = first; container_end = last; it = first }

unfoldable pub is_valid : SelfcheckIterator → Bool
is_valid i = leb i.container_begin i.it && leb i.it i.container_end

-- `operator+=`. The count is the bit pattern of a qsizetype, so that a negative one goes back.
unfoldable pub advance : SelfcheckIterator → ℕ → SelfcheckIterator
unfolding is_valid
advance i count = if is_valid i then record i { it = (i.it + count) % address_mod } else i

-- `operator-=`
unfoldable pub retreat : SelfcheckIterator → ℕ → SelfcheckIterator
unfolding is_valid
retreat i count =
    if is_valid i then record i { it = (i.it + address_mod - count) % address_mod } else i

-- `operator++` and `operator--`
unfoldable pub increment : SelfcheckIterator → SelfcheckIterator
unfolding advance
increment i = advance i 1

unfoldable pub decrement : SelfcheckIterator → SelfcheckIterator
unfolding retreat
decrement i = retreat i 1

unfoldable pub bytes_left : SelfcheckIterator → ℕ
unfolding is_valid
bytes_left i = if is_valid i then i.container_end - i.it else 0

-- The container is a range of addresses, and one address at least follows it.
pub record IsContainer (i : SelfcheckIterator) : Type 0 where
  pub ordered : i.container_begin ≤ i.container_end
  pub bounded : i.container_end + 1 < address_mod

-- The pointer stands in the container or right behind it.
pub record IsInside (i : SelfcheckIterator) : Type 0 where
  pub from : i.container_begin ≤ i.it
  pub to : i.it ≤ i.container_end

-- The bytes from an address on.
abbrev pub Holds : Machine → ℕ → List ℕ → Type 0
Holds m a [] = Unit {0}
Holds m a (b ∷ bs) = (m.load a ≡ b) × Holds m (a + 1) bs

abbrev pub IsByte : ℕ → Type 0
IsByte b = b < 256

pub bytes_left-IsInside :
    (i : SelfcheckIterator) → IsInside i → bytes_left i ≡ i.container_end - i.it
unfolding bytes_left
bytes_left-IsInside i h = ground arith

bytes_left_pos : (i : SelfcheckIterator) → 0 < bytes_left i → IsInside i
unfolding bytes_left
bytes_left_pos i h = ground arith

-- A step of at most the bytes left stays inside and is exact.
pub advance_inside :
    (i : SelfcheckIterator) (n : ℕ)
    → IsContainer i
    → IsInside i
    → n ≤ bytes_left i + 1
    → advance i n ≡ record i { it = i.it + n }
unfolding advance bytes_left
advance_inside i n c h p = ground arith

-- From inside the container, stepping forward by at most the bytes left and back by as much returns
-- to the same place.
retreat-advance :
    (i : SelfcheckIterator) (n : ℕ)
    → IsContainer i
    → IsInside i
    → n ≤ bytes_left i
    → retreat (advance i n) n ≡ i
unfolding advance retreat bytes_left
retreat-advance i n c h p = ground arith

-- One step forward while bytes are left.
pub increment-IsContainer : (i : SelfcheckIterator) → IsContainer i → IsContainer (increment i)
unfolding increment
increment-IsContainer i c = ground arith

pub increment-IsInside :
    (i : SelfcheckIterator)
    → IsContainer i
    → bytes_left i ≢ 0
    → (increment i ≡ record i { it = i.it + 1 })
      × IsInside (increment i)
      × (bytes_left (increment i) + 1 ≡ bytes_left i)
unfolding increment bytes_left
increment-IsInside i c h = (ground arith, ground arith, ground arith)

pub Holds-append :
    (m : Machine) (a : ℕ) (xs ys : List ℕ)
    → Holds m a (xs ++ ys)
    → Holds m a xs × Holds m (a + length xs) ys
Holds-append m a [] ys h = (tt, subst (λ (b : ℕ). Holds m b ys) (omega arith) h)
Holds-append m a (x ∷ xs) ys (e, h) =
    let (p, q) = Holds-append m (a + 1) xs ys h in
    ((e, p), subst (λ (b : ℕ). Holds m b ys) (omega arith) q)
