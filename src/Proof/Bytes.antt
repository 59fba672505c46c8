-- ===== src/Proof/Bytes.antt =====
-- Node's `Buffer` as a list of bytes: big-endian integers, slices and copies.
use native.Mathlib.Nat.{pow-suc}
use clevercon.Prelude.{
  ℕ, zero, suc, ◌+◌, ◌-◌, ◌*◌, ◌/◌, ◌%◌, ◌<◌, ◌^◌, ◌≡◌, refl, List, [], ◌∷◌, ◌++◌, length, arith,
  ap, Bool, ◌&&◌, true, false, ◌==◌, length-append, All, ◌∙◌,
}

abbrev pub Bytes : Type 0
Bytes = List ℕ

-- `Buffer.alloc(n)`
unfoldable pub zeros : ℕ → Bytes
zeros zero = []
zeros (suc n) = 0 ∷ zeros n

-- The `n` low bytes of a number, most significant first (`writeUInt32BE`, `writeBigUInt64BE`).
unfoldable pub big_endian : ℕ → ℕ → Bytes
big_endian zero v = []
big_endian (suc n) v = big_endian n (v / 256) ++ (v % 256) ∷ []

-- The number that bytes stand for, most significant first.
unfoldable pub value_from : ℕ → Bytes → ℕ
value_from acc [] = acc
value_from acc (b ∷ bs) = value_from (acc * 256 + b) bs

unfoldable pub value : Bytes → ℕ
unfolding value_from
value bs = value_from 0 bs

unfoldable pub take : ℕ → Bytes → Bytes
take zero bs = []
take (suc n) [] = []
take (suc n) (b ∷ bs) = b ∷ take n bs

unfoldable pub drop : ℕ → Bytes → Bytes
drop zero bs = bs
drop (suc n) [] = []
drop (suc n) (b ∷ bs) = drop n bs

-- `buf.subarray(from, to)`
unfoldable pub subarray : ℕ → ℕ → Bytes → Bytes
unfolding take drop
subarray from to bs = take (to - from) (drop from bs)

-- `src.copy(dst, at)`, which writes what fits
unfoldable pub copy : Bytes → ℕ → Bytes → Bytes
copy src zero [] = []
copy [] zero dst = dst
copy (b ∷ src) zero (d ∷ dst) = b ∷ copy src zero dst
copy src (suc at) [] = []
copy src (suc at) (d ∷ dst) = d ∷ copy src at dst

-- `a.equals(b)`
unfoldable pub equals : Bytes → Bytes → Bool
equals [] [] = true
equals (a ∷ as') (b ∷ bs) = a == b && equals as' bs
equals _ _ = false

pub equals_refl : (a : Bytes) → equals a a ≡ true
unfolding equals
equals_refl [] = refl
equals_refl (b ∷ a) = ground (arith, equals_refl a)

pub length-zeros : (n : ℕ) → length (zeros n) ≡ n
unfolding zeros
length-zeros zero = refl
length-zeros (suc n) = ap suc (length-zeros n)

pub length-big_endian : (n v : ℕ) → length (big_endian n v) ≡ n
unfolding big_endian
length-big_endian zero v = refl
length-big_endian (suc n) v =
    omega (
      arith,
      length-big_endian n (v / 256),
      length-append (big_endian n (v / 256)) ((v % 256) ∷ []),
    )

value_from-append :
    (acc : ℕ) (as' bs : Bytes) → value_from acc (as' ++ bs) ≡ value_from (value_from acc as') bs
unfolding value_from
value_from-append acc [] bs = refl
value_from-append acc (a ∷ as') bs = value_from-append (acc * 256 + a) as' bs

pub value-lem : (bs : Bytes) → value bs ≡ value_from 0 bs
unfolding value
value-lem bs = refl

pub value-append : (as' bs : Bytes) → value (as' ++ bs) ≡ value_from (value as') bs
unfolding value
value-append as' bs = value_from-append 0 as' bs

value_from-big_endian :
    (n acc v : ℕ) → v < 256 ^ n → value_from acc (big_endian n v) ≡ acc * 256 ^ n + v
unfolding big_endian value_from
value_from-big_endian zero acc v h = omega arith
value_from-big_endian (suc n) acc v h =
    let p : 256 ^ suc n ≡ 256 ^ n * 256 = pow-suc 256 n in
    let ih = value_from-big_endian n acc (v / 256) (omega arith) in
    rw (value_from-append acc (big_endian n (v / 256)) ((v % 256) ∷ []), ih, p)
      (let q : acc * (256 ^ n * 256) ≡ acc * 256 ^ n * 256 = omega arith in omega arith)

-- A number that fits `n` bytes is read back from them.
pub value-big_endian : (n v : ℕ) → v < 256 ^ n → value (big_endian n v) ≡ v
unfolding value
value-big_endian n v h = value_from-big_endian n 0 v h ∙ omega arith

pub value_from-big_endian_lem :
    (n acc v : ℕ) → v < 256 ^ n → value_from acc (big_endian n v) ≡ acc * 256 ^ n + v
value_from-big_endian_lem n acc v h = value_from-big_endian n acc v h

pub value-zeros : (n : ℕ) → value (zeros n) ≡ 0
unfolding value zeros value_from
value-zeros zero = refl
value-zeros (suc n) = value-zeros n

abbrev pub IsByte : ℕ → Type 0
IsByte b = b < 256

value_from-lt :
    (acc : ℕ) (bs : Bytes) → All IsByte bs → value_from acc bs < suc acc * 256 ^ length bs
unfolding value_from
value_from-lt acc [] h = omega arith
value_from-lt acc (b ∷ bs) h =
    let ih = value_from-lt (acc * 256 + b) bs h.1 in
    let p : 256 ^ suc (length bs) ≡ 256 ^ length bs * 256 = pow-suc 256 (length bs) in
    rw p (grind (arith, ih, h.0))

-- Bytes whose first is below `m` stand for a number below `m * 256 ^ (n - 1)`.
pub value-lt_head :
    (m b : ℕ) (bs : Bytes) → b < m → All IsByte bs → value (b ∷ bs) < m * 256 ^ length bs
unfolding value value_from
value-lt_head m b bs h k = grind (arith, value_from-lt b bs k)

pub zeros-IsByte : (n : ℕ) → All IsByte (zeros n)
unfolding zeros
zeros-IsByte zero = tt
zeros-IsByte (suc n) = (omega arith, zeros-IsByte n)
