-- ===== src/Proof/Inputs/Laws.antt =====
-- The encoders read back: an amount, a scalar and a payee are field elements of 32 bytes.
use clevercon.Prelude.{
  ℕ, ◌/◌, ◌%◌, ◌*◌, ◌<◌, ◌≡◌, ◌∙◌, sym, none, some, [], ◌∷◌, ◌++◌, length, All, arith,
  length-append, ◌↔◌, ◌⊎◌, ◌≤◌, Option-cases, inl, inr,
}
use Prim.Native.Nat.{◌^◌}
use mathlib.Core.Path.{subst}
use clevercon.Proof.Bytes.{
  value-lem, Bytes, zeros, big_endian, value, value-append, value-big_endian, value-zeros,
  value_from-big_endian_lem, IsByte, value-lt_head, length-big_endian, length-zeros,
}
use clevercon.Proof.Inputs.{Crypto, amount_scalar, fe_scalar, payee_field, clear_top_bits}

value_split :
    (v : ℕ) → v < 2 ^ 128 → value (big_endian 8 (v / 2 ^ 64) ++ big_endian 8 (v % 2 ^ 64)) ≡ v
value_split v q =
    let hi = big_endian 8 (v / 2 ^ 64) in
    let lo = big_endian 8 (v % 2 ^ 64) in
    rw
      (
        value-append hi lo,
        value-big_endian 8 (v / 2 ^ 64) (omega arith),
        value_from-big_endian_lem 8 (v / 2 ^ 64) (v % 2 ^ 64) (omega arith),
      )
      (omega arith)

-- A positive amount below 2^128 is encoded in 32 bytes, which stand for it.
pub value-amount_scalar :
    (v : ℕ)
    → 0 < v
    → v < 2 ^ 128
    → (b : Bytes) × (amount_scalar v ≡ some b) × (value b ≡ v) × (length b ≡ 32)
unfolding amount_scalar
value-amount_scalar v p q =
    let hi = big_endian 8 (v / 2 ^ 64) in
    let lo = big_endian 8 (v % 2 ^ 64) in
    (
      zeros 16 ++ (hi ++ lo),
      ground arith,
      value-append (zeros 16) (hi ++ lo)
          ∙ rw (value-zeros 16) (sym (value-lem (hi ++ lo)) ∙ value_split v q),
      omega (
        arith,
        length-append (zeros 16) (hi ++ lo),
        length-append hi lo,
        length-zeros 16,
        length-big_endian 8 (v / 2 ^ 64),
        length-big_endian 8 (v % 2 ^ 64),
      ),
    )

-- The amounts that are refused are exactly 0 and those of 2^128 or more.
pub amount_scalar-none_iff : (v : ℕ) → (amount_scalar v ≡ none) ↔ ((v ≡ 0) ⊎ (2 ^ 128 ≤ v))
unfolding amount_scalar
amount_scalar-none_iff v = (λ h. ground arith, λ h. ground arith)

-- A scalar below 2^253 is encoded in 32 bytes, which stand for it.
pub value-fe_scalar :
    (v : ℕ) → v < 2 ^ 253 → (b : Bytes) × (fe_scalar v ≡ some b) × (value b ≡ v) × (length b ≡ 32)
unfolding fe_scalar
value-fe_scalar v q =
    (big_endian 32 v, ground arith, value-big_endian 32 v (omega arith), length-big_endian 32 v)

clear_top_bits-lt :
    (b : Bytes)
    → length b ≡ 32
    → All IsByte b
    → (value (clear_top_bits b) < 2 ^ 253) × (length (clear_top_bits b) ≡ 32)
clear_top_bits-lt [] e h = absurd (omega arith)
clear_top_bits-lt (b ∷ bs) e h =
    let k : length bs ≡ 31 = omega arith in
    let below : value ((b % 32) ∷ bs) < 32 * 256 ^ 31 =
      subst (λ n. value ((b % 32) ∷ bs) < 32 * 256 ^ n) k
        (value-lt_head 32 (b % 32) bs (omega arith) h.1) in
    (omega arith, e)

module _ (c : Crypto) where
  -- The payee's field element takes 32 bytes and is below 2^253, whatever the address.
  pub payee_field-lt :
      (payee : ℕ) (b : Bytes) → payee_field c payee ≡ some b → (value b < 2 ^ 253) × (length b ≡ 32)
  unfolding payee_field
  payee_field-lt payee b h = elim (Option-cases (c.scval_xdr payee)) [
    | inl missing ↦ let contra : none ≡ some b = rw missing at h in cc contra
    | inr (x, found) ↦
        let same : some (clear_top_bits (c.sha256 x)) ≡ some b = rw found at h in
        let e : clear_top_bits (c.sha256 x) ≡ b = cc same in
        subst (λ d. (value d < 2 ^ 253) × (length d ≡ 32)) e
          (clear_top_bits-lt (c.sha256 x) (c.length-sha256 x) (c.sha256-IsByte x))
  ]
