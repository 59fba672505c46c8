-- ===== src/Proof/Inputs.antt =====
-- packages/common/src/policy-inputs.ts: the public inputs of a private-policy proof.
-- SHA-256, the XDR of an address (`none` where `Address.fromString` throws) and the bytes of a
-- hex text (less its `0x`) come from Node and the Stellar SDK. Amounts and scalars are natural
-- numbers: the refusal of a negative bigint has no counterpart.
pub mod Laws
use Prim.Native.Nat.{◌^◌}
use clevercon.Prelude.{
  ℕ, ◌/◌, ◌%◌, ◌+◌, ◌<◌, ◌≡◌, refl, Option, none, some, List, [], ◌∷◌, ◌++◌, String, length, All,
  leb, ◌==◌, if◌then◌else◌,
}
use clevercon.Proof.Bytes.{Bytes, zeros, big_endian, IsByte}

pub record Crypto : Type 0 where
  pub sha256 : Bytes → Bytes
  pub scval_xdr : ℕ → Option Bytes
  pub hex_bytes : String → Bytes
  pub length-sha256 : (b : Bytes) → length (sha256 b) ≡ 32
  pub sha256-IsByte : (b : Bytes) → All IsByte (sha256 b)

infixl 5 ◌>>=◌
abbrev pub ◌>>=◌ {ℓ κ} : {A : Type ℓ} {B : Type κ} → Option A → (A → Option B) → Option B
none >>= f = none
some a >>= f = f a

pub >>=-eq-some {ℓ κ} :
    {A : Type ℓ} {B : Type κ} (m : Option A) (f : A → Option B) {b : B}
    → (m >>= f) ≡ some b
    → (a : A) × (m ≡ some a) × (f a ≡ some b)
>>=-eq-some none f h = cc
>>=-eq-some (some a) f h = (a, refl, h)

-- A 32-byte field element, as a Buffer or as hex.
pub data Field : Type 0 where
  buffer : Bytes → Field
  hex : String → Field

unfoldable pub assert32 : Bytes → Option Bytes
assert32 b = if length b == 32 then some b else none

abbrev clear_top_bits : Bytes → Bytes
clear_top_bits [] = []
clear_top_bits (b ∷ bs) = (b % 32) ∷ bs

unfoldable pub fe_scalar : ℕ → Option Bytes
fe_scalar v = if leb (2 ^ 253) v then none else some (big_endian 32 v)

unfoldable pub amount_scalar : ℕ → Option Bytes
amount_scalar v =
    if v == 0
    then none
    else if leb (2 ^ 128) v
    then none
    else some (zeros 16 ++ (big_endian 8 (v / 2 ^ 64) ++ big_endian 8 (v % 2 ^ 64)))

pub record PublicInputs : Type 0 where
  pub commitment : Bytes
  pub payee_hash : Bytes
  pub amount_scalar : Bytes
  pub nullifier : Bytes
  pub vector : Bytes
  pub pi_hash : Bytes

module _ (c : Crypto) where
  unfoldable pub to_field : Field → Option Bytes
  unfolding assert32
  to_field (buffer b) = assert32 b
  to_field (hex s) = assert32 (c.hex_bytes s)

  unfoldable pub payee_hash : ℕ → Option Bytes
  payee_hash payee = do some (c.sha256 (← c.scval_xdr payee))

  unfoldable pub payee_field : ℕ → Option Bytes
  unfolding payee_hash
  payee_field payee = do some (clear_top_bits (← payee_hash payee))

  unfoldable pub encode_public_inputs : Field → ℕ → ℕ → Field → Option PublicInputs
  encode_public_inputs commitment payee amount nullifier = do
    pi0 ← to_field commitment
    pi1 ← payee_hash payee
    pi2 ← amount_scalar amount
    pi3 ← to_field nullifier
    let vector = pi0 ++ (pi1 ++ (pi2 ++ pi3))
    some (record {
      commitment = pi0;
      payee_hash = pi1;
      amount_scalar = pi2;
      nullifier = pi3;
      vector = vector;
      pi_hash = c.sha256 vector;
    })
