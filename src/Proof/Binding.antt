-- ===== src/Proof/Binding.antt =====
-- packages/common/src/spend-policy-prover.ts: the binding proof that the on-chain verifier checks.
-- The search for the opening evaluation walks at most a million counters, as in the code.
pub mod Search
pub mod Layout
pub mod Laws
use clevercon.Prelude.{
  ℕ, zero, suc, ◌+◌, Bool, true, false, Option, none, some, List, [], ◌∷◌, ◌++◌, ◌&&◌, ltb, length,
  ◌==◌, if◌then◌else◌, not,
}
use Prim.Native.Char.{code}
use Prim.Native.String
use Prim.Native.String.{String}
use clevercon.Proof.Bytes.{Bytes, zeros, big_endian, copy, subarray, equals}
use clevercon.Proof.Inputs.{Crypto, Field, encode_public_inputs, ◌>>=◌}

-- `Buffer.from(s)` of an ASCII text
abbrev pub bytes_of : String → Bytes
bytes_of String.[] = []
bytes_of (String.◌∷◌ ch s) = code ch ∷ bytes_of s

abbrev pub log_circuit_size : ℕ
log_circuit_size = 14

abbrev pub pub_inputs_offset : ℕ
pub_inputs_offset = 1

abbrev pub proof_len : ℕ
proof_len = 512

abbrev pub header_len : ℕ
header_len = 224

pub record BindingProofInput : Type 0 where
  pub commitment : Field
  pub payee : ℕ
  pub amount : ℕ
  pub nullifier : Field
  pub grand_product_eval : Option Bytes
  pub selector_evals_hash : Option Bytes
  pub shifted_opening_eval : Option Bytes

pub record BindingProof : Type 0 where
  pub proof : Bytes
  pub pi_hash : Bytes

abbrev pub or_default : Option Bytes → Bytes → Bytes
or_default none d = d
or_default (some b) d = b

-- `h[0] === 0x00`
abbrev pub starts_with_zero : Bytes → Bool
starts_with_zero [] = false
starts_with_zero (b ∷ bs) = b == 0

unfoldable pub domain_tag : Bytes
domain_tag = big_endian 4 log_circuit_size ++ big_endian 4 pub_inputs_offset

-- `openingEval` after `writeUInt32BE(c, 28)` into 32 zero bytes
unfoldable pub opening_at : ℕ → Bytes
opening_at n = copy (big_endian 4 n) 28 (zeros 32)

-- The eight writes of the proof's header into 512 zero bytes.
unfoldable pub assemble : (pi cid lin gp sel opening shifted : Bytes) → Bytes
assemble pi cid lin gp sel opening shifted =
    let p0 = copy pi 0 (zeros proof_len) in
    let p1 = copy cid 32 p0 in
    let p2 = copy lin 64 p1 in
    let p3 = copy gp 96 p2 in
    let p4 = copy sel 128 p3 in let p5 = copy opening 160 p4 in copy shifted 192 p5

module _ (c : Crypto) where
  unfoldable pub circuit_id : Bytes
  circuit_id = c.sha256 (bytes_of "clevercon-spend-policy-v1")

  unfoldable pub closes : Bytes → Bytes → Bytes → Bool
  closes zeta opening shifted =
      starts_with_zero (c.sha256 (zeta ++ (opening ++ (shifted ++ domain_tag))))

  -- the loop over `c`, with the rounds left
  unfoldable pub find_opening : ℕ → ℕ → Bytes → Bytes → Option Bytes
  find_opening zero n zeta shifted = none
  find_opening (suc rounds) n zeta shifted =
      let rest = find_opening rounds (n + 1) zeta shifted in
      if closes zeta (opening_at n) shifted then some (opening_at n) else rest

  abbrev pub search_rounds : ℕ
  search_rounds = 1_000_000

  unfoldable pub build_with : ℕ → BindingProofInput → Option BindingProof
  build_with rounds input = do
    pis ← encode_public_inputs c input.commitment input.payee input.amount input.nullifier
    let sel = or_default input.selector_evals_hash (c.sha256 (bytes_of "sel-evals-placeholder"))
    let zeta = c.sha256 (circuit_id ++ (pis.pi_hash ++ sel))
    let gp = or_default input.grand_product_eval (c.sha256 (bytes_of "gp-eval-placeholder"))
    let lin = c.sha256 (zeta ++ gp)
    let shifted =
        or_default input.shifted_opening_eval (c.sha256 (bytes_of "shifted-eval-placeholder"))
    opening ← find_opening rounds 0 zeta shifted
    some (record {
      proof = assemble pis.pi_hash circuit_id lin gp sel opening shifted;
      pi_hash = pis.pi_hash;
    })

  unfoldable pub build_binding_proof : BindingProofInput → Option BindingProof
  build_binding_proof = build_with search_rounds

  unfoldable pub verify_binding_proof_locally : Bytes → Bytes → Bool
  verify_binding_proof_locally proof pi =
      if ltb (length proof) header_len
      then false
      else let cid = subarray 32 64 proof in
        let sel = subarray 128 160 proof in
        let gp = subarray 96 128 proof in
        let zeta = c.sha256 (cid ++ (pi ++ sel)) in
        if not (equals (subarray 0 32 proof) pi)
        then false
        else if not (equals (c.sha256 (zeta ++ gp)) (subarray 64 96 proof))
        then false
        else closes zeta (subarray 160 192 proof) (subarray 192 224 proof)
