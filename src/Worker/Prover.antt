-- ===== src/Worker/Prover.antt =====
-- services/workers/src/prover.ts, `generateProof`: a requested proof is built, checked and stored.
-- A proof's bytes stand for the text `toString('base64')` of them, a nullifier's for its hex.
pub mod Laws
use clevercon.Prelude.{
  ℕ, Bool, true, false, not, ◌||◌, Option, none, some, List, [], ◌∷◌, String, ◌==◌, if◌then◌else◌,
  find,
}
use clevercon.Store.Rows.{Task, Policy}
use clevercon.Store.Tables.{find_task}
use clevercon.Proof.Bytes.{Bytes}
use clevercon.Proof.Inputs.{Crypto, Field}
use clevercon.Proof.Binding.{
  BindingProofInput, BindingProof, build_binding_proof, verify_binding_proof_locally,
}

pub data ProofStatus : Type 0 where
  requested generating ready verified rejected failed : ProofStatus

pub record ProofRow : Type 0 where
  pub id : ℕ
  pub policy : Option Policy
  pub task_id : Option ℕ
  pub status : ProofStatus
  pub nullifier : Option Bytes
  pub proof_ref : Option Bytes

pub data GenerateProofResult : Type 0 where
  is_ready : (buyer : Option ℕ) → GenerateProofResult
  -- no reason stands for the message of what was thrown
  has_failed : (reason : Option String) (buyer : Option ℕ) → GenerateProofResult
  skipped : (reason : String) (buyer : Option ℕ) → GenerateProofResult

-- `TERMINAL`
unfoldable pub is_terminal : ProofStatus → Bool
is_terminal ProofStatus.ready = true
is_terminal ProofStatus.verified = true
is_terminal ProofStatus.rejected = true
is_terminal _ = false

unfoldable pub find_proof : ℕ → List ProofRow → Option ProofRow
find_proof id = find (λ (p : ProofRow). p.id == id)

unfoldable pub update_proof : ℕ → (ProofRow → ProofRow) → List ProofRow → List ProofRow
update_proof id f [] = []
update_proof id f (p ∷ ps) = (if p.id == id then f p else p) ∷ update_proof id f ps

abbrev pub set_status : ProofStatus → ProofRow → ProofRow
set_status status p = record p { status = status }

-- `proof.nullifier ? … : generateNullifier()`
abbrev pub nullifier_of : ProofRow → (fresh : Bytes) → Bytes
nullifier_of p fresh = elim p.nullifier [ none ↦ fresh | some n ↦ n ]

abbrev pub ready_row : Bytes → Bytes → ProofRow → ProofRow
ready_row bytes nullifier p = record p {
  status = ProofStatus.ready;
  proof_ref = some bytes;
  nullifier = some nullifier;
}

abbrev pub proof_input : (commitment : String) (payee amount : ℕ) → Bytes → BindingProofInput
proof_input commitment payee amount nullifier = record {
  commitment = Field.hex commitment;
  payee = payee;
  amount = amount;
  nullifier = Field.buffer nullifier;
  grand_product_eval = none;
  selector_evals_hash = none;
  shifted_opening_eval = none;
}

abbrev pub buyer_in : Option ℕ → List Task → Option ℕ
buyer_in none ts = none
buyer_in (some t) ts = elim (find_task t ts) [ none ↦ none | some x ↦ some x.buyer_id ]

module _ (c : Crypto) where
  -- the `try` block after the proof is marked as generating
  unfoldable pub store_proof :
      ℕ
      → Option ℕ
      → Bytes
      → Option BindingProof
      → List ProofRow
      → GenerateProofResult × List ProofRow
  store_proof id buyer nullifier none rows =
      (has_failed none buyer, update_proof id (set_status ProofStatus.failed) rows)
  store_proof id buyer nullifier (some p) rows =
      if verify_binding_proof_locally c p.proof p.pi_hash
      then (is_ready buyer, update_proof id (ready_row p.proof nullifier) rows)
      else (
        has_failed (some "binding proof failed local verification") buyer,
        update_proof id (set_status ProofStatus.failed) rows,
      )

  unfoldable pub generate :
      ProofRow
      → Option ℕ
      → (payee amount : ℕ) → (fresh : Bytes) → Option Policy
      → List ProofRow
      → GenerateProofResult × List ProofRow
  generate proof buyer payee amount fresh none rows = (
    has_failed (some "proof has no policy") buyer,
    update_proof proof.id (set_status ProofStatus.failed) rows,
  )
  generate proof buyer payee amount fresh (some policy) rows =
      let nullifier = nullifier_of proof fresh in
      store_proof proof.id buyer nullifier
        (build_binding_proof c (proof_input policy.commitment payee amount nullifier))
        (update_proof proof.id (set_status ProofStatus.generating) rows)

  -- `generateProof`, with the nullifier that it may draw
  unfoldable pub generate_proof :
      (id payee amount : ℕ)
      → (fresh : Bytes) → List Task
      → List ProofRow
      → GenerateProofResult × List ProofRow
  generate_proof id payee amount fresh ts rows = elim (find_proof id rows) [
    | none ↦ (skipped "proof not found" none, rows)
    | some p ↦
        let buyer = buyer_in p.task_id ts in
        if is_terminal p.status
        then (skipped "proof already terminal" buyer, rows)
        else generate p buyer payee amount fresh p.policy rows
  ]
