-- ===== src/Tests/Jobs.antt =====
-- The workers' jobs beside the settlement's own.
use clevercon.Prelude.{ℕ, ◌≡◌, refl, true, not, Option, none, some, List, [], ◌∷◌, arith, leb}
use clevercon.Proof.Bytes.{Bytes, zeros}
use clevercon.Proof.Inputs.{amount_scalar, encode_public_inputs, to_field, payee_hash, assert32}
use clevercon.Proof.Binding.{
  BindingProof, build_binding_proof, verify_binding_proof_locally, build_with, find_opening, closes,
}
use clevercon.Worker.Jobs.{run_attempts}
use clevercon.Worker.Jobs.Ends.{EndsWell, run_attempts-EndsWell}
use clevercon.Worker.Health.{HealthRow, ServiceStatus, Probe}
use clevercon.Worker.Health.History.{sweeps, trailing, find_row, sweeps-shown}
use clevercon.Worker.Prover.{
  ProofRow, ProofStatus, is_ready, skipped, find_proof, generate_proof, proof_input, is_terminal,
}
use clevercon.Worker.Prover.Laws.{generate_proof_ready}
use clevercon.Tests.Fixtures.{bad_env, zero_crypto, released_world}

-- three attempts at a release that fails, with nothing else going on
run_attempts-EndsWell_example :
    EndsWell 7 (run_attempts bad_env 3 0 (λ i. zeros 32) (λ i w. w) 7 released_world)
run_attempts-EndsWell_example =
    run_attempts-EndsWell bad_env (λ i. zeros 32) (λ i w. w) 7 3 0 released_world

abbrev shown : HealthRow
shown = record {
  id = 4;
  status = ServiceStatus.active;
  healthy = true;
  last_healthy_at = none;
  health_failures = 0;
}

abbrev lost : ℕ → Probe
lost id = none

abbrev history : List (ℕ × (ℕ → Probe))
history = (1, lost) ∷ (2, lost) ∷ (3, lost) ∷ []

-- after three failures in a row the service is hidden
sweeps-shown_example :
    (r : HealthRow) × (find_row 4 (sweeps 3 history (shown ∷ [])) ≡ some r)
    × (r.health_failures ≡ trailing 4 0 history)
    × (r.healthy ≡ not (leb 3 (trailing 4 0 history)))
sweeps-shown_example =
    sweeps-shown 3 4 history (shown ∷ []) shown (omega arith) (refl, tt) refl refl refl

abbrev requested : ProofRow
requested = record {
  id = 8;
  policy = some (record { id = 3; commitment = "c0" });
  task_id = none;
  status = ProofStatus.requested;
  nullifier = none;
  proof_ref = none;
}

abbrev drawn : Bytes
drawn = zeros 32

abbrev proof_of : Option BindingProof → BindingProof
proof_of none = record { proof = []; pi_hash = [] }
proof_of (some p) = p

abbrev made : BindingProof
made = proof_of (build_binding_proof zero_crypto (proof_input "c0" 20 5 drawn))

makes : build_binding_proof zero_crypto (proof_input "c0" 20 5 drawn) ≡ some made
unfolding build_binding_proof build_with find_opening closes encode_public_inputs to_field assert32
    payee_hash amount_scalar zeros
makes = refl

generate_proof_ready_example :
    (rows' : List ProofRow) × (generate_proof zero_crypto 8 20 5 drawn [] (requested ∷ [])
      ≡ (is_ready none, rows'))
    × (find_proof 8 rows'
        ≡ some (record requested {
          status = ProofStatus.ready;
          proof_ref = some made.proof;
          nullifier = some drawn;
        }))
    × (verify_binding_proof_locally zero_crypto made.proof made.pi_hash ≡ true)
    × ((payee' amount' : ℕ) (fresh' : Bytes)
        → generate_proof zero_crypto 8 payee' amount' fresh' [] rows'
          ≡ (skipped "proof already terminal" none, rows'))
unfolding find_proof is_terminal
generate_proof_ready_example =
    generate_proof_ready zero_crypto 8 20 5 drawn [] (requested ∷ []) requested
      (record { id = 3; commitment = "c0" }) made refl refl refl makes
