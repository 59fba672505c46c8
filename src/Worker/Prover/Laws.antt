-- ===== src/Worker/Prover/Laws.antt =====
-- A requested proof that can be built is stored, checked, and not generated again.
use clevercon.Prelude.{
  ℕ, ◌≡◌, refl, sym, ap, ◌∙◌, true, false, Option, some, List, [], ◌∷◌, arith, subst,
}
use clevercon.Store.Rows.{Task, Policy}
use clevercon.Proof.Bytes.{Bytes}
use clevercon.Proof.Inputs.{Crypto}
use clevercon.Proof.Binding.{BindingProof, build_binding_proof, verify_binding_proof_locally}
use clevercon.Proof.Binding.Laws.{verify-build}
use clevercon.Worker.Prover.{
  ProofRow, ProofStatus, is_ready, skipped, is_terminal, find_proof, update_proof, set_status,
  nullifier_of, ready_row, proof_input, store_proof, generate, buyer_in, generate_proof,
}

find_proof-update :
    (k : ℕ) (f : ProofRow → ProofRow) (ps : List ProofRow) {p : ProofRow}
    → ((p : ProofRow) → (f p).id ≡ p.id)
    → find_proof k ps ≡ some p
    → find_proof k (update_proof k f ps) ≡ some (f p)
unfolding find_proof update_proof
find_proof-update k f [] keep e = cc
find_proof-update k f (x ∷ ps) {p} keep e =
    ground (arith, keep x, keep p, find_proof-update k f ps {p = p} keep)

find_proof-id : (k : ℕ) (ps : List ProofRow) {p : ProofRow} → find_proof k ps ≡ some p → p.id ≡ k
unfolding find_proof
find_proof-id k [] e = cc
find_proof-id k (x ∷ ps) {p} e = ground (arith, find_proof-id k ps {p = p})

module _ (c : Crypto) where
  store_proof_good :
      (id : ℕ) (buyer : Option ℕ) (nullifier : Bytes) (b : BindingProof) (rows : List ProofRow)
      → verify_binding_proof_locally c b.proof b.pi_hash ≡ true
      → store_proof c id buyer nullifier (some b) rows
        ≡ (is_ready buyer, update_proof id (ready_row b.proof nullifier) rows)
  unfolding store_proof
  store_proof_good id buyer nullifier b rows h = rw (h, store_proof) refl

  generate_good :
      (p : ProofRow) (policy : Policy) (buyer : Option ℕ) (payee amount : ℕ) (fresh : Bytes)
      (rows : List ProofRow) (b : BindingProof)
      → build_binding_proof c (proof_input policy.commitment payee amount (nullifier_of p fresh))
        ≡ some b
      → generate c p buyer payee amount fresh (some policy) rows ≡ (
        is_ready buyer,
        update_proof p.id
            (ready_row b.proof (nullifier_of p fresh))
            (update_proof p.id (set_status ProofStatus.generating) rows),
      )
  unfolding generate
  generate_good p policy buyer payee amount fresh rows b h =
      ap
        (λ o.
          store_proof c p.id buyer (nullifier_of p fresh) o
            (update_proof p.id (set_status ProofStatus.generating) rows))
        h
      ∙ store_proof_good p.id buyer (nullifier_of p fresh) b _ (
          verify-build c (proof_input policy.commitment payee amount (nullifier_of p fresh)) b tt tt
            tt h)

  generate_proof_live :
      (id payee amount : ℕ) (fresh : Bytes) (ts : List Task) (rows : List ProofRow) {p : ProofRow}
      → find_proof id rows ≡ some p
      → is_terminal p.status ≡ false
      → generate_proof c id payee amount fresh ts rows
        ≡ generate c p (buyer_in p.task_id ts) payee amount fresh p.policy rows
  unfolding generate_proof
  generate_proof_live id payee amount fresh ts rows e f = rw (e, f, generate_proof) refl

  generate_proof_done :
      (id payee amount : ℕ) (fresh : Bytes) (ts : List Task) (rows : List ProofRow) {p : ProofRow}
      → find_proof id rows ≡ some p
      → is_terminal p.status ≡ true
      → generate_proof c id payee amount fresh ts rows
        ≡ (skipped "proof already terminal" (buyer_in p.task_id ts), rows)
  unfolding generate_proof
  generate_proof_done id payee amount fresh ts rows e f = rw (e, f, generate_proof) refl

  -- A proof that is not terminal, has a policy, and for whose release a binding proof is built,
  -- becomes ready: the local check never refuses it, its row holds the proof's bytes, which pass
  -- that check, and the nullifier; and a further run, with any arguments, changes nothing.
  pub generate_proof_ready :
      (id payee amount : ℕ) (fresh : Bytes) (ts : List Task) (rows : List ProofRow) (p : ProofRow)
      (policy : Policy) (b : BindingProof)
      → find_proof id rows ≡ some p
      → is_terminal p.status ≡ false
      → p.policy ≡ some policy
      → build_binding_proof c (proof_input policy.commitment payee amount (nullifier_of p fresh))
        ≡ some b
      → (rows' : List ProofRow) × (generate_proof c id payee amount fresh ts rows
          ≡ (is_ready (buyer_in p.task_id ts), rows'))
        × (find_proof id rows'
            ≡ some (record p {
              status = ProofStatus.ready;
              proof_ref = some b.proof;
              nullifier = some (nullifier_of p fresh);
            }))
        × (verify_binding_proof_locally c b.proof b.pi_hash ≡ true)
        × ((payee' amount' : ℕ) (fresh' : Bytes)
            → generate_proof c id payee' amount' fresh' ts rows'
              ≡ (skipped "proof already terminal" (buyer_in p.task_id ts), rows'))
  unfolding is_terminal
  generate_proof_ready id payee amount fresh ts rows p policy b e f g h =
      let n = nullifier_of p fresh in
      let rows' =
        update_proof p.id (ready_row b.proof n)
          (update_proof p.id (set_status ProofStatus.generating) rows) in
      let stored : find_proof id rows' ≡ some (ready_row b.proof n p) =
        subst
          (λ j.
            find_proof id (
              update_proof j (ready_row b.proof n)
                (update_proof j (set_status ProofStatus.generating) rows))
            ≡ some (ready_row b.proof n p))
          (sym (find_proof-id id rows e))
          (find_proof-update id (ready_row b.proof n) _ (λ p. refl)
            (find_proof-update id (set_status ProofStatus.generating) rows (λ p. refl) e)) in
      (
        rows',
        generate_proof_live id payee amount fresh ts rows e f
            ∙ ap (λ o. generate c p (buyer_in p.task_id ts) payee amount fresh o rows) g
            ∙ generate_good p policy (buyer_in p.task_id ts) payee amount fresh rows b h,
        stored,
        verify-build c (proof_input policy.commitment payee amount n) b tt tt tt h,
        λ payee' amount' fresh'. generate_proof_done id payee' amount' fresh' ts rows' stored refl,
      )
