-- ===== src/Proof/Binding/Laws.antt =====
-- A proof that is built passes the check that mirrors the contract's.
use clevercon.Prelude.{ℕ, ◌≡◌, some_subst, true, Option, none, some, arith, ◌++◌}
use clevercon.Proof.Bytes.{Bytes, equals_refl}
use clevercon.Proof.Inputs.{Crypto, PublicInputs, Field, encode_public_inputs, >>=-eq-some}
use clevercon.Proof.Binding.{
  BindingProofInput, BindingProof, build_with, build_binding_proof, verify_binding_proof_locally,
  circuit_id, find_opening, closes, assemble, or_default, bytes_of, search_rounds,
}
use clevercon.Proof.Binding.Layout.{Is32, header_reads, length-header}
use clevercon.Proof.Binding.Search.{find_opening_sound}

-- An evaluation that the caller gives has 32 bytes.
abbrev pub Is32Given : Option Bytes → Type 0
Is32Given none = Unit
Is32Given (some b) = Is32 b

module _ (c : Crypto) where
  given-Is32 : (o : Option Bytes) (t : Bytes) → Is32Given o → Is32 (or_default o (c.sha256 t))
  given-Is32 none t h = c.length-sha256 t
  given-Is32 (some b) t h = h

  -- The check of an assembled header is the check of its parts.
  verify-assemble :
      (pi cid sel gp opening shifted : Bytes)
      → Is32 pi
      → Is32 cid
      → Is32 sel
      → Is32 gp
      → Is32 opening
      → Is32 shifted
      → let zeta = c.sha256 (cid ++ (pi ++ sel)) in
        closes c zeta opening shifted ≡ true
        → verify_binding_proof_locally c
            (assemble pi cid (c.sha256 (zeta ++ gp)) gp sel opening shifted)
            pi
          ≡ true
  unfolding verify_binding_proof_locally
  verify-assemble pi cid sel gp opening shifted h0 h1 h4 h3 h5 h6 closed =
      let zeta = c.sha256 (cid ++ (pi ++ sel)) in
      let lin = c.sha256 (zeta ++ gp) in
      let h2 = c.length-sha256 (zeta ++ gp) in
      let r = header_reads pi cid lin gp sel opening shifted h0 h1 h2 h3 h4 h5 h6 in
      let n = length-header pi cid lin gp sel opening shifted h0 h1 h2 h3 h4 h5 h6 in
      rw (n, r.0, r.1, r.2, r.3, r.4, r.5, r.6, equals_refl pi, equals_refl lin) closed

  circuit_id-Is32 : Is32 (circuit_id c)
  unfolding circuit_id
  circuit_id-Is32 = c.length-sha256 _

  encode-pi_hash :
      (commitment : Field) (payee amount : ℕ) (nullifier : Field) {pis : PublicInputs}
      → encode_public_inputs c commitment payee amount nullifier ≡ some pis
      → pis.pi_hash ≡ c.sha256 pis.vector
  unfolding encode_public_inputs
  encode-pi_hash commitment payee amount nullifier e = ground arith

  build_with_sound :
      (rounds : ℕ) (input : BindingProofInput) (p : BindingProof)
      → Is32Given input.grand_product_eval
      → Is32Given input.selector_evals_hash
      → Is32Given input.shifted_opening_eval
      → build_with c rounds input ≡ some p
      → verify_binding_proof_locally c p.proof p.pi_hash ≡ true
  unfolding build_with
  build_with_sound rounds input p hg hs ho e =
      let (pis, encoded, rest) =
        >>=-eq-some
          (encode_public_inputs c input.commitment input.payee input.amount input.nullifier) _ e in
      let sel =
        or_default input.selector_evals_hash (c.sha256 (bytes_of "sel-evals-placeholder")) in
      let zeta = c.sha256 (circuit_id c ++ (pis.pi_hash ++ sel)) in
      let gp = or_default input.grand_product_eval (c.sha256 (bytes_of "gp-eval-placeholder")) in
      let shifted =
        or_default input.shifted_opening_eval (c.sha256 (bytes_of "shifted-eval-placeholder")) in
      let (opening, found, built) = >>=-eq-some (find_opening c rounds 0 zeta shifted) _ rest in
      let (closed, h5) = find_opening_sound c rounds 0 zeta shifted found in
      some_subst (λ q. verify_binding_proof_locally c q.proof q.pi_hash ≡ true) built
        (verify-assemble pis.pi_hash (circuit_id c) sel gp opening shifted
          (rw (encode-pi_hash input.commitment input.payee input.amount input.nullifier encoded)
            (c.length-sha256 pis.vector))
          (circuit_id-Is32)
          (given-Is32 input.selector_evals_hash (bytes_of "sel-evals-placeholder") hs)
          (given-Is32 input.grand_product_eval (bytes_of "gp-eval-placeholder") hg) h5
          (given-Is32 input.shifted_opening_eval (bytes_of "shifted-eval-placeholder") ho) closed)

  -- The proof that `build_binding_proof` returns passes the local check, if the evaluations that
  -- the caller gives (all three may be left out) have 32 bytes.
  pub verify-build :
      (input : BindingProofInput) (p : BindingProof)
      → Is32Given input.grand_product_eval
      → Is32Given input.selector_evals_hash
      → Is32Given input.shifted_opening_eval
      → build_binding_proof c input ≡ some p
      → verify_binding_proof_locally c p.proof p.pi_hash ≡ true
  unfolding build_binding_proof
  verify-build input p hg hs ho e = build_with_sound (search_rounds c) input p hg hs ho e
