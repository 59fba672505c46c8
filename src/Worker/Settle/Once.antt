-- ===== src/Worker/Settle/Once.antt =====
-- What a settlement does: it pays once, records what it has paid, and can be replayed.
use clevercon.Prelude.{
  ℕ, ◌≡◌, refl, sym, ap, ◌∙◌, false, Option, none, some, [], ◌∷◌, ◌++◌, arith, Option-cases, inl,
  inr, String,
}
use clevercon.Store.Rows.PaymentKey.{settle}
use clevercon.Store.Tables.{World, has_key}
use clevercon.Worker.Chain.{Outcome, ok, err, thrown}
use clevercon.Worker.Env.{Env, ReleaseParams, with_delegate}
use clevercon.Proof.Bytes.{Bytes}
use clevercon.Proof.Binding.{BindingProof, build_binding_proof}
use clevercon.Worker.Settle.{
  Plan, Prepared, stop, proceed, SettleResult, settled, threw, prepare, lock_if_needed, release_at,
  lock_and_release, settle_failed, record_payment, mirror_row, finish, proof_input, carry_out,
  settle_prepared, settle_step,
}
use clevercon.Worker.Settle.Frame.{lock_and_release-SameRows}

module _ {V : Type 0} (env : Env V) where
  abbrev pub release_params : Plan → (task : ℕ) → (nullifier proof : Bytes) → ReleaseParams
  release_params plan task nullifier proof = record {
    task_id = task;
    step_id = plan.step.index;
    amount = plan.step.estimated_cost;
    payee = plan.payee;
    nullifier = nullifier;
    proof = proof;
  }

  release_at-ok :
      (plan : Plan) (n p : Bytes) (r : Outcome ℕ × World V) (tx : ℕ) (w' : World V)
      → release_at env plan n p r ≡ (ok tx, w')
      → (task : ℕ) × (r.0 ≡ ok task)
        × (env.calls.release plan.delegate.public_key (release_params plan task n p) r.1.vault
            ≡ (ok tx, w'.vault))
  unfolding release_at
  release_at-ok plan n p (err e, w) tx w' h = cc (ap (λ (r : Outcome ℕ × World V). r.0) h)
  release_at-ok plan n p (ok task, w) tx w' h = (task, refl, ground arith)

  pub lock_and_release_free :
      (plan : Plan) (n p : Bytes) (w : World V)
      → env.lock_timeout plan.delegate.public_key w.now ≡ none
      → lock_and_release env plan n p w ≡ release_at env plan n p (lock_if_needed env plan w)
  unfolding lock_and_release with_delegate
  lock_and_release_free plan n p w free = rw (free, lock_and_release, with_delegate)

  pub lock_and_release_timeout :
      (plan : Plan) (n p : Bytes) (w : World V) {msg : String}
      → env.lock_timeout plan.delegate.public_key w.now ≡ some msg
      → lock_and_release env plan n p w ≡ (err (thrown msg), w)
  unfolding lock_and_release with_delegate
  lock_and_release_timeout plan n p w late = rw (late, lock_and_release, with_delegate)

  release_at-tasks :
      (plan : Plan) (n p : Bytes) (r : Outcome ℕ × World V)
      → (release_at env plan n p r).1.tasks ≡ r.1.tasks
  unfolding release_at
  release_at-tasks plan n p (err e, w) = refl
  release_at-tasks plan n p (ok task, w) = refl

  lock_and_release-ok :
      (plan : Plan) (n p : Bytes) (w : World V) (tx : ℕ) (w' : World V)
      → lock_and_release env plan n p w ≡ (ok tx, w')
      → (task : ℕ) × ((lock_if_needed env plan w).0 ≡ ok task)
        × (env.calls.release plan.delegate.public_key
              (release_params plan task n p)
              (lock_if_needed env plan w).1.vault
            ≡ (ok tx, w'.vault))
  lock_and_release-ok plan n p w tx w' e =
      elim (Option-cases (env.lock_timeout plan.delegate.public_key w.now)) [
        | inr (msg, timed_out) ↦ cc (
            ap (λ (r : Outcome ℕ × World V). r.0)
              (sym (lock_and_release_timeout plan n p w timed_out) ∙ e))
        | inl free ↦
            release_at-ok plan n p (lock_if_needed env plan w) tx w'
              (sym (lock_and_release_free plan n p w free) ∙ e)
      ]

  -- What a settlement that paid has done.
  pub record Paid (plan : Plan) (nullifier : Bytes) (tx buyer row amount : ℕ) (w w' : World V)
      : Type 0 where
    pub proof : BindingProof
    pub task : ℕ
    pub proved : build_binding_proof env.crypto (proof_input env plan nullifier) ≡ some proof
    pub locked : (lock_if_needed env plan w).0 ≡ ok task
    pub released :
        env.calls.release plan.delegate.public_key
          (release_params plan task nullifier proof.proof)
          (lock_if_needed env plan w).1.vault
        ≡ (ok tx, w'.vault)
    pub new_key : has_key (settle plan.step.id) w.payments ≡ false
    pub recorded : w'.payments ≡ w.payments ++ mirror_row env plan tx ∷ []
    pub reported :
        (buyer ≡ plan.task.buyer_id)
        × (row ≡ plan.step.task_id)
        × (amount ≡ plan.step.estimated_cost)
    pub kept_steps : w'.steps ≡ w.steps
    pub kept_delegates : w'.delegates ≡ w.delegates
    pub kept_tasks : w'.tasks ≡ (lock_if_needed env plan w).1.tasks

  lock_and_release-tasks :
      (plan : Plan) (n p : Bytes) (w : World V) {tx : ℕ}
      → (lock_and_release env plan n p w).0 ≡ ok tx
      → (lock_and_release env plan n p w).1.tasks ≡ (lock_if_needed env plan w).1.tasks
  lock_and_release-tasks plan n p w e =
      elim (Option-cases (env.lock_timeout plan.delegate.public_key w.now)) [
        | inr (msg, timed_out) ↦
            cc (
              ap (λ (r : Outcome ℕ × World V). r.0) (lock_and_release_timeout plan n p w timed_out))
        | inl free ↦
            rw (lock_and_release_free plan n p w free)
              (release_at-tasks plan n p (lock_if_needed env plan w))
      ]

  record_payment-settled :
      (plan : Plan) (tx hash : ℕ) (w w' : World V) {buyer task : ℕ} {provider : Option ℕ}
      {amount : ℕ} {name : Option String}
      → record_payment env plan hash w ≡ (settled tx buyer task provider amount name, w')
      → (hash ≡ tx)
        × (has_key (settle plan.step.id) w.payments ≡ false)
        × ((buyer ≡ plan.task.buyer_id)
            × (task ≡ plan.step.task_id)
            × (amount ≡ plan.step.estimated_cost))
        × (w' ≡ record w { payments = w.payments ++ mirror_row env plan hash ∷ [] })
  unfolding record_payment
  record_payment-settled plan tx hash w w' e = ground arith

  finish-Paid :
      (plan : Plan) (n : Bytes) (p : BindingProof) (w : World V) (r : Outcome ℕ × World V)
      (w' : World V) {tx buyer task : ℕ} {provider : Option ℕ} {amount : ℕ} {name : Option String}
      → build_binding_proof env.crypto (proof_input env plan n) ≡ some p
      → lock_and_release env plan n p.proof w ≡ r
      → finish env plan r ≡ (settled tx buyer task provider amount name, w')
      → Paid plan n tx buyer task amount w w'
  unfolding finish settle_failed
  finish-Paid plan n p w (err e, w1) w' built l h = cc (ap (λ (r : SettleResult × World V). r.0) h)
  finish-Paid plan n p w (ok hash, w1) w' {tx} built l h =
      let (same_tx, free, reported, written) = record_payment-settled plan tx hash w1 w' h in
      let (task, locked, released) = lock_and_release-ok plan n p.proof w hash w1 l in
      let same = lock_and_release-SameRows env plan n p.proof w in
      let kept : w1.payments ≡ w.payments = rw l at same.same_payments in
      record {
        proof = p;
        task = task;
        proved = built;
        locked = locked;
        released = rw (← same_tx, written) released;
        new_key = rw kept at free;
        recorded = rw (written, kept, same_tx) refl;
        reported = reported;
        kept_steps = rw written (rw l at same.same_steps);
        kept_delegates = rw written (rw l at same.same_delegates);
        kept_tasks = rw written (
            rw l at (
              lock_and_release-tasks plan n p.proof w {tx = hash}
                (ap (λ (r : Outcome ℕ × World V). r.0) l)));
      }

  pub carry_out_unproved :
      (plan : Plan) (n : Bytes) (w : World V)
      → build_binding_proof env.crypto (proof_input env plan n) ≡ none
      → carry_out env plan n w ≡ (threw, w)
  unfolding carry_out
  carry_out_unproved plan n w e = rw (e, carry_out)

  pub carry_out_proved :
      (plan : Plan) (n : Bytes) (w : World V) {p : BindingProof}
      → build_binding_proof env.crypto (proof_input env plan n) ≡ some p
      → carry_out env plan n w ≡ finish env plan (lock_and_release env plan n p.proof w)
  unfolding carry_out
  carry_out_proved plan n w e = rw (e, carry_out)

  pub carry_out-Paid :
      (plan : Plan) (n : Bytes) (w w' : World V) {tx buyer task : ℕ} {provider : Option ℕ}
      {amount : ℕ} {name : Option String}
      → carry_out env plan n w ≡ (settled tx buyer task provider amount name, w')
      → Paid plan n tx buyer task amount w w'
  carry_out-Paid plan n w w' e =
      elim (Option-cases (build_binding_proof env.crypto (proof_input env plan n))) [
        | inl none_built ↦ cc (
            ap (λ (r : SettleResult × World V). r.0)
              (sym (carry_out_unproved plan n w none_built) ∙ e))
        | inr (p, built) ↦
            finish-Paid plan n p w (lock_and_release env plan n p.proof w) w' built refl
              (sym (carry_out_proved plan n w built) ∙ e)
      ]

  settle_prepared-Paid :
      (q : Prepared) (n : Bytes) (w w' : World V) {tx buyer task : ℕ} {provider : Option ℕ}
      {amount : ℕ} {name : Option String}
      → settle_prepared env q n w ≡ (settled tx buyer task provider amount name, w')
      → (plan : Plan) × (q ≡ proceed plan) × Paid plan n tx buyer task amount w w'
  unfolding settle_prepared
  settle_prepared-Paid (stop r b t) n w w' e = cc (ap (λ (r : SettleResult × World V). r.0) e)
  settle_prepared-Paid (proceed plan) n w w' e = (plan, refl, carry_out-Paid plan n w w' e)

  -- A step is reported settled only if the code's reads gave a plan for it, the plan's proof was
  -- built, a transaction of the buyer's delegate released the step's cost to its payee under the
  -- locked task, with the reported hash, and exactly one payment row was added, whose key was
  -- free.
  pub settle_step-Paid :
      (id : ℕ) (n : Bytes) (w w' : World V) (tx buyer task : ℕ) (provider : Option ℕ) (amount : ℕ)
      (name : Option String)
      → settle_step env id n w ≡ (settled tx buyer task provider amount name, w')
      → (plan : Plan) × (prepare env id w ≡ proceed plan) × Paid plan n tx buyer task amount w w'
  unfolding settle_step
  settle_step-Paid id n w w' tx buyer task provider amount name e =
      settle_prepared-Paid (prepare env id w) n w w' e
