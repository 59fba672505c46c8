-- ===== src/Worker/Settle/Race.antt =====
-- Two settlements of one step that race: both have read the step as unpaid, and act in turn.
use clevercon.Prelude.{
  ℕ, zero, suc, ◌≡◌, refl, ◌∙◌, true, Option, none, some, arith, Option-cases, inl, inr, String,
}
use clevercon.Store.Rows.{Task}
use clevercon.Store.Rows.PaymentKey.{settle}
use clevercon.Store.Tables.{World, find_task, has_key}
use clevercon.Store.Tables.Laws.{
  find_task-update, has_key-append, same_key_refl, HasDistinctKeys, HasDistinctKeys-append,
}
use clevercon.Worker.Chain.{Outcome, ok, err}
use clevercon.Worker.Env.{Env, VaultCalls, ReleaseParams, truthy_id, create_task_with_policy}
use clevercon.Proof.Bytes.{Bytes}
use clevercon.Proof.Binding.{BindingProof, build_binding_proof}
use clevercon.Worker.Settle.{
  Plan, Prepared, stop, proceed, prepare, settle_prepared, settle_step, settle_failed, settled,
  skipped, lock_if_needed, write_lock, release_at, lock_and_release, record_payment, mirror_row,
  finish, proof_input, carry_out, vault_id_of,
}
use clevercon.Worker.Settle.Frame.{lock_and_release-SameRows}
use clevercon.Worker.Settle.Once.{
  carry_out-Paid, carry_out_unproved, carry_out_proved, lock_and_release_free, release_params,
}

-- What the vault's documentation says of `release_payment_proved`: a release that repeats a task, a
-- step and their amount after they were released succeeds and changes nothing. Of another amount
-- for the same step nothing is assumed: the vault answers it with a conflict.
pub record IsIdempotent {V : Type 0} (calls : VaultCalls V) : Type 0 where
  pub again :
      (d : ℕ) (p p' : ReleaseParams) (v v' : V) (tx : ℕ)
      → p'.task_id ≡ p.task_id
      → p'.step_id ≡ p.step_id
      → p'.amount ≡ p.amount
      → p'.payee ≡ p.payee
      → calls.release d p v ≡ (ok tx, v')
      → (tx' : ℕ) × (calls.release d p' v' ≡ (ok tx', v'))

module _ {V : Type 0} (env : Env V) where
  lock_if_needed_known :
      (plan : Plan) (w : World V) {id : ℕ}
      → truthy_id plan.task.vault_task_id ≡ some id
      → lock_if_needed env plan w ≡ (ok id, w)
  unfolding lock_if_needed
  lock_if_needed_known plan w e = rw (e, lock_if_needed)

  lock_if_needed_fresh :
      (plan : Plan) (w : World V) {id : ℕ}
      → truthy_id plan.task.vault_task_id ≡ none
      → vault_id_of (find_task plan.step.task_id w.tasks) ≡ some id
      → lock_if_needed env plan w ≡ (ok id, w)
  unfolding lock_if_needed
  lock_if_needed_fresh plan w e f = rw (e, f, lock_if_needed)

  lock_if_needed_sends :
      (plan : Plan) (w : World V)
      → truthy_id plan.task.vault_task_id ≡ none
      → vault_id_of (find_task plan.step.task_id w.tasks) ≡ none
      → lock_if_needed env plan w
        ≡ write_lock env plan
            (create_task_with_policy env plan.delegate.public_key plan.task.budget plan.commitment
              w.vault)
            w
  unfolding lock_if_needed
  lock_if_needed_sends plan w e f = rw (e, f, lock_if_needed)

  -- A lock that was taken is written to the task's row.
  write_lock-vault_id :
      (plan : Plan) (r : Outcome ℕ × V) (w : World V) {t : Task} {id : ℕ}
      → find_task plan.step.task_id w.tasks ≡ some t
      → (write_lock env plan r w).0 ≡ ok id
      → vault_id_of (find_task plan.step.task_id (write_lock env plan r w).1.tasks) ≡ some id
  unfolding write_lock
  write_lock-vault_id plan (err e, v) w f h = cc h
  write_lock-vault_id plan (ok zero, v) w f h = cc h
  write_lock-vault_id plan (ok (suc n), v) w f h =
      let found =
        find_task-update plan.step.task_id (λ t. record t { vault_task_id = some (suc n) }) w.tasks
          (λ t. refl) f in
      rw found (cc h)

  -- After a lock, no settlement of the task's steps locks again, though its reads were made
  -- before the lock: it goes on with the id that was written.
  pub lock_if_needed-again :
      (plan plan' : Plan) (w w' : World V) {t : Task} {id : ℕ}
      → find_task plan.step.task_id w.tasks ≡ some t
      → plan'.step.task_id ≡ plan.step.task_id
      → plan'.task.vault_task_id ≡ plan.task.vault_task_id
      → (lock_if_needed env plan w).0 ≡ ok id
      → w'.tasks ≡ (lock_if_needed env plan w).1.tasks
      → lock_if_needed env plan' w' ≡ (ok id, w')
  lock_if_needed-again plan plan' w w' {id} f same_row same_read locked tasks =
      elim (Option-cases (truthy_id plan.task.vault_task_id)) [
        | inr (known, e) ↦
            let first = lock_if_needed_known plan w e in
            let same : ok known ≡ ok id = rw first at locked in
            lock_if_needed_known plan' w' (rw same_read (e ∙ cc same))
        | inl e ↦ elim (Option-cases (vault_id_of (find_task plan.step.task_id w.tasks))) [
          | inr (fresh, g) ↦
              let first = lock_if_needed_fresh plan w e g in
              let same : ok fresh ≡ ok id = rw first at locked in
              lock_if_needed_fresh plan' w' (rw same_read e)
                (rw (same_row, tasks, first) (g ∙ cc same))
          | inl g ↦
              let sends = lock_if_needed_sends plan w e g in
              let r =
                create_task_with_policy env plan.delegate.public_key plan.task.budget
                  plan.commitment w.vault in
              let written = write_lock-vault_id plan r w f (rw sends at locked) in
              lock_if_needed_fresh plan' w' (rw same_read e) (rw (same_row, tasks, sends) written)
        ]
      ]

  release_at_unmoved :
      (plan : Plan) (n p : Bytes) (task tx : ℕ) (w : World V)
      → env.calls.release plan.delegate.public_key (release_params env plan task n p) w.vault
        ≡ (ok tx, w.vault)
      → release_at env plan n p (ok task, w) ≡ (ok tx, w)
  unfolding release_at
  release_at_unmoved plan n p task tx w e = rw e

  record_payment_taken :
      (plan : Plan) (tx : ℕ) (w : World V)
      → env.insert_fault (settle plan.step.id) w.now ≡ none
      → has_key (settle plan.step.id) w.payments ≡ true
      → finish env plan (ok tx, w)
        ≡ (skipped "already settled" (some plan.task.buyer_id) (some plan.step.task_id), w)
  unfolding finish record_payment
  record_payment_taken plan tx w e h = ground arith

  -- Two settlements of a step that have both read it as unpaid. If the first settles it, and the
  -- second then builds its proof, gets the lock and meets no fault of the database, the second
  -- reports the step as already settled and leaves the world as the first left it: on a vault
  -- that answers a repeated release of the same step, amount and payee with success and without
  -- effect the funds move once, and one payment is recorded.
  pub carry_out-race :
      (plan : Plan) (n n' : Bytes) (w w' : World V) (tx buyer task : ℕ) (provider : Option ℕ)
      (amount : ℕ) (name : Option String) (t : Task) (p : BindingProof)
      → IsIdempotent env.calls
      → find_task plan.step.task_id w.tasks ≡ some t
      → carry_out env plan n w ≡ (settled tx buyer task provider amount name, w')
      → build_binding_proof env.crypto (proof_input env plan n') ≡ some p
      → env.lock_timeout plan.delegate.public_key w'.now ≡ none
      → env.insert_fault (settle plan.step.id) w'.now ≡ none
      → carry_out env plan n' w'
        ≡ (skipped "already settled" (some plan.task.buyer_id) (some plan.step.task_id), w')
  carry_out-race plan n n' w w' tx buyer task provider amount name t p idem f e built free well =
      let paid = carry_out-Paid env plan n w w' e in
      let again = lock_if_needed-again plan plan w w' f refl refl paid.locked paid.kept_tasks in
      let (tx', released) =
        idem.again plan.delegate.public_key (release_params env plan paid.task n paid.proof.proof)
          (release_params env plan paid.task n' p.proof) (lock_if_needed env plan w).1.vault
          w'.vault tx refl refl refl refl paid.released in
      let taken : has_key (settle plan.step.id) w'.payments ≡ true =
        rw
          (
            paid.recorded,
            has_key-append (settle plan.step.id) (mirror_row env plan tx) w.payments,
            paid.new_key,
          )
          (same_key_refl (settle plan.step.id)) in
      rw
        (
          carry_out_proved env plan n' w' built,
          lock_and_release_free env plan n' p.proof w' free,
          again,
        )
        (rw (release_at_unmoved plan n' p.proof paid.task tx' w' released)
          (record_payment_taken plan tx' w' well taken))

  finish-HasDistinctKeys :
      (plan : Plan) (r : Outcome ℕ × World V)
      → HasDistinctKeys r.1.payments
      → HasDistinctKeys (finish env plan r).1.payments
  unfolding finish settle_failed record_payment
  finish-HasDistinctKeys plan (err e, w) h = ground arith
  finish-HasDistinctKeys plan (ok tx, w) h =
      ground (arith, HasDistinctKeys-append (mirror_row env plan tx) w.payments)

  carry_out-HasDistinctKeys :
      (plan : Plan) (n : Bytes) (w : World V)
      → HasDistinctKeys w.payments
      → HasDistinctKeys (carry_out env plan n w).1.payments
  carry_out-HasDistinctKeys plan n w h =
      elim (Option-cases (build_binding_proof env.crypto (proof_input env plan n))) [
        | inl e ↦ rw (carry_out_unproved env plan n w e) h
        | inr (p, e) ↦ rw (carry_out_proved env plan n w e) (
            finish-HasDistinctKeys plan (lock_and_release env plan n p.proof w)
              (rw (lock_and_release-SameRows env plan n p.proof w).same_payments h))
      ]

  settle_prepared-HasDistinctKeys :
      (q : Prepared) (n : Bytes) (w : World V)
      → HasDistinctKeys w.payments
      → HasDistinctKeys (settle_prepared env q n w).1.payments
  unfolding settle_prepared
  settle_prepared-HasDistinctKeys (stop r b t) n w h = h
  settle_prepared-HasDistinctKeys (proceed plan) n w h = carry_out-HasDistinctKeys plan n w h

  -- Whatever a settlement of any plan meets, it never records two payments under one key.
  pub settle_step-HasDistinctKeys :
      (id : ℕ) (n : Bytes) (w : World V)
      → HasDistinctKeys w.payments
      → HasDistinctKeys (settle_step env id n w).1.payments
  unfolding settle_step
  settle_step-HasDistinctKeys id n w h = settle_prepared-HasDistinctKeys (prepare env id w) n w h
