-- ===== src/Worker/Settle/Replay.antt =====
-- Settling again: a step that was settled is skipped, and a lock that was taken is used.
use clevercon.Prelude.{
  ℕ, ◌≡◌, refl, sym, ◌∙◌, ◌⊎◌, true, false, Option, none, some, List, [], ◌∷◌, ◌++◌, arith,
  Option-cases, inl, inr, String,
}
use clevercon.Store.Rows.{Step, StepStatus, step_is, Task, Payment}
use clevercon.Store.Tables.{World, find_task, find_step, find_delegate}
use clevercon.Store.Tables.Laws.{find_task-update}
use clevercon.Worker.Chain.{Outcome, ok, err}
use clevercon.Worker.Env.{Env, truthy_id, settlement_configured, create_task_with_policy}
use clevercon.Proof.Bytes.{Bytes}
use clevercon.Worker.Settle.{
  Plan, stop, proceed, settled, skipped, prepare, prepare_step, lock_if_needed, write_lock,
  mirror_row, settle_prepared, settle_step, vault_id_of, commitment_of, payee_of, settled_payment,
}
use clevercon.Worker.Settle.Once.{Paid, settle_step-Paid}

module _ {V : Type 0} (env : Env V) where
  -- What the reads have found, when they give a plan.
  pub record Found (plan : Plan) (id : ℕ) (w : World V) : Type 0 where
    pub step_found : find_step id w.steps ≡ some plan.step
    pub step_released : step_is StepStatus.released plan.step.status ≡ true
    pub task_found : find_task plan.step.task_id w.tasks ≡ some plan.task
    pub has_commitment : commitment_of plan.task ≡ some plan.commitment
    pub has_payee : payee_of plan.step ≡ some plan.payee
    pub configured : settlement_configured env ≡ true
    pub has_delegate : find_delegate plan.task.buyer_id w.delegates ≡ some plan.delegate
    pub unpaid : settled_payment plan.step.id w.payments ≡ false

  prepare_step-Found :
      (step : Step) (found : Option Task) (id : ℕ) (w : World V) (plan : Plan)
      → find_step id w.steps ≡ some step
      → find_task step.task_id w.tasks ≡ found
      → prepare_step env step found w ≡ proceed plan
      → Found plan id w
  unfolding prepare_step
  prepare_step-Found step found id w plan s t e = ground arith

  prepare_missing :
      (id : ℕ) (w : World V)
      → find_step id w.steps ≡ none
      → prepare env id w ≡ stop "step not found" none none
  unfolding prepare
  prepare_missing id w e = rw (e, prepare)

  prepare_found :
      (id : ℕ) (w : World V) {s : Step}
      → find_step id w.steps ≡ some s
      → prepare env id w ≡ prepare_step env s (find_task s.task_id w.tasks) w
  unfolding prepare
  prepare_found id w e = rw (e, prepare)

  pub prepare-Found :
      (id : ℕ) (w : World V) (plan : Plan) → prepare env id w ≡ proceed plan → Found plan id w
  prepare-Found id w plan e = elim (Option-cases (find_step id w.steps)) [
    | inl missing ↦ cc (prepare_missing id w missing)
    | inr (s, found) ↦
        prepare_step-Found s (find_task s.task_id w.tasks) id w plan found refl
          (sym (prepare_found id w found) ∙ e)
  ]

  -- The row of the task after the serialised section: its policy and its buyer are the same.
  pub record TaskKept (t : Task) (k : ℕ) (w' : World V) : Type 0 where
    pub row : Task
    pub still_found : find_task k w'.tasks ≡ some row
    pub same_policy : row.policy ≡ t.policy
    pub same_buyer : row.buyer_id ≡ t.buyer_id
    pub same_status : row.status ≡ t.status

  write_lock-TaskKept :
      (plan : Plan) (r : Outcome ℕ × V) (w : World V) (t : Task)
      → find_task plan.step.task_id w.tasks ≡ some t
      → TaskKept t plan.step.task_id (write_lock env plan r w).1
  unfolding write_lock
  write_lock-TaskKept plan (err e, v) w t f = record {
    row = t;
    still_found = f;
    same_policy = refl;
    same_buyer = refl;
    same_status = refl;
  }
  write_lock-TaskKept plan (ok id, v) w t f = record {
    row = record t { vault_task_id = some id };
    still_found = find_task-update plan.step.task_id _ w.tasks (λ t. refl) f;
    same_policy = refl;
    same_buyer = refl;
    same_status = refl;
  }

  -- The id is at hand, or a lock is sent.
  lock_if_needed_cases :
      (plan : Plan) (w : World V)
      → ((id : ℕ) × (lock_if_needed env plan w ≡ (ok id, w)))
        ⊎ (lock_if_needed env plan w
            ≡ write_lock env plan
                (create_task_with_policy env plan.delegate.public_key plan.task.budget
                  plan.commitment w.vault)
                w)
  unfolding lock_if_needed
  lock_if_needed_cases plan w = elim (Option-cases (truthy_id plan.task.vault_task_id)) [
    | inr (id, e) ↦ inl (id, rw (e, lock_if_needed))
    | inl e ↦ elim (Option-cases (vault_id_of (find_task plan.step.task_id w.tasks))) [
      | inr (id, f) ↦ inl (id, rw (e, f, lock_if_needed))
      | inl f ↦ inr (rw (e, f, lock_if_needed))
    ]
  ]

  pub lock_if_needed-TaskKept :
      (plan : Plan) (w : World V) (t : Task)
      → find_task plan.step.task_id w.tasks ≡ some t
      → TaskKept t plan.step.task_id (lock_if_needed env plan w).1
  lock_if_needed-TaskKept plan w t f = elim (lock_if_needed_cases plan w) [
    | inl (id, e) ↦ rw e (record {
      row = t;
      still_found = f;
      same_policy = refl;
      same_buyer = refl;
      same_status = refl;
    })
    | inr e ↦ rw e (
        write_lock-TaskKept plan
          (create_task_with_policy env plan.delegate.public_key plan.task.budget plan.commitment
            w.vault)
          w t f)
  ]

  settled_payment-mirror :
      (plan : Plan) (tx : ℕ) (ps : List Payment)
      → settled_payment plan.step.id (ps ++ mirror_row env plan tx ∷ []) ≡ true
  unfolding settled_payment
  settled_payment-mirror plan tx [] = ground arith
  settled_payment-mirror plan tx (p ∷ ps) = ground (arith, settled_payment-mirror plan tx ps)

  -- With the plan's rows in place and a payment of its step, the reads end at the fast path.
  prepare_step_again :
      (plan : Plan) (t : Task) (w : World V)
      → step_is StepStatus.released plan.step.status ≡ true
      → t.policy ≡ plan.task.policy
      → t.buyer_id ≡ plan.task.buyer_id
      → commitment_of plan.task ≡ some plan.commitment
      → payee_of plan.step ≡ some plan.payee
      → settlement_configured env ≡ true
      → find_delegate plan.task.buyer_id w.delegates ≡ some plan.delegate
      → settled_payment plan.step.id w.payments ≡ true
      → prepare_step env plan.step (some t) w
        ≡ stop "already settled" (some plan.task.buyer_id) (some plan.step.task_id)
  unfolding prepare_step
  prepare_step_again plan t w h1 h2 h3 h4 h5 h6 h7 h8 = ground arith

  prepare_again :
      (plan : Plan) (id : ℕ) (w w' : World V) {n : Bytes} {tx buyer task amount : ℕ}
      → Paid env plan n tx buyer task amount w w'
      → Found plan id w
      → prepare env id w'
        ≡ stop "already settled" (some plan.task.buyer_id) (some plan.step.task_id)
  prepare_again plan id w w' {tx} paid f =
      let kept = lock_if_needed-TaskKept plan w plan.task f.task_found in
      let found_step : find_step id w'.steps ≡ some plan.step = rw paid.kept_steps f.step_found in
      let found_task : find_task plan.step.task_id w'.tasks ≡ some kept.row =
        rw paid.kept_tasks kept.still_found in
      let delegates : find_delegate plan.task.buyer_id w'.delegates ≡ some plan.delegate =
        rw paid.kept_delegates f.has_delegate in
      let is_paid : settled_payment plan.step.id w'.payments ≡ true =
        rw paid.recorded (settled_payment-mirror plan tx w.payments) in
      rw (prepare_found id w' found_step, found_task)
        (prepare_step_again plan kept.row w' f.step_released kept.same_policy kept.same_buyer
          f.has_commitment f.has_payee f.configured delegates is_paid)

  -- A step that has been settled is skipped when its settlement runs again, with any nullifier,
  -- and the second run changes nothing: no transaction is sent and no row is written.
  pub settle_step-replay :
      (id : ℕ) (n n' : Bytes) (w w' : World V) (tx buyer task : ℕ) (provider : Option ℕ)
      (amount : ℕ) (name : Option String)
      → settle_step env id n w ≡ (settled tx buyer task provider amount name, w')
      → settle_step env id n' w' ≡ (skipped "already settled" (some buyer) (some task), w')
  unfolding settle_step settle_prepared
  settle_step-replay id n n' w w' tx buyer task provider amount name e =
      let (plan, prepared, paid) =
        settle_step-Paid env id n w w' tx buyer task provider amount name e in
      let again = prepare_again plan id w w' paid (prepare-Found id w plan prepared) in
      rw (again, paid.reported.0, paid.reported.1) refl
