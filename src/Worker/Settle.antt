-- ===== src/Worker/Settle.antt =====
-- services/workers/src/settlement.ts, `settleStep`: one released step is paid by a proof-gated
-- release from the vault, and the payment is recorded.
-- A call on the vault is a transaction of the delegate: its outcome and the vault's next state
-- are a parameter, as are the Redis lock's time-outs, the database's faults on the insertion of a
-- payment, and what Node and the Stellar SDK compute.
pub mod Finalize
pub mod Batch
pub mod Frame
pub mod Once
pub mod Replay
pub mod Race
pub mod Failure
use clevercon.Prelude.{
  ℕ, zero, suc, Bool, true, false, not, ◌&&◌, Option, none, some, List, [], ◌∷◌, ◌++◌, String, ◌==◌,
  if◌then◌else◌, or_else, any, is_some,
}
use text.Mathlib.Text.{◌==◌ as str_eq}
use clevercon.Store.Rows.{
  Step, StepStatus, step_is, Task, TaskStatus, Policy, Service, Payment, PaymentMethod,
  PaymentStatus, PaymentKey, Delegate, is_vault_release,
}
use clevercon.Store.Rows.PaymentKey.{settle}
use clevercon.Store.Tables.{World, find_step, find_task, find_delegate, update_task, has_key}
use clevercon.Worker.Env.{
  ReleaseParams, VaultCalls, Env, truthy_id, nonempty, create_task_with_policy,
  settlement_configured, with_delegate,
}
use clevercon.Worker.Chain.{
  ChainError, Outcome, ok, err, no_task_id, thrown, Completion, is_deterministic,
}
use clevercon.Proof.Bytes.{Bytes}
use clevercon.Proof.Inputs.{Crypto, Field}
use clevercon.Proof.Binding.{BindingProofInput, BindingProof, build_binding_proof}

pub data SettleResult : Type 0 where
  settled :
      (tx_hash buyer task : ℕ) (provider : Option ℕ) (amount : ℕ) (service : Option String)
      → SettleResult
  skipped : (reason : String) (buyer task : Option ℕ) → SettleResult
  failed :
      (reason : ChainError) (buyer : ℕ) (task : Option ℕ) (retryable task_failed : Bool)
      → SettleResult
  -- `buildBindingProof` throws out of the call
  threw : SettleResult

-- What the reads of the first half give to the second.
pub record Plan : Type 0 where
  pub step : Step
  pub task : Task
  pub commitment : String
  pub payee : ℕ
  pub delegate : Delegate

pub data Prepared : Type 0 where
  stop : (reason : String) (buyer task : Option ℕ) → Prepared
  proceed : Plan → Prepared

abbrev pub payee_of : Step → Option ℕ
payee_of s = or_else s.payee (elim s.service [ none ↦ none | some v ↦ v.stellar_address ])

abbrev pub commitment_of : Task → Option String
commitment_of t = elim t.policy [ none ↦ none | some p ↦ nonempty p.commitment ]

abbrev pub names_step : Option ℕ → ℕ → Bool
names_step none step = false
names_step (some i) step = i == step

-- `prisma.payment.findFirst({ where: { stepId, method: VAULT_RELEASE } })`
unfoldable pub settled_payment : ℕ → List Payment → Bool
settled_payment step = any (λ (p : Payment). names_step p.step_id step && is_vault_release p.method)

abbrev pub buyer_of : Option Task → Option ℕ
buyer_of none = none
buyer_of (some t) = some t.buyer_id

abbrev pub provider_of : Step → Option ℕ
provider_of s = elim s.service [ none ↦ none | some v ↦ v.provider_id ]

abbrev pub service_name_of : Step → Option String
service_name_of s = elim s.service [ none ↦ none | some v ↦ some v.name ]

abbrev pub vault_id_of : Option Task → Option ℕ
vault_id_of none = none
vault_id_of (some t) = truthy_id t.vault_task_id

-- `if (!vaultTaskId) throw …`
abbrev require_id : Option ℕ → Outcome ℕ
require_id none = err no_task_id
require_id (some id) = ok id

-- An early return of a step's settlement.
abbrev or_skip : {A : Type 0} → Option A → Prepared → (A → Prepared) → Prepared
or_skip none r k = r
or_skip (some a) r k = k a

abbrev skip_unless : Bool → Prepared → Prepared → Prepared
skip_unless true r k = k
skip_unless false r k = r

module _ {V : Type 0} (env : Env V) where
  -- the reads that come after the step and its task
  unfoldable pub prepare_step : Step → Option Task → World V → Prepared
  prepare_step step found w =
      let buyer = buyer_of found in
      skip_unless (step_is StepStatus.released step.status) (stop "step not released" buyer none) (
        or_skip found (stop "step has no task" buyer none) λ task.
          or_skip (commitment_of task) (stop "task has no policy commitment" buyer none)
            λ commitment. or_skip (payee_of step) (stop "step has no payee" buyer none) λ payee.
              skip_unless (settlement_configured env) (stop "settlement not configured" buyer none)
                (or_skip (find_delegate task.buyer_id w.delegates)
                  (stop "buyer has no delegate" buyer none)
                  λ delegate.
                    if settled_payment step.id w.payments
                    then stop "already settled" buyer (some step.task_id)
                    else proceed (record {
                      step = step;
                      task = task;
                      commitment = commitment;
                      payee = payee;
                      delegate = delegate;
                    })))

  -- the code up to the fast path, which only reads
  unfoldable pub prepare : ℕ → World V → Prepared
  prepare id w =
      or_skip (find_step id w.steps) (stop "step not found" none none)
        λ step. prepare_step step (find_task step.task_id w.tasks) w

  -- The lazy lock: the id that the reads found, the id that another settlement has written
  -- meanwhile, or that of a new lock, which is written.
  unfoldable pub write_lock : Plan → Outcome ℕ × V → World V → Outcome ℕ × World V
  write_lock plan (err e, v) w = (err e, record w { vault = v })
  write_lock plan (ok id, v) w =
      let tasks =
        update_task plan.step.task_id (λ t. record t { vault_task_id = some id }) w.tasks in
      (require_id (truthy_id (some id)), record w { vault = v; tasks = tasks })

  unfoldable pub lock_if_needed : Plan → World V → Outcome ℕ × World V
  lock_if_needed plan w = elim (truthy_id plan.task.vault_task_id) [
    | some id ↦ (ok id, w)
    | none ↦ elim (vault_id_of (find_task plan.step.task_id w.tasks)) [
      | some id ↦ (ok id, w)
      | none ↦
          write_lock plan
            (create_task_with_policy env plan.delegate.public_key plan.task.budget plan.commitment
              w.vault)
            w
    ]
  ]

  -- the release, once the task has an id
  unfoldable pub release_at : Plan → Bytes → Bytes → Outcome ℕ × World V → Outcome ℕ × World V
  release_at plan nullifier proof (err e, w) = (err e, w)
  release_at plan nullifier proof (ok task, w) =
      let (r, v) =
        env.calls.release plan.delegate.public_key
          (record {
            task_id = task;
            step_id = plan.step.index;
            amount = plan.step.estimated_cost;
            payee = plan.payee;
            nullifier = nullifier;
            proof = proof;
          })
          w.vault in
      (r, record w { vault = v })

  -- the serialised section
  unfoldable pub lock_and_release : Plan → Bytes → Bytes → World V → Outcome ℕ × World V
  lock_and_release plan nullifier proof w =
      with_delegate env plan.delegate.public_key (λ msg. err (thrown msg))
        (λ w. release_at plan nullifier proof (lock_if_needed plan w)) w

  -- the `catch` of the serialised section
  unfoldable pub settle_failed : Plan → ChainError → World V → SettleResult × World V
  settle_failed plan e w =
      let never_locked =
        is_deterministic e
        && not (is_some (truthy_id plan.task.vault_task_id))
        && not (is_some (vault_id_of (find_task plan.step.task_id w.tasks))) in
      let tasks =
        update_task plan.step.task_id (λ t. record t { status = TaskStatus.failed }) w.tasks in
      (
        failed e plan.task.buyer_id (some plan.step.task_id) (not (is_deterministic e))
            never_locked,
        if never_locked then record w { tasks = tasks } else w,
      )

  abbrev pub mirror_row : Plan → ℕ → Payment
  mirror_row plan tx = record {
    task_id = plan.step.task_id;
    step_id = some plan.step.id;
    to_address = plan.payee;
    amount = plan.step.estimated_cost;
    method = PaymentMethod.vault_release;
    status = PaymentStatus.confirmed;
    tx_hash = tx;
    key = settle plan.step.id;
  }

  -- the insertion of the payment
  unfoldable pub record_payment : Plan → ℕ → World V → SettleResult × World V
  record_payment plan tx w = elim (env.insert_fault (settle plan.step.id) w.now) [
    | some msg ↦ (failed (thrown msg) plan.task.buyer_id none true false, w)
    | none ↦
        if has_key (settle plan.step.id) w.payments
        then (skipped "already settled" (some plan.task.buyer_id) (some plan.step.task_id), w)
        else (
          settled tx plan.task.buyer_id plan.step.task_id (provider_of plan.step)
              plan.step.estimated_cost (service_name_of plan.step),
          record w { payments = w.payments ++ mirror_row plan tx ∷ [] },
        )
  ]

  unfoldable pub finish : Plan → Outcome ℕ × World V → SettleResult × World V
  finish plan (ok tx, w) = record_payment plan tx w
  finish plan (err e, w) = settle_failed plan e w

  abbrev pub proof_input : Plan → Bytes → BindingProofInput
  proof_input plan nullifier = record {
    commitment = Field.hex plan.commitment;
    payee = plan.payee;
    amount = plan.step.estimated_cost;
    nullifier = Field.buffer nullifier;
    grand_product_eval = none;
    selector_evals_hash = none;
    shifted_opening_eval = none;
  }

  -- the second half, which acts; other workers may have acted since the reads
  unfoldable pub carry_out : Plan → Bytes → World V → SettleResult × World V
  carry_out plan nullifier w = elim (build_binding_proof env.crypto (proof_input plan nullifier)) [
    | none ↦ (threw, w)
    | some p ↦ finish plan (lock_and_release plan nullifier p.proof w)
  ]

  unfoldable pub settle_prepared : Prepared → Bytes → World V → SettleResult × World V
  settle_prepared (stop r buyer task) nullifier w = (skipped r buyer task, w)
  settle_prepared (proceed plan) nullifier w = carry_out plan nullifier w

  -- `settleStep`, with the nullifier that it draws
  unfoldable pub settle_step : ℕ → Bytes → World V → SettleResult × World V
  settle_step id nullifier w = settle_prepared (prepare id w) nullifier w
