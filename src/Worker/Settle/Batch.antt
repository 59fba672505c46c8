-- ===== src/Worker/Settle/Batch.antt =====
-- `settleBatch` and `recordBatchActivity` of services/workers/src/settlement.ts: a batch that the
-- client proved is released in one transaction, under a task that is locked for it if need be,
-- and completed at once. `fresh` is the id that the database gives to a new task's row.
pub mod Laws
pub mod Rollback
use clevercon.Prelude.{
  ℕ, zero, suc, ◌+◌, Bool, true, false, not, ◌&&◌, Option, none, some, List, [], ◌∷◌, ◌++◌, String,
  ◌==◌, if◌then◌else◌, any, find,
}
use clevercon.Store.Rows.{
  Task, TaskMode, TaskStatus, TaskKey, Payment, PaymentKey, PaymentMethod, PaymentStatus, Delegate,
}
use clevercon.Store.Tables.{World, find_delegate, same_key, has_key}
use clevercon.Worker.Chain.{ChainError, Outcome, ok, err, thrown, Completion}
use clevercon.Worker.Env.{
  Env, BatchParams, settlement_configured, with_delegate, create_task_with_policy,
}
use clevercon.Worker.Settle.Finalize.{complete_call}
use clevercon.Proof.Bytes.{Bytes}

pub record BatchSettlePayload : Type 0 where
  pub buyer_id : ℕ
  pub vault_task_id : Option ℕ
  pub commitment_hex : String
  pub plan_cost : ℕ
  pub step_id : ℕ
  pub payees : List ℕ
  pub amounts : List ℕ
  pub nullifiers : List Bytes
  pub valid_after : ℕ
  pub valid_before : ℕ
  pub reset_r2 : Bool
  pub reset_r7 : Bool
  pub proof : Bytes × Bytes × Bytes

pub data BatchResult : Type 0 where
  settled : (tx_hash buyer : ℕ) → BatchResult
  skipped : (reason : String) (buyer : ℕ) → BatchResult
  failed : (reason : ChainError) (buyer : ℕ) (retryable : Bool) → BatchResult

abbrev pub sum : List ℕ → ℕ
sum [] = 0
sum (a ∷ as') = a + sum as'

abbrev same_task_key : Option TaskKey → TaskKey → Bool
same_task_key (some (TaskKey.batch a b)) (TaskKey.batch a' b') = a == a' && b == b'
same_task_key _ _ = false

abbrev pub is_batch_row : BatchSettlePayload → Task → Bool
is_batch_row p t =
    t.buyer_id == p.buyer_id && same_task_key t.idempotency_key (TaskKey.batch p.buyer_id p.step_id)

abbrev pub batch_status : Option ℕ → TaskStatus
batch_status none = TaskStatus.failed
batch_status (some tx) = TaskStatus.completed

abbrev pub stamp : Option ℕ → ℕ → Option ℕ
stamp none time = none
stamp (some tx) time = some time

-- the row that the upsert creates; the outcome is the transaction's hash, or none
abbrev pub batch_row : BatchSettlePayload → Option ℕ → (fresh time : ℕ) → Task
batch_row p outcome fresh time = record {
  id = fresh;
  buyer_id = p.buyer_id;
  mode = TaskMode.disburse;
  budget = sum p.amounts;
  status = batch_status outcome;
  vault_task_id = p.vault_task_id;
  vault_finalized_at = stamp outcome time;
  policy = none;
  idempotency_key = some (TaskKey.batch p.buyer_id p.step_id);
}

-- `prisma.task.upsert` of the batch's task. It returns the row's id.
unfoldable pub upsert_batch_task :
    BatchSettlePayload → Option ℕ → (fresh time : ℕ) → List Task → ℕ × List Task
upsert_batch_task p outcome fresh time [] = (fresh, batch_row p outcome fresh time ∷ [])
upsert_batch_task p outcome fresh time (t ∷ ts) =
    let row = record t { status = batch_status outcome; vault_finalized_at = stamp outcome time } in
    let rest = upsert_batch_task p outcome fresh time ts in
    if is_batch_row p t then (t.id, row ∷ ts) else (rest.0, t ∷ rest.1)

abbrev leg_row : BatchSettlePayload → (task tx i payee amount : ℕ) → Payment
leg_row p task tx i payee amount = record {
  task_id = task;
  step_id = none;
  to_address = payee;
  amount = amount;
  method = PaymentMethod.vault_release;
  status = PaymentStatus.confirmed;
  tx_hash = tx;
  key = PaymentKey.batch p.buyer_id p.step_id i;
}

-- `prisma.payment.upsert`
unfoldable pub upsert_leg : Payment → List Payment → List Payment
upsert_leg row [] = row ∷ []
upsert_leg row (q ∷ ps) =
    if same_key q.key row.key
    then record q { status = row.status; tx_hash = row.tx_hash } ∷ ps
    else q ∷ upsert_leg row ps

-- the loop over the legs; a leg without an amount is refused by the database and ends it
unfoldable pub upsert_legs :
    BatchSettlePayload → (task tx i : ℕ) → List ℕ → List ℕ → List Payment → List Payment
upsert_legs p task tx i (payee ∷ payees) (amount ∷ amounts) ps =
    upsert_legs p task tx (i + 1) payees amounts (upsert_leg (leg_row p task tx i payee amount) ps)
upsert_legs p task tx i _ _ ps = ps

abbrev pub log_legs : BatchSettlePayload → (task : ℕ) → Option ℕ → List Payment → List Payment
log_legs p task none ps = ps
log_legs p task (some tx) ps = upsert_legs p task tx 0 p.payees p.amounts ps

unfoldable pub record_batch_activity :
    {V : Type 0} → BatchSettlePayload → Option ℕ → (fresh : ℕ) → World V → World V
record_batch_activity p outcome fresh w =
    let (task, tasks) = upsert_batch_task p outcome fresh w.now w.tasks in
    record w { tasks = tasks; payments = log_legs p task outcome w.payments }

module _ {V : Type 0} (env : Env V) where
  abbrev pub batch_params : BatchSettlePayload → ℕ → BatchParams
  batch_params p task = record {
    task_id = task;
    step_id = p.step_id;
    payees = p.payees;
    amounts = p.amounts;
    nullifiers = p.nullifiers;
    valid_after = p.valid_after;
    valid_before = p.valid_before;
    reset_r2 = p.reset_r2;
    reset_r7 = p.reset_r7;
    proof = p.proof;
  }

  -- after the release: the task is completed, to unlock its budget, or the lock that was taken
  -- for it is rolled back; either is tried once, and its outcome is not looked at
  unfoldable pub after_release :
      Delegate → (task : ℕ) → (locked_here : Bool) → Outcome ℕ × V → World V → Outcome ℕ × World V
  after_release d task locked_here (ok hash, v) w =
      (ok hash, (complete_call env d task (record w { vault = v })).1)
  after_release d task true (err e, v) w =
      (err e, (complete_call env d task (record w { vault = v })).1)
  after_release d task false (err e, v) w = (err e, record w { vault = v })

  unfoldable pub release_locked :
      BatchSettlePayload
      → Delegate
      → (task : ℕ) → (locked_here : Bool) → World V
      → Outcome ℕ × World V
  release_locked p d task locked_here w =
      after_release d task locked_here
        (env.calls.release_batch d.public_key (batch_params p task) w.vault) w

  abbrev pub with_lock :
      BatchSettlePayload → Delegate → Outcome ℕ × V → World V → Outcome ℕ × World V
  with_lock p d (err e, v) w = (err e, record w { vault = v })
  with_lock p d (ok task, v) w = release_locked p d task true (record w { vault = v })

  -- the serialised section
  unfoldable pub run_batch : BatchSettlePayload → Delegate → World V → Outcome ℕ × World V
  run_batch p d w = elim p.vault_task_id [
    | some task ↦ release_locked p d task false w
    | none ↦
        with_lock p d
          (create_task_with_policy env d.public_key p.plan_cost p.commitment_hex w.vault) w
  ]

  unfoldable pub finish_batch :
      BatchSettlePayload → (fresh : ℕ) → Outcome ℕ × World V → BatchResult × World V
  finish_batch p fresh (ok tx, w) =
      (settled tx p.buyer_id, record_batch_activity p (some tx) fresh w)
  finish_batch p fresh (err e, w) =
      (failed e p.buyer_id false, record_batch_activity p none fresh w)

  unfoldable pub settle_batch : BatchSettlePayload → (fresh : ℕ) → World V → BatchResult × World V
  settle_batch p fresh w =
      if not (settlement_configured env)
      then (skipped "settlement not configured" p.buyer_id, w)
      else elim (find_delegate p.buyer_id w.delegates) [
        | none ↦ (skipped "buyer has no delegate" p.buyer_id, w)
        | some d ↦
            finish_batch p fresh
              (with_delegate env d.public_key (λ msg. err (thrown msg)) (run_batch p d) w)
      ]
