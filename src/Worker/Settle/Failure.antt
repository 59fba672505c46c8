-- ===== src/Worker/Settle/Failure.antt =====
-- A settlement that fails: whether it is tried again, and whether it ends its task.
use clevercon.Prelude.{ℕ, ◌≡◌, Bool, true, not, none, some, arith}
use clevercon.Store.Rows.{Task, TaskStatus}
use clevercon.Store.Tables.{World, find_task}
use clevercon.Worker.Chain.{ChainError, is_deterministic}
use clevercon.Worker.Env.{Env, truthy_id}
use clevercon.Proof.Bytes.{Bytes}
use clevercon.Worker.Settle.{Plan, failed, settle_failed, vault_id_of}

abbrev fail : Task → Task
fail t = record t { status = TaskStatus.failed }

module _ {V : Type 0} (env : Env V) where
  -- The facts of a failure with this plan, from the world `w` to `w'`.
  pub record Failed (plan : Plan) (e : ChainError) (retryable task_failed : Bool) (w w' : World V)
      : Type 0 where
    pub retried : retryable ≡ not (is_deterministic e)
    pub unpaid : w'.payments ≡ w.payments
    pub ended : task_failed ≡ true → is_deterministic e ≡ true
    pub never_locked : task_failed ≡ true → truthy_id plan.task.vault_task_id ≡ none
    pub still_unlocked :
        task_failed ≡ true → vault_id_of (find_task plan.step.task_id w'.tasks) ≡ none
    pub marked :
        task_failed ≡ true
        → (t : Task) → find_task plan.step.task_id w'.tasks ≡ some t
        → t.status ≡ TaskStatus.failed

  -- With the task's id on its row, a failure leaves the tasks alone.
  settle_failed_locked :
      (plan : Plan) (e : ChainError) (w : World V) {id : ℕ}
      → vault_id_of (find_task plan.step.task_id w.tasks) ≡ some id
      → (settle_failed env plan e w).1 ≡ w
  unfolding settle_failed
  settle_failed_locked plan e w h = ground arith
