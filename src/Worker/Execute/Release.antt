-- ===== src/Worker/Execute/Release.antt =====
-- services/workers/src/executor.ts, `releaseHeldStep`: a held step is released when its dispute
-- window has passed without a dispute.
pub mod Laws
use clevercon.Prelude.{
  ℕ, Bool, true, false, not, ◌&&◌, ◌||◌, Option, none, some, List, String, ltb, if◌then◌else◌,
  is_some,
}
use Prim.Native.String.{◌++◌ as ◌+++◌}
use clevercon.Store.Rows.{Step, StepStatus, step_is, Task, TaskStatus, task_is}
use clevercon.Store.Tables.{World, Job, find_step, find_task, steps_of, open_disputes}
use clevercon.Worker.Env.{truthy_id}
use clevercon.Worker.Host.{Host, enqueue}
use clevercon.Worker.Execute.{write_step}
use clevercon.Worker.Execute.Task.{set_status}
use clevercon.Worker.Execute.Poll.{status_text}
use clevercon.Worker.Settle.Finalize.{still_open, is_final}

pub data ReleaseHeldResult : Type 0 where
  released : (buyer task : ℕ) → ReleaseHeldResult
  skipped : (reason : String) (buyer task : Option ℕ) → ReleaseHeldResult

module _ {V : Type 0} (host : Host V) where
  -- what follows the release: the settlement, or the completion of a task that is not locked
  unfoldable pub after_window : Step → Task → World V → World V
  after_window step task w =
      if is_some (truthy_id task.vault_task_id) && is_some step.service
      then enqueue host (Job.settle_step step.id) w
      else if still_open (steps_of task.id w.steps)
      then w
      else set_status host task.id TaskStatus.completed w

  unfoldable pub release_guarded : Step → Task → World V → ReleaseHeldResult × World V
  release_guarded step task w =
      if not (step_is StepStatus.awaiting_approval step.status)
      then (skipped "step not awaiting approval" (some task.buyer_id) (some task.id), w)
      else if is_final task.status
      then (skipped ("task " +++ status_text task.status) (some task.buyer_id) (some task.id), w)
      else if ltb 0 (open_disputes task.id w.disputes)
      then (skipped "dispute open" (some task.buyer_id) (some task.id), w)
      else (
        released task.buyer_id task.id,
        after_window step task (
            write_step host step.id
              (λ s. record s { status = StepStatus.released; release_at = none }) w),
      )

  -- `releaseHeldStep`
  unfoldable pub release_held_step : ℕ → World V → ReleaseHeldResult × World V
  release_held_step id w = elim (find_step id w.steps) [
    | none ↦ (skipped "step not found" none none, w)
    | some step ↦ elim (find_task step.task_id w.tasks) [
      | none ↦ (skipped "step has no task" none none, w)
      | some task ↦ release_guarded step task w
    ]
  ]
