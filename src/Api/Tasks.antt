-- ===== src/Api/Tasks.antt =====
-- services/api/src/tasks/tasks.service.ts, `raiseDispute`, `approve` and `answerStep`: what a buyer
-- does to a running task.
pub mod Laws
use clevercon.Prelude.{
  ℕ, Bool, ◌&&◌, ◌||◌, Option, none, some, List, [], ◌∷◌, ◌++◌, String, ◌==◌, if◌then◌else◌, find,
  select, length, is_some, or_else,
}
use mathlib.Core.Option
use Prim.Native.String.{◌++◌ as ◌+++◌}
use clevercon.Json.{Json, get}
use clevercon.Store.Rows.{Task, TaskStatus, Step, StepStatus, step_is, Dispute, DisputeStatus}
use clevercon.Store.Tables.{World, Job, steps_of, update_task, update_step, open_disputes}
use clevercon.Worker.Env.{truthy_id}
use clevercon.Worker.Settle.Finalize.{still_open}
use clevercon.Service.Verify.{passed, deferred, refused, faulted, validate_schema}
use clevercon.Api.{
  Wallet, ApiError, bad_request, not_found, Result, ok, err, ◌>>=◌, ◌>>◌, guard, found, Handler,
  reads_then, ApiHost, enqueue, on_world,
}

-- `task.findFirst({ where: { id, buyerId } })`
unfoldable pub own_task : ℕ → ℕ → List Task → Option Task
own_task user id = find (λ (t : Task). t.id == id && t.buyer_id == user)

-- `wallet.findFirst({ where: { userId }, orderBy: { isPrimary: 'desc' } })`
abbrev pub primary_wallet : ℕ → List Wallet → Option ℕ
primary_wallet user ws =
    Option.map (λ (w : Wallet). w.address)
      (or_else (find (λ (w : Wallet). w.user_id == user && w.is_primary) ws)
        (find (λ (w : Wallet). w.user_id == user) ws))

abbrev pub raised_by : Option ℕ → ℕ → ℕ
raised_by none user = user
raised_by (some address) user = address

abbrev pub dispute_row : (fresh task raiser : ℕ) → Option String → Dispute
dispute_row fresh task raiser reason = record {
  id = fresh;
  task_id = task;
  raised_by = raiser;
  reason = reason;
  status = DisputeStatus.opened;
  provider_response = none;
  resolution = none;
  refund_to_user = none;
  payout_to_provider = none;
  resolved_at = none;
}

-- `raiseDispute`, with the id of the new row
unfoldable pub raise_dispute :
    {V : Type 0} → (user task : ℕ) → Option String → (fresh : ℕ) → Handler V ℕ
raise_dispute user task reason fresh =
    reads_then
      (λ s. do
        t ← found (own_task user task s.world.tasks) (not_found "Task not found")
        guard (open_disputes task s.world.disputes == 0)
            (bad_request "This task already has an open dispute"))
      λ _ s.
        let raiser = raised_by (primary_wallet user s.wallets) user in
        (
          ok fresh,
          on_world
              (λ w. record w { disputes = w.disputes ++ dispute_row fresh task raiser reason ∷ [] })
              s,
        )

abbrev pub is_held : Step → Bool
is_held s = step_is StepStatus.awaiting_approval s.status

abbrev pub released_row : Step → Step
released_row s = record s { status = StepStatus.released; release_at = none }

abbrev pub answered_row : Json → Step → Step
answered_row response s = record s { input_response = response }

-- `taskStep.findFirst({ where: { id, taskId } })`
unfoldable pub step_in : ℕ → ℕ → List Step → Option Step
step_in task step = find (λ (s : Step). s.id == step && s.task_id == task)

-- `validateAgainstSchema`, the service's copy of the workers' validator; a schema that makes the
-- validator throw is answered by an internal error
unfoldable pub check_answer : ApiHost → Json → Json → Result (Unit {0})
check_answer host response schema = elim (validate_schema host.js response schema) [
  | passed ↦ ok tt
  | deferred r ↦ ok tt
  | refused r ↦ err (bad_request ("answer does not match the question: " +++ r))
  | faulted ↦ err (ApiError.thrown host.js.type_error)
]

module _ (host : ApiHost) {V : Type 0} where
  -- the loop over the held steps
  unfoldable pub release_all : List Step → World V → World V
  release_all [] w = w
  release_all (s ∷ ss) w = release_all ss (
      enqueue host (Job.settle_step s.id)
        (record w { steps = update_step s.id released_row w.steps }))

  -- the completion of a task that is not locked
  unfoldable pub complete_unlocked : Task → World V → World V
  complete_unlocked t w =
      if is_some (truthy_id t.vault_task_id) || still_open (steps_of t.id w.steps)
      then w
      else record w {
        tasks = update_task t.id (λ t. record t { status = TaskStatus.completed }) w.tasks;
      }

  unfoldable pub approve_held : Task → List Step → World V → World V
  approve_held t [] w = w
  approve_held t held w = complete_unlocked t (release_all held w)

  -- `approve`, which answers the number of steps that it releases
  unfoldable pub approve : (user task : ℕ) → Handler V ℕ
  approve user task =
      reads_then (λ s. found (own_task user task s.world.tasks) (not_found "Task not found"))
        λ t s.
          let held = select is_held (steps_of task s.world.steps) in
          (ok (length held), on_world (approve_held t held) s)

  -- `answerStep`
  unfoldable pub answer_step : (user task step : ℕ) → Json → Handler V (Unit {0})
  answer_step user task step response =
      reads_then
        (λ s. do
          t ← found (own_task user task s.world.tasks) (not_found "Task not found")
          row ← found (step_in task step s.world.steps) (not_found "Step not found")
          guard (step_is StepStatus.input_required row.status)
              (bad_request "This step is not awaiting an answer")
          check_answer host response (get "schema" row.input_request))
        λ _ s. (
          ok tt,
          on_world
              (λ w.
                enqueue host (Job.poll_step step 0)
                  (record w { steps = update_step step (answered_row response) w.steps }))
              s,
        )
