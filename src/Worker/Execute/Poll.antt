-- ===== src/Worker/Execute/Poll.antt =====
-- services/workers/src/executor.ts, `pollStep`: a parked step is advanced by its provider's next
-- reply, or fails at its deadline. Nothing else runs between its reads and its writes.
pub mod Laws
use clevercon.Prelude.{
  ℕ, ◌+◌, ◌-◌, ◌*◌, Bool, true, false, not, ◌&&◌, ◌||◌, Option, none, some, List, String, ltb,
  if◌then◌else◌, or_else,
}
use clevercon.Prelude.Int.{ℤ}
use Prim.Native.String.{◌++◌ as ◌+++◌}
use clevercon.Json.{Json, undefined, null, num, str, Props, end, prop, get, truthy, is_text}
use clevercon.Store.Rows.{Step, StepStatus, step_is, Task, TaskStatus, task_is}
use clevercon.Store.Tables.{World, Job, find_step, find_task}
use clevercon.Worker.Host.{
  Host, Reply, lost, response, enqueue, async_max_seconds, dispute_window_seconds,
}
use clevercon.Worker.Execute.{
  Thrown, good, thrown, endpoint_of, input_of, parse_result_envelope, build_request, write_step,
  finalize_delivery, handle_text, progress_of, poll_job, fail_step, rejection, is_rejected,
}
use clevercon.Worker.Execute.Task.{is_terminal}

pub data PollStatus : Type 0 where
  working input_required held completed failed : PollStatus

pub data PollStepResult : Type 0 where
  advanced : PollStatus → (reason : Option String) → PollStepResult
  skipped : (reason : String) → PollStepResult

-- `task.status.toLowerCase()`
abbrev pub status_text : TaskStatus → String
status_text TaskStatus.draft = "draft"
status_text TaskStatus.pending = "pending"
status_text TaskStatus.running = "running"
status_text TaskStatus.completed = "completed"
status_text TaskStatus.cancelled = "cancelled"
status_text TaskStatus.disputed = "disputed"
status_text TaskStatus.failed = "failed"

abbrev pub is_waiting : Step → Bool
is_waiting step =
    step_is StepStatus.running step.status || step_is StepStatus.input_required step.status

abbrev pub has_answer : Step → Bool
has_answer step = step_is StepStatus.input_required step.status && truthy step.input_response

abbrev handle_json : Option String → Json
handle_json none = undefined
handle_json (some s) = str s

module _ {V : Type 0} (host : Host V) where
  abbrev pub is_overdue : Step → World V → Bool
  is_overdue step w = ltb (async_max_seconds host * 1000) (w.now - step.created_at)

  -- the step fails, and its task is queued again
  unfoldable pub give_up : Step → (message : String) (latency : Option ℕ) → World V → World V
  give_up step message latency w =
      enqueue host (Job.execute step.task_id) (fail_step host step message latency w)

  -- the request, a poll or the answer to the provider's question
  unfoldable pub poll_request : Step → World V → Json
  poll_request step w = build_request host.js step step.task_id w.now (
      if has_answer step
      then prop "kind" (str "answer") (
          prop "handle" (handle_json step.provider_job_handle) (
            prop "requestId" (get "requestId" step.input_request)
              (prop "inputResponse" step.input_response end)))
      else prop "kind" (str "poll") (prop "handle" (handle_json step.provider_job_handle) end))

  -- the outer `catch`: a failure of the request, or of the database
  abbrev pub retry : Step → (reason : Option String) → World V → PollStepResult × World V
  retry step reason w = (advanced working reason, enqueue host (poll_job host step) w)

  unfoldable pub still_working : Step → (envelope : Json) → World V → PollStepResult × World V
  still_working step envelope w = elim (handle_text host (get "handle" envelope)) [
    | thrown e ↦ retry step (some "poll network error") w
    | good handle ↦ (
      advanced working none,
      enqueue host (poll_job host step) (
          write_step host step.id
            (λ s. record s {
              status = StepStatus.running;
              provider_job_handle = or_else handle step.provider_job_handle;
              progress = progress_of host envelope;
              input_request = null;
              input_response = null;
              error = none;
            })
            w),
    )
  ]

  unfoldable pub ask_again :
      Step → (envelope : Json) (took : ℕ) → World V → PollStepResult × World V
  ask_again step envelope took w =
      if not (truthy (get "inputRequest" envelope))
      then (
        advanced failed (some "malformed input_required"),
        give_up step "input_required without an inputRequest" (some took) w,
      )
      else elim (handle_text host (get "handle" envelope)) [
        | thrown e ↦ retry step (some "poll network error") w
        | good handle ↦ (
          advanced input_required none,
          enqueue host (poll_job host step) (
              write_step host step.id
                (λ s. record s {
                  status = StepStatus.input_required;
                  input_request = get "inputRequest" envelope;
                  input_response = null;
                  provider_job_handle = or_else handle step.provider_job_handle;
                  progress = progress_of host envelope;
                  error = none;
                })
                w),
        )
      ]

  unfoldable pub delivered :
      Step → (took : ℕ) → Thrown StepStatus × World V → PollStepResult × World V
  delivered step took (thrown e, w) = (advanced failed none, give_up step e (some took) w)
  delivered step took (good status, w) = (
    advanced (if step_is StepStatus.awaiting_approval status then held else completed) none,
    enqueue host (Job.execute step.task_id) w,
  )

  unfoldable pub on_poll_text :
      Step → Task → (text : String) (took : ℕ) → World V → PollStepResult × World V
  on_poll_text step task text took w =
      let raw = host.js.take 8000 text in
      let envelope = parse_result_envelope host.js raw w.now in
      if is_text "working" (get "status" envelope)
      then still_working step envelope w
      else if is_text "input_required" (get "status" envelope)
      then ask_again step envelope took w
      else if is_rejected host envelope
      then (advanced failed none, give_up step (rejection host envelope) (some took) w)
      else delivered step took (
          finalize_delivery host step task.vault_task_id (input_of step) envelope raw took
            (dispute_window_seconds host) w)

  unfoldable pub on_poll_reply : Step → Task → Reply → World V → PollStepResult × World V
  on_poll_reply step task (lost took) w =
      retry step (some "poll network error") (record w { now = w.now + took })
  on_poll_reply step task (response took code is_ok text) w =
      let w = record w { now = w.now + took } in
      if not is_ok
      then retry step (some ("provider HTTP " +++ host.js.show (num (ℤ.pos code)))) w
      else elim text [
        | none ↦ retry step (some "poll network error") w
        | some t ↦ on_poll_text step task t took w
      ]

  -- the call of the provider, or the wait for an answer
  abbrev pub poll_endpoint : Step → Task → Option String → World V → PollStepResult × World V
  poll_endpoint step task none w =
      (advanced failed (some "no endpoint"), give_up step "no provider endpoint" none w)
  poll_endpoint step task (some endpoint) w =
      if step_is StepStatus.input_required step.status && not (truthy step.input_response)
      then (advanced input_required (some "awaiting answer"), enqueue host (poll_job host step) w)
      else on_poll_reply step task (host.fetch endpoint (poll_request step w) w.now) w

  -- the part after the guards on the task and on the step's status
  unfoldable pub poll_waiting : Step → Task → World V → PollStepResult × World V
  poll_waiting step task w =
      if is_overdue step w
      then (
        advanced failed (some "deadline exceeded"),
        give_up step "async job exceeded max duration" none w,
      )
      else poll_endpoint step task (endpoint_of step) w

  unfoldable pub poll_guarded : Step → Task → World V → PollStepResult × World V
  poll_guarded step task w =
      if is_terminal task.status
      then (skipped ("task " +++ status_text task.status), w)
      else if task_is TaskStatus.disputed task.status
      then (skipped "task disputed", w)
      else if not (is_waiting step)
      then (skipped "step not awaiting a poll", w)
      else poll_waiting step task w

  -- `pollStep`
  unfoldable pub poll_step : ℕ → World V → PollStepResult × World V
  poll_step id w = elim (find_step id w.steps) [
    | none ↦ (skipped "step not found", w)
    | some step ↦ elim (find_task step.task_id w.tasks) [
      | none ↦ (skipped "step has no task", w)
      | some task ↦ poll_guarded step task w
    ]
  ]
