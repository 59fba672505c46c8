-- ===== src/Worker/Execute/Task.antt =====
-- services/workers/src/executor.ts, `executeTask`: one pass over a task's steps. The pass works on
-- the steps that it has loaded, `loaded`, and keeps their statuses only where the code does: not
-- after a failure. Nothing else runs during the pass.
pub mod Gate
pub mod Replay
pub mod Stuck
use clevercon.Prelude.{
  ℕ, zero, suc, ◌+◌, ◌*◌, Bool, true, false, not, ◌&&◌, ◌||◌, Option, none, some, List, [], ◌∷◌,
  String, ◌==◌, if◌then◌else◌, is_some, any, all, map,
}
use clevercon.Prelude.Int.{ℤ}
use text.Mathlib.Text.{◌==◌ as str_eq}
use Prim.Native.String.{◌++◌ as ◌+++◌}
use clevercon.Json.{Json, num, str, Props, end, prop, get, truthy, is_text}
use clevercon.Store.Rows.{Step, StepStatus, step_is, Task, TaskStatus, task_is}
use clevercon.Store.Tables.{World, find_task, steps_of, update_task, update_step}
use clevercon.Worker.Env.{truthy_id}
use clevercon.Worker.Host.{Host, Reply, lost, response, dispute_window_seconds}
use clevercon.Worker.Execute.{
  Thrown, good, thrown, endpoint_of, input_of, parse_result_envelope, build_request, record_outcome,
  write_step, finalize_delivery, park_working, park_input_required, rejection, is_rejected,
}
use clevercon.Worker.Settle.Finalize.{finalize_task_if_complete}

pub data ExecuteStatus : Type 0 where
  completed failed awaiting : ExecuteStatus

pub data ExecuteResult : Type 0 where
  ran : ExecuteStatus → (steps_run buyer : ℕ) → ExecuteResult
  skipped : (reason : String) (buyer : Option ℕ) → ExecuteResult

-- The variables of the pass.
pub record Pass (V : Type 0) : Type 0 where
  pub loaded : List Step
  pub any_failed : Bool
  pub any_held : Bool
  pub steps_run : ℕ
  pub world : World V

-- `TERMINAL`
abbrev pub is_terminal : TaskStatus → Bool
is_terminal s =
    task_is TaskStatus.completed s || task_is TaskStatus.cancelled s || task_is TaskStatus.failed s

-- `statusByIndex.get(i)`: of two steps with one index the map keeps the later
unfoldable pub status_at : ℕ → List Step → Option StepStatus
status_at i [] = none
status_at i (s ∷ ss) = elim (status_at i ss) [
  | some t ↦ some t
  | none ↦ if s.index == i then some s.status else none
]

abbrev pub is_blocking : Option StepStatus → Bool
is_blocking (some StepStatus.failed) = true
is_blocking (some StepStatus.skipped) = true
is_blocking _ = false

abbrev pub is_released : Option StepStatus → Bool
is_released (some StepStatus.released) = true
is_released _ = false

abbrev pub depends_on_blocked : Step → List Step → Bool
depends_on_blocked step loaded = any (λ i. is_blocking (status_at i loaded)) step.depends_on

abbrev pub dependencies_released : Step → List Step → Bool
dependencies_released step loaded = all (λ i. is_released (status_at i loaded)) step.depends_on

-- the `continue`s before the dependency gate: released, awaiting approval, parked
abbrev pub is_settled_already : Step → Bool
is_settled_already step = step_is StepStatus.released step.status

abbrev pub truthy_handle : Option String → Bool
truthy_handle none = false
truthy_handle (some s) = not (str_eq s "")

abbrev pub is_parked : Step → Bool
is_parked step =
    step_is StepStatus.awaiting_approval step.status
    || step_is StepStatus.running step.status && truthy_handle step.provider_job_handle
    || step_is StepStatus.input_required step.status

module _ {V : Type 0} (host : Host V) where
  -- the response of the provider, up to the end of the `try`
  unfoldable pub on_text :
      Step → Task → (text : String) (took : ℕ) → World V → Thrown StepStatus × World V
  on_text step task text took w =
      let raw = host.js.take 8000 text in
      let envelope = parse_result_envelope host.js raw w.now in
      if is_text "working" (get "status" envelope)
      then park_working host step envelope w
      else if is_text "input_required" (get "status" envelope)
      then park_input_required host step envelope w
      else if is_rejected host envelope
      then (thrown (rejection host envelope), w)
      else finalize_delivery host step task.vault_task_id (input_of step) envelope raw took
          (dispute_window_seconds host) w

  unfoldable pub on_reply : Step → Task → Reply → World V → Thrown StepStatus × World V
  on_reply step task (lost took) w = (thrown host.js.fetch_error, record w { now = w.now + took })
  on_reply step task (response took code is_ok text) w =
      let w = record w { now = w.now + took } in
      if not is_ok
      then (thrown ("provider returned HTTP " +++ host.js.show (num (ℤ.pos code))), w)
      else elim text [
        | none ↦ (thrown host.js.fetch_error, w)
        | some t ↦ on_text step task t took w
      ]

  abbrev pub took_of : Reply → ℕ
  took_of (lost took) = took
  took_of (response took code is_ok text) = took

  -- the write of a failure; the loaded step keeps its status
  unfoldable pub step_failed : Step → (message : String) (took : ℕ) → Pass V → Pass V
  step_failed step message took p = record p {
    any_failed = true;
    world = record_outcome host step.service false took (
        write_step host step.id
          (λ s. record s {
            status = StepStatus.failed;
            error = some message;
            latency_ms = some took;
          })
          p.world);
  }

  unfoldable pub concluded : Step → (took : ℕ) → Pass V → Thrown StepStatus × World V → Pass V
  concluded step took p (thrown e, w) = step_failed step e took (record p { world = w })
  concluded step took p (good status, w) = record p {
    loaded = update_step step.id (λ s. record s { status = status }) p.loaded;
    any_held = p.any_held || not (step_is StepStatus.released status);
    steps_run = suc p.steps_run;
    world = w;
  }

  -- the call of the provider and the handling of its reply
  unfoldable pub dispatch : Step → Task → (endpoint : String) → Pass V → Pass V
  dispatch step task endpoint p =
      let request =
        build_request host.js step task.id p.world.now (prop "kind" (str "dispatch") end) in
      let reply = host.fetch endpoint request p.world.now in
      concluded step (took_of reply) p (on_reply step task reply p.world)

  abbrev pub no_endpoint : Step → Pass V → Pass V
  no_endpoint step p = record p {
    any_failed = true;
    world =
        write_step host step.id
          (λ s. record s { status = StepStatus.failed; error = some "no provider endpoint" })
          p.world;
  }

  abbrev pub skip_step : Step → Pass V → Pass V
  skip_step step p = record p {
    loaded = update_step step.id (λ s. record s { status = StepStatus.skipped }) p.loaded;
    any_failed = true;
    world =
        write_step host step.id
          (λ s. record s {
            status = StepStatus.skipped;
            error = some "dependency did not complete";
          })
          p.world;
  }

  -- the body of the loop
  unfoldable pub execute_step : Task → Step → Pass V → Pass V
  execute_step task step p =
      if is_settled_already step
      then p
      else if is_parked step
      then record p { any_held = true }
      else if depends_on_blocked step p.loaded
      then skip_step step p
      else if not (dependencies_released step p.loaded)
      then record p { any_held = true }
      else elim (endpoint_of step) [
        | none ↦ no_endpoint step p
        | some endpoint ↦ dispatch step task endpoint p
      ]

  unfoldable pub execute_steps : Task → List Step → Pass V → Pass V
  execute_steps task [] p = p
  execute_steps task (s ∷ ss) p = execute_steps task ss (execute_step task s p)

  abbrev pub task_status : Pass V → TaskStatus
  task_status p =
      if p.any_failed
      then TaskStatus.failed
      else if p.any_held
      then TaskStatus.running
      else TaskStatus.completed

  abbrev pub execute_status : Pass V → ExecuteStatus
  execute_status p = if p.any_failed then failed else if p.any_held then awaiting else completed

  abbrev pub set_status : ℕ → TaskStatus → World V → World V
  set_status id status w = record w {
    tasks = update_task id (λ t. record t { status = status }) w.tasks;
  }

  -- what comes after the loop; the result of the finalisation is not looked at
  unfoldable pub conclude : ℕ → Task → Pass V → ExecuteResult × World V
  conclude id task p =
      let written = set_status id (task_status p) p.world in
      (
        ran (execute_status p) p.steps_run task.buyer_id,
        if is_some (truthy_id task.vault_task_id)
            then (finalize_task_if_complete host.env id written).1
            else written,
      )

  abbrev pub start : ℕ → Task → World V → Pass V
  start id task w = record {
    loaded = steps_of task.id w.steps;
    any_failed = false;
    any_held = false;
    steps_run = 0;
    world = set_status id TaskStatus.running w;
  }

  -- `executeTask`
  unfoldable pub execute_task : ℕ → World V → ExecuteResult × World V
  execute_task id w = elim (find_task id w.tasks) [
    | none ↦ (skipped "task not found" none, w)
    | some task ↦
        if is_terminal task.status
        then (skipped "task already terminal" (some task.buyer_id), w)
        else conclude id task (execute_steps task (steps_of task.id w.steps) (start id task w))
  ]
