-- ===== src/Worker/Jobs.antt =====
-- services/workers/src/index.ts: the settlement job, from the queue's attempts to the web hooks that
-- it fires. Real-time messages to browsers are left out; the delivery of a web hook is an event of
-- the run. A job's number of attempts is the one that its producer gave it.
pub mod Ends
use clevercon.Prelude.{
  ℕ, zero, suc, ◌+◌, Bool, true, false, ◌&&◌, Option, none, some, List, [], ◌∷◌, ◌++◌, String,
  if◌then◌else◌,
}
use clevercon.Store.Rows.{Step, Task, TaskStatus, task_is}
use clevercon.Store.Tables.{World, find_step, find_task, update_task}
use clevercon.Worker.Chain.{ChainError}
use clevercon.Worker.Env.{Env}
use clevercon.Worker.Settle.{SettleResult, settled, skipped, failed, threw, settle_step}
use clevercon.Worker.Settle.Finalize.{FinalizeResult, finalized, finalize_task_if_complete}
use clevercon.Proof.Bytes.{Bytes}

-- `deliverWebhooks`, with the user and the event
pub data WebHook : Type 0 where
  job_paid : (provider step amount tx_hash : ℕ) → WebHook
  task_failed : (buyer task : ℕ) → WebHook
  task_completed : (buyer task : ℕ) → WebHook

-- How one attempt of the job ends.
pub data Attempt : Type 0 where
  returned : SettleResult → Attempt
  thrown : SettleResult → Attempt

pub record Run (V : Type 0) : Type 0 where
  pub attempt : Attempt
  pub hooks : List WebHook
  pub world : World V

-- the pay-out alert
abbrev pub paid_hooks : ℕ → SettleResult → List WebHook
paid_hooks step (settled tx buyer task (some provider) amount name) =
    job_paid provider step amount tx ∷ []
paid_hooks step r = []

-- `result.status === 'failed' && result.retryable`; an exception of the settlement is thrown on
abbrev pub is_retried : SettleResult → Bool
is_retried (failed e buyer task retryable ended) = retryable
is_retried threw = true
is_retried r = false

abbrev pub failed_hooks : SettleResult → List WebHook
failed_hooks (failed e buyer (some task) retryable true) = task_failed buyer task ∷ []
failed_hooks r = []

-- `result.taskId`, `result.buyerId`
abbrev pub task_of : SettleResult → Option ℕ
task_of (settled tx buyer task provider amount name) = some task
task_of (skipped r buyer task) = task
task_of (failed e buyer task retryable ended) = task
task_of threw = none

abbrev pub buyer_of : SettleResult → Option ℕ
buyer_of (settled tx buyer task provider amount name) = some buyer
buyer_of (skipped r buyer task) = buyer
buyer_of (failed e buyer task retryable ended) = some buyer
buyer_of threw = none

abbrev pub completed_hooks : Option ℕ → ℕ → FinalizeResult → List WebHook
completed_hooks (some buyer) task (finalized mode true) = task_completed buyer task ∷ []
completed_hooks buyer task r = []

module _ {V : Type 0} (env : Env V) where
  -- the end of the job: the finalisation of the task
  unfoldable pub finish_job : SettleResult → List WebHook → World V → Run V
  finish_job r hooks w = elim (task_of r) [
    | none ↦ record { attempt = returned r; hooks = hooks; world = w }
    | some task ↦
        let (fin, w') = finalize_task_if_complete env task w in
        record {
          attempt = returned r;
          hooks = hooks ++ completed_hooks (buyer_of r) task fin;
          world = w';
        }
  ]

  unfoldable pub after_settlement : ℕ → SettleResult × World V → Run V
  after_settlement step (r, w) =
      if is_retried r
      then record { attempt = thrown r; hooks = paid_hooks step r; world = w }
      else finish_job r (paid_hooks step r ++ failed_hooks r) w

  -- the handler of the settlement queue
  unfoldable pub settlement_job : ℕ → Bytes → World V → Run V
  settlement_job step nullifier w = after_settlement step (settle_step env step nullifier w)

abbrev pub fail_row : Task → Task
fail_row t = record t { status = TaskStatus.failed }

abbrev mark_failed : {V : Type 0} → Option Task → World V → List WebHook × World V
mark_failed none w = ([], w)
mark_failed (some t) w =
    if task_is TaskStatus.running t.status
    then (task_failed t.buyer_id t.id ∷ [], record w { tasks = update_task t.id fail_row w.tasks })
    else ([], w)

-- the handler of the queue's event `failed`, once the attempts are exhausted
unfoldable pub give_up : {V : Type 0} → ℕ → World V → List WebHook × World V
give_up step w = elim (find_step step w.steps) [
  | none ↦ ([], w)
  | some s ↦ mark_failed (find_task s.task_id w.tasks) w
]

pub data Ending : Type 0 where
  done : SettleResult → Ending
  exhausted : Ending

module _ {V : Type 0} (env : Env V) where
  -- The queue's attempts at a job, with those left. Before each, other workers have turned the
  -- tables into those that `meanwhile` gives, and `draw` is its nullifier.
  unfoldable pub run_attempts :
      (left i : ℕ)
      → (draw : ℕ → Bytes) → (meanwhile : ℕ → World V → World V) → ℕ
      → World V
      → Ending × List WebHook × World V
  run_attempts zero i draw meanwhile step w = let g = give_up step w in (exhausted, g.0, g.1)
  run_attempts (suc left) i draw meanwhile step w =
      let r = settlement_job env step (draw i) (meanwhile i w) in
      let rest = run_attempts left (i + 1) draw meanwhile step r.world in
      elim r.attempt [
        | returned result ↦ (done result, r.hooks, r.world)
        | thrown result ↦ (rest.0, r.hooks ++ rest.1, rest.2)
      ]
