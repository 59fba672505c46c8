-- ===== src/Worker/Execute/Task/Replay.antt =====
-- Running a task again.
use clevercon.Prelude.{
  ℕ, ◌≡◌, refl, ap, ◌∙◌, ◌≢◌, true, false, some, arith, Bool-cases, inl, inr, All,
}
use clevercon.Store.Rows.{Task}
use clevercon.Store.Tables.{World, find_task, steps_of}
use clevercon.Worker.Host.{Host}
use clevercon.Worker.Execute.Task.{
  ExecuteResult, ExecuteStatus, ran, skipped, failed, Pass, is_terminal, task_status,
  execute_status, conclude, start, set_status, execute_steps, execute_task,
}
use clevercon.Worker.Execute.Task.Gate.{IsIdle, execute_steps_idle}
use clevercon.Worker.Settle.Finalize.Laws.{finalize_task_if_complete-kept}

module _ {V : Type 0} (host : Host V) where
  pub execute_task_terminal :
      (id : ℕ) (w : World V) {t : Task}
      → find_task id w.tasks ≡ some t
      → is_terminal t.status ≡ true
      → execute_task host id w ≡ (skipped "task already terminal" (some t.buyer_id), w)
  unfolding execute_task
  execute_task_terminal id w e h = rw (e, h, execute_task)

  pub execute_task_live :
      (id : ℕ) (w : World V) {t : Task}
      → find_task id w.tasks ≡ some t
      → is_terminal t.status ≡ false
      → execute_task host id w
        ≡ conclude host id t (execute_steps host t (steps_of t.id w.steps) (start host id t w))
  unfolding execute_task
  execute_task_live id w e h = rw (e, h, execute_task)

  conclude-kept :
      (id : ℕ) (t : Task) (p : Pass V)
      → ((conclude host id t p).1.steps ≡ p.world.steps)
        × ((conclude host id t p).1.payments ≡ p.world.payments)
        × ((conclude host id t p).1.jobs ≡ p.world.jobs)
  unfolding conclude
  conclude-kept id t p = ground (
    arith,
    finalize_task_if_complete-kept host.env id (set_status host id (task_status host p) p.world),
  )

  conclude-report :
      (id : ℕ) (t : Task) (p : Pass V)
      → (conclude host id t p).0 ≡ ran (execute_status host p) p.steps_run t.buyer_id
  unfolding conclude
  conclude-report id t p = refl

  no_failure : (p : Pass V) → p.any_failed ≡ false → execute_status host p ≢ failed
  no_failure p h e = elim (Bool-cases p.any_held) [
    | inl a ↦ cc (rw (h, a) at e)
    | inr a ↦ cc (rw (h, a) at e)
  ]

  -- A task whose steps are all released, held or parked can be run again, as its queue does on a
  -- retry: no step is executed twice. The run executes no step, reports no failure, and keeps the
  -- steps, the payments and the queues.
  pub execute_task-replay :
      (id : ℕ) (w : World V) (t : Task)
      → find_task id w.tasks ≡ some t
      → is_terminal t.status ≡ false
      → All IsIdle (steps_of t.id w.steps)
      → (status : ExecuteStatus) × ((execute_task host id w).0 ≡ ran status 0 t.buyer_id)
        × (status ≢ failed)
        × ((execute_task host id w).1.steps ≡ w.steps)
        × ((execute_task host id w).1.payments ≡ w.payments)
        × ((execute_task host id w).1.jobs ≡ w.jobs)
  execute_task-replay id w t e live idle =
      let p = execute_steps host t (steps_of t.id w.steps) (start host id t w) in
      let (same, run, fail) =
        execute_steps_idle host t (steps_of t.id w.steps) (start host id t w) idle in
      let (steps, payments, jobs) = conclude-kept id t p in
      let goes = execute_task_live id w e live in
      (
        execute_status host p,
        ap (λ (r : ExecuteResult × World V). r.0) goes
            ∙ conclude-report id t p
            ∙ ap (λ n. ran (execute_status host p) n t.buyer_id) run,
        no_failure p fail,
        ap (λ (r : ExecuteResult × World V). r.1.steps) goes
            ∙ steps
            ∙ ap (λ (v : World V). v.steps) same,
        ap (λ (r : ExecuteResult × World V). r.1.payments) goes
            ∙ payments
            ∙ ap (λ (v : World V). v.payments) same,
        ap (λ (r : ExecuteResult × World V). r.1.jobs) goes
            ∙ jobs
            ∙ ap (λ (v : World V). v.jobs) same,
      )
