-- ===== src/Worker/Execute/Release/Laws.antt =====
-- The guards of a release, and its replay.
use clevercon.Prelude.{
  ℕ, ◌≡◌, ◌≢◌, refl, sym, ap, ◌∙◌, true, false, ◌&&◌, none, some, arith, Option-cases, Bool-cases,
  inl, inr, first_eq, is_some, ◌⊎◌,
}
use clevercon.Store.Rows.{Step, StepStatus, step_is, Task, TaskStatus}
use clevercon.Store.Tables.{World, find_step, find_task, open_disputes, steps_of}
use clevercon.Store.Tables.Laws.{find_step-update_own, find_task-update_own}
use clevercon.Worker.Env.{truthy_id}
use clevercon.Worker.Host.{Host, enqueue}
use clevercon.Worker.Execute.{write_step}
use clevercon.Worker.Execute.Task.{set_status}
use clevercon.Worker.Settle.Finalize.{is_final, still_open}
use clevercon.Worker.Execute.Release.{
  released, skipped, after_window, release_guarded, release_held_step,
}

module _ {V : Type 0} (host : Host V) where
  release_missing :
      (id : ℕ) (w : World V)
      → find_step id w.steps ≡ none
      → release_held_step host id w ≡ (skipped "step not found" none none, w)
  unfolding release_held_step
  release_missing id w e = rw (e, release_held_step)

  release_orphan :
      (id : ℕ) (w : World V) {s : Step}
      → find_step id w.steps ≡ some s
      → find_task s.task_id w.tasks ≡ none
      → release_held_step host id w ≡ (skipped "step has no task" none none, w)
  unfolding release_held_step
  release_orphan id w e f = rw (e, f, release_held_step)

  release_found :
      (id : ℕ) (w : World V) {s : Step} {t : Task}
      → find_step id w.steps ≡ some s
      → find_task s.task_id w.tasks ≡ some t
      → release_held_step host id w ≡ release_guarded host s t w
  unfolding release_held_step
  release_found id w e f = rw (e, f, release_held_step)

  abbrev pub freed : Step → Step
  freed s = record s { status = StepStatus.released; release_at = none }

  -- What a release has found and done.
  pub record Released (id buyer task : ℕ) (w w' : World V) : Type 0 where
    pub step : Step
    pub row : Task
    pub step_found : find_step id w.steps ≡ some step
    pub task_found : find_task step.task_id w.tasks ≡ some row
    pub was_held : step_is StepStatus.awaiting_approval step.status ≡ true
    pub not_disputed : row.status ≢ TaskStatus.disputed
    pub not_cancelled : row.status ≢ TaskStatus.cancelled
    pub not_failed : row.status ≢ TaskStatus.failed
    pub undisputed : open_disputes row.id w.disputes ≡ 0
    pub reported : (buyer ≡ row.buyer_id) × (task ≡ row.id)
    pub result : w' ≡ after_window host step row (write_step host step.id freed w)

  release_guarded-Released :
      (s : Step) (t : Task) (id buyer task : ℕ) (w w' : World V)
      → find_step id w.steps ≡ some s
      → find_task s.task_id w.tasks ≡ some t
      → release_guarded host s t w ≡ (released buyer task, w')
      → Released id buyer task w w'
  unfolding release_guarded
  release_guarded-Released s t id buyer task w w' e f h =
      let live : is_final t.status ≡ false = ground arith in
      record {
        step = s;
        row = t;
        step_found = e;
        task_found = f;
        was_held = ground arith;
        not_disputed = λ x. cc (sym (ap is_final x) ∙ live);
        not_cancelled = λ x. cc (sym (ap is_final x) ∙ live);
        not_failed = λ x. cc (sym (ap is_final x) ∙ live);
        undisputed = ground arith;
        reported = ground arith;
        result = ground arith;
      }

  -- The timer releases a step only if it is held, its task is not disputed, cancelled or failed, and
  -- no dispute of the task is open. The step is then released, and what follows the window is run.
  pub release_held_step-Released :
      (id buyer task : ℕ) (w w' : World V)
      → release_held_step host id w ≡ (released buyer task, w')
      → Released id buyer task w w'
  release_held_step-Released id buyer task w w' h = elim (Option-cases (find_step id w.steps)) [
    | inl e ↦ cc (first_eq (sym (release_missing id w e) ∙ h))
    | inr (s, e) ↦ elim (Option-cases (find_task s.task_id w.tasks)) [
      | inl f ↦ cc (first_eq (sym (release_orphan id w e f) ∙ h))
      | inr (t, f) ↦
          release_guarded-Released s t id buyer task w w' e f (sym (release_found id w e f) ∙ h)
    ]
  ]

  after_window-kept :
      (s : Step) (t : Task) (w : World V)
      → ((after_window host s t w).steps ≡ w.steps)
        × ((after_window host s t w).payments ≡ w.payments)
        × ((after_window host s t w).vault ≡ w.vault)
  unfolding after_window enqueue
  after_window-kept s t w = ground arith

  after_window-tasks :
      (s : Step) (t : Task) (w : World V)
      → ((after_window host s t w).tasks ≡ w.tasks)
        ⊎ ((after_window host s t w).tasks ≡ (set_status host t.id TaskStatus.completed w).tasks)
  unfolding after_window enqueue
  after_window-tasks s t w =
      elim (Bool-cases (is_some (truthy_id t.vault_task_id) && is_some s.service)) [
        | inl e ↦ inl (ground arith)
        | inr e ↦ elim (Bool-cases (still_open (steps_of t.id w.steps))) [
          | inl f ↦ inl (rw (e, f) refl)
          | inr f ↦ inr (rw (e, f) refl)
        ]
      ]

  after_window-find :
      (s : Step) (t : Task) (k : ℕ) (w : World V)
      → find_task k w.tasks ≡ some t
      → (t' : Task) × (find_task k (after_window host s t w).tasks ≡ some t')
        × (t'.buyer_id ≡ t.buyer_id)
        × (t'.id ≡ t.id)
  after_window-find s t k w f = elim (after_window-tasks s t w) [
    | inl e ↦ (t, ap (λ ts. find_task k ts) e ∙ f, refl, refl)
    | inr e ↦ (
      record t { status = TaskStatus.completed },
      ap (λ ts. find_task k ts) e
          ∙ find_task-update_own k (λ t. record t { status = TaskStatus.completed }) w.tasks t
              (λ t. refl) f,
      refl,
      refl,
    )
  ]

  release_guarded_free :
      (s : Step) (t : Task) (w : World V)
      → step_is StepStatus.awaiting_approval s.status ≡ false
      → release_guarded host s t w
        ≡ (skipped "step not awaiting approval" (some t.buyer_id) (some t.id), w)
  unfolding release_guarded
  release_guarded_free s t w e = ground arith

  skips_again :
      (id buyer task : ℕ) (w w' : World V)
      → Released id buyer task w w'
      → release_held_step host id w'
        ≡ (skipped "step not awaiting approval" (some buyer) (some task), w')
  skips_again id buyer task w w' h =
      let mid = write_step host h.step.id freed w in
      let found : find_step id w'.steps ≡ some (freed h.step) =
        ap (λ (v : World V). find_step id v.steps) h.result
        ∙ ap (λ ss. find_step id ss) (after_window-kept h.step h.row mid).0
        ∙ find_step-update_own id freed w.steps h.step (λ s. refl) h.step_found in
      let (t', row, buyer_kept, id_kept) =
        after_window-find h.step h.row h.step.task_id mid h.task_found in
      let found_row : find_task h.step.task_id w'.tasks ≡ some t' =
        ap (λ (v : World V). find_task h.step.task_id v.tasks) h.result ∙ row in
      release_found id w' found found_row
      ∙ release_guarded_free (freed h.step) t' w' refl
      ∙ rw (buyer_kept, id_kept, h.reported.0, h.reported.1) refl

  -- A step that the timer has released is not released a second time: the next run of the job
  -- skips it and changes nothing, so its settlement is not queued again.
  release_held_step-again :
      (id buyer task : ℕ) (w w' : World V)
      → release_held_step host id w ≡ (released buyer task, w')
      → release_held_step host id w'
        ≡ (skipped "step not awaiting approval" (some buyer) (some task), w')
  release_held_step-again id buyer task w w' h =
      skips_again id buyer task w w' (release_held_step-Released id buyer task w w' h)
