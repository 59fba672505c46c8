-- ===== src/Worker/Settle/Finalize/Laws.antt =====
-- When a task is finalised, and what a second call does.
use clevercon.Prelude.{
  ℕ, ◌≡◌, ◌≤◌, refl, sym, ap, ◌∙◌, Bool, true, false, not, none, some, arith, Option-cases,
  Bool-cases, inl, inr, ltb, is_some, any, first_eq, if◌then◌else◌, ◌||◌, List, [], ◌∷◌,
}
use clevercon.Store.Rows.{Step, StepStatus, step_is, Task, TaskMode, TaskStatus, Delegate}
use clevercon.Store.Tables.{World, find_task, find_delegate, steps_of, update_task}
use clevercon.Store.Tables.Laws.{find_task-update_own}
use clevercon.Worker.Chain.{Outcome, ok, err, thrown, Completion}
use clevercon.Worker.Env.{Env, truthy_id, settlement_configured, with_delegate}
use clevercon.Worker.Settle.Finalize.{
  FinalizeResult, finalized, skipped, still_open, is_non_terminal, released_count, settled_count,
  completes_here, finalized_row, finish_finalize, complete_call, finalize_locked,
  finalize_task_if_complete, with_buyer,
}

-- The statuses of a step that holds its task back.
abbrev pub at_work : Step → Bool
at_work s =
    step_is StepStatus.pending s.status
    || step_is StepStatus.running s.status
    || step_is StepStatus.awaiting_approval s.status

non_terminal_lem :
    (s : StepStatus)
    → is_non_terminal s ≡ (
        step_is StepStatus.pending s
        || step_is StepStatus.running s
        || step_is StepStatus.awaiting_approval s)
unfolding is_non_terminal
non_terminal_lem StepStatus.pending = refl
non_terminal_lem StepStatus.running = refl
non_terminal_lem StepStatus.input_required = refl
non_terminal_lem StepStatus.awaiting_approval = refl
non_terminal_lem StepStatus.released = refl
non_terminal_lem StepStatus.failed = refl
non_terminal_lem StepStatus.skipped = refl

still_open_lem : (ss : List Step) → still_open ss ≡ any at_work ss
still_open_lem [] = refl
still_open_lem (s ∷ ss) = rw (non_terminal_lem s.status, still_open_lem ss) refl

module _ {V : Type 0} (env : Env V) where
  finalize_missing :
      (id : ℕ) (w : World V)
      → find_task id w.tasks ≡ none
      → finalize_task_if_complete env id w ≡ (skipped "task not found", w)
  unfolding finalize_task_if_complete
  finalize_missing id w e = rw (e, finalize_task_if_complete)

  finalize_unlocked :
      (id : ℕ) (w : World V) {t : Task}
      → find_task id w.tasks ≡ some t
      → truthy_id t.vault_task_id ≡ none
      → finalize_task_if_complete env id w ≡ (skipped "not locked on-chain", w)
  unfolding finalize_task_if_complete
  finalize_unlocked id w e f = rw (e, f, finalize_task_if_complete)

  finalize_done :
      (id : ℕ) (w : World V) {t : Task} {n : ℕ}
      → find_task id w.tasks ≡ some t
      → truthy_id t.vault_task_id ≡ some n
      → is_some t.vault_finalized_at ≡ true
      → finalize_task_if_complete env id w ≡ (skipped "already finalized", w)
  unfolding finalize_task_if_complete
  finalize_done id w e f g = rw (e, f, g, finalize_task_if_complete)

  finalize_live :
      (id : ℕ) (w : World V) {t : Task} {n : ℕ}
      → find_task id w.tasks ≡ some t
      → truthy_id t.vault_task_id ≡ some n
      → is_some t.vault_finalized_at ≡ false
      → finalize_task_if_complete env id w ≡ finalize_locked env t n w
  unfolding finalize_task_if_complete
  finalize_live id w e f g = rw (e, f, g, finalize_task_if_complete)

  -- What a call that finalised a task has found and done.
  pub record Finalized (id : ℕ) (mode : TaskMode) (completed : Bool) (w w' : World V) : Type 0 where
    pub task : Task
    pub on_chain : ℕ
    pub delegate : Delegate
    pub task_found : find_task id w.tasks ≡ some task
    pub has_lock : truthy_id task.vault_task_id ≡ some on_chain
    pub not_done : is_some task.vault_finalized_at ≡ false
    pub none_open : still_open (steps_of task.id w.steps) ≡ false
    pub all_paid : released_count (steps_of task.id w.steps) ≤ settled_count task.id w.payments
    pub has_delegate : find_delegate task.buyer_id w.delegates ≡ some delegate
    pub unlocked :
        env.calls.complete delegate.public_key on_chain w.vault
        ≡ (ok Completion.completed, w'.vault)
    pub reported : (mode ≡ task.mode) × (completed ≡ completes_here task.status)
    pub written :
        w'.tasks ≡ update_task task.id (finalized_row (completes_here task.status) w.now) w.tasks
    pub kept : (w'.steps ≡ w.steps) × (w'.payments ≡ w.payments)

  finalize_locked-Finalized :
      (t : Task) (id n : ℕ) (w w' : World V) (mode : TaskMode) (completed : Bool)
      → find_task id w.tasks ≡ some t
      → truthy_id t.vault_task_id ≡ some n
      → is_some t.vault_finalized_at ≡ false
      → finalize_locked env t n w ≡ (finalized mode completed, w')
      → Finalized id mode completed w w'
  unfolding finish_finalize with_delegate
  finalize_locked-Finalized t id n w w' mode completed f l d e = ground arith

  -- A task is reported as finalised only if its row has an on-chain id and no stamp, none of its
  -- steps is pending, running or awaiting approval, at least as many of its vault releases are
  -- confirmed as it has released steps, and the delegate's `complete_task` is answered as done. The
  -- row is then stamped, and completed unless it had ended otherwise; steps and payments are kept.
  pub finalize_task_if_complete-Finalized :
      (id : ℕ) (w w' : World V) (mode : TaskMode) (completed : Bool)
      → finalize_task_if_complete env id w ≡ (finalized mode completed, w')
      → Finalized id mode completed w w'
  finalize_task_if_complete-Finalized id w w' mode completed e =
      elim (Option-cases (find_task id w.tasks)) [
        | inl f ↦ cc (first_eq (sym (finalize_missing id w f) ∙ e))
        | inr (t, f) ↦ elim (Option-cases (truthy_id t.vault_task_id)) [
          | inl l ↦ cc (first_eq (sym (finalize_unlocked id w f l) ∙ e))
          | inr (n, l) ↦ elim (Bool-cases (is_some t.vault_finalized_at)) [
            | inl d ↦ cc (first_eq (sym (finalize_done id w f l d) ∙ e))
            | inr d ↦
                finalize_locked-Finalized t id n w w' mode completed f l d
                  (sym (finalize_live id w f l d) ∙ e)
          ]
        ]
      ]

  skips_again :
      (id : ℕ) (w w' : World V) {mode : TaskMode} {completed : Bool}
      → Finalized id mode completed w w'
      → finalize_task_if_complete env id w' ≡ (skipped "already finalized", w')
  skips_again id w w' h =
      let row = finalized_row (completes_here h.task.status) w.now in
      finalize_done id w'
        (ap (λ ts. find_task id ts) h.written
          ∙ find_task-update_own id row w.tasks h.task (λ t. refl) h.task_found)
        h.has_lock refl

  -- A task that was finalised is left alone by the next call: no transaction is sent again.
  pub finalize_task_if_complete-again :
      (id : ℕ) (w w' : World V) (mode : TaskMode) (completed : Bool)
      → finalize_task_if_complete env id w ≡ (finalized mode completed, w')
      → finalize_task_if_complete env id w' ≡ (skipped "already finalized", w')
  finalize_task_if_complete-again id w w' mode completed e =
      skips_again id w w' (finalize_task_if_complete-Finalized id w w' mode completed e)

  finalize_locked_goes :
      (t : Task) (n : ℕ) (w : World V) {d : Delegate} {v : V}
      → settlement_configured env ≡ true
      → still_open (steps_of t.id w.steps) ≡ false
      → ltb (settled_count t.id w.payments) (released_count (steps_of t.id w.steps)) ≡ false
      → find_delegate t.buyer_id w.delegates ≡ some d
      → env.lock_timeout d.public_key w.now ≡ none
      → env.calls.complete d.public_key n w.vault ≡ (ok Completion.completed, v)
      → finalize_locked env t n w ≡ (
        finalized t.mode (completes_here t.status),
        record w {
          tasks = update_task t.id (finalized_row (completes_here t.status) w.now) w.tasks;
          vault = v;
        },
      )
  unfolding finish_finalize with_delegate
  finalize_locked_goes t n w a b c d e f = ground arith

  -- A step that is parked for input does not hold its task back. Of a running task that is locked
  -- and not yet finalised, let no step be pending, running or awaiting approval, some
  -- step be parked, and the releases be settled; if the vault then answers `complete_task`, the
  -- task is finalised and its row says completed, with the step still parked.
  pub finalize_task_if_complete_parked :
      (id : ℕ) (w : World V) (t : Task) (n : ℕ) (d : Delegate) (v : V)
      → find_task id w.tasks ≡ some t
      → t.status ≡ TaskStatus.running
      → truthy_id t.vault_task_id ≡ some n
      → t.vault_finalized_at ≡ none
      → settlement_configured env ≡ true
      → any at_work (steps_of t.id w.steps) ≡ false
      → any (λ (s : Step). step_is StepStatus.input_required s.status) (steps_of t.id w.steps)
        ≡ true
      → ltb (settled_count t.id w.payments) (released_count (steps_of t.id w.steps)) ≡ false
      → find_delegate t.buyer_id w.delegates ≡ some d
      → env.lock_timeout d.public_key w.now ≡ none
      → env.calls.complete d.public_key n w.vault ≡ (ok Completion.completed, v)
      → (w' : World V) × (finalize_task_if_complete env id w ≡ (finalized t.mode true, w'))
        × (find_task id w'.tasks
            ≡ some (record t { vault_finalized_at = some w.now; status = TaskStatus.completed }))
        × (any (λ (s : Step). step_is StepStatus.input_required s.status) (steps_of t.id w'.steps)
            ≡ true)
  finalize_task_if_complete_parked id w t n d v f running l o configured b parked c has free
        answer =
      let w' : World V = record w {
        tasks = update_task t.id (finalized_row true w.now) w.tasks;
        vault = v;
      } in
      let completes : completes_here t.status ≡ true = rw running refl in
      let goes : finalize_locked env t n w ≡ (finalized t.mode true, w') = rw completes at (
        finalize_locked_goes t n w configured (still_open_lem (steps_of t.id w.steps) ∙ b) c has
          free answer) in
      (
        w',
        finalize_live id w f l (rw o refl) ∙ goes,
        find_task-update_own id (finalized_row true w.now) w.tasks t (λ t. refl) f,
        parked,
      )

  finish_finalize-kept :
      (t : Task) (r : Outcome Completion × World V)
      → ((finish_finalize env t r).1.steps ≡ r.1.steps)
        × ((finish_finalize env t r).1.payments ≡ r.1.payments)
        × ((finish_finalize env t r).1.jobs ≡ r.1.jobs)
  unfolding finish_finalize
  finish_finalize-kept t (err e, w) = (refl, refl, refl)
  finish_finalize-kept t (ok Completion.disputed, w) = (refl, refl, refl)
  finish_finalize-kept t (ok Completion.already, w) = (refl, refl, refl)
  finish_finalize-kept t (ok Completion.completed, w) = (refl, refl, refl)

  locked-kept :
      (d : Delegate) (n : ℕ) (w : World V)
      → let r =
          with_delegate env d.public_key (λ msg. err (thrown msg)) (complete_call env d n) w in
        (r.1.steps ≡ w.steps) × (r.1.payments ≡ w.payments) × (r.1.jobs ≡ w.jobs)
  unfolding with_delegate
  locked-kept d n w = ground arith

  if-kept :
      (b : Bool) (w : World V) (x y : FinalizeResult × World V)
      → (x.1.steps ≡ w.steps) × (x.1.payments ≡ w.payments) × (x.1.jobs ≡ w.jobs)
      → (y.1.steps ≡ w.steps) × (y.1.payments ≡ w.payments) × (y.1.jobs ≡ w.jobs)
      → let r = if b then x else y in
        (r.1.steps ≡ w.steps) × (r.1.payments ≡ w.payments) × (r.1.jobs ≡ w.jobs)
  if-kept true w x y h g = h
  if-kept false w x y h g = g

  delegate-kept :
      (t : Task) (n : ℕ) (w : World V)
      → ((with_buyer env t n w (find_delegate t.buyer_id w.delegates)).1.steps ≡ w.steps)
        × ((with_buyer env t n w (find_delegate t.buyer_id w.delegates)).1.payments ≡ w.payments)
        × ((with_buyer env t n w (find_delegate t.buyer_id w.delegates)).1.jobs ≡ w.jobs)
  delegate-kept t n w = elim (Option-cases (find_delegate t.buyer_id w.delegates)) [
    | inl e ↦ rw e (refl, refl, refl)
    | inr (d, e) ↦
        let a =
          finish_finalize-kept t
            (with_delegate env d.public_key (λ msg. err (thrown msg)) (complete_call env d n) w) in
        let b = locked-kept d n w in rw e (a.0 ∙ b.0, a.1 ∙ b.1, a.2 ∙ b.2)
  ]

  finalize_locked-kept :
      (t : Task) (n : ℕ) (w : World V)
      → ((finalize_locked env t n w).1.steps ≡ w.steps)
        × ((finalize_locked env t n w).1.payments ≡ w.payments)
        × ((finalize_locked env t n w).1.jobs ≡ w.jobs)
  finalize_locked-kept t n w =
      if-kept (not (settlement_configured env)) w _ _ (refl, refl, refl)
        (if-kept (still_open (steps_of t.id w.steps)) w _ _ (refl, refl, refl)
          (if-kept (ltb (settled_count t.id w.payments) (released_count (steps_of t.id w.steps))) w
            _ _ (refl, refl, refl) (delegate-kept t n w)))

  -- Whatever a finalisation meets, it keeps the steps, the payments and the queues.
  pub finalize_task_if_complete-kept :
      (id : ℕ) (w : World V)
      → ((finalize_task_if_complete env id w).1.steps ≡ w.steps)
        × ((finalize_task_if_complete env id w).1.payments ≡ w.payments)
        × ((finalize_task_if_complete env id w).1.jobs ≡ w.jobs)
  finalize_task_if_complete-kept id w = elim (Option-cases (find_task id w.tasks)) [
    | inl f ↦ rw (finalize_missing id w f) (refl, refl, refl)
    | inr (t, f) ↦ elim (Option-cases (truthy_id t.vault_task_id)) [
      | inl l ↦ rw (finalize_unlocked id w f l) (refl, refl, refl)
      | inr (n, l) ↦ elim (Bool-cases (is_some t.vault_finalized_at)) [
        | inl d ↦ rw (finalize_done id w f l d) (refl, refl, refl)
        | inr d ↦ rw (finalize_live id w f l d) (finalize_locked-kept t n w)
      ]
    ]
  ]

  -- With a step open, a finalisation changes nothing.
  pub finalize_open :
      (id : ℕ) (w : World V) {t : Task}
      → find_task id w.tasks ≡ some t
      → still_open (steps_of t.id w.steps) ≡ true
      → (finalize_task_if_complete env id w).1 ≡ w
  finalize_open id w {t} f o = elim (Option-cases (truthy_id t.vault_task_id)) [
    | inl l ↦ rw (finalize_unlocked id w f l) refl
    | inr (n, l) ↦ elim (Bool-cases (is_some t.vault_finalized_at)) [
      | inl d ↦ rw (finalize_done id w f l d) refl
      | inr d ↦ elim (Bool-cases (settlement_configured env)) [
        | inl c ↦
            ap (λ (r : FinalizeResult × World V). r.1) (finalize_live id w f l d) ∙ rw (c, o) refl
        | inr c ↦ ap (λ (r : FinalizeResult × World V). r.1) (finalize_live id w f l d) ∙ rw c refl
      ]
    ]
  ]
