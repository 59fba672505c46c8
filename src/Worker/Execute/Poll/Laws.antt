-- ===== src/Worker/Execute/Poll/Laws.antt =====
-- What a poll may change, and when it changes nothing.
use clevercon.Prelude.{
  ℕ, ◌+◌, ◌≡◌, refl, ap, ◌∙◌, Bool, true, false, not, ◌&&◌, ◌||◌, Option, none, some, String, arith,
  Option-cases, Bool-cases, inl, inr, or_else, if◌then◌else◌,
}
use Prim.Native.String.{◌++◌ as ◌+++◌}
use clevercon.Json.{Json, get, truthy, is_text}
use clevercon.Store.Rows.{Step, StepStatus, step_is, Task, TaskStatus, task_is, Service}
use clevercon.Store.Tables.{World, Job, find_step, find_task, update_step}
use clevercon.Store.Tables.Laws.{find_step-update_own}
use clevercon.Worker.Host.{Host, Reply, lost, response, enqueue, dispute_window_seconds}
use clevercon.Worker.Execute.{
  Thrown, good, thrown, fail_step, record_outcome, write_step, finalize_delivery, endpoint_of,
  input_of, parse_result_envelope, is_rejected, rejection, poll_job, or_zero,
}
use clevercon.Worker.Execute.Task.{is_terminal}
use clevercon.Worker.Execute.Accept.{
  SameFunds, SameFunds-refl, SameFunds-trans, enqueue-SameFunds, fail_step-SameFunds,
  finalize_delivery-SameFunds,
}
use clevercon.Worker.Execute.Poll.{
  advanced, skipped, is_waiting, is_overdue, give_up, still_working, ask_again, delivered,
  on_poll_text, on_poll_reply, poll_waiting, poll_guarded, poll_step, poll_endpoint, poll_request,
  failed, status_text,
}

if-SameFunds :
    {V A : Type 0} (b : Bool) (w : World V) (x y : A × World V)
    → SameFunds w x.1
    → SameFunds w y.1
    → SameFunds w (if b then x else y).1
if-SameFunds true w x y h g = h
if-SameFunds false w x y h g = g

module _ {V : Type 0} (host : Host V) where
  give_up-SameFunds :
      (s : Step) (m : String) (n : Option ℕ) (w : World V) → SameFunds w (give_up host s m n w)
  unfolding give_up
  give_up-SameFunds s m n w =
      SameFunds-trans (fail_step-SameFunds host s m n w)
        (enqueue-SameFunds host (Job.execute s.task_id) (fail_step host s m n w))

  still_working-SameFunds :
      (s : Step) (e : Json) (w : World V) → SameFunds w (still_working host s e w).1
  unfolding still_working enqueue
  still_working-SameFunds s e w = ground arith

  ask_again-SameFunds :
      (s : Step) (e : Json) (n : ℕ) (w : World V) → SameFunds w (ask_again host s e n w).1
  unfolding ask_again enqueue
  ask_again-SameFunds s e n w =
      ground (arith, give_up-SameFunds s "input_required without an inputRequest" (some n) w)

  delivered-SameFunds :
      (s : Step) (n : ℕ) (r : Thrown StepStatus × World V) → SameFunds r.1 (delivered host s n r).1
  unfolding delivered
  delivered-SameFunds s n (thrown e, w) = give_up-SameFunds s e (some n) w
  delivered-SameFunds s n (good status, w) = enqueue-SameFunds host (Job.execute s.task_id) w

  on_poll_text-SameFunds :
      (s : Step) (t : Task) (x : String) (n : ℕ) (w : World V)
      → SameFunds w (on_poll_text host s t x n w).1
  unfolding on_poll_text
  on_poll_text-SameFunds s t x n w =
      let raw = host.js.take 8000 x in
      let e = parse_result_envelope host.js raw w.now in
      let window = dispute_window_seconds host in
      let r = finalize_delivery host s t.vault_task_id (input_of s) e raw n window w in
      if-SameFunds (is_text "working" (get "status" e)) w _ _ (still_working-SameFunds s e w) (
        if-SameFunds (is_text "input_required" (get "status" e)) w _ _ (ask_again-SameFunds s e n w)
          (if-SameFunds (is_rejected host e) w _ _
            (give_up-SameFunds s (rejection host e) (some n) w)
            (SameFunds-trans
              (finalize_delivery-SameFunds host s t.vault_task_id (input_of s) e raw n window w)
              (delivered-SameFunds s n r))))

  on_poll_reply-SameFunds :
      (s : Step) (t : Task) (r : Reply) (w : World V) → SameFunds w (on_poll_reply host s t r w).1
  unfolding on_poll_reply enqueue
  on_poll_reply-SameFunds s t (lost n) w = ground arith
  on_poll_reply-SameFunds s t (response n code is_ok none) w = ground arith
  on_poll_reply-SameFunds s t (response n code false (some x)) w = ground arith
  on_poll_reply-SameFunds s t (response n code true (some x)) w =
      let later : World V = record w { now = w.now + n } in
      SameFunds-trans
        (record { tasks = refl; payments = refl; disputes = refl; delegates = refl; vault = refl })
        (on_poll_text-SameFunds s t x n later)

  poll_endpoint-SameFunds :
      (s : Step) (t : Task) (e : Option String) (w : World V)
      → SameFunds w (poll_endpoint host s t e w).1
  poll_endpoint-SameFunds s t none w = give_up-SameFunds s "no provider endpoint" none w
  poll_endpoint-SameFunds s t (some endpoint) w =
      if-SameFunds (step_is StepStatus.input_required s.status && not (truthy s.input_response)) w _
        _ (enqueue-SameFunds host (poll_job host s) w)
        (on_poll_reply-SameFunds s t (host.fetch endpoint (poll_request host s w) w.now) w)

  poll_waiting-SameFunds :
      (s : Step) (t : Task) (w : World V) → SameFunds w (poll_waiting host s t w).1
  unfolding poll_waiting
  poll_waiting-SameFunds s t w =
      if-SameFunds (is_overdue host s w) w _ _
        (give_up-SameFunds s "async job exceeded max duration" none w)
        (poll_endpoint-SameFunds s t (endpoint_of s) w)

  poll_guarded-SameFunds :
      (s : Step) (t : Task) (w : World V) → SameFunds w (poll_guarded host s t w).1
  unfolding poll_guarded
  poll_guarded-SameFunds s t w = if-SameFunds (is_terminal t.status) w _ _ (SameFunds-refl w) (
      if-SameFunds (task_is TaskStatus.disputed t.status) w _ _ (SameFunds-refl w)
        (if-SameFunds (not (is_waiting s)) w _ _ (SameFunds-refl w) (poll_waiting-SameFunds s t w)))

  poll_missing :
      (id : ℕ) (w : World V)
      → find_step id w.steps ≡ none
      → poll_step host id w ≡ (skipped "step not found", w)
  unfolding poll_step
  poll_missing id w e = rw (e, poll_step)

  poll_orphan :
      (id : ℕ) (w : World V) {s : Step}
      → find_step id w.steps ≡ some s
      → find_task s.task_id w.tasks ≡ none
      → poll_step host id w ≡ (skipped "step has no task", w)
  unfolding poll_step
  poll_orphan id w e f = rw (e, f, poll_step)

  poll_found :
      (id : ℕ) (w : World V) {s : Step} {t : Task}
      → find_step id w.steps ≡ some s
      → find_task s.task_id w.tasks ≡ some t
      → poll_step host id w ≡ poll_guarded host s t w
  unfolding poll_step
  poll_found id w e f = rw (e, f, poll_step)

  -- Polling moves no funds: whatever the provider answers, a poll keeps the tasks, the payments,
  -- the disputes and the vault. A settlement happens only by a job of its own.
  pub poll_step-SameFunds : (id : ℕ) (w : World V) → SameFunds w (poll_step host id w).1
  poll_step-SameFunds id w = elim (Option-cases (find_step id w.steps)) [
    | inl e ↦ rw (poll_missing id w e) (SameFunds-refl w)
    | inr (s, e) ↦ elim (Option-cases (find_task s.task_id w.tasks)) [
      | inl f ↦ rw (poll_orphan id w e f) (SameFunds-refl w)
      | inr (t, f) ↦ rw (poll_found id w e f) (poll_guarded-SameFunds s t w)
    ]
  ]

  -- A step that is resolved, or whose task has ended or is disputed, is not polled: the provider
  -- is not called, and nothing changes.
  poll_step_paused :
      (id : ℕ) (w : World V) (s : Step) (t : Task)
      → find_step id w.steps ≡ some s
      → find_task s.task_id w.tasks ≡ some t
      → (is_terminal t.status || task_is TaskStatus.disputed t.status || not (is_waiting s)) ≡ true
      → (reason : String) × (poll_step host id w ≡ (skipped reason, w))
  unfolding poll_guarded
  poll_step_paused id w s t e f h = elim (Bool-cases (is_terminal t.status)) [
    | inl a ↦ ("task " +++ status_text t.status, poll_found id w e f ∙ rw (a, poll_guarded) refl)
    | inr a ↦ elim (Bool-cases (task_is TaskStatus.disputed t.status)) [
      | inl b ↦ ("task disputed", poll_found id w e f ∙ rw (a, b, poll_guarded) refl)
      | inr b ↦
          let c : not (is_waiting s) ≡ true = rw (a, b) at h in
          ("step not awaiting a poll", poll_found id w e f ∙ rw (a, b, c, poll_guarded) refl)
    ]
  ]

  record_outcome-steps :
      (v : Option Service) (b : Bool) (n : ℕ) (w : World V)
      → (record_outcome host v b n w).steps ≡ w.steps
  unfolding record_outcome
  record_outcome-steps none b n w = refl
  record_outcome-steps (some v) b n w = refl

  give_up-steps :
      (s : Step) (m : String) (n : Option ℕ) (w : World V)
      → (give_up host s m n w).steps
        ≡ update_step s.id
            (λ r. record r {
              status = StepStatus.failed;
              error = some m;
              latency_ms = or_else n r.latency_ms;
            })
            w.steps
  unfolding give_up fail_step enqueue
  give_up-steps s m n w = ground (
    arith,
    record_outcome-steps s.service false (or_zero host n) (
        write_step host s.id
          (λ r. record r {
            status = StepStatus.failed;
            error = some m;
            latency_ms = or_else n r.latency_ms;
          })
          w),
  )

  -- No job runs for ever: a step that has waited past the cap fails at its next poll, whatever its
  -- provider would answer, if its task has not ended and is not disputed.
  poll_step_overdue :
      (id : ℕ) (w : World V) (s : Step) (t : Task)
      → find_step id w.steps ≡ some s
      → find_task s.task_id w.tasks ≡ some t
      → is_terminal t.status ≡ false
      → task_is TaskStatus.disputed t.status ≡ false
      → is_waiting s ≡ true
      → is_overdue host s w ≡ true
      → (w' : World V) × (poll_step host id w ≡ (advanced failed (some "deadline exceeded"), w'))
        × (find_step id w'.steps
            ≡ some (record s {
              status = StepStatus.failed;
              error = some "async job exceeded max duration";
            }))
  unfolding poll_guarded poll_waiting
  poll_step_overdue id w s t e f a b c d =
      let w' = give_up host s "async job exceeded max duration" none w in
      let guarded : poll_guarded host s t w ≡ (advanced failed (some "deadline exceeded"), w') =
        rw (a, b, c, d, poll_guarded, poll_waiting) refl in
      (
        w',
        poll_found id w e f ∙ guarded,
        ap (λ ss. find_step id ss) (give_up-steps s "async job exceeded max duration" none w)
            ∙ find_step-update_own id _ w.steps s (λ r. refl) e,
      )
