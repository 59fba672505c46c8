-- ===== src/Worker/Jobs/Ends.antt =====
-- A settlement job ends: with a result that is not to be retried, or with its task given up.
use clevercon.Prelude.{
  ℕ, zero, suc, ◌+◌, ◌≡◌, refl, sym, ap, ◌∙◌, false, Option, none, some, List, ◌++◌, arith,
  Option-cases, Bool-cases, inl, inr, some_subst, subst, ◌⊎◌,
}
use clevercon.Store.Rows.{Step, Task, TaskStatus, task_is}
use clevercon.Store.Tables.{World, find_step, find_task}
use clevercon.Store.Tables.Laws.{find_task-update_own}
use clevercon.Worker.Env.{Env}
use clevercon.Worker.Settle.{SettleResult}
use clevercon.Proof.Bytes.{Bytes}
use clevercon.Worker.Jobs.{
  WebHook, Attempt, returned, thrown, is_retried, finish_job, after_settlement, settlement_job,
  fail_row, give_up, Ending, done, exhausted, run_attempts, mark_failed, task_of,
}

-- No task of the step is left running.
abbrev pub IsGivenUp : {V : Type 0} → ℕ → World V → Type 0
IsGivenUp step w =
    (s : Step) (t : Task)
    → find_step step w.steps ≡ some s
    → find_task s.task_id w.tasks ≡ some t
    → task_is TaskStatus.running t.status ≡ false

abbrev pub EndsWell : {V : Type 0} → ℕ → Ending × List WebHook × World V → Type 0
EndsWell step (done r, hooks, w) = is_retried r ≡ false
EndsWell step (exhausted, hooks, w) = IsGivenUp step w

module _ {V : Type 0} where
  give_up_missing :
      (step : ℕ) (w : World V) → find_step step w.steps ≡ none → IsGivenUp step (give_up step w).1
  unfolding give_up
  give_up_missing step w e s t f g = ground arith

  mark_failed-steps : (o : Option Task) (w : World V) → (mark_failed o w).1.steps ≡ w.steps
  mark_failed-steps none w = refl
  mark_failed-steps (some t) w = ground arith

  -- The task that is marked is found as failed, or was not running.
  mark_failed-found :
      (k : ℕ) (w : World V) (o : Option Task) (t : Task)
      → find_task k w.tasks ≡ o
      → find_task k (mark_failed o w).1.tasks ≡ some t
      → task_is TaskStatus.running t.status ≡ false
  mark_failed-found k w none t f g = cc
  mark_failed-found k w (some r) t f g = elim (Bool-cases (task_is TaskStatus.running r.status)) [
    | inl e ↦
        let found = find_task-update_own k fail_row w.tasks r (λ t. refl) f in
        some_subst (λ (t : Task). task_is TaskStatus.running t.status ≡ false)
          (sym found ∙ (rw e at g)) refl
    | inr e ↦
        some_subst (λ (t : Task). task_is TaskStatus.running t.status ≡ false) (sym f ∙ (rw e at g))
          e
  ]

  give_up_found :
      (step : ℕ) (w : World V) {s : Step}
      → find_step step w.steps ≡ some s
      → give_up step w ≡ mark_failed (find_task s.task_id w.tasks) w
  unfolding give_up
  give_up_found step w e = rw (e, give_up) refl

  give_up-IsGivenUp : (step : ℕ) (w : World V) → IsGivenUp step (give_up step w).1
  give_up-IsGivenUp step w = elim (Option-cases (find_step step w.steps)) [
    | inl e ↦ give_up_missing step w e
    | inr (s, e) ↦ λ s' t f g.
        let k = give_up_found step w e in
        let steps = ap (λ r. r.1.steps) k ∙ mark_failed-steps (find_task s.task_id w.tasks) w in
        let same : some s ≡ some s' = sym e ∙ sym (ap (λ ss. find_step step ss) steps) ∙ f in
        mark_failed-found s.task_id w (find_task s.task_id w.tasks) t refl (
          sym (ap (λ r. find_task s.task_id r.1.tasks) k)
          ∙ some_subst (λ (x : Step). find_task x.task_id (give_up step w).1.tasks ≡ some t)
              (sym same) g)
  ]

Attempt-cases :
    (a : Attempt) → ((r : SettleResult) × (a ≡ returned r)) ⊎ ((r : SettleResult) × (a ≡ thrown r))
Attempt-cases (returned r) = inl (r, refl)
Attempt-cases (thrown r) = inr (r, refl)

EndsWell-any :
    {V : Type 0} (step : ℕ) (e : Ending) (h k : List WebHook) (w : World V)
    → EndsWell step (e, h, w)
    → EndsWell step (e, k, w)
EndsWell-any step (done r) h k w p = p
EndsWell-any step exhausted h k w p = p

module _ {V : Type 0} (env : Env V) where
  finish_job-attempt :
      (r : SettleResult) (hooks : List WebHook) (w : World V)
      → (finish_job env r hooks w).attempt ≡ returned r
  unfolding finish_job
  finish_job-attempt r hooks w = elim (Option-cases (task_of r)) [
    | inl e ↦ rw (e, finish_job) refl
    | inr (t, e) ↦ rw (e, finish_job) refl
  ]

  after_settlement-returned :
      (step : ℕ) (q : SettleResult × World V) (r : SettleResult)
      → (after_settlement env step q).attempt ≡ returned r
      → is_retried r ≡ false
  unfolding after_settlement
  after_settlement-returned step (x, w) r h = elim (Bool-cases (is_retried x)) [
    | inl e ↦ cc (rw e at h)
    | inr e ↦
        let k : returned x ≡ returned r = sym (finish_job-attempt x _ w) ∙ (rw e at h) in
        let same : x ≡ r = cc k in subst (λ y. is_retried y ≡ false) same e
  ]

  module _ (draw : ℕ → Bytes) (meanwhile : ℕ → World V → World V) (step : ℕ) where
    run_attempts_returned :
        (left i : ℕ) (w : World V) (r : SettleResult)
        → let run = settlement_job env step (draw i) (meanwhile i w) in
          run.attempt ≡ returned r
          → run_attempts env (suc left) i draw meanwhile step w ≡ (done r, run.hooks, run.world)
    unfolding run_attempts
    run_attempts_returned left i w r h = rw (h, run_attempts) refl

    run_attempts_thrown :
        (left i : ℕ) (w : World V) (r : SettleResult)
        → let run = settlement_job env step (draw i) (meanwhile i w) in
          let rest = run_attempts env left (i + 1) draw meanwhile step run.world in
          run.attempt ≡ thrown r
          → run_attempts env (suc left) i draw meanwhile step w
            ≡ (rest.0, run.hooks ++ rest.1, rest.2)
    unfolding run_attempts
    run_attempts_thrown left i w r h = rw (h, run_attempts) refl

    -- A settlement job ends within its attempts, whatever the other workers do between them: it
    -- returns a result that is not to be retried, or, after its last attempt has thrown, the task
    -- of its step, where the step and the task have rows, is not left running.
    pub run_attempts-EndsWell :
        (left i : ℕ) (w : World V) → EndsWell step (run_attempts env left i draw meanwhile step w)
    run_attempts-EndsWell zero i w = unfold run_attempts in give_up-IsGivenUp step w
    run_attempts-EndsWell (suc left) i w =
        let run = settlement_job env step (draw i) (meanwhile i w) in
        elim (Attempt-cases run.attempt) [
          | inl (r, e) ↦
              rw (run_attempts_returned left i w r e)
                (unfold settlement_job in after_settlement-returned step _ r e)
          | inr (r, e) ↦
              rw (run_attempts_thrown left i w r e)
                (EndsWell-any step _ _ _ _ (run_attempts-EndsWell left (i + 1) run.world))
        ]
