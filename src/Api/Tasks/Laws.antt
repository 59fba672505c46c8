-- ===== src/Api/Tasks/Laws.antt =====
-- The approval of a task's held steps, and an approval that is repeated.
use clevercon.Prelude.{
  ℕ, ◌≡◌, refl, sym, ap, ◌∙◌, true, false, ◌&&◌, Bool, none, some, List, [], ◌∷◌, arith,
  Option-cases, Bool-cases, inl, inr, first_eq, ◌==◌, any, All, not, ◌||◌, select, length,
  if◌then◌else◌, subst, is_some,
}
use clevercon.Store.Rows.{Task, TaskStatus, Step}
use clevercon.Store.Tables.{World, Job, steps_of, update_task, update_step}
use clevercon.Worker.Env.{truthy_id}
use clevercon.Worker.Settle.Finalize.{still_open}
use clevercon.Api.{
  Api, ApiHost, Result, ok, err, enqueue, on_world, found, not_found, reads_then_go, reads_then_err,
}
use clevercon.Api.Tasks.{
  own_task, is_held, released_row, release_all, complete_unlocked, approve_held, approve,
}

-- a step is not held by the task, or is one of the list
abbrev covered : ℕ → List Step → Step → Bool
covered task hs s = not (s.task_id == task && is_held s) || any (λ (h : Step). h.id == s.id) hs

abbrev Covers : ℕ → List Step → List Step → Type 0
Covers task hs = All (λ s. covered task hs s ≡ true)

Covers-released :
    (task : ℕ) (h : Step) (hs ss : List Step)
    → Covers task (h ∷ hs) ss
    → Covers task hs (update_step h.id released_row ss)
unfolding update_step
Covers-released task h hs [] c = tt
Covers-released task h hs (s ∷ ss) c = (ground arith, Covers-released task h hs ss c.1)

Covers-more :
    (task : ℕ) (h : Step) (hs ss : List Step) → Covers task hs ss → Covers task (h ∷ hs) ss
Covers-more task h hs [] c = tt
Covers-more task h hs (s ∷ ss) c = (ground arith, Covers-more task h hs ss c.1)

abbrev held_of : ℕ → List Step → List Step
held_of task ss = select is_held (steps_of task ss)

held_more :
    (task : ℕ) (s : Step) (ss : List Step)
    → (s.task_id == task && is_held s) ≡ true
    → s ∷ held_of task ss ≡ held_of task (s ∷ ss)
unfolding steps_of
held_more task s ss h = ground arith

held_same :
    (task : ℕ) (s : Step) (ss : List Step)
    → (s.task_id == task && is_held s) ≡ false
    → held_of task ss ≡ held_of task (s ∷ ss)
unfolding steps_of
held_same task s ss h = ground arith

covered_first : (task : ℕ) (s : Step) (hs : List Step) → covered task (s ∷ hs) s ≡ true
covered_first task s hs = ground arith

covered_free :
    (task : ℕ) (s : Step) (hs : List Step)
    → (s.task_id == task && is_held s) ≡ false
    → covered task hs s ≡ true
covered_free task s hs h = ground arith

Covers-held : (task : ℕ) (ss : List Step) → Covers task (held_of task ss) ss
Covers-held task [] = tt
Covers-held task (s ∷ ss) = elim (Bool-cases (s.task_id == task && is_held s)) [
  | inl e ↦
      subst (λ hs. Covers task hs (s ∷ ss)) (held_more task s ss e)
        (
          covered_first task s (held_of task ss),
          Covers-more task s (held_of task ss) ss (Covers-held task ss),
        )
  | inr e ↦
      subst (λ hs. Covers task hs (s ∷ ss)) (held_same task s ss e)
        (covered_free task s (held_of task ss) e, Covers-held task ss)
]

Covers-none : (task : ℕ) (ss : List Step) → Covers task [] ss → held_of task ss ≡ []
unfolding steps_of
Covers-none task [] c = refl
Covers-none task (s ∷ ss) c = ground (arith, Covers-none task ss c.1)

abbrev complete : Task → Task
complete t = record t { status = TaskStatus.completed }

own_task-update :
    (user task k : ℕ) (ts : List Task) {t : Task}
    → own_task user task ts ≡ some t
    → (r : Task) × (own_task user task (update_task k complete ts) ≡ some r)
unfolding own_task update_task
own_task-update user task k [] e = cc e
own_task-update user task k (x ∷ ts) {t} e =
    elim (Bool-cases (x.id == task && x.buyer_id == user)) [
      | inl b ↦ (if x.id == k then complete x else x, ground arith)
      | inr b ↦
          let e' : own_task user task ts ≡ some t = ground arith in
          let (r, q) = own_task-update user task k ts e' in (r, ground arith)
    ]

module _ (host : ApiHost) {V : Type 0} where
  enqueue-steps :
      (j : Job) (w : World V)
      → ((enqueue host j w).steps ≡ w.steps) × ((enqueue host j w).tasks ≡ w.tasks)
  unfolding enqueue
  enqueue-steps j w = ground arith

  release_all-Covers :
      (task : ℕ) (hs : List Step) (w : World V)
      → Covers task hs w.steps
      → Covers task [] (release_all host hs w).steps
  unfolding release_all
  release_all-Covers task [] w c = c
  release_all-Covers task (h ∷ hs) w c =
      let w' : World V = record w { steps = update_step h.id released_row w.steps } in
      let e = enqueue-steps (Job.settle_step h.id) w' in
      release_all-Covers task hs (enqueue host (Job.settle_step h.id) w')
        (subst (Covers task hs) (sym e.0) (Covers-released task h hs w.steps c))

  release_all-tasks : (hs : List Step) (w : World V) → (release_all host hs w).tasks ≡ w.tasks
  unfolding release_all
  release_all-tasks [] w = refl
  release_all-tasks (h ∷ hs) w =
      release_all-tasks hs _
      ∙ (enqueue-steps (Job.settle_step h.id)
          (record w { steps = update_step h.id released_row w.steps })).1

  complete_unlocked-steps : (t : Task) (w : World V) → (complete_unlocked host t w).steps ≡ w.steps
  unfolding complete_unlocked
  complete_unlocked-steps t w = ground arith

  approve_held-none :
      (task : ℕ) (t : Task) (hs : List Step) (w : World V)
      → hs ≡ held_of task w.steps
      → held_of task (approve_held host t hs w).steps ≡ []
  unfolding approve_held
  approve_held-none task t [] w e = sym e
  approve_held-none task t (h ∷ hs) w e =
      let all_released =
        release_all-Covers task (h ∷ hs) w
          (subst (λ xs. Covers task xs w.steps) (sym e) (Covers-held task w.steps)) in
      Covers-none task _ (
        subst (Covers task []) (sym (complete_unlocked-steps t (release_all host (h ∷ hs) w)))
          all_released)

  complete_unlocked-own :
      (user task : ℕ) (t : Task) (w : World V) {r : Task}
      → own_task user task w.tasks ≡ some r
      → (r' : Task) × (own_task user task (complete_unlocked host t w).tasks ≡ some r')
  unfolding complete_unlocked
  complete_unlocked-own user task t w {r} e =
      elim (Bool-cases
        (is_some (truthy_id t.vault_task_id) || still_open (steps_of t.id w.steps))) [
          | inl b ↦ (r, rw b e)
          | inr b ↦ let (r', e') = own_task-update user task t.id w.tasks e in (r', rw b e')
        ]

  approve_held-own :
      (user task : ℕ) (t : Task) (hs : List Step) (w : World V) {r : Task}
      → own_task user task w.tasks ≡ some r
      → (r' : Task) × (own_task user task (approve_held host t hs w).tasks ≡ some r')
  unfolding approve_held
  approve_held-own user task t [] w {r} e = (r, e)
  approve_held-own user task t (h ∷ hs) w e =
      complete_unlocked-own user task t (release_all host (h ∷ hs) w)
        (ap (own_task user task) (release_all-tasks (h ∷ hs) w) ∙ e)

  abbrev reads : (user task : ℕ) → Api V → Result Task
  reads user task x = found (own_task user task x.world.tasks) (not_found "Task not found")

  abbrev answers : (task : ℕ) → Task → Api V → Result ℕ × Api V
  answers task t x = (
    ok (length (held_of task x.world.steps)),
    on_world (approve_held host t (held_of task x.world.steps)) x,
  )

  approve_found :
      (user task : ℕ) (s : Api V) {t : Task}
      → own_task user task s.world.tasks ≡ some t
      → approve host user task s ≡ (
        ok (length (held_of task s.world.steps)),
        on_world (approve_held host t (held_of task s.world.steps)) s,
      )
  unfolding approve
  approve_found user task s e =
      reads_then_go (reads user task) (answers task) s
        (ap (λ o. found o (not_found "Task not found")) e)

  approve_unknown :
      (user task : ℕ) (s : Api V)
      → own_task user task s.world.tasks ≡ none
      → approve host user task s ≡ (err (not_found "Task not found"), s)
  unfolding approve
  approve_unknown user task s e =
      reads_then_err (reads user task) (answers task) s
        (ap (λ o. found o (not_found "Task not found")) e)

  approve_idle :
      (user task : ℕ) (s : Api V) {t : Task}
      → own_task user task s.world.tasks ≡ some t
      → held_of task s.world.steps ≡ []
      → approve host user task s ≡ (ok 0, s)
  unfolding approve_held
  approve_idle user task s {t} e none_held =
      approve_found user task s e
      ∙ ap (λ hs. (ok (length hs), on_world (approve_held host t hs) s)) none_held

  -- An approval that was answered is answered with no step when it is repeated, and then changes
  -- nothing: each step that was held is released once, and no settlement is queued again.
  pub approve-again :
      (user task n : ℕ) (s s' : Api V)
      → approve host user task s ≡ (ok n, s')
      → approve host user task s' ≡ (ok 0, s')
  approve-again user task n s s' h = elim (Option-cases (own_task user task s.world.tasks)) [
    | inl e ↦ cc (first_eq (sym (approve_unknown user task s e) ∙ h))
    | inr (t, e) ↦
        let hs = held_of task s.world.steps in
        let last : on_world (approve_held host t hs) s ≡ s' =
          ap (λ x. x.1) (sym (approve_found user task s e) ∙ h) in
        let own = approve_held-own user task t hs s.world e in
        subst (λ x. approve host user task x ≡ (ok 0, x)) last
          (approve_idle user task (on_world (approve_held host t hs) s) own.1
            (approve_held-none task t hs s.world refl))
  ]
