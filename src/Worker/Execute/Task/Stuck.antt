-- ===== src/Worker/Execute/Task/Stuck.antt =====
-- What a failure in a pass means for the steps that depend on it.
use clevercon.Prelude.{
  ℕ, ◌≡◌, refl, ap, ◌∙◌, true, false, ◌&&◌, ◌||◌, Option, none, some, [], ◌∷◌, arith, Bool-cases,
  inl, inr, is_some, ◌==◌, ==_refl, any, all,
}
use clevercon.Store.Rows.{Step, StepStatus, Task, TaskStatus}
use clevercon.Store.Tables.{World, find_task, steps_of, update_step}
use clevercon.Store.Tables.Laws.{find_task-update, steps_of-update}
use clevercon.Worker.Env.{truthy_id}
use clevercon.Worker.Host.{Host}
use clevercon.Worker.Execute.{endpoint_of, write_step}
use clevercon.Worker.Execute.Task.{
  ran, skipped, failed, Pass, is_terminal, status_at, is_blocking, is_released, is_settled_already,
  is_parked, depends_on_blocked, dependencies_released, set_status, start, no_endpoint,
  execute_step, execute_steps, conclude, execute_task, task_status, execute_status,
}
use clevercon.Worker.Execute.Task.Replay.{execute_task_live, execute_task_terminal}
use clevercon.Worker.Settle.Finalize.{finalize_task_if_complete, still_open, is_non_terminal}
use clevercon.Worker.Settle.Finalize.Laws.{finalize_open}

module _ {V : Type 0} (host : Host V) where
  abbrev pub unreachable : Step → Step
  unreachable s = record s { status = StepStatus.failed; error = some "no provider endpoint" }

  execute_step_unreachable :
      (t : Task) (a : Step) (p : Pass V)
      → is_settled_already a ≡ false
      → is_parked a ≡ false
      → depends_on_blocked a p.loaded ≡ false
      → dependencies_released a p.loaded ≡ true
      → endpoint_of a ≡ none
      → execute_step host t a p ≡ no_endpoint host a p
  unfolding execute_step
  execute_step_unreachable t a p h1 h2 h3 h4 h5 = rw (h1, h2, h3, h4, h5, execute_step) refl

  execute_step_waiting :
      (t : Task) (b : Step) (p : Pass V)
      → is_settled_already b ≡ false
      → is_parked b ≡ false
      → depends_on_blocked b p.loaded ≡ false
      → dependencies_released b p.loaded ≡ false
      → execute_step host t b p ≡ record p { any_held = true }
  unfolding execute_step
  execute_step_waiting t b p h1 h2 h3 h4 = rw (h1, h2, h3, h4, execute_step) refl

  pending_free :
      (s : Step)
      → s.status ≡ StepStatus.pending
      → (is_settled_already s ≡ false) × (is_parked s ≡ false)
  pending_free s h = ground arith

  no_endpoint_step :
      (t : Task) (a : Step) (p : Pass V)
      → a.status ≡ StepStatus.pending
      → a.depends_on ≡ []
      → endpoint_of a ≡ none
      → execute_step host t a p ≡ no_endpoint host a p
  no_endpoint_step t a p s d e =
      execute_step_unreachable t a p (pending_free a s).0 (pending_free a s).1
        (ap (λ is. any (λ i. is_blocking (status_at i p.loaded)) is) d)
        (ap (λ is. all (λ i. is_released (status_at i p.loaded)) is) d) e

  dependent_waits :
      (t : Task) (b : Step) (i : ℕ) (p : Pass V)
      → b.status ≡ StepStatus.pending
      → b.depends_on ≡ i ∷ []
      → status_at i p.loaded ≡ some StepStatus.pending
      → execute_step host t b p ≡ record p { any_held = true }
  dependent_waits t b i p s d e =
      execute_step_waiting t b p (pending_free b s).0 (pending_free b s).1
        (ap (λ is. any (λ i. is_blocking (status_at i p.loaded)) is) d
          ∙ ap (λ (o : Option StepStatus). is_blocking o || false) e)
        (ap (λ is. all (λ i. is_released (status_at i p.loaded)) is) d
          ∙ ap (λ (o : Option StepStatus). is_released o && true) e)

  status_at_pair :
      (a b : Step) → (b.index == a.index) ≡ false → status_at a.index (a ∷ b ∷ []) ≡ some a.status
  unfolding status_at
  status_at_pair a b h = rw (h, status_at, ==_refl a.index) refl

  -- The whole loop over the two steps.
  pair_pass :
      (t : Task) (a b : Step) (p : Pass V)
      → p.loaded ≡ a ∷ b ∷ []
      → a.status ≡ StepStatus.pending
      → a.depends_on ≡ []
      → endpoint_of a ≡ none
      → b.status ≡ StepStatus.pending
      → b.depends_on ≡ a.index ∷ []
      → (b.index == a.index) ≡ false
      → execute_steps host t (a ∷ b ∷ []) p ≡ record (no_endpoint host a p) { any_held = true }
  unfolding execute_steps
  pair_pass t a b p l sa da ea sb db ne =
      let seen : status_at a.index p.loaded ≡ some StepStatus.pending =
        ap (λ ss. status_at a.index ss) l ∙ status_at_pair a b ne ∙ ap (λ x. some x) sa in
      ap (λ q. execute_step host t b q) (no_endpoint_step t a p sa da ea)
      ∙ dependent_waits t b a.index (no_endpoint host a p) sb db seen

  conclude_open :
      (id : ℕ) (t t' : Task) (p : Pass V)
      → find_task id (set_status host id (task_status host p) p.world).tasks ≡ some t'
      → still_open (steps_of t'.id p.world.steps) ≡ true
      → conclude host id t p ≡ (
        ran (execute_status host p) p.steps_run t.buyer_id,
        set_status host id (task_status host p) p.world,
      )
  unfolding conclude
  conclude_open id t t' p f o = elim (Bool-cases (is_some (truthy_id t.vault_task_id))) [
    | inr e ↦ rw (e, conclude) refl
    | inl e ↦
        rw (e, conclude)
          (ap (λ (v : World V). (ran (execute_status host p) p.steps_run t.buyer_id, v))
            (finalize_open host.env id (set_status host id (task_status host p) p.world) f o))
  ]

  abbrev stuck_world : ℕ → Step → World V → World V
  stuck_world id a w =
      set_status host id TaskStatus.failed
        (write_step host a.id unreachable (set_status host id TaskStatus.running w))

  stuck-find :
      (id : ℕ) (a : Step) (w : World V) {t : Task}
      → find_task id w.tasks ≡ some t
      → find_task id (stuck_world id a w).tasks ≡ some (record t { status = TaskStatus.failed })
  stuck-find id a w f =
      find_task-update id (λ t. record t { status = TaskStatus.failed })
        (set_status host id TaskStatus.running w).tasks (λ t. refl)
        (find_task-update id (λ t. record t { status = TaskStatus.running }) w.tasks (λ t. refl) f)

  stuck-steps :
      (id task : ℕ) (a b : Step) (w : World V)
      → steps_of task w.steps ≡ a ∷ b ∷ []
      → (b.id == a.id) ≡ false
      → steps_of task (stuck_world id a w).steps ≡ unreachable a ∷ b ∷ []
  unfolding update_step
  stuck-steps id task a b w l ne =
      steps_of-update task a.id unreachable w.steps (λ s. refl)
      ∙ ap (λ ss. update_step a.id unreachable ss) l
      ∙ rw (==_refl a.id, ne) refl

  -- A step without an endpoint strands the step that depends on it. Let a live task have two
  -- pending steps, the second depending on the first, and the first without an endpoint. Running
  -- the task then ends it as failed with the second step still pending, not skipped; and there it
  -- stays: the next run skips the task, a finalisation changes nothing, and so what the task has
  -- locked on the vault is not unlocked.
  pub execute_task_stuck :
      (id : ℕ) (w : World V) (t : Task) (a b : Step)
      → find_task id w.tasks ≡ some t
      → is_terminal t.status ≡ false
      → steps_of t.id w.steps ≡ a ∷ b ∷ []
      → a.status ≡ StepStatus.pending
      → a.depends_on ≡ []
      → endpoint_of a ≡ none
      → b.status ≡ StepStatus.pending
      → b.depends_on ≡ a.index ∷ []
      → (b.index == a.index) ≡ false
      → (b.id == a.id) ≡ false
      → (w' : World V) × (execute_task host id w ≡ (ran failed 0 t.buyer_id, w'))
        × (find_task id w'.tasks ≡ some (record t { status = TaskStatus.failed }))
        × (steps_of t.id w'.steps ≡ unreachable a ∷ b ∷ [])
        × (w'.vault ≡ w.vault)
        × (execute_task host id w' ≡ (skipped "task already terminal" (some t.buyer_id), w'))
        × ((finalize_task_if_complete host.env id w').1 ≡ w')
  unfolding is_non_terminal
  execute_task_stuck id w t a b f live l sa da ea sb db ne_index ne_id =
      let w' = stuck_world id a w in
      let p = start host id t w in
      let loop : execute_steps host t (steps_of t.id w.steps) p
          ≡ record (no_endpoint host a p) { any_held = true } =
        ap (λ ss. execute_steps host t ss p) l ∙ pair_pass t a b p l sa da ea sb db ne_index in
      let found = stuck-find id a w f in
      let steps = stuck-steps id t.id a b w l ne_id in
      let open_b : still_open (unreachable a ∷ b ∷ []) ≡ true =
        ap (λ x. is_non_terminal x || false) sb in
      let open_steps : still_open (steps_of t.id w'.steps) ≡ true =
        ap (λ ss. still_open ss) steps ∙ open_b in
      (
        w',
        execute_task_live host id w f live
            ∙ ap (λ q. conclude host id t q) loop
            ∙ conclude_open id t (record t { status = TaskStatus.failed })
                (record (no_endpoint host a p) { any_held = true }) found open_steps,
        found,
        steps,
        refl,
        execute_task_terminal host id w' found refl,
        finalize_open host.env id w' found open_steps,
      )
