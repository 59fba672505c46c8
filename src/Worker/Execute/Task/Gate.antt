-- ===== src/Worker/Execute/Task/Gate.antt =====
-- The dependency gate of the pass, and what a pass may not touch.
use clevercon.Prelude.{
  ℕ, suc, ◌≡◌, ◌≢◌, refl, sym, ap, ◌∙◌, ◌⊎◌, true, false, ◌||◌, Option, none, some, List, [], ◌∷◌,
  Bool-cases, inl, inr, All, any, get_elem?, arith,
}
use clevercon.Store.Rows.{Step, StepStatus, Task}
use clevercon.Store.Tables.{update_step}
use clevercon.Worker.Host.{Host}
use clevercon.Worker.Execute.Task.{
  Pass, status_at, is_blocking, depends_on_blocked, dependencies_released, is_settled_already,
  is_parked, execute_step, execute_steps,
}

abbrev pub IsIdle : Step → Type 0
IsIdle step = (is_settled_already step || is_parked step) ≡ true

-- A dependency at an index that has failed or was skipped.
abbrev pub HasEnded : List Step → ℕ → Type 0
HasEnded loaded i =
    (status_at i loaded ≡ some StepStatus.failed) ⊎ (status_at i loaded ≡ some StepStatus.skipped)

-- The k-th dependency of a step has ended without a release.
pub record IsBlocked (step : Step) (loaded : List Step) : Type 0 where
  pub place : ℕ
  pub index : ℕ
  pub depends : get_elem? step.depends_on place ≡ some index
  pub ended : HasEnded loaded index

abbrev pub InFlight : List Step → ℕ → Type 0
InFlight loaded i =
    (status_at i loaded ≢ some StepStatus.failed) × (status_at i loaded ≢ some StepStatus.skipped)

blocking-ended :
    (o : Option StepStatus)
    → is_blocking o ≡ true
    → (o ≡ some StepStatus.failed) ⊎ (o ≡ some StepStatus.skipped)
blocking-ended none h = cc h
blocking-ended (some StepStatus.pending) h = cc h
blocking-ended (some StepStatus.running) h = cc h
blocking-ended (some StepStatus.input_required) h = cc h
blocking-ended (some StepStatus.awaiting_approval) h = cc h
blocking-ended (some StepStatus.released) h = cc h
blocking-ended (some StepStatus.failed) h = inl refl
blocking-ended (some StepStatus.skipped) h = inr refl

blocking_free :
    (o : Option StepStatus)
    → is_blocking o ≡ false
    → (o ≢ some StepStatus.failed) × (o ≢ some StepStatus.skipped)
blocking_free o h = (λ e. cc (sym (ap is_blocking e) ∙ h), λ e. cc (sym (ap is_blocking e) ∙ h))

blocked_place :
    (loaded : List Step) (is : List ℕ)
    → any (λ i. is_blocking (status_at i loaded)) is ≡ true
    → (k : ℕ) × (i : ℕ) × (get_elem? is k ≡ some i) × HasEnded loaded i
blocked_place loaded [] h = cc h
blocked_place loaded (i ∷ is) h = elim (Bool-cases (is_blocking (status_at i loaded))) [
  | inl e ↦ (0, i, refl, blocking-ended (status_at i loaded) e)
  | inr e ↦ let (k, j, at, ended) = blocked_place loaded is (rw e at h) in (suc k, j, at, ended)
]

blocked_nowhere :
    (loaded : List Step) (is : List ℕ)
    → any (λ i. is_blocking (status_at i loaded)) is ≡ false
    → All (InFlight loaded) is
blocked_nowhere loaded [] h = tt
blocked_nowhere loaded (i ∷ is) h =
    (blocking_free (status_at i loaded) (ground arith), blocked_nowhere loaded is (ground arith))

-- What a pass does with a step that has to wait: nothing, since it is parked or done already, or
-- since no dependency has ended without a release; or it is skipped, since one has.
pub data Waits {V : Type 0} (step : Step) (p p' : Pass V) : Type 0 where
  idle : IsIdle step → p'.world ≡ p.world → p'.loaded ≡ p.loaded → Waits step p p'
  in_flight :
      All (InFlight p.loaded) step.depends_on → p' ≡ record p { any_held = true } → Waits step p p'
  blocked :
      IsBlocked step p.loaded
      → p'.any_failed ≡ true
      → p'.loaded ≡ update_step step.id (λ s. record s { status = StepStatus.skipped }) p.loaded
      → p'.world ≡ record (p.world) {
        steps =
            update_step step.id
              (λ s. record s {
                status = StepStatus.skipped;
                error = some "dependency did not complete";
              })
              p.world.steps;
      }
      → Waits step p p'

module _ {V : Type 0} (host : Host V) where
  -- A step whose dependencies are not all released is not handed to its provider. Where it is not
  -- done or parked already, a pass skips it if and only if one of its dependencies failed or was
  -- skipped; where none did, the step is left as it is and its task stays unfinished.
  pub execute_step_waits :
      (task : Task) (step : Step) (p : Pass V)
      → dependencies_released step p.loaded ≡ false
      → Waits step p (execute_step host task step p)
  unfolding execute_step
  execute_step_waits task step p h = elim (Bool-cases (is_settled_already step)) [
    | inl a ↦ idle (rw a refl) (rw (a, execute_step) refl) (rw (a, execute_step) refl)
    | inr a ↦ elim (Bool-cases (is_parked step)) [
      | inl b ↦ idle (rw (a, b) refl) (rw (a, b, execute_step) refl) (rw (a, b, execute_step) refl)
      | inr b ↦ elim (Bool-cases (depends_on_blocked step p.loaded)) [
        | inl c ↦
            let (k, i, at, ended) = blocked_place p.loaded step.depends_on c in
            blocked (record { place = k; index = i; depends = at; ended = ended })
              (rw (a, b, c, execute_step) refl) (rw (a, b, c, execute_step) refl)
              (rw (a, b, c, execute_step) refl)
        | inr c ↦
            in_flight (blocked_nowhere p.loaded step.depends_on c)
              (rw (a, b, c, h, execute_step) refl)
      ]
    ]
  ]

  execute_step_idle :
      (task : Task) (step : Step) (p : Pass V)
      → IsIdle step
      → ((execute_step host task step p).world ≡ p.world)
        × ((execute_step host task step p).steps_run ≡ p.steps_run)
        × ((execute_step host task step p).any_failed ≡ p.any_failed)
  unfolding execute_step
  execute_step_idle task step p h = elim (Bool-cases (is_settled_already step)) [
    | inl a ↦ rw (a, execute_step) (refl, refl, refl)
    | inr a ↦
        let b : is_parked step ≡ true = rw a at h in rw (a, b, execute_step) (refl, refl, refl)
  ]

  -- A pass over steps that are all released, held or parked calls no provider and writes nothing.
  pub execute_steps_idle :
      (task : Task) (ss : List Step) (p : Pass V)
      → All IsIdle ss
      → ((execute_steps host task ss p).world ≡ p.world)
        × ((execute_steps host task ss p).steps_run ≡ p.steps_run)
        × ((execute_steps host task ss p).any_failed ≡ p.any_failed)
  unfolding execute_steps
  execute_steps_idle task [] p h = (refl, refl, refl)
  execute_steps_idle task (s ∷ ss) p h =
      let here = execute_step_idle task s p h.0 in
      let rest = execute_steps_idle task ss (execute_step host task s p) h.1 in
      (rest.0 ∙ here.0, rest.1 ∙ here.1, rest.2 ∙ here.2)
