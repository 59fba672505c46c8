-- ===== src/Worker/Execute/Taken.antt =====
-- What becomes of a delivery that is taken: its step is held for the buyer, or released.
use clevercon.Prelude.{
  ℕ, ◌+◌, ◌*◌, ◌≡◌, ◌≢◌, ◌≤◌, refl, ap, ◌∙◌, Bool, true, false, ◌&&◌, ◌||◌, Option, none, some,
  List, [], ◌∷◌, ◌++◌, String, arith, Bool-cases, Option-cases, inl, inr, first_eq, ◌⊎◌, ◌==◌, ltb,
  map, is_some, subst, if◌then◌else◌,
}
use clevercon.Json.{Json, get}
use clevercon.Store.Rows.{Step, StepStatus, Service, Tier}
use clevercon.Store.Tables.{World, Job, update_step}
use clevercon.Worker.Env.{truthy_id}
use clevercon.Worker.Host.{Host, enqueue}
use clevercon.Worker.Execute.{
  Thrown, good, thrown, accept, after_accept, finalize_delivery, is_held, is_tier, tier_of, hold,
  judged, release_now, record_outcome, write_step, stored_output, keep_artifact,
}
use clevercon.Worker.Execute.Accept.{Accepted, accept-good}

abbrev pub statuses : List Step → List StepStatus
statuses = map (λ (s : Step). s.status)

-- the statuses of a table in which the steps of an id have the status
abbrev pub statuses_with : ℕ → StepStatus → List Step → List StepStatus
statuses_with id c = map (λ (s : Step). if s.id == id then c else s.status)

status_one :
    (k : ℕ) (c : StepStatus) (f : Step → Step) (s : Step)
    → ((s : Step) → (f s).status ≡ c)
    → (if s.id == k then f s else s).status ≡ (if s.id == k then c else s.status)
status_one k c f s h = elim (Bool-cases (s.id == k)) [ inl e ↦ rw e (h s) | inr e ↦ rw e refl ]

status_kept :
    (k : ℕ) (f : Step → Step) (s : Step)
    → ((s : Step) → (f s).status ≡ s.status)
    → (if s.id == k then f s else s).status ≡ s.status
status_kept k f s h = elim (Bool-cases (s.id == k)) [ inl e ↦ rw e (h s) | inr e ↦ rw e refl ]

statuses-update :
    (k : ℕ) (c : StepStatus) (f : Step → Step) (ss : List Step)
    → ((s : Step) → (f s).status ≡ c)
    → statuses (update_step k f ss) ≡ statuses_with k c ss
unfolding update_step
statuses-update k c f [] h = refl
statuses-update k c f (s ∷ ss) h =
    ap (λ x. x ∷ statuses (update_step k f ss)) (status_one k c f s h)
    ∙ ap (λ xs. (if s.id == k then c else s.status) ∷ xs) (statuses-update k c f ss h)

statuses-kept :
    (k : ℕ) (f : Step → Step) (ss : List Step)
    → ((s : Step) → (f s).status ≡ s.status)
    → statuses (update_step k f ss) ≡ statuses ss
unfolding update_step
statuses-kept k f [] h = refl
statuses-kept k f (s ∷ ss) h =
    ap (λ x. x ∷ statuses (update_step k f ss)) (status_kept k f s h)
    ∙ ap (λ xs. s.status ∷ xs) (statuses-kept k f ss h)

-- A delivery of the service's tier is held for its buyer: T3, or T2 with a window.
abbrev pub NeedsBuyer : Step → ℕ → Type 0
NeedsBuyer step window =
    (tier_of step ≡ some Tier.t3) ⊎ ((tier_of step ≡ some Tier.t2) × (1 ≤ window))

abbrev pub NeedsNobody : Step → ℕ → Type 0
NeedsNobody step window =
    (tier_of step ≢ some Tier.t3) × ((tier_of step ≢ some Tier.t2) ⊎ (window ≡ 0))

held_tier :
    (t : Option Tier) (window : ℕ)
    → (is_tier Tier.t2 t && ltb 0 window || is_tier Tier.t3 t) ≡ true
    → (t ≡ some Tier.t3) ⊎ ((t ≡ some Tier.t2) × (1 ≤ window))
held_tier none window h = cc h
held_tier (some Tier.t1) window h = cc h
held_tier (some Tier.t2) window h = inr (refl, ground arith)
held_tier (some Tier.t3) window h = inl refl

free_tier :
    (t : Option Tier) (window : ℕ)
    → (is_tier Tier.t2 t && ltb 0 window || is_tier Tier.t3 t) ≡ false
    → (t ≢ some Tier.t3) × ((t ≢ some Tier.t2) ⊎ (window ≡ 0))
free_tier none window h = (λ e. cc e, inl λ e. cc e)
free_tier (some Tier.t1) window h = (λ e. cc e, inl λ e. cc e)
free_tier (some Tier.t2) window h = (λ e. cc e, inr (ground arith))
free_tier (some Tier.t3) window h = cc h

t3_untimed :
    (t : Option Tier) (window : ℕ) → t ≡ some Tier.t3 → (is_tier Tier.t2 t && ltb 0 window) ≡ false
t3_untimed t window e = rw e refl

more_jobs :
    (j : Job) {a b c : List Job} → (a ≡ b) ⊎ (a ≡ b ++ j ∷ []) → b ≡ c → (a ≡ c) ⊎ (a ≡ c ++ j ∷ [])
more_jobs j (inl e) f = inl (e ∙ f)
more_jobs j (inr e) f = inr (e ∙ ap (λ x. x ++ j ∷ []) f)

module _ {V : Type 0} (host : Host V) where
  -- A delivery that is held: its row waits for the buyer, and nothing is settled; a timer may
  -- be set, unless its service is T3.
  pub record Held (step : Step) (window : ℕ) (w w' : World V) : Type 0 where
    pub waits : statuses w'.steps ≡ statuses_with step.id StepStatus.awaiting_approval w.steps
    pub timer :
        (w'.jobs ≡ w.jobs) ⊎ (w'.jobs ≡ w.jobs ++ Job.release_step step.id (window * 1000) ∷ [])
    pub no_timer : tier_of step ≡ some Tier.t3 → w'.jobs ≡ w.jobs

  -- One that is released at once: its row is released, and its settlement may be queued.
  pub record Freed (step : Step) (w w' : World V) : Type 0 where
    pub done : statuses w'.steps ≡ statuses_with step.id StepStatus.released w.steps
    pub settlement : (w'.jobs ≡ w.jobs) ⊎ (w'.jobs ≡ w.jobs ++ Job.settle_step step.id ∷ [])

  enqueue-steps : (j : Job) (w : World V) → (enqueue host j w).steps ≡ w.steps
  unfolding enqueue
  enqueue-steps j w = ground arith

  enqueue-jobs :
      (j : Job) (w : World V)
      → ((enqueue host j w).jobs ≡ w.jobs) ⊎ ((enqueue host j w).jobs ≡ w.jobs ++ j ∷ [])
  unfolding enqueue
  enqueue-jobs j w = elim (Bool-cases (host.queue_down j w.now)) [
    | inl e ↦ inl (rw e refl)
    | inr e ↦ inr (rw e refl)
  ]

  record_outcome-steps :
      (v : Option Service) (b : Bool) (n : ℕ) (w : World V)
      → ((record_outcome host v b n w).steps ≡ w.steps)
        × ((record_outcome host v b n w).jobs ≡ w.jobs)
  unfolding record_outcome
  record_outcome-steps none b n w = (refl, refl)
  record_outcome-steps (some v) b n w = (refl, refl)

  if_enqueue :
      (b : Bool) (j : Job) (w : World V)
      → ((if b then enqueue host j w else w).steps ≡ w.steps)
        × (((if b then enqueue host j w else w).jobs ≡ w.jobs)
            ⊎ ((if b then enqueue host j w else w).jobs ≡ w.jobs ++ j ∷ []))
  if_enqueue true j w = (enqueue-steps j w, enqueue-jobs j w)
  if_enqueue false j w = (refl, inl refl)

  if_enqueue_not :
      (b : Bool) (j : Job) (w : World V)
      → b ≡ false
      → (if b then enqueue host j w else w).jobs ≡ w.jobs
  if_enqueue_not b j w e = rw e refl

  judged-steps :
      (step : Step) (i o : Json) (w : World V)
      → (statuses (judged host step i o w).steps ≡ statuses w.steps)
        × ((judged host step i o w).jobs ≡ w.jobs)
  judged-steps step i o w =
      let description : String = elim step.service [
        | none ↦ step.action
        | some v ↦ elim v.description [ none ↦ step.action | some d ↦ d ]
      ] in
      elim (Option-cases (host.judge description step.action i o)) [
        | inl e ↦ rw (e, judged) (refl, refl)
        | inr (r, e) ↦ rw (e, judged) (statuses-kept step.id _ w.steps (λ s. refl), refl)
      ]

  release_now-Freed :
      (step : Step) (v : Option ℕ) (e : Json) (n : ℕ) (w : World V)
      → Freed step w (release_now host step v e n w)
  unfolding release_now
  release_now-Freed step v e n w =
      let b = is_some (truthy_id v) && is_some step.service in
      let f : Step → Step = λ s. record s {
        status = StepStatus.released;
        output = some (stored_output host.js e);
        latency_ms = some n;
        error = none;
        artifact = keep_artifact (get "artifact" e) s.artifact;
      } in
      let mid = write_step host step.id f w in
      let out = record_outcome host step.service true n mid in
      let (steps, jobs) = if_enqueue b (Job.settle_step step.id) out in
      let kept = record_outcome-steps step.service true n mid in
      record {
        done =
            ap statuses (steps ∙ kept.0)
            ∙ statuses-update step.id StepStatus.released f w.steps (λ s. refl);
        settlement = more_jobs (Job.settle_step step.id) jobs kept.1;
      }

  hold-Held :
      (step : Step) (i e : Json) (n window : ℕ) (w : World V)
      → Held step window w (hold host step i e n window w)
  unfolding hold
  hold-Held step i e n window w =
      let windowed = is_tier Tier.t2 (tier_of step) && ltb 0 window in
      let due = w.now + window * 1000 in
      let f : Step → Step = λ s. record s {
        status = StepStatus.awaiting_approval;
        output = some (stored_output host.js e);
        latency_ms = some n;
        error = none;
        release_at = if windowed then some due else s.release_at;
        artifact = keep_artifact (get "artifact" e) s.artifact;
      } in
      let mid = write_step host step.id f w in
      let out = record_outcome host step.service true n mid in
      let signalled = judged host step i (get "data" e) out in
      let j = Job.release_step step.id (window * 1000) in
      let (steps, jobs) = if_enqueue windowed j signalled in
      let noted = judged-steps step i (get "data" e) out in
      let kept = record_outcome-steps step.service true n mid in
      record {
        waits =
            ap statuses steps
            ∙ noted.0
            ∙ ap statuses kept.0
            ∙ statuses-update step.id StepStatus.awaiting_approval f w.steps (λ s. refl);
        timer = more_jobs j jobs (noted.1 ∙ kept.1);
        no_timer = λ t.
            if_enqueue_not windowed j signalled (t3_untimed (tier_of step) window t)
            ∙ noted.1
            ∙ kept.1;
      }

  -- What a delivery that was taken has passed, and what became of it.
  pub record Taken (step : Step) (input envelope : Json) (raw : String) (window : ℕ)
      (status : StepStatus) (w w' : World V) : Type 0 where
    pub accepted : Accepted host.js step input envelope raw
    pub outcome :
        (NeedsBuyer step window × (status ≡ StepStatus.awaiting_approval) × Held step window w w')
        ⊎ (NeedsNobody step window × (status ≡ StepStatus.released) × Freed step w w')

  after_accept-cases :
      (step : Step) (vault_task : Option ℕ) (input envelope : Json) (raw : String)
      (latency window : ℕ) (w w' : World V) (r : Thrown Unit) (status : StepStatus)
      → accept host.js step input envelope raw ≡ r
      → after_accept host step vault_task input envelope latency window w r ≡ (good status, w')
      → Taken step input envelope raw window status w w'
  after_accept-cases step vault_task input envelope raw latency window w w' (thrown e) status a h =
      cc (first_eq h)
  after_accept-cases step vault_task input envelope raw latency window w w' (good tt) status a h =
      elim (Bool-cases (is_held host step window)) [
        | inl e ↦
            let split : (
              good StepStatus.awaiting_approval,
              hold host step input envelope latency window w,
            )
                ≡ (good status, w') =
              rw e at h in
            record {
              accepted = accept-good host.js step input envelope raw a;
              outcome = inl (
                held_tier (tier_of step) window e,
                cc (first_eq split),
                subst (Held step window w) (ap (λ (r : Thrown StepStatus × World V). r.1) split)
                    (hold-Held step input envelope latency window w),
              );
            }
        | inr e ↦
            let split : (
              good StepStatus.released,
              release_now host step vault_task envelope latency w,
            )
                ≡ (good status, w') =
              rw e at h in
            record {
              accepted = accept-good host.js step input envelope raw a;
              outcome = inr (
                free_tier (tier_of step) window e,
                cc (first_eq split),
                subst (Freed step w) (ap (λ (r : Thrown StepStatus × World V). r.1) split)
                    (release_now-Freed step vault_task envelope latency w),
              );
            }
      ]

  -- A delivery that is taken has a usable output, fits the service's schema, and on T1 has not been
  -- refused by the declared verification. Exactly where its service is T3, or T2 with a window, it is
  -- held: its row waits for approval, no settlement is queued, and on T3 no timer is set that would
  -- release it. Where it is neither, its row is released and no timer is set.
  pub finalize_delivery-Taken :
      (step : Step) (vault_task : Option ℕ) (input envelope : Json) (raw : String)
      (latency window : ℕ) (status : StepStatus) (w w' : World V)
      → finalize_delivery host step vault_task input envelope raw latency window w
        ≡ (good status, w')
      → Taken step input envelope raw window status w w'
  unfolding finalize_delivery
  finalize_delivery-Taken step vault_task input envelope raw latency window status w w' h =
      after_accept-cases step vault_task input envelope raw latency window w w'
        (accept host.js step input envelope raw) status refl h
