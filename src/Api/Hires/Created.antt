-- ===== src/Api/Hires/Created.antt =====
-- What a hire writes and answers, and that a hire which fails changes nothing.
use clevercon.Prelude.{
  ℕ, ◌≡◌, refl, sym, ap, ◌∙◌, true, Option, none, some, [], ◌∷◌, List, ◌++◌, arith, Option-cases,
  inl, inr, first_eq, subst,
}
use clevercon.Store.Rows.{Service, Task}
use clevercon.Store.Tables.{World, Job, find_task}
use clevercon.Api.{PolicyRow, Api, ApiHost, ApiError, ok, err, Result-cases, enqueue}
use clevercon.Api.Summary.{TaskSummary, serialize}
use clevercon.Api.Lines.{prior_task}
use clevercon.Api.Payments.{taken, lost_race}
use clevercon.Api.Hires.{
  CreateTaskParams, HireIds, find_service, is_direct, read_service, hire_step, hire_task, LockHost,
  bounding_policy, lock_bounded, hand_over, hired_world, insert_hire, create,
}
use clevercon.Api.Hires.Locked.{
  Locking, untried, tried, Locked, lock_bounded-Locked, lock_bounded-policies,
}
use clevercon.Api.Hires.Sourced.{Sourced, bounding_policy-world, bounding_policy-Sourced}
use clevercon.Api.Hires.Laws.{Eligible, curation, direct_service-Chosen, read_service-direct}

-- What a direct hire that is created has gone through, and what it leaves.
pub record Hired (host : ApiHost) {V : Type 0} (lock : LockHost V) (user : ℕ)
    (params : CreateTaskParams) (ids : HireIds) (s s' : Api V) : Type 0 where
  pub service : Service
  pub named : params.service_id ≡ some service.id
  pub stored : find_service service.id s.services ≡ some service
  pub eligible : Eligible (curation user params.policy_id s) service
  pub bounding : Option ℕ
  pub sourced : Sourced host lock user params ids (some service) s.policies s'.policies bounding
  pub row : Task
  pub task_added : s'.world.tasks ≡ s.world.tasks ++ row ∷ []
  pub locking :
      Locking lock user s'.policies bounding (hire_task user params ids) s.world row s'.world.vault
  pub step_added :
      s'.world.steps ≡ s.world.steps ++ hire_step ids params.input s.world.now service ∷ []
  pub handed_over : s'.world.jobs ≡ (enqueue host (Job.execute ids.task) s.world).jobs
  pub payments_kept : s'.world.payments ≡ s.world.payments

Locking-hired :
    {V : Type 0} (lock : LockHost V) (user : ℕ) (params : CreateTaskParams) (ids : HireIds)
    (v : Option Service) (ps : List PolicyRow) (o : Option ℕ) (t row : Task) (w : World V)
    (vault : V)
    → Locking lock user ps o t (hired_world user params ids v w) row vault
    → Locking lock user ps o t w row vault
Locking-hired lock user params ids v ps o t row w vault (untried a b) = untried a b
Locking-hired lock user params ids v ps o t row w vault (tried id p key a b c d e f) =
    tried id p key a b c d e f

module _ (host : ApiHost) {V : Type 0} (lock : LockHost V) where
  insert_hire_free :
      (user : ℕ) (params : CreateTaskParams) (ids : HireIds) (v : Option Service) (s : Api V)
      → taken user params.idempotency_key s.world.tasks ≡ none
      → let w = hired_world user params ids v s.world in
        insert_hire host lock user params ids v s ≡ (
          ok (serialize (hire_task user params ids) w),
          hand_over host lock ids v (
              lock_bounded host lock user params ids
                (bounding_policy host lock user params ids v (record s { world = w }))),
        )
  unfolding insert_hire
  insert_hire_free user params ids v s h = rw (h, insert_hire) refl

  insert_hire-taken :
      (user : ℕ) (params : CreateTaskParams) (ids : HireIds) (v : Option Service) (s : Api V)
      {t : Task}
      → taken user params.idempotency_key s.world.tasks ≡ some t
      → insert_hire host lock user params ids v s ≡ (lost_race params.idempotency_key t s, s)
  unfolding insert_hire
  insert_hire-taken user params ids v s h = rw (h, insert_hire) refl

  create_prior :
      (user : ℕ) (params : CreateTaskParams) (ids : HireIds) (s : Api V) {t : Task}
      → prior_task user params.idempotency_key s.world.tasks ≡ some t
      → create host lock user params ids s ≡ (ok (serialize t s.world), s)
  unfolding create
  create_prior user params ids s h = rw (h, create) refl

  create_refused :
      (user : ℕ) (params : CreateTaskParams) (ids : HireIds) (s : Api V) {e : ApiError}
      → prior_task user params.idempotency_key s.world.tasks ≡ none
      → read_service user params s ≡ err e
      → create host lock user params ids s ≡ (err e, s)
  unfolding create
  create_refused user params ids s h r = rw (h, create, r) refl

  create_read :
      (user : ℕ) (params : CreateTaskParams) (ids : HireIds) (s : Api V) {v : Option Service}
      → prior_task user params.idempotency_key s.world.tasks ≡ none
      → read_service user params s ≡ ok v
      → create host lock user params ids s ≡ insert_hire host lock user params ids v s
  unfolding create
  create_read user params ids s h r = rw (h, create, r) refl

  -- the queue reads only itself and the time
  enqueue-jobs :
      (j : Job) (w w' : World V)
      → w'.jobs ≡ w.jobs
      → w'.now ≡ w.now
      → (enqueue host j w').jobs ≡ (enqueue host j w).jobs
  unfolding enqueue
  enqueue-jobs j w w' a b = ground arith

  enqueue-rows :
      (j : Job) (w : World V)
      → ((enqueue host j w).tasks ≡ w.tasks)
        × ((enqueue host j w).steps ≡ w.steps)
        × ((enqueue host j w).payments ≡ w.payments)
        × ((enqueue host j w).vault ≡ w.vault)
  unfolding enqueue
  enqueue-rows j w = ground arith

  -- from the lock of the new row to what the hire leaves
  Locked-Hired :
      (user : ℕ) (params : CreateTaskParams) (ids : HireIds) (v : Service) (s s' : Api V)
      (w : World V) (o : Option ℕ)
      → params.service_id ≡ some v.id
      → find_service v.id s.services ≡ some v
      → Eligible (curation user params.policy_id s) v
      → Sourced host lock user params ids (some v) s.policies s'.policies o
      → Locked lock user s'.policies o s.world.tasks
          (hire_task user params ids)
          (hired_world user params ids (some v) s.world)
          w
      → s'.world ≡ enqueue host (Job.execute ids.task) w
      → Hired host lock user params ids s s'
  Locked-Hired user params ids v s s' w o n st el so k e =
      let same = enqueue-rows (Job.execute ids.task) w in
      record {
        service = v;
        named = n;
        stored = st;
        eligible = el;
        bounding = o;
        sourced = so;
        row = k.row;
        task_added = ap (λ (x : World V). x.tasks) e ∙ same.0 ∙ k.tasks_now;
        locking =
            subst (Locking lock user s'.policies o (hire_task user params ids) s.world k.row)
              (sym (ap (λ (x : World V). x.vault) e ∙ same.3))
              (Locking-hired lock user params ids (some v) s'.policies o (hire_task user params ids)
                k.row s.world w.vault k.locking);
        step_added = ap (λ (x : World V). x.steps) e ∙ same.1 ∙ k.same_steps;
        handed_over =
            ap (λ (x : World V). x.jobs) e
            ∙ enqueue-jobs (Job.execute ids.task) s.world w k.same_jobs k.same_time;
        payments_kept = ap (λ (x : World V). x.payments) e ∙ same.2 ∙ k.same_payments;
      }

  insert_hire-Hired :
      (user : ℕ) (params : CreateTaskParams) (ids : HireIds) (v : Service) (s s' : Api V)
      (r : TaskSummary)
      → params.service_id ≡ some v.id
      → find_service v.id s.services ≡ some v
      → Eligible (curation user params.policy_id s) v
      → find_task ids.task s.world.tasks ≡ none
      → taken user params.idempotency_key s.world.tasks ≡ none
      → insert_hire host lock user params ids (some v) s ≡ (ok r, s')
      → Hired host lock user params ids s s'
  insert_hire-Hired user params ids v s s' r n st el fresh f h =
      let t = hire_task user params ids in
      let w = hired_world user params ids (some v) s.world in
      let q = bounding_policy host lock user params ids (some v) (record s { world = w }) in
      let same : q.1.world ≡ w =
        bounding_policy-world host lock user params ids (some v) (record s { world = w }) in
      let final = lock_bounded host lock user params ids q in
      let kept : s'.policies ≡ q.1.policies =
        ap (λ x. x.1.policies) (sym h ∙ insert_hire_free user params ids (some v) s f)
        ∙ lock_bounded-policies host lock user params ids q in
      let from : Sourced host lock user params ids (some v) s.policies q.1.policies q.0 =
        bounding_policy-Sourced host lock user params ids (some v) (record s { world = w }) in
      let locked : Locked lock user q.1.policies q.0 s.world.tasks t q.1.world final.world =
        lock_bounded-Locked host lock user params ids s.world.tasks q
          (ap (λ (x : World V). x.tasks) same) fresh in
      Locked-Hired user params ids v s s' final.world q.0 n st el
        (subst (λ ps. Sourced host lock user params ids (some v) s.policies ps q.0) (sym kept) from)
        (subst (λ x. Locked lock user s'.policies q.0 s.world.tasks t x final.world) same
          (subst (λ ps. Locked lock user ps q.0 s.world.tasks t q.1.world final.world) (sym kept)
            locked))
        (ap (λ x. x.1.world) (sym h ∙ insert_hire_free user params ids (some v) s f))

  -- A hire that ends in an error, on whichever of its branches, has changed nothing: no row, no
  -- job and nothing at the vault.
  pub create_err-same :
      (user : ℕ) (params : CreateTaskParams) (ids : HireIds) (s s' : Api V) (e : ApiError)
      → create host lock user params ids s ≡ (err e, s')
      → s' ≡ s
  create_err-same user params ids s s' e h =
      elim (Option-cases (prior_task user params.idempotency_key s.world.tasks)) [
        | inr (t, p) ↦ cc (first_eq (sym (create_prior user params ids s p) ∙ h))
        | inl p ↦ elim (Result-cases (read_service user params s)) [
          | inl (e', r) ↦ ap (λ x. x.1) (sym h ∙ create_refused user params ids s p r)
          | inr (v, r) ↦
              let k = sym (create_read user params ids s p r) ∙ h in
              elim (Option-cases (taken user params.idempotency_key s.world.tasks)) [
                | inl f ↦ cc (first_eq (sym (insert_hire_free user params ids v s f) ∙ k))
                | inr (t, f) ↦ ap (λ x. x.1) (sym k ∙ insert_hire-taken user params ids v s f)
              ]
        ]
      ]

  -- An insertion that succeeds though no earlier task was found has found its key free.
  hire_is_free :
      (user : ℕ) (params : CreateTaskParams) (ids : HireIds) (v : Option Service) (s s' : Api V)
      (r : TaskSummary)
      → prior_task user params.idempotency_key s.world.tasks ≡ none
      → insert_hire host lock user params ids v s ≡ (ok r, s')
      → taken user params.idempotency_key s.world.tasks ≡ none
  unfolding prior_task
  hire_is_free user params ids v s s' r p h =
      elim (Option-cases (taken user params.idempotency_key s.world.tasks)) [
        | inl e ↦ e
        | inr (t, e) ↦
            let lost = first_eq (sym (insert_hire-taken user params ids v s e) ∙ h) in ground arith
      ]

  -- A direct hire for which no earlier task was found, created under an id that is free: its service is stored,
  -- and allowed by the curation of the buyer's policy that the request names. It adds one task, one
  -- pending step at the service's price and one job that executes the task, and no payment. The
  -- task is locked on the vault only under the stored policy with the id that the request names, or
  -- where it names none under that of the new one for the service's address and the budget; the policy is
  -- the buyer's own, and the lock is by the buyer's registered delegate and for the whole budget. Where the lock
  -- fails the hire stays, as a task without one.
  pub create-Hired :
      (user : ℕ) (params : CreateTaskParams) (ids : HireIds) (s s' : Api V) (r : TaskSummary)
      → is_direct params.mode ≡ true
      → find_task ids.task s.world.tasks ≡ none
      → prior_task user params.idempotency_key s.world.tasks ≡ none
      → create host lock user params ids s ≡ (ok r, s')
      → Hired host lock user params ids s s'
  create-Hired user params ids s s' r d fresh p h =
      elim (Result-cases (read_service user params s)) [
        | inl (e, q) ↦ cc (first_eq (sym (create_refused user params ids s p q) ∙ h))
        | inr (o, q) ↦
            let c =
              direct_service-Chosen user params params.service_id s refl
                (read_service-direct user params s d q) in
            let k =
              ap (λ x. insert_hire host lock user params ids x s) (sym c.chosen)
              ∙ sym (create_read user params ids s p q)
              ∙ h in
            insert_hire-Hired user params ids c.service s s' r c.named c.stored c.eligible fresh
              (hire_is_free user params ids (some c.service) s s' r p k) k
      ]
