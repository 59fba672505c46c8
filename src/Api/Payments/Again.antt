-- ===== src/Api/Payments/Again.antt =====
-- A request for a payment that is repeated with its key, after the first or in a race with it.
use clevercon.Prelude.{
  ℕ, ◌+◌, ◌≡◌, refl, sym, ap, ◌∙◌, false, none, some, List, [], ◌∷◌, ◌++◌, String, arith,
  Option-cases, inl, inr, first_eq, subst,
}
use text.Mathlib.Text.{◌==◌ as str_eq}
use text.Mathlib.TextPositions.{eq_refl}
use clevercon.Store.Rows.{Task, TaskKey}
use clevercon.Store.Tables.{World, Job}
use clevercon.Api.{Api, ApiHost, Result, ok, err, enqueue}
use clevercon.Api.Summary.{TaskSummary, serialize}
use clevercon.Api.Lines.{CreatePaymentParams, FreshIds, Line, keyed_task, prior_task, client_key}
use clevercon.Api.Payments.{
  Bound, payment_task, step_rows, taken, lost_race, insert_task, enqueue_all, admit, go_on,
  create_payment,
}

keyed_task-append :
    (user : ℕ) (key : String) (ts : List Task) (t : Task)
    → keyed_task user key ts ≡ none
    → t.buyer_id ≡ user
    → t.idempotency_key ≡ some (TaskKey.client key)
    → keyed_task user key (ts ++ t ∷ []) ≡ some t
unfolding keyed_task
keyed_task-append user key [] t h b k = ground (arith, eq_refl key)
keyed_task-append user key (x ∷ ts) t h b k = ground (arith, keyed_task-append user key ts t)

-- Along an equation of two answers with their tables.
pub pair_subst :
    {A B : Type 0} (P : A → B → Type 0) {a a' : A} {b b' : B}
    → ◌≡◌ {A = Result A × B} (ok a, b) (ok a', b')
    → P a b
    → P a' b'
pair_subst P {a} {a'} {b} {b'} e p =
    let x : ok a ≡ ok a' = first_eq e in
    let y : a ≡ a' = cc x in
    let z : b ≡ b' = ap (λ r. r.1) e in subst (λ c. P a' c) z (subst (λ c. P c b) y p)

keyed-prior :
    (user : ℕ) (key : String) (ts : List Task) {t : Task}
    → str_eq key "" ≡ false
    → keyed_task user key ts ≡ some t
    → prior_task user (some key) ts ≡ some t
unfolding prior_task
keyed-prior user key ts n h = rw n h

prior-keyed :
    {V : Type 0} (user : ℕ) (key : String) (params : CreatePaymentParams) (s : Api V) {t : Task}
    → params.idempotency_key ≡ some key
    → str_eq key "" ≡ false
    → prior_task user params.idempotency_key s.world.tasks ≡ some t
    → keyed_task user key s.world.tasks ≡ some t
unfolding prior_task
prior-keyed user key params s k n h = rw (k, n) at h

module _ (host : ApiHost) {V : Type 0} where
  enqueue-tables :
      (j : Job) (w : World V)
      → ((enqueue host j w).tasks ≡ w.tasks)
        × ((enqueue host j w).steps ≡ w.steps)
        × ((enqueue host j w).payments ≡ w.payments)
  unfolding enqueue
  enqueue-tables j w = ground arith

  pub enqueue_all-tables :
      (ids : FreshIds) (i : ℕ) (ls : List Line) (w : World V)
      → ((enqueue_all host ids i ls w).tasks ≡ w.tasks)
        × ((enqueue_all host ids i ls w).steps ≡ w.steps)
        × ((enqueue_all host ids i ls w).payments ≡ w.payments)
  unfolding enqueue_all
  enqueue_all-tables ids i [] w = (refl, refl, refl)
  enqueue_all-tables ids i (l ∷ ls) w =
      let a = enqueue-tables (Job.settle_step (ids.step i)) w in
      let b = enqueue_all-tables ids (i + 1) ls (enqueue host (Job.settle_step (ids.step i)) w) in
      (b.0 ∙ a.0, b.1 ∙ a.1, b.2 ∙ a.2)

  serialize_same :
      (t : Task) (w v : World V)
      → v.steps ≡ w.steps
      → v.payments ≡ w.payments
      → serialize t v ≡ serialize t w
  unfolding serialize
  serialize_same t w v e f = rw (e, f) refl

  -- The row that holds a key, and its view.
  pub record Keyed (user : ℕ) (key : String) (r : TaskSummary) (s : Api V) : Type 0 where
    pub task : Task
    pub stored : keyed_task user key s.world.tasks ≡ some task
    pub viewed : r ≡ serialize task s.world

  pub insert_free :
      (user : ℕ) (params : CreatePaymentParams) (ids : FreshIds) (b : Bound) (s : Api V)
      → taken user params.idempotency_key s.world.tasks ≡ none
      → let t = payment_task user params ids b in
        let w : World V = record (s.world) {
          tasks = s.world.tasks ++ t ∷ [];
          steps = s.world.steps ++ step_rows host ids 0 s.world.now b.lines;
        } in
        insert_task host user params ids b s
        ≡ (ok (serialize t w), record s { world = enqueue_all host ids 0 b.lines w })
  unfolding insert_task
  insert_free user params ids b s h = rw (h, insert_task) refl

  pub insert_taken :
      (user : ℕ) (params : CreatePaymentParams) (ids : FreshIds) (b : Bound) (s : Api V) {t : Task}
      → taken user params.idempotency_key s.world.tasks ≡ some t
      → insert_task host user params ids b s ≡ (lost_race params.idempotency_key t s, s)
  unfolding insert_task
  insert_taken user params ids b s h = rw (h, insert_task) refl

  inserted-Keyed :
      (user : ℕ) (params : CreatePaymentParams) (ids : FreshIds) (b : Bound) (s : Api V)
      (key : String)
      → params.idempotency_key ≡ some key
      → keyed_task user key s.world.tasks ≡ none
      → let t = payment_task user params ids b in
        let w : World V = record (s.world) {
          tasks = s.world.tasks ++ t ∷ [];
          steps = s.world.steps ++ step_rows host ids 0 s.world.now b.lines;
        } in
        Keyed user key (serialize t w) (record s { world = enqueue_all host ids 0 b.lines w })
  inserted-Keyed user params ids b s key k h =
      let t = payment_task user params ids b in
      let w : World V = record (s.world) {
        tasks = s.world.tasks ++ t ∷ [];
        steps = s.world.steps ++ step_rows host ids 0 s.world.now b.lines;
      } in
      let same = enqueue_all-tables ids 0 b.lines w in
      record {
        task = t;
        stored =
            ap (λ ts. keyed_task user key ts) same.0
            ∙ keyed_task-append user key s.world.tasks t h refl (ap client_key k);
        viewed = sym (serialize_same t w _ same.1 same.2);
      }

  -- What an insertion that succeeds leaves under its key: its own task, or the winner's.
  insert_task-Keyed :
      (user : ℕ) (params : CreatePaymentParams) (ids : FreshIds) (b : Bound) (s s' : Api V)
      (r : TaskSummary) (key : String)
      → params.idempotency_key ≡ some key
      → str_eq key "" ≡ false
      → insert_task host user params ids b s ≡ (ok r, s')
      → Keyed user key r s'
  insert_task-Keyed user params ids b s s' r key k n h =
      elim (Option-cases (keyed_task user key s.world.tasks)) [
        | inl e ↦
            let free : taken user params.idempotency_key s.world.tasks ≡ none = rw k e in
            pair_subst (λ r s'. Keyed user key r s')
              (sym (insert_free user params ids b s free) ∙ h)
              (inserted-Keyed user params ids b s key k e)
        | inr (t, e) ↦
            let held : taken user params.idempotency_key s.world.tasks ≡ some t = rw k e in
            let lost : lost_race params.idempotency_key t s ≡ ok (serialize t s.world) =
              rw (k, n) refl in
            pair_subst (λ r s'. Keyed user key r s')
              (ap (λ x. (x, s)) (sym lost) ∙ sym (insert_taken user params ids b s held) ∙ h)
              (record { task = t; stored = e; viewed = refl })
      ]

  answers-Keyed :
      (user : ℕ) (params : CreatePaymentParams) (ids : FreshIds) (b : Bound) (s : Api V)
      (r : TaskSummary) (key : String)
      → params.idempotency_key ≡ some key
      → str_eq key "" ≡ false
      → Keyed user key r s
      → insert_task host user params ids b s ≡ (ok r, s)
  answers-Keyed user params ids b s r key k n h =
      insert_taken user params ids b s {t = h.task} (rw k h.stored)
      ∙ ap (λ x. (x, s)) (rw (k, n) (ap ok (sym h.viewed)))

  -- Two requests of a buyer with one key that both passed the check for an earlier task: once the
  -- first has inserted its task, the second, for whatever lines and under whatever policy, is
  -- answered with the first one's task and adds nothing.
  pub insert_task-race :
      (user : ℕ) (first second : CreatePaymentParams) (ids ids' : FreshIds) (b b' : Bound)
      (s s' : Api V) (r : TaskSummary) (key : String)
      → first.idempotency_key ≡ some key
      → second.idempotency_key ≡ some key
      → str_eq key "" ≡ false
      → insert_task host user first ids b s ≡ (ok r, s')
      → insert_task host user second ids' b' s' ≡ (ok r, s')
  insert_task-race user first second ids ids' b b' s s' r key k l n h =
      answers-Keyed user second ids' b' s' r key l n
        (insert_task-Keyed user first ids b s s' r key k n h)

  create_known :
      (user : ℕ) (params : CreatePaymentParams) (ids : FreshIds) (s : Api V) {t : Task}
      → prior_task user params.idempotency_key s.world.tasks ≡ some t
      → create_payment host user params ids s ≡ (ok (serialize t s.world), s)
  unfolding create_payment
  create_known user params ids s h = rw (h, create_payment) refl

  pub create_new :
      (user : ℕ) (params : CreatePaymentParams) (ids : FreshIds) (s : Api V)
      → prior_task user params.idempotency_key s.world.tasks ≡ none
      → create_payment host user params ids s
        ≡ go_on host user params ids (admit host user params ids s)
  unfolding create_payment
  create_new user params ids s h = rw (h, create_payment) refl

  go_on-Keyed :
      (user : ℕ) (params : CreatePaymentParams) (ids : FreshIds) (a : Result Bound × Api V)
      (s' : Api V) (r : TaskSummary) (key : String)
      → params.idempotency_key ≡ some key
      → str_eq key "" ≡ false
      → go_on host user params ids a ≡ (ok r, s')
      → Keyed user key r s'
  go_on-Keyed user params ids (err e, s) s' r key k n h = cc (first_eq h)
  go_on-Keyed user params ids (ok b, s) s' r key k n h =
      insert_task-Keyed user params ids b s s' r key k n h

  -- A payment that was answered is answered alike to each further request with its key, whatever
  -- lines that names: the same task is shown, and no row and no job is added.
  pub create_payment-again :
      (user : ℕ) (params again : CreatePaymentParams) (ids ids' : FreshIds) (s s' : Api V)
      (r : TaskSummary) (key : String)
      → params.idempotency_key ≡ some key
      → again.idempotency_key ≡ some key
      → str_eq key "" ≡ false
      → create_payment host user params ids s ≡ (ok r, s')
      → create_payment host user again ids' s' ≡ (ok r, s')
  create_payment-again user params again ids ids' s s' r key k l n h =
      let kept : Keyed user key r s' =
        elim (Option-cases (prior_task user params.idempotency_key s.world.tasks)) [
          | inl e ↦
              go_on-Keyed user params ids (admit host user params ids s) s' r key k n
                (sym (create_new user params ids s e) ∙ h)
          | inr (t, e) ↦
              pair_subst (λ r s'. Keyed user key r s') (sym (create_known user params ids s e) ∙ h)
                (record { task = t; stored = prior-keyed user key params s k n e; viewed = refl })
        ] in
      create_known user again ids' s' (rw l (keyed-prior user key s'.world.tasks n kept.stored))
      ∙ ap (λ x. (ok x, s')) (sym kept.viewed)
