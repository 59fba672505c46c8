-- ===== src/Worker/Settle/Batch/Rollback.antt =====
-- What a batch settlement reports and leaves behind, whether its release succeeds or fails.
use clevercon.Prelude.{
  ℕ, ◌≡◌, refl, sym, ap, ◌∙◌, Bool, true, false, Option, none, some, List, [], ◌∷◌, String, arith,
  Option-cases, Bool-cases, inl, inr, find, first_eq, ==_refl, ◌⊎◌,
}
use clevercon.Store.Rows.{Task, TaskStatus, Delegate}
use clevercon.Store.Tables.{World, find_delegate}
use clevercon.Store.Tables.Laws.{HasDistinctKeys}
use clevercon.Worker.Chain.{ChainError, Outcome, ok, err, thrown}
use clevercon.Worker.Env.{Env, create_task_with_policy, settlement_configured, with_delegate}
use clevercon.Worker.Settle.Finalize.{complete_call}
use clevercon.Worker.Settle.Batch.{
  BatchSettlePayload, BatchResult, skipped, failed, is_batch_row, batch_status,
  record_batch_activity, after_release, release_locked, run_batch, finish_batch, settle_batch,
  batch_params, batch_row, stamp, upsert_batch_task,
}
use clevercon.Worker.Settle.Batch.Laws.{log_legs-HasDistinctKeys}

-- After the upsert the batch has its row, with the outcome's status and the id that was returned.
upsert_batch_task-find :
    (p : BatchSettlePayload) (o : Option ℕ) (fresh time : ℕ) (ts : List Task)
    → (t : Task) × (find (is_batch_row p) (upsert_batch_task p o fresh time ts).1 ≡ some t)
      × (t.status ≡ batch_status o)
      × (t.id ≡ (upsert_batch_task p o fresh time ts).0)
unfolding upsert_batch_task
upsert_batch_task-find p o fresh time [] =
    (batch_row p o fresh time, rw (==_refl p.buyer_id, ==_refl p.step_id) refl, refl, refl)
upsert_batch_task-find p o fresh time (t ∷ ts) = elim (Bool-cases (is_batch_row p t)) [
  | inl e ↦
      rw (e, e)
        (record t { status = batch_status o; vault_finalized_at = stamp o time }, refl, refl, refl)
  | inr e ↦
      let (s, found, status, same) = upsert_batch_task-find p o fresh time ts in
      rw e (s, rw e found, status, same)
]

module _ {V : Type 0} (env : Env V) where
  complete_call-rows :
      (d : Delegate) (id : ℕ) (w : World V)
      → (complete_call env d id w).1
        ≡ record w { vault = (env.calls.complete d.public_key id w.vault).1 }
  complete_call-rows d id w = refl

  -- The rows that a run leaves alone.
  run_batch-rows :
      (p : BatchSettlePayload) (d : Delegate) (w : World V)
      → ((run_batch env p d w).1.payments ≡ w.payments) × ((run_batch env p d w).1.tasks ≡ w.tasks)
  unfolding run_batch release_locked after_release
  run_batch-rows p d w = ground arith

  after_release-vault :
      (d : Delegate) (task : ℕ) (r : Outcome ℕ × V) (w : World V)
      → (after_release env d task true r w).1.vault ≡ (env.calls.complete d.public_key task r.1).1
  unfolding after_release
  after_release-vault d task (ok hash, v) w = refl
  after_release-vault d task (err e, v) w = refl

  run_batch-locked :
      (p : BatchSettlePayload) (d : Delegate) (w : World V) {task : ℕ} {v : V}
      → p.vault_task_id ≡ none
      → create_task_with_policy env d.public_key p.plan_cost p.commitment_hex w.vault ≡ (ok task, v)
      → run_batch env p d w ≡ release_locked env p d task true (record w { vault = v })
  unfolding run_batch release_locked
  run_batch-locked p d w e f = rw (e, f, run_batch)

  finish_batch-vault :
      (p : BatchSettlePayload) (fresh : ℕ) (r : Outcome ℕ × World V)
      → (finish_batch env p fresh r).1.vault ≡ r.1.vault
  unfolding finish_batch record_batch_activity
  finish_batch-vault p fresh (ok tx, w) = refl
  finish_batch-vault p fresh (err e, w) = refl

  settle_batch_goes :
      (p : BatchSettlePayload) (fresh : ℕ) (w : World V) {d : Delegate}
      → settlement_configured env ≡ true
      → find_delegate p.buyer_id w.delegates ≡ some d
      → env.lock_timeout d.public_key w.now ≡ none
      → settle_batch env p fresh w ≡ finish_batch env p fresh (run_batch env p d w)
  unfolding settle_batch with_delegate
  settle_batch_goes p fresh w c f free = rw (c, f, free, settle_batch, with_delegate)

  -- Where a batch has no task of its own, its lock succeeds and the delegate's lock is free, the
  -- batch's last transaction asks the vault to complete the very task that was locked, on the state
  -- that the release has left, whatever the outcome of the release. Whether that transaction
  -- succeeds is not said: where it fails, the budget may remain locked.
  pub settle_batch_unlocks :
      (p : BatchSettlePayload) (fresh : ℕ) (w : World V) (d : Delegate) (task : ℕ) (v : V)
      → settlement_configured env ≡ true
      → find_delegate p.buyer_id w.delegates ≡ some d
      → env.lock_timeout d.public_key w.now ≡ none
      → p.vault_task_id ≡ none
      → create_task_with_policy env d.public_key p.plan_cost p.commitment_hex w.vault ≡ (ok task, v)
      → (settle_batch env p fresh w).1.vault
        ≡ (env.calls.complete d.public_key task
            (env.calls.release_batch d.public_key (batch_params env p task) v).1).1
  unfolding release_locked
  settle_batch_unlocks p fresh w d task v c f free none_given locked =
      rw (settle_batch_goes p fresh w c f free, run_batch-locked p d w none_given locked)
        (finish_batch-vault p fresh (release_locked env p d task true (record w { vault = v }))
          ∙ after_release-vault d task
              (env.calls.release_batch d.public_key (batch_params env p task) v)
              (record w { vault = v }))

  -- What a batch that was not skipped has recorded.
  abbrev pub Recorded : BatchSettlePayload → TaskStatus → World V → Type 0
  Recorded p status w = (t : Task) × (find (is_batch_row p) w.tasks ≡ some t) × (t.status ≡ status)

  finish_batch-failed :
      (p : BatchSettlePayload) (fresh : ℕ) (r : Outcome ℕ × World V) (w' : World V) (e : ChainError)
      (buyer : ℕ) (retryable : Bool)
      → finish_batch env p fresh r ≡ (failed e buyer retryable, w')
      → (retryable ≡ false) × (w'.payments ≡ r.1.payments) × Recorded p TaskStatus.failed w'
  unfolding finish_batch record_batch_activity
  finish_batch-failed p fresh (ok tx, w) w' e buyer retryable h = cc (first_eq h)
  finish_batch-failed p fresh (err x, w) w' e buyer retryable h =
      let (t, found, status, same) = upsert_batch_task-find p none fresh w.now w.tasks in
      let tasks : w'.tasks ≡ (upsert_batch_task p none fresh w.now w.tasks).1 =
        ap (λ (r : BatchResult × World V). r.1.tasks) (sym h) in
      (
        cc (first_eq h),
        ap (λ (r : BatchResult × World V). r.1.payments) (sym h),
        (t, ap (λ ts. find (is_batch_row p) ts) tasks ∙ found, status),
      )

  settle_batch_unconfigured :
      (p : BatchSettlePayload) (fresh : ℕ) (w : World V)
      → settlement_configured env ≡ false
      → settle_batch env p fresh w ≡ (skipped "settlement not configured" p.buyer_id, w)
  unfolding settle_batch
  settle_batch_unconfigured p fresh w c = rw (c, settle_batch)

  settle_batch_undelegated :
      (p : BatchSettlePayload) (fresh : ℕ) (w : World V)
      → settlement_configured env ≡ true
      → find_delegate p.buyer_id w.delegates ≡ none
      → settle_batch env p fresh w ≡ (skipped "buyer has no delegate" p.buyer_id, w)
  unfolding settle_batch
  settle_batch_undelegated p fresh w c f = rw (c, f, settle_batch)

  settle_batch_entered :
      (p : BatchSettlePayload) (fresh : ℕ) (w : World V) {d : Delegate}
      → settlement_configured env ≡ true
      → find_delegate p.buyer_id w.delegates ≡ some d
      → settle_batch env p fresh w
        ≡ finish_batch env p fresh
            (with_delegate env d.public_key (λ msg. err (thrown msg)) (run_batch env p d) w)
  unfolding settle_batch
  settle_batch_entered p fresh w c f = rw (c, f, settle_batch)

  section-payments :
      (p : BatchSettlePayload) (d : Delegate) (w : World V)
      → (with_delegate env d.public_key (λ msg. err (thrown msg)) (run_batch env p d) w).1.payments
        ≡ w.payments
  unfolding with_delegate
  section-payments p d w = ground (arith, run_batch-rows p d w)

  -- A batch settlement is skipped without a trace, or the serialised section was entered.
  settle_batch_cases :
      (p : BatchSettlePayload) (fresh : ℕ) (w : World V)
      → ((reason : String) × (settle_batch env p fresh w ≡ (skipped reason p.buyer_id, w)))
        ⊎ ((d : Delegate) × (settle_batch env p fresh w
              ≡ finish_batch env p fresh
                  (with_delegate env d.public_key (λ msg. err (thrown msg)) (run_batch env p d) w)))
  settle_batch_cases p fresh w = elim (Bool-cases (settlement_configured env)) [
    | inr c ↦ inl (_, settle_batch_unconfigured p fresh w c)
    | inl c ↦ elim (Option-cases (find_delegate p.buyer_id w.delegates)) [
      | inl f ↦ inl (_, settle_batch_undelegated p fresh w c f)
      | inr (d, f) ↦ inr (d, settle_batch_entered p fresh w c f)
    ]
  ]

  -- A batch that fails is never to be tried again. Its failure is on record: no payment is added or
  -- changed, and the row of its task, found by the batch's key, says failed.
  settle_batch-failed :
      (p : BatchSettlePayload) (fresh : ℕ) (w w' : World V) (e : ChainError) (buyer : ℕ)
      (retryable : Bool)
      → settle_batch env p fresh w ≡ (failed e buyer retryable, w')
      → (retryable ≡ false) × (w'.payments ≡ w.payments) × Recorded p TaskStatus.failed w'
  settle_batch-failed p fresh w w' e buyer retryable h = elim (settle_batch_cases p fresh w) [
    | inl (reason, s) ↦ cc (first_eq (sym s ∙ h))
    | inr (d, s) ↦
        let r = with_delegate env d.public_key (λ msg. err (thrown msg)) (run_batch env p d) w in
        let (a, b, c) = finish_batch-failed p fresh r w' e buyer retryable (sym s ∙ h) in
        (a, b ∙ section-payments p d w, c)
  ]

  finish_batch-HasDistinctKeys :
      (p : BatchSettlePayload) (fresh : ℕ) (r : Outcome ℕ × World V)
      → HasDistinctKeys r.1.payments
      → HasDistinctKeys (finish_batch env p fresh r).1.payments
  unfolding finish_batch record_batch_activity
  finish_batch-HasDistinctKeys p fresh (ok tx, w) h =
      log_legs-HasDistinctKeys p (upsert_batch_task p (some tx) fresh w.now w.tasks).0 (some tx)
        w.payments h
  finish_batch-HasDistinctKeys p fresh (err e, w) h = h

  -- Whatever a batch meets, it never records two payments under one key.
  pub settle_batch-HasDistinctKeys :
      (p : BatchSettlePayload) (fresh : ℕ) (w : World V)
      → HasDistinctKeys w.payments
      → HasDistinctKeys (settle_batch env p fresh w).1.payments
  settle_batch-HasDistinctKeys p fresh w h = elim (settle_batch_cases p fresh w) [
    | inl (reason, s) ↦ rw s h
    | inr (d, s) ↦ rw s (
        finish_batch-HasDistinctKeys p fresh
          (with_delegate env d.public_key (λ msg. err (thrown msg)) (run_batch env p d) w)
          (rw (section-payments p d w) h))
  ]
