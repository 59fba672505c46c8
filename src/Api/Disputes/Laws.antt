-- ===== src/Api/Disputes/Laws.antt =====
-- What a resolution has found and done, and that there is one only.
use clevercon.Prelude.{
  ℕ, ◌≡◌, refl, ap, ◌∙◌, true, false, not, ◌&&◌, some, List, [], ◌∷◌, arith, Bool-cases, inl, inr,
  first_eq, map, if◌then◌else◌,
}
use clevercon.Prelude.Int.{pos, ltb_ℤ}
use clevercon.Store.Rows.{Task, Dispute, DisputeStatus, is_open_dispute}
use clevercon.Store.Tables.{find_task, steps_of}
use clevercon.Api.{
  Api, bad_request, Result, ok, err, guard, found, bind_ok, found_ok, guard_ok, reads_then_ok,
  reads_then_err,
}
use clevercon.Api.Disputes.Weights.{judged, weigh_services-map}
use clevercon.Api.Disputes.{
  find_dispute, update_dispute, service_ids, distinct, Resolution, resolved_row, weigh_services,
  Disputed, Resolver, read_dispute, after_resolution, resolve,
}

find_dispute-update :
    (id : ℕ) (f : Dispute → Dispute) (ds : List Dispute) {d : Dispute}
    → ((d : Dispute) → (f d).id ≡ d.id)
    → find_dispute id ds ≡ some d
    → find_dispute id (update_dispute id f ds) ≡ some (f d)
unfolding find_dispute update_dispute
find_dispute-update id f [] keep e = cc
find_dispute-update id f (x ∷ ds) {d} keep e =
    ground (arith, keep x, keep d, find_dispute-update id f ds {d = d} keep)

not_open :
    (p : Resolution) (time : ℕ) (d : Dispute)
    → is_open_dispute (resolved_row p time d).status ≡ false
not_open p time d = elim (Bool-cases p.upheld) [ inl e ↦ rw e refl | inr e ↦ rw e refl ]

module _ {V : Type 0} where
  -- What the guards of a resolution let through.
  pub record Read (id : ℕ) (p : Resolution) (s : Api V) (d : Disputed) : Type 0 where
    pub dispute : Dispute
    pub task : Task
    pub dispute_found : find_dispute id s.world.disputes ≡ some dispute
    pub was_open : is_open_dispute dispute.status ≡ true
    pub task_found : find_task dispute.task_id s.world.tasks ≡ some task
    pub locked : task.vault_task_id ≡ some d.vault_task_id
    pub services : d.services ≡ service_ids (steps_of task.id s.world.steps)
    pub refund_nonneg : ltb_ℤ p.refund_to_user (pos 0) ≡ false
    pub payout_nonneg : ltb_ℤ p.payout_to_provider (pos 0) ≡ false

  read_dispute-Read :
      (id : ℕ) (p : Resolution) (s : Api V) (d : Disputed)
      → read_dispute id p s ≡ ok d
      → Read id p s d
  unfolding read_dispute
  read_dispute-Read id p s d h =
      let (x, e, h1) = bind_ok (found (find_dispute id s.world.disputes) _) _ h in
      let (u, o, h2) = bind_ok (guard (is_open_dispute x.status) _) _ h1 in
      let (t, f, h3) = bind_ok (found (find_task x.task_id s.world.tasks) _) _ h2 in
      let (v, l, h4) = bind_ok (found t.vault_task_id _) _ h3 in
      let (w, g, h5) =
        bind_ok
          (guard (not (ltb_ℤ p.refund_to_user (pos 0)) && not (ltb_ℤ p.payout_to_provider (pos 0)))
            _)
          _ h4 in
      record {
        dispute = x;
        task = t;
        dispute_found = found_ok _ _ e;
        was_open = guard_ok _ _ o;
        task_found = found_ok _ _ f;
        locked = ground (arith, found_ok t.vault_task_id _ l);
        services = ground arith;
        refund_nonneg = ground (arith, guard_ok _ _ g);
        payout_nonneg = ground (arith, guard_ok _ _ g);
      }

  -- What a resolution has found and done.
  pub record Resolved (chain : Resolver V) (id : ℕ) (p : Resolution) (tx : ℕ) (s s' : Api V)
      : Type 0 where
    pub reading : Disputed
    pub read : Read id p s reading
    pub signed :
        chain reading.vault_task_id p.refund_to_user p.payout_to_provider s.world.vault
        ≡ (ok tx, s'.world.vault)
    pub settled :
        s'.world.disputes
        ≡ update_dispute id
            (λ d. record d {
              status = if p.upheld then DisputeStatus.resolved else DisputeStatus.rejected;
              resolution = p.resolution;
              refund_to_user = some p.refund_to_user;
              payout_to_provider = some p.payout_to_provider;
              resolved_at = some s.world.now;
            })
            s.world.disputes
    pub weighed :
        s'.world.reputations
        ≡ map (judged p.upheld (steps_of read.task.id s.world.steps)) s.world.reputations
    pub kept :
        (s'.world.tasks ≡ s.world.tasks)
        × (s'.world.steps ≡ s.world.steps)
        × (s'.world.payments ≡ s.world.payments)

  after_resolution-Resolved :
      (chain : Resolver V) (id : ℕ) (p : Resolution) (d : Disputed) (tx : ℕ) (s s' : Api V)
      (r : Result ℕ × V)
      → Read id p s d
      → chain d.vault_task_id p.refund_to_user p.payout_to_provider s.world.vault ≡ r
      → after_resolution id p d r s ≡ (ok tx, s')
      → Resolved chain id p tx s s'
  unfolding after_resolution
  after_resolution-Resolved chain id p d tx s s' (err e, v) h c k = cc (first_eq k)
  after_resolution-Resolved chain id p d tx s s' (ok x, v) h c k = record {
    reading = d;
    read = h;
    signed = ground arith;
    settled = ground arith;
    weighed =
        let written : s'.world.reputations
            ≡ weigh_services p.upheld (distinct d.services) s.world.reputations =
          ground arith in
        written
        ∙ ap (λ is. weigh_services p.upheld (distinct is) s.world.reputations) h.services
        ∙ weigh_services-map p.upheld (steps_of h.task.id s.world.steps) s.world.reputations;
    kept = ground arith;
  }

  -- A dispute is resolved only if it was open, its task is locked and no amount is negative; then
  -- the transaction that splits exactly these amounts on the task's on-chain id has succeeded, the
  -- dispute's row is resolved or, where it was not upheld, rejected, with the amounts and the time;
  -- each service of a step of the task has one more dispute on its row, and one more that was upheld if it
  -- was, whatever the number of its steps, and all others have their rows as they were; tasks, steps and payments are kept.
  pub resolve-Resolved :
      (chain : Resolver V) (id : ℕ) (p : Resolution) (tx : ℕ) (s s' : Api V)
      → resolve chain id p s ≡ (ok tx, s')
      → Resolved chain id p tx s s'
  unfolding resolve
  resolve-Resolved chain id p tx s s' h =
      let (d, r, k) =
        reads_then_ok (read_dispute id p)
          (λ d s.
            after_resolution id p d
              (chain d.vault_task_id p.refund_to_user p.payout_to_provider s.world.vault) s)
          s s' h in
      after_resolution-Resolved chain id p d tx s s' _ (read_dispute-Read id p s d r) refl k

  read_closed :
      (id : ℕ) (p : Resolution) (s : Api V) {d : Dispute}
      → find_dispute id s.world.disputes ≡ some d
      → is_open_dispute d.status ≡ false
      → read_dispute id p s ≡ err (bad_request "dispute already resolved")
  unfolding read_dispute
  read_closed id p s e o = rw (e, o, read_dispute) refl

  refuses_closed :
      (chain : Resolver V) (id : ℕ) (p : Resolution) (s : Api V) {d : Dispute}
      → find_dispute id s.world.disputes ≡ some d
      → is_open_dispute d.status ≡ false
      → resolve chain id p s ≡ (err (bad_request "dispute already resolved"), s)
  unfolding resolve
  refuses_closed chain id p s e o =
      reads_then_err (read_dispute id p)
        (λ d s.
          after_resolution id p d
            (chain d.vault_task_id p.refund_to_user p.payout_to_provider s.world.vault) s)
        s (read_closed id p s e o)

  -- A dispute that was resolved is not resolved again, whatever the arbiter then asks for: no
  -- second transaction is signed and nothing changes.
  pub resolve-again :
      (chain : Resolver V) (id : ℕ) (p q : Resolution) (tx : ℕ) (s s' : Api V)
      → resolve chain id p s ≡ (ok tx, s')
      → resolve chain id q s' ≡ (err (bad_request "dispute already resolved"), s')
  resolve-again chain id p q tx s s' h =
      let r = resolve-Resolved chain id p tx s s' h in
      refuses_closed chain id q s'
        (ap (λ ds. find_dispute id ds) r.settled
          ∙ find_dispute-update id (resolved_row p s.world.now) s.world.disputes (λ d. refl)
              r.read.dispute_found)
        (not_open p s.world.now r.read.dispute)
