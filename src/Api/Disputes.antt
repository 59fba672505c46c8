-- ===== src/Api/Disputes.antt =====
-- services/api/src/disputes/disputes.service.ts: a buyer opens a dispute, a provider responds, and
-- the arbiter settles it on the chain. The notifications and the unsigned transaction that `open`
-- returns are left out.
pub mod Weights
pub mod Laws
use mathlib.Core.Option
use clevercon.Prelude.{
  ℕ, suc, ◌+◌, Bool, true, false, not, ◌&&◌, ◌||◌, Option, none, some, List, [], ◌∷◌, ◌++◌, String,
  ◌==◌, if◌then◌else◌, find, any, is_some,
}
use clevercon.Prelude.Int.{ℤ, pos, ltb_ℤ}
use clevercon.Store.Rows.{Task, Step, Service, Dispute, DisputeStatus, is_open_dispute, Reputation}
use clevercon.Store.Tables.{World, find_task, steps_of, update_reputation}
use clevercon.Api.{
  Api, Wallet, ApiError, bad_request, not_found, forbidden, Result, ok, err, ◌>>=◌, ◌>>◌, guard,
  found, Handler, reads_then, on_world,
}
use clevercon.Api.Tasks.{dispute_row}

unfoldable pub find_dispute : ℕ → List Dispute → Option Dispute
find_dispute id = find (λ (d : Dispute). d.id == id)

unfoldable pub update_dispute : ℕ → (Dispute → Dispute) → List Dispute → List Dispute
update_dispute id f [] = []
update_dispute id f (d ∷ ds) = (if d.id == id then f d else d) ∷ update_dispute id f ds

-- the first wallet of a user; the table is in the order of creation
abbrev pub first_wallet : ℕ → List Wallet → Option ℕ
first_wallet user ws =
    Option.map (λ (w : Wallet). w.address) (find (λ (w : Wallet). w.user_id == user) ws)

abbrev pub names_provider : ℕ → Step → Bool
names_provider user s = elim s.service [
  | none ↦ false
  | some v ↦ elim v.provider_id [ none ↦ false | some p ↦ p == user ]
]

-- `[...new Set(ids)]`
abbrev pub without : ℕ → List ℕ → List ℕ
without i [] = []
without i (j ∷ js) = if j == i then without i js else j ∷ without i js

unfoldable pub distinct : List ℕ → List ℕ
distinct [] = []
distinct (i ∷ is) = i ∷ without i (distinct is)

abbrev pub service_ids : List Step → List ℕ
service_ids [] = []
service_ids (s ∷ ss) = elim s.service [ none ↦ service_ids ss | some v ↦ v.id ∷ service_ids ss ]

unfoldable pub open_dispute :
    {V : Type 0} → (user task : ℕ) → Option String → (fresh : ℕ) → Handler V ℕ
open_dispute user task reason fresh =
    reads_then
      (λ s. do
        t ← found (find_task task s.world.tasks) (not_found "Task not found")
        guard (t.buyer_id == user) (forbidden "not your task")
        guard (is_some t.vault_task_id)
            (bad_request "task is not locked on-chain; nothing to dispute")
        found (first_wallet user s.wallets) (bad_request "no wallet on file to sign the dispute"))
      λ wallet s. (
        ok fresh,
        on_world
            (λ w. record w { disputes = w.disputes ++ dispute_row fresh task wallet reason ∷ [] })
            s,
      )

-- `respond`
unfoldable pub respond : {V : Type 0} → (user dispute : ℕ) → String → Handler V (Unit {0})
respond user dispute response =
    reads_then
      (λ s. do
        d ← found (find_dispute dispute s.world.disputes) (not_found "Dispute not found")
        guard (any (names_provider user) (steps_of d.task_id s.world.steps))
            (forbidden "not a provider on this disputed task"))
      λ _ s. (
        ok tt,
        on_world
            (λ w. record w {
              disputes =
                  update_dispute dispute (λ d. record d { provider_response = some response })
                    w.disputes;
            })
            s,
      )

pub record Resolution : Type 0 where
  pub refund_to_user : ℤ
  pub payout_to_provider : ℤ
  pub upheld : Bool
  pub resolution : Option String

abbrev pub resolved_row : Resolution → (time : ℕ) → Dispute → Dispute
resolved_row p time d = record d {
  status = if p.upheld then DisputeStatus.resolved else DisputeStatus.rejected;
  resolution = p.resolution;
  refund_to_user = some p.refund_to_user;
  payout_to_provider = some p.payout_to_provider;
  resolved_at = some time;
}

abbrev pub weighed : Bool → Reputation → Reputation
weighed upheld r = record r {
  disputes = r.disputes + 1;
  disputes_upheld = r.disputes_upheld + (if upheld then 1 else 0);
}

-- the loop over the services of the task; a service without a reputation is passed over
unfoldable pub weigh_services : Bool → List ℕ → List Reputation → List Reputation
weigh_services upheld [] rs = rs
weigh_services upheld (i ∷ is) rs =
    weigh_services upheld is (update_reputation i (weighed upheld) rs)

-- What the reads of `resolve` find: the on-chain id and the task's steps.
pub record Disputed : Type 0 where
  pub vault_task_id : ℕ
  pub services : List ℕ

-- `resolveDisputeOnChain`: the transaction's hash or an error, and the vault's next state
abbrev pub Resolver : Type 0 → Type 0
Resolver V = (task : ℕ) → (refund payout : ℤ) → V → Result ℕ × V

unfoldable pub read_dispute : {V : Type 0} → ℕ → Resolution → Api V → Result Disputed
read_dispute id p s = do
  d ← found (find_dispute id s.world.disputes) (not_found "Dispute not found")
  guard (is_open_dispute d.status) (bad_request "dispute already resolved")
  t ← found (find_task d.task_id s.world.tasks) (bad_request "task has no on-chain id")
  v ← found t.vault_task_id (bad_request "task has no on-chain id")
  guard (not (ltb_ℤ p.refund_to_user (pos 0)) && not (ltb_ℤ p.payout_to_provider (pos 0)))
      (bad_request "amounts must be non-negative")
  ok (record { vault_task_id = v; services = service_ids (steps_of t.id s.world.steps) })

-- what follows the transaction
unfoldable pub after_resolution :
    {V : Type 0} → ℕ → Resolution → Disputed → Result ℕ × V → Handler V ℕ
after_resolution id p d (err e, v) s = (err e, on_world (λ w. record w { vault = v }) s)
after_resolution id p d (ok tx, v) s = (
  ok tx,
  on_world
      (λ w. record w {
        vault = v;
        disputes = update_dispute id (resolved_row p w.now) w.disputes;
        reputations = weigh_services p.upheld (distinct d.services) w.reputations;
      })
      s,
)

-- `resolve`
unfoldable pub resolve : {V : Type 0} → Resolver V → ℕ → Resolution → Handler V ℕ
resolve chain id p = reads_then (read_dispute id p) λ d s.
    after_resolution id p d
      (chain d.vault_task_id p.refund_to_user p.payout_to_provider s.world.vault) s
