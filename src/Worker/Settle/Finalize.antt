-- ===== src/Worker/Settle/Finalize.antt =====
-- `finalizeTaskIfComplete` and `recoverOrphanLocks` of services/workers/src/settlement.ts.
pub mod Laws
use clevercon.Prelude.{
  ℕ, suc, Bool, true, false, not, ◌&&◌, ◌||◌, Option, none, some, List, [], ◌∷◌, ◌++◌, String, ltb,
  if◌then◌else◌, any, count, is_some,
}
use clevercon.Store.Rows.{
  Step, StepStatus, step_is, Task, TaskMode, TaskStatus, task_is, Payment, Delegate,
  is_vault_release, is_confirmed,
}
use clevercon.Store.Tables.{World, find_task, find_delegate, steps_of, update_task}
use clevercon.Prelude.{◌==◌}
use clevercon.Worker.Chain.{ChainError, Outcome, ok, err, thrown, Completion}
use clevercon.Worker.Chain.Completion.{already, disputed}
use clevercon.Worker.Env.{Env, truthy_id, settlement_configured, with_delegate}

pub data FinalizeResult : Type 0 where
  finalized : TaskMode → (completed : Bool) → FinalizeResult
  already_done : TaskMode → (completed : Bool) → FinalizeResult
  skipped : (reason : String) → FinalizeResult
  skipped_error : ChainError → FinalizeResult

-- `NON_TERMINAL_STEP`
unfoldable pub is_non_terminal : StepStatus → Bool
is_non_terminal StepStatus.pending = true
is_non_terminal StepStatus.running = true
is_non_terminal StepStatus.awaiting_approval = true
is_non_terminal _ = false

abbrev pub still_open : List Step → Bool
still_open = any (λ (s : Step). is_non_terminal s.status)

abbrev pub released_count : List Step → ℕ
released_count = count (λ (s : Step). step_is StepStatus.released s.status)

-- `payment.count({ where: { taskId, method: VAULT_RELEASE, status: CONFIRMED } })`
abbrev pub settled_count : ℕ → List Payment → ℕ
settled_count task =
    count (λ (p : Payment). p.task_id == task && is_vault_release p.method && is_confirmed p.status)

abbrev pub is_final : TaskStatus → Bool
is_final s =
    task_is TaskStatus.failed s || task_is TaskStatus.cancelled s || task_is TaskStatus.disputed s

abbrev pub completes_here : TaskStatus → Bool
completes_here s = not (is_final s) && not (task_is TaskStatus.completed s)

-- the row's `update` at the end
abbrev pub finalized_row : Bool → ℕ → Task → Task
finalized_row completed_here time t = record t {
  vault_finalized_at = some time;
  status = if completed_here then TaskStatus.completed else t.status;
}

module _ {V : Type 0} (env : Env V) where
  unfoldable pub finish_finalize : Task → Outcome Completion × World V → FinalizeResult × World V
  finish_finalize t (err e, w) = (skipped_error e, w)
  finish_finalize t (ok disputed, w) = (skipped "task disputed", w)
  finish_finalize t (ok already, w) = (
    already_done t.mode (completes_here t.status),
    record w { tasks = update_task t.id (finalized_row (completes_here t.status) w.now) w.tasks },
  )
  finish_finalize t (ok Completion.completed, w) = (
    finalized t.mode (completes_here t.status),
    record w { tasks = update_task t.id (finalized_row (completes_here t.status) w.now) w.tasks },
  )

  abbrev pub complete_call : Delegate → ℕ → World V → Outcome Completion × World V
  complete_call d id w =
      let (r, v) = env.calls.complete d.public_key id w.vault in (r, record w { vault = v })

  abbrev pub with_buyer : Task → ℕ → World V → Option Delegate → FinalizeResult × World V
  with_buyer t id w none = (skipped "buyer has no delegate", w)
  with_buyer t id w (some d) =
      finish_finalize t
        (with_delegate env d.public_key (λ msg. err (thrown msg)) (complete_call d id) w)

  abbrev pub finalize_locked : Task → ℕ → World V → FinalizeResult × World V
  finalize_locked t id w =
      if not (settlement_configured env)
      then (skipped "settlement not configured", w)
      else if still_open (steps_of t.id w.steps)
      then (skipped "steps still open", w)
      else if ltb (settled_count t.id w.payments) (released_count (steps_of t.id w.steps))
      then (skipped "releases not all settled yet", w)
      else with_buyer t id w (find_delegate t.buyer_id w.delegates)

  unfoldable pub finalize_task_if_complete : ℕ → World V → FinalizeResult × World V
  finalize_task_if_complete task w = elim (find_task task w.tasks) [
    | none ↦ (skipped "task not found", w)
    | some t ↦ elim (truthy_id t.vault_task_id) [
      | none ↦ (skipped "not locked on-chain", w)
      | some id ↦
          if is_some t.vault_finalized_at
          then (skipped "already finalized", w)
          else finalize_locked t id w
    ]
  ]

-- What the vault answers to `get_user_tasks` and `get_task`: the ids of a wallet's tasks, and of
-- each whether it was read and is not completed.
pub record VaultViews (V : Type 0) : Type 0 where
  pub user_tasks : (wallet : ℕ) → V → List ℕ
  pub is_live : (task : ℕ) → V → Bool

pub record Recovered : Type 0 where
  pub unlocked : List ℕ
  pub skipped : ℕ

module _ {V : Type 0} (env : Env V) (views : VaultViews V) where
  abbrev pub is_tracked : ℕ → List Task → Bool
  is_tracked id = any (λ (t : Task). elim t.vault_task_id [ none ↦ false | some i ↦ i == id ])

  -- the `try` around the completion of one orphan
  abbrev tally : ℕ → Recovered → Outcome Completion × World V → Recovered × World V
  tally id r (ok disputed, w) = (record r { skipped = suc r.skipped }, w)
  tally id r (ok _, w) = (record r { unlocked = r.unlocked ++ id ∷ [] }, w)
  tally id r (err e, w) = (record r { skipped = suc r.skipped }, w)

  unfoldable pub recover_one : Delegate → ℕ → Recovered × World V → Recovered × World V
  recover_one d id (r, w) =
      if not (views.is_live id w.vault)
      then (record r { skipped = suc r.skipped }, w)
      else if is_tracked id w.tasks
      then (record r { skipped = suc r.skipped }, w)
      else tally id r
          (with_delegate env d.public_key (λ msg. err (thrown msg)) (complete_call env d id) w)

  -- the loop over the ids of one wallet
  unfoldable pub recover_ids : Delegate → List ℕ → Recovered × World V → Recovered × World V
  recover_ids d [] s = s
  recover_ids d (id ∷ ids) s = recover_ids d ids (recover_one d id s)

  unfoldable pub recover_wallets : Delegate → List ℕ → Recovered × World V → Recovered × World V
  recover_wallets d [] s = s
  recover_wallets d (wallet ∷ wallets) (r, w) =
      recover_wallets d wallets (recover_ids d (views.user_tasks wallet w.vault) (r, w))

  -- `none` where the code throws: not configured, or no delegate
  unfoldable pub recover_orphan_locks : ℕ → List ℕ → World V → Option Recovered × World V
  recover_orphan_locks user wallets w =
      if not (settlement_configured env) then (none, w) else elim (find_delegate user w.delegates) [
        | none ↦ (none, w)
        | some d ↦
            let (r, w') = recover_wallets d wallets (record { unlocked = []; skipped = 0 }, w) in
            (some r, w')
      ]
