-- ===== src/Worker/Settle/Frame.antt =====
-- What a settlement leaves alone: the serialised section writes the vault and one task's id only.
use clevercon.Prelude.{ℕ, ◌≡◌, List, arith}
use clevercon.Store.Tables.{World}
use clevercon.Worker.Chain.{Outcome, ok, err}
use clevercon.Worker.Env.{Env, with_delegate}
use clevercon.Worker.Settle.{Plan, lock_if_needed, write_lock, release_at, lock_and_release}

-- The tables other than the tasks are the same.
pub record SameRows {V : Type 0} (w w' : World V) : Type 0 where
  pub same_steps : w'.steps ≡ w.steps
  pub same_payments : w'.payments ≡ w.payments
  pub same_disputes : w'.disputes ≡ w.disputes
  pub same_delegates : w'.delegates ≡ w.delegates
  pub same_jobs : w'.jobs ≡ w.jobs
  pub same_now : w'.now ≡ w.now

module _ {V : Type 0} (env : Env V) where
  lock_if_needed-SameRows : (plan : Plan) (w : World V) → SameRows w (lock_if_needed env plan w).1
  unfolding lock_if_needed write_lock
  lock_if_needed-SameRows plan w = ground arith

  release_at-SameRows :
      (plan : Plan) (n p : List ℕ) (r : Outcome ℕ × World V)
      → SameRows r.1 (release_at env plan n p r).1
  unfolding release_at
  release_at-SameRows plan n p (ok id, w) = ground arith
  release_at-SameRows plan n p (err e, w) = ground arith

  pub lock_and_release-SameRows :
      (plan : Plan) (n p : List ℕ) (w : World V) → SameRows w (lock_and_release env plan n p w).1
  unfolding lock_and_release with_delegate
  lock_and_release-SameRows plan n p w = ground (
    arith,
    lock_if_needed-SameRows plan w,
    release_at-SameRows plan n p (lock_if_needed env plan w),
  )
