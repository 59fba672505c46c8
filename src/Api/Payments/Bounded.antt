-- ===== src/Api/Payments/Bounded.antt =====
-- What a payment that is created is bound by.
use clevercon.Prelude.{
  ℕ, ◌≡◌, true, false, not, ◌||◌, none, some, List, [], ◌∷◌, ◌++◌, ◌==◌, All, length,
}
use clevercon.Store.Tables.{World, find_delegate}
use clevercon.Api.{Api, ApiHost}
use clevercon.Api.Lines.{CreatePaymentParams, FreshIds, Line, is_pay, clean_lines}
use clevercon.Api.Payments.{Bound, payment_task, step_rows}
use clevercon.Api.Payments.Fitting.{IsPositive, HasAddress, Fits, sum_costs, Sourced}

module _ (host : ApiHost) where
  -- Lines that pass the checks of their shape.
  record Shaped (params : CreatePaymentParams) (ls : List Line) : Type 0 where
    given : ls ≡ clean_lines host params.lines
    some_line : (length ls == 0) ≡ false
    single : (not (is_pay params.kind) || length ls == 1) ≡ true
    addressed : All HasAddress ls

  module _ {V : Type 0} where
    abbrev pub HasDelegate : ℕ → World V → Type 0
    HasDelegate user w =
        elim (find_delegate user w.delegates) [ none ↦ false | some d ↦ d.registered ] ≡ true

    -- What is checked of a bound before the insertion.
    record Checked (user : ℕ) (b : Bound) (w : World V) : Type 0 where
      fitting : All (Fits b.rules) b.lines
      settles : host.vault_active ≡ true
      delegated : HasDelegate user w

    -- What the policy that was resolved has to do with the request.
    record Owned (user : ℕ) (params : CreatePaymentParams) (ids : FreshIds) (ls : List Line)
        (b : Bound) (s s' : Api V) : Type 0 where
      sourced : Sourced host user params ids s.policies s'.policies b
      same_lines : b.lines ≡ ls
      owner : b.policy.user_id ≡ user
      world_kept : s'.world ≡ s.world

    -- What a payment that is created has gone through, and the rows that it adds.
    pub record Bounded (user : ℕ) (params : CreatePaymentParams) (ids : FreshIds) (s s' : Api V)
        : Type 0 where
      pub bound : Bound
      pub given : bound.lines ≡ clean_lines host params.lines
      pub some_line : (length bound.lines == 0) ≡ false
      pub single : (not (is_pay params.kind) || length bound.lines == 1) ≡ true
      pub positive : All IsPositive bound.lines
      pub addressed : All HasAddress bound.lines
      pub fitting : All (Fits bound.rules) bound.lines
      pub sourced : Sourced host user params ids s.policies s'.policies bound
      pub owner : bound.policy.user_id ≡ user
      pub settles : host.vault_active ≡ true
      pub delegated : HasDelegate user s.world
      pub task_added : s'.world.tasks ≡ s.world.tasks ++ payment_task user params ids bound ∷ []
      pub steps_added :
          s'.world.steps ≡ s.world.steps ++ step_rows host ids 0 s.world.now bound.lines
      pub costs :
          sum_costs (step_rows host ids 0 s.world.now bound.lines)
          ≡ (payment_task user params ids bound).budget
      pub payments_kept : s'.world.payments ≡ s.world.payments
