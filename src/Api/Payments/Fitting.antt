-- ===== src/Api/Payments/Fitting.antt =====
-- The rules that the lines of a payment fit, and where these rules come from.
use clevercon.Prelude.{
  ℕ, ◌+◌, ◌≡◌, ◌≤◌, refl, true, false, ◌&&◌, Option, none, some, List, [], ◌∷◌, ◌++◌, arith, inl,
  inr, ◌==◌, find, All, find-holds, any, ◌⊎◌, String,
}
use clevercon.Store.Rows.{Step}
use clevercon.Api.{
  Api, ApiHost, Result, ok, bind_ok, guard_ok, guard, PolicyRow, PolicyRules, ◌>>=◌,
}
use clevercon.Prelude.Int.{ℤ, pos, ltb_ℤ}
use text.Mathlib.Text.{◌==◌ as str_eq}
use clevercon.Api.Lines.{
  CreatePaymentParams, FreshIds, Line, is_stellar_address, within_ceiling, allows, check_rules,
  check_known_rules, check_addresses, derived_rules,
}
use clevercon.Api.Payments.{Bound, derived_policy}
use clevercon.Api.Payments.Again.{pair_subst}

abbrev pub IsPositive : Line → Type 0
IsPositive l = 1 ≤ l.amount

abbrev pub HasAddress : Line → Type 0
HasAddress l = is_stellar_address l.payee ≡ true

-- no ceiling, or one that the amount does not exceed
abbrev pub BelowCeiling : Option ℤ → ℕ → Type 0
BelowCeiling none amount = Unit {0}
BelowCeiling (some c) amount = ltb_ℤ c (pos amount) ≡ false

within_ceiling-Below :
    (c : Option ℤ) (amount : ℕ) → within_ceiling c amount ≡ true → BelowCeiling c amount
within_ceiling-Below none amount h = tt
within_ceiling-Below (some c) amount h = ground arith

allows_cases :
    (ps : List String) (p : String)
    → allows ps p ≡ true
    → (ps ≡ []) ⊎ (any (λ q. str_eq q p) ps ≡ true)
allows_cases [] p h = inl refl
allows_cases (q ∷ ps) p h = inr h

-- A line within the rules, where the policy shows them.
abbrev pub Fits : Option PolicyRules → Line → Type 0
Fits none l = Unit {0}
Fits (some rules) l =
    BelowCeiling rules.per_payment_ceiling l.amount
    × ((rules.allowlist ≡ []) ⊎ (any (λ q. str_eq q l.payee) rules.allowlist ≡ true))

pub check_addresses-All :
    (ls : List Line) {u : Unit {0}} → check_addresses ls ≡ ok u → All HasAddress ls
unfolding check_addresses
check_addresses-All [] h = tt
check_addresses-All (l ∷ ls) h =
    let (u, g, k) = bind_ok (guard (is_stellar_address l.payee) _) (λ _. check_addresses ls) h in
    (guard_ok _ _ g, check_addresses-All ls k)

check_rules-All :
    (rules : PolicyRules) (ls : List Line) {u : Unit {0}}
    → check_rules rules ls ≡ ok u
    → All (Fits (some rules)) ls
unfolding check_rules
check_rules-All rules [] h = tt
check_rules-All rules (l ∷ ls) h =
    let (u, g, h1) =
      bind_ok (guard (within_ceiling rules.per_payment_ceiling l.amount) _)
        (λ _. guard (allows rules.allowlist l.payee) _ >>= λ _. check_rules rules ls) h in
    let (v, f, h2) =
      bind_ok (guard (allows rules.allowlist l.payee) _) (λ _. check_rules rules ls) h1 in
    (
      (
        within_ceiling-Below rules.per_payment_ceiling l.amount (guard_ok _ _ g),
        allows_cases rules.allowlist l.payee (guard_ok _ _ f),
      ),
      check_rules-All rules ls h2,
    )

All_unit : (ls : List Line) → All (Fits none) ls
All_unit [] = tt
All_unit (l ∷ ls) = (tt, All_unit ls)

pub check_known_rules-All :
    (rules : Option PolicyRules) (ls : List Line) {u : Unit {0}}
    → check_known_rules rules ls ≡ ok u
    → All (Fits rules) ls
check_known_rules-All none ls h = All_unit ls
check_known_rules-All (some rules) ls h = check_rules-All rules ls h

abbrev pub sum_costs : List Step → ℕ
sum_costs [] = 0
sum_costs (s ∷ ss) = s.estimated_cost + sum_costs ss

-- Where the bound of a request comes from: the policy that it names, which is stored and the
-- buyer's own, with the rules that this policy shows; or, where it names none, a new policy of the
-- buyer's, with the rules that the lines give.
pub data Sourced (host : ApiHost) (user : ℕ) (params : CreatePaymentParams) (ids : FreshIds)
    (ps ps' : List PolicyRow) (b : Bound) : Type 0 where
  named :
      (id : ℕ)
      → params.policy_id ≡ some id
      → find (λ (p : PolicyRow). p.id == id && p.user_id == user) ps ≡ some b.policy
      → b.rules ≡ b.policy.rule_summary
      → ps' ≡ ps
      → Sourced host user params ids ps ps' b
  made :
      params.policy_id ≡ none
      → b.policy ≡ derived_policy host user ids.policy (derived_rules b.lines)
      → b.rules ≡ some (derived_rules b.lines)
      → ps' ≡ ps ++ b.policy ∷ []
      → Sourced host user params ids ps ps' b

pub own_row :
    (user id : ℕ) (ps : List PolicyRow) (p : PolicyRow)
    → find (λ (p : PolicyRow). p.id == id && p.user_id == user) ps ≡ some p
    → p.user_id ≡ user
own_row user id ps p h =
    let e = find-holds (λ (p : PolicyRow). p.id == id && p.user_id == user) ps h in ground arith

-- along an equation of two answers
pub both_subst :
    {V : Type 0} (P : Bound → Api V → Type 0) {a b : Bound} {s t : Api V}
    → ◌≡◌ {A = Result Bound × Api V} (ok a, s) (ok b, t)
    → P a s
    → P b t
both_subst P {a} {b} {s} {t} e p = pair_subst P e p
