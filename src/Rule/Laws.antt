-- ===== src/Rule/Laws.antt =====
-- The badge of a rule, and its projection to the prover.
use clevercon.Prelude.{ℕ, zero, suc, ◌≤◌, ◌≡◌, refl, List, [], ◌∷◌, arith, All}
use clevercon.Rule.{
  Rule, RuleClause, type_of, enforcement, EnforcementStatus, order_of, in_order, worst_of,
  weakest_enforcement, max,
}

order_of-le : (s : EnforcementStatus) → order_of s ≤ 2
unfolding order_of
order_of-le EnforcementStatus.enforced_now = omega arith
order_of-le EnforcementStatus.committed_pending = omega arith
order_of-le EnforcementStatus.app_enforced = omega arith

max_bounds : (a b : ℕ) → (a ≤ max a b) × (b ≤ max a b)
max_bounds a b = ground arith

max_least : (a b c : ℕ) → a ≤ c → b ≤ c → max a b ≤ c
max_least a b c h g = ground arith

worst_of-ge : (n : ℕ) (cs : List RuleClause) → n ≤ worst_of n cs
unfolding worst_of
worst_of-ge n [] = omega arith
worst_of-ge n (c ∷ cs) =
    let m = order_of (enforcement (type_of c)) in
    omega (arith, max_bounds n m, worst_of-ge (max n m) cs)

worst_of-le : (n : ℕ) (cs : List RuleClause) → n ≤ 2 → worst_of n cs ≤ 2
unfolding worst_of
worst_of-le n [] h = h
worst_of-le n (c ∷ cs) h =
    let m = order_of (enforcement (type_of c)) in
    worst_of-le (max n m) cs (max_least n m 2 h (order_of-le (enforcement (type_of c))))

abbrev pub IsCovered : ℕ → RuleClause → Type 0
IsCovered n c = order_of (enforcement (type_of c)) ≤ n

worst_of-covers : (n : ℕ) (cs : List RuleClause) → All (IsCovered (worst_of n cs)) cs
unfolding worst_of
worst_of-covers n [] = tt
worst_of-covers n (c ∷ cs) =
    let m = order_of (enforcement (type_of c)) in
    (omega (arith, max_bounds n m, worst_of-ge (max n m) cs), worst_of-covers (max n m) cs)

order_of-in_order : (n : ℕ) → n ≤ 2 → order_of (in_order n) ≡ n
unfolding order_of in_order
order_of-in_order zero h = refl
order_of-in_order (suc zero) h = refl
order_of-in_order (suc (suc zero)) h = refl
order_of-in_order (suc (suc (suc n))) h = omega (arith, h)

-- A rule's badge never promises more than its weakest clause: no clause of the rule is enforced
-- more weakly than the badge says.
pub weakest_enforcement-covers :
    (rule : Rule) → All (IsCovered (order_of (weakest_enforcement rule))) rule.clauses
weakest_enforcement-covers rule =
    let same =
      order_of-in_order (worst_of 0 rule.clauses) (worst_of-le 0 rule.clauses (omega arith)) in
    rw same (worst_of-covers 0 rule.clauses)
