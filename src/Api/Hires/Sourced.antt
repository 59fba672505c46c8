-- ===== src/Api/Hires/Sourced.antt =====
-- Where the policy that bounds a hire comes from.
use clevercon.Prelude.{
  ℕ, ◌≡◌, refl, sym, Option, none, some, List, [], ◌∷◌, ◌++◌, Option-cases, Bool-cases, inl, inr,
  subst,
}
use clevercon.Store.Rows.{Service}
use clevercon.Api.{Api, ApiHost, PolicyRow}
use clevercon.Api.Payments.{derived_policy}
use clevercon.Api.Hires.{
  hire_rules, derive_policy, CreateTaskParams, HireIds, LockHost, direct_payee, bounding_policy,
}

-- Where the policy that bounds a hire comes from: it is the one that the request names; or, where
-- it names none and the service has an address, a new policy of the buyer's, for that address and
-- at most the budget; or there is none.
pub data Sourced (host : ApiHost) {V : Type 0} (lock : LockHost V) (user : ℕ)
    (params : CreateTaskParams) (ids : HireIds) (v : Option Service) (ps ps' : List PolicyRow)
    (policy : Option ℕ) : Type 0 where
  named :
      (id : ℕ)
      → params.policy_id ≡ some id
      → policy ≡ some id
      → ps' ≡ ps
      → Sourced host lock user params ids v ps ps' policy
  made :
      (payee : ℕ)
      → params.policy_id ≡ none
      → direct_payee v ≡ some payee
      → policy ≡ some ids.policy
      → ps'
        ≡ ps
          ++ derived_policy host user ids.policy
              (hire_rules (lock.address_text payee) params.budget)
            ∷ []
      → Sourced host lock user params ids v ps ps' policy
  unbounded :
      params.policy_id ≡ none
      → policy ≡ none
      → ps' ≡ ps
      → Sourced host lock user params ids v ps ps' policy

module _ (host : ApiHost) {V : Type 0} (lock : LockHost V) where
  -- the policy that bounds a task is resolved without a change of the tables in `world`
  pub bounding_policy-world :
      (user : ℕ) (params : CreateTaskParams) (ids : HireIds) (v : Option Service) (s : Api V)
      → (bounding_policy host lock user params ids v s).1.world ≡ s.world
  bounding_policy-world user params ids v s = elim (Option-cases params.policy_id) [
    | inl e ↦ elim (Option-cases (direct_payee v)) [
      | inl f ↦ rw (e, f) refl
      | inr (payee, f) ↦ elim (Bool-cases lock.policy_fails) [
        | inl g ↦ rw (e, f, g) refl
        | inr g ↦ rw (e, f, g) refl
      ]
    ]
    | inr (id, e) ↦ rw e refl
  ]

  bounding_named :
      (user : ℕ) (params : CreateTaskParams) (ids : HireIds) (v : Option Service) (s : Api V)
      {id : ℕ}
      → params.policy_id ≡ some id
      → bounding_policy host lock user params ids v s ≡ (some id, s)
  bounding_named user params ids v s e = rw e refl

  bounding_unnamed :
      (user : ℕ) (params : CreateTaskParams) (ids : HireIds) (v : Option Service) (s : Api V)
      → params.policy_id ≡ none
      → bounding_policy host lock user params ids v s
        ≡ derive_policy host lock user params ids (direct_payee v) s
  bounding_unnamed user params ids v s e = rw e refl

  derive_policy-Sourced :
      (user : ℕ) (params : CreateTaskParams) (ids : HireIds) (v : Option Service) (s : Api V)
      (o : Option ℕ)
      → params.policy_id ≡ none
      → direct_payee v ≡ o
      → let q = derive_policy host lock user params ids o s in
        Sourced host lock user params ids v s.policies q.1.policies q.0
  unfolding derived_policy
  derive_policy-Sourced user params ids v s none e f = unbounded e refl refl
  derive_policy-Sourced user params ids v s (some payee) e f = elim (Bool-cases lock.policy_fails) [
    | inl g ↦ rw g (unbounded e refl refl)
    | inr g ↦ rw g (made payee e f refl refl)
  ]

  pub bounding_policy-Sourced :
      (user : ℕ) (params : CreateTaskParams) (ids : HireIds) (v : Option Service) (s : Api V)
      → let q = bounding_policy host lock user params ids v s in
        Sourced host lock user params ids v s.policies q.1.policies q.0
  bounding_policy-Sourced user params ids v s = elim (Option-cases params.policy_id) [
    | inl e ↦
        subst
          (λ (q : Option ℕ × Api V).
            Sourced host lock user params ids v s.policies q.1.policies q.0)
          (sym (bounding_unnamed user params ids v s e))
          (derive_policy-Sourced user params ids v s (direct_payee v) e refl)
    | inr (id, e) ↦
        subst
          (λ (q : Option ℕ × Api V).
            Sourced host lock user params ids v s.policies q.1.policies q.0)
          (sym (bounding_named user params ids v s e)) (named id e refl refl)
  ]
