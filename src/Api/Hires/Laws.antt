-- ===== src/Api/Hires/Laws.antt =====
-- What a hire does, and that a hire which is refused does nothing.
use clevercon.Prelude.{
  ℕ, ◌≡◌, ◌≢◌, ◌⊎◌, refl, ap, ◌∙◌, true, false, not, ◌&&◌, Option, none, some, List, [], ◌∷◌, arith,
  inl, inr, ◌==◌, All, subst, find-holds, Bool,
}
use clevercon.Store.Rows.{Service}
use clevercon.Api.{Api, ok, bind_ok, found_ok, found, EligibilityRules, ◌>>=◌, bad_request}
use clevercon.Api.Eligibility.{includes, includes_tier, check_eligibility, is_empty}
use clevercon.Api.Hires.{
  CreateTaskParams, permit, own_policy, find_service, eligibility_of, check_policy, is_direct,
  direct_service, read_service,
}

-- What a policy's curation lets a buyer hire.
pub record IsEligible (e : EligibilityRules) (v : Service) : Type 0 where
  pub not_denied : All (λ (i : ℕ). i ≢ v.id) e.service_deny
  pub is_allowed : (e.service_allow ≡ []) ⊎ (includes e.service_allow v.id ≡ true)
  pub tier_allowed : (e.allowed_tiers ≡ []) ⊎ (includes_tier e.allowed_tiers v.tier ≡ true)

abbrev pub Eligible : Option EligibilityRules → Service → Type 0
Eligible none v = Unit {0}
Eligible (some e) v = IsEligible e v

-- the curation of the policy that a request names, where it is the buyer's own
abbrev pub curation : {V : Type 0} → ℕ → Option ℕ → Api V → Option EligibilityRules
curation user none s = none
curation user (some id) s = eligibility_of (own_policy user id s.policies)

All-includes : (is : List ℕ) (k : ℕ) → includes is k ≡ false → All (λ (i : ℕ). i ≢ k) is
All-includes [] k h = tt
All-includes (i ∷ is) k h = (ground arith, All-includes is k (ground arith))

empty_cases :
    {A : Type 0} (xs : List A) {b : Bool}
    → (not (is_empty xs) && not b) ≡ false
    → (xs ≡ []) ⊎ (b ≡ true)
empty_cases [] h = inl refl
empty_cases (x ∷ xs) {b = true} h = inr refl
empty_cases (x ∷ xs) {b = false} h = cc h

check_eligibility-Eligible :
    (e : Option EligibilityRules) (v : Service) {u : Unit {0}}
    → permit (check_eligibility e v) ≡ ok u
    → Eligible e v
unfolding check_eligibility
check_eligibility-Eligible none v h = tt
check_eligibility-Eligible (some e) v h = record {
  not_denied = All-includes e.service_deny v.id (ground arith);
  is_allowed = empty_cases e.service_allow (ground arith);
  tier_allowed = empty_cases e.allowed_tiers (ground arith);
}

pub read_service-direct :
    {V : Type 0} (user : ℕ) (params : CreateTaskParams) (s : Api V) {v : Option Service}
    → is_direct params.mode ≡ true
    → read_service user params s ≡ ok v
    → direct_service user params params.service_id s ≡ ok v
unfolding read_service
read_service-direct user params s d h = rw d at h

-- What the checks of a direct hire find.
pub record Chosen {V : Type 0} (user : ℕ) (params : CreateTaskParams) (s : Api V)
    (o : Option Service) : Type 0 where
  pub service : Service
  pub chosen : o ≡ some service
  pub named : params.service_id ≡ some service.id
  pub stored : find_service service.id s.services ≡ some service
  pub eligible : Eligible (curation user params.policy_id s) service

check_policy-Eligible :
    {V : Type 0} (user : ℕ) (policy : Option ℕ) (v : Service) (s : Api V) {u : Unit {0}}
    → check_policy user policy v s.policies ≡ ok u
    → Eligible (curation user policy s) v
unfolding check_policy
check_policy-Eligible user none v s h = tt
check_policy-Eligible user (some id) v s h =
    check_eligibility-Eligible (eligibility_of (own_policy user id s.policies)) v h

find_service-id :
    (id : ℕ) (vs : List Service) {v : Service} → find_service id vs ≡ some v → id ≡ v.id
unfolding find_service
find_service-id id vs {v} h = let e = find-holds (λ (v : Service). v.id == id) vs h in ground arith

pub direct_service-Chosen :
    {V : Type 0} (user : ℕ) (params : CreateTaskParams) (id : Option ℕ) (s : Api V)
    {o : Option Service}
    → params.service_id ≡ id
    → direct_service user params id s ≡ ok o
    → Chosen user params s o
direct_service-Chosen user params none s n h = cc h
direct_service-Chosen user params (some id) s {o} n h =
    let (v, f, h1) =
      bind_ok (found (find_service id s.services) (bad_request "Unknown service"))
        (λ v. check_policy user params.policy_id v s.policies >>= λ _. ok (some v)) h in
    let (u, c, h2) =
      bind_ok (check_policy user params.policy_id v s.policies) (λ _. ok (some v)) h1 in
    let at = find_service-id id s.services (found_ok _ _ f) in
    record {
      service = v;
      chosen = cc h2;
      named = n ∙ ap some at;
      stored = subst (λ i. find_service i s.services ≡ some v) at (found_ok _ _ f);
      eligible = check_policy-Eligible user params.policy_id v s c;
    }
