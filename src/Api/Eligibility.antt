-- ===== src/Api/Eligibility.antt =====
-- services/api/src/policies/eligibility.ts: what a policy's curation lets a buyer hire. A tier is one
-- of the three of the schema, and a service's other text is kept as none.
use clevercon.Prelude.{
  ℕ, Bool, true, false, not, ◌&&◌, Option, none, some, List, [], ◌∷◌, String, ◌==◌, if◌then◌else◌,
  any,
}
use Prim.Native.String.{◌++◌ as ◌+++◌}
use clevercon.Store.Rows.{Tier, Service}
use clevercon.Api.{EligibilityRules}

-- `EligibilityCheck`
pub data EligibilityCheck : Type 0 where
  permitted : EligibilityCheck
  blocked : (reason : String) → EligibilityCheck

abbrev pub tier_text : Option Tier → String
tier_text (some Tier.t1) = "T1"
tier_text (some Tier.t2) = "T2"
tier_text (some Tier.t3) = "T3"
tier_text none = "other"

abbrev pub same_tier : Option Tier → Tier → Bool
same_tier (some Tier.t1) Tier.t1 = true
same_tier (some Tier.t2) Tier.t2 = true
same_tier (some Tier.t3) Tier.t3 = true
same_tier _ _ = false

-- `ids.includes(id)`
abbrev pub includes : List ℕ → ℕ → Bool
includes ids id = any (λ (i : ℕ). i == id) ids

abbrev pub includes_tier : List Tier → Option Tier → Bool
includes_tier ts tier = any (same_tier tier) ts

abbrev pub is_empty : {A : Type 0} → List A → Bool
is_empty [] = true
is_empty (x ∷ xs) = false

-- `checkEligibility`
unfoldable pub check_eligibility : Option EligibilityRules → Service → EligibilityCheck
check_eligibility none v = permitted
check_eligibility (some e) v =
    if includes e.service_deny v.id
    then blocked "this service is on your blocked list"
    else if not (is_empty e.service_allow) && not (includes e.service_allow v.id)
    then blocked "this service is not on your allowed list"
    else if not (is_empty e.allowed_tiers) && not (includes_tier e.allowed_tiers v.tier)
    then blocked
        (("this service's verification tier (" +++ tier_text v.tier) +++ ") is not allowed")
    else permitted
