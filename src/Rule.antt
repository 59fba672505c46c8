-- ===== src/Rule.antt =====
-- packages/common/src/rule-model.ts: spending rules, their validation, the map of what enforces
-- them, and their projection to the prover. Amounts and rates are integers in ten-millionths, as
-- the chain holds USDC; counts, seconds and categories are integers. A value that is not a number
-- is not modelled, nor is the text of `describeRule`.
pub mod Valid
pub mod Laws
use clevercon.Prelude.{
  ℕ, zero, suc, Bool, true, false, not, ◌&&◌, ◌||◌, Option, none, some, List, [], ◌∷◌, ◌++◌, String,
  length, ltb, ◌==◌, if◌then◌else◌, any, map, find,
}
use clevercon.Prelude.Int.{ℤ, pos, negsuc, ltb_ℤ}
use text.Mathlib.Text.{◌==◌ as str_eq}
use Prim.Native.String.{◌++◌ as ◌+++◌}
use clevercon.Store.Rows.{Tier}

pub data RuleForm : Type 0 where
  private public : RuleForm

abbrev pub max_denylist : ℕ
max_denylist = 4

abbrev pub max_calendar_windows : ℕ
max_calendar_windows = 2

abbrev pub max_categories : ℕ
max_categories = 4

abbrev pub max_allowlist : ℕ
max_allowlist = 65536

pub record AllowlistEntry : Type 0 where
  pub address : String
  pub per_payee_cap : Option ℤ
  pub category : Option ℤ

pub record CalendarWindow : Type 0 where
  pub start_unix : ℤ
  pub end_unix : ℤ

pub data RuleClause : Type 0 where
  per_payment_max : (usdc : ℤ) → RuleClause
  per_payment_min : (usdc : ℤ) → RuleClause
  rolling_cap : (usdc window_secs : ℤ) → RuleClause
  allowlist : List AllowlistEntry → RuleClause
  denylist : List String → (threshold : Option ℤ) → RuleClause
  calendar : List CalendarWindow → RuleClause
  velocity : (max_count window_secs : ℤ) → RuleClause
  category_ceilings : List ℤ → RuleClause
  tier : List Tier → RuleClause
  bond_status : (min_bond : ℤ) → RuleClause
  service_allow : List String → RuleClause
  service_deny : List String → RuleClause
  provider_criteria : (min_reputation max_dispute_rate max_price : Option ℤ) → RuleClause

pub data ClauseType : Type 0 where
  per_payment_max per_payment_min rolling_cap allowlist denylist calendar velocity category_ceilings
        tier bond_status service_allow service_deny provider_criteria :
      ClauseType

unfoldable pub type_of : RuleClause → ClauseType
type_of (RuleClause.per_payment_max a) = ClauseType.per_payment_max
type_of (RuleClause.per_payment_min a) = ClauseType.per_payment_min
type_of (RuleClause.rolling_cap a s) = ClauseType.rolling_cap
type_of (RuleClause.allowlist ps) = ClauseType.allowlist
type_of (RuleClause.denylist as' t) = ClauseType.denylist
type_of (RuleClause.calendar ws) = ClauseType.calendar
type_of (RuleClause.velocity n s) = ClauseType.velocity
type_of (RuleClause.category_ceilings cs) = ClauseType.category_ceilings
type_of (RuleClause.tier ts) = ClauseType.tier
type_of (RuleClause.bond_status b) = ClauseType.bond_status
type_of (RuleClause.service_allow ids) = ClauseType.service_allow
type_of (RuleClause.service_deny ids) = ClauseType.service_deny
type_of (RuleClause.provider_criteria a b c) = ClauseType.provider_criteria

unfoldable pub type_rank : ClauseType → ℕ
type_rank ClauseType.per_payment_max = 0
type_rank ClauseType.per_payment_min = 1
type_rank ClauseType.rolling_cap = 2
type_rank ClauseType.allowlist = 3
type_rank ClauseType.denylist = 4
type_rank ClauseType.calendar = 5
type_rank ClauseType.velocity = 6
type_rank ClauseType.category_ceilings = 7
type_rank ClauseType.tier = 8
type_rank ClauseType.bond_status = 9
type_rank ClauseType.service_allow = 10
type_rank ClauseType.service_deny = 11
type_rank ClauseType.provider_criteria = 12

-- `c.type === type`
abbrev pub is_type : ClauseType → RuleClause → Bool
is_type type c = type_rank (type_of c) == type_rank type

pub record Rule : Type 0 where
  pub name : String
  pub form : RuleForm
  pub version : ℕ
  pub clauses : List RuleClause

pub data EnforcementStatus : Type 0 where
  enforced_now committed_pending app_enforced : EnforcementStatus

-- `CLAUSE_ENFORCEMENT`, its status and its modes
unfoldable pub enforcement : ClauseType → EnforcementStatus
enforcement ClauseType.per_payment_min = committed_pending
enforcement ClauseType.bond_status = committed_pending
enforcement ClauseType.tier = app_enforced
enforcement ClauseType.service_allow = app_enforced
enforcement ClauseType.service_deny = app_enforced
enforcement ClauseType.provider_criteria = app_enforced
enforcement _ = enforced_now

-- `clauseSupportsForm`
unfoldable pub clause_supports_form : ClauseType → RuleForm → Bool
clause_supports_form ClauseType.category_ceilings public = false
clause_supports_form _ _ = true

-- `order.indexOf(status)` and `order[n] ?? 'enforced-now'`
unfoldable pub order_of : EnforcementStatus → ℕ
order_of enforced_now = 0
order_of committed_pending = 1
order_of app_enforced = 2

unfoldable pub in_order : ℕ → EnforcementStatus
in_order zero = enforced_now
in_order (suc zero) = committed_pending
in_order (suc (suc zero)) = app_enforced
in_order _ = enforced_now

abbrev pub max : ℕ → ℕ → ℕ
max a b = if ltb a b then b else a

unfoldable pub worst_of : ℕ → List RuleClause → ℕ
worst_of worst [] = worst
worst_of worst (c ∷ cs) = worst_of (max worst (order_of (enforcement (type_of c)))) cs

-- `weakestEnforcement`
abbrev pub weakest_enforcement : Rule → EnforcementStatus
weakest_enforcement rule = in_order (worst_of 0 rule.clauses)

-- `getClause`
unfoldable pub get_clause : ClauseType → List RuleClause → Option RuleClause
get_clause type = find (is_type type)

abbrev pub positive : ℤ → Bool
positive n = ltb_ℤ (pos 0) n

abbrev pub when : Bool → String → List String
when true s = s ∷ []
when false s = []

abbrev pub is_empty {ℓ} : {A : Type ℓ} → List A → Bool
is_empty [] = true
is_empty (x ∷ xs) = false

-- `v != null && p(v)`
abbrev pub given_and : (ℤ → Bool) → Option ℤ → Bool
given_and p none = false
given_and p (some v) = p v

-- `isStellarAddr`, a regular expression, and `s.trim()` are parameters.
module _ (is_stellar_addr : String → Bool) (trim : String → String) where
  abbrev pub payee_errors : AllowlistEntry → List String
  payee_errors p =
      when (not (is_stellar_addr p.address)) (("Invalid payee address: " +++ p.address) +++ ".")
      ++ (when (given_and (λ v. not (positive v)) p.per_payee_cap)
            "A per-payee cap must be greater than 0."
          ++ when
              (given_and (λ v. ltb_ℤ v (pos 0) || not (ltb_ℤ v (pos max_categories))) p.category)
              "Payee category must be 0..3.")

  abbrev pub each {ℓ} : {A : Type ℓ} → (A → List String) → List A → List String
  each f [] = []
  each f (x ∷ xs) = f x ++ each f xs

  -- the `switch` on the clause
  unfoldable pub clause_errors : RuleClause → List String
  clause_errors (RuleClause.per_payment_max a) =
      when (not (positive a)) "Max per payment must be greater than 0."
  clause_errors (RuleClause.per_payment_min a) =
      when (not (positive a)) "Min per payment must be greater than 0."
  clause_errors (RuleClause.rolling_cap a s) =
      when (not (positive a)) "Rolling cap must be greater than 0."
      ++ when (not (positive s)) "Rolling cap needs a window greater than 0."
  clause_errors (RuleClause.velocity n s) =
      when (not (positive n)) "Velocity count must be greater than 0."
      ++ when (not (positive s)) "Velocity needs a window greater than 0."
  clause_errors (RuleClause.allowlist ps) =
      when (is_empty ps) "Allowlist is empty: add a payee or drop the clause."
      ++ (when (ltb max_allowlist (length ps)) "Allowlist exceeds 65536 payees."
          ++ each payee_errors ps)
  clause_errors (RuleClause.denylist as' t) =
      when (is_empty as') "Denylist is empty: add an address or drop the clause."
      ++ (when (ltb max_denylist (length as')) "Denylist exceeds 4 addresses."
          ++ (each
                (λ a. when (not (is_stellar_addr a)) (("Invalid denylist address: " +++ a) +++ "."))
                as'
              ++ when (given_and (λ v. ltb_ℤ v (pos 0)) t) "Denylist threshold must be 0 or more."))
  clause_errors (RuleClause.calendar ws) =
      when (is_empty ws) "Calendar has no windows."
      ++ (when (ltb max_calendar_windows (length ws)) "Calendar exceeds 2 windows."
          ++ each
              (λ (w : CalendarWindow).
                when (not (ltb_ℤ w.start_unix w.end_unix))
                  "A calendar window must end after it starts.")
              ws)
  clause_errors (RuleClause.category_ceilings cs) =
      when (is_empty cs) "Category ceilings are empty."
      ++ (when (ltb max_categories (length cs)) "Category ceilings exceed 4."
          ++ each (λ v. when (not (positive v)) "Each category ceiling must be greater than 0.") cs)
  clause_errors (RuleClause.bond_status b) =
      when (not (positive b)) "Minimum bond must be greater than 0."
  clause_errors (RuleClause.tier ts) = when (is_empty ts) "Tier clause lists no tiers."
  clause_errors (RuleClause.service_allow ids) =
      when (is_empty ids) "Allowed-services clause lists no services."
  clause_errors (RuleClause.service_deny ids) =
      when (is_empty ids) "Blocked-services clause lists no services."
  clause_errors (RuleClause.provider_criteria a rate c) =
      when (given_and (λ v. ltb_ℤ v (pos 0) || ltb_ℤ (pos 10000000) v) rate)
        "Max dispute rate must be between 0 and 1."

  -- the variables of the loop
  pub record Seen : Type 0 where
    pub types : List ClauseType
    pub min : Option ℤ
    pub max : Option ℤ
    pub errors : List String

  abbrev pub has_type : ClauseType → List ClauseType → Bool
  has_type type = any (λ t. type_rank t == type_rank type)

  abbrev pub set_min : RuleClause → Option ℤ → Option ℤ
  set_min (RuleClause.per_payment_min a) old = if positive a then some a else old
  set_min _ old = old

  abbrev pub set_max : RuleClause → Option ℤ → Option ℤ
  set_max (RuleClause.per_payment_max a) old = if positive a then some a else old
  set_max _ old = old

  abbrev pub see : RuleClause → Seen → Seen
  see c s = record {
    types = type_of c ∷ s.types;
    min = set_min c s.min;
    max = set_max c s.max;
    errors =
        s.errors
        ++ (when (has_type (type_of c) s.types) "Only one clause of a type is allowed."
            ++ clause_errors c);
  }

  unfoldable pub see_all : List RuleClause → Seen → Seen
  see_all [] s = s
  see_all (c ∷ cs) s = see_all cs (see c s)

  abbrev pub crossed : Option ℤ → Option ℤ → Bool
  crossed (some low) (some high) = ltb_ℤ high low
  crossed _ _ = false

  abbrev pub header_errors : Rule → List String
  header_errors rule =
      when (str_eq rule.name "" || str_eq (trim rule.name) "") "A rule needs a name."
      ++ when (is_empty rule.clauses)
          "A rule must have at least one clause: there is no default-allow."

  -- the errors of `validateRule`; the message of a repeated clause is without its type
  unfoldable pub validate_rule : Rule → List String
  validate_rule rule =
      let s =
        see_all rule.clauses
          (record { types = []; min = none; max = none; errors = header_errors rule }) in
      s.errors ++ when (crossed s.min s.max) "Min per payment cannot exceed max per payment."

pub record BundleRules : Type 0 where
  pub per_payment_ceiling : ℤ
  pub rolling : Option (ℤ × ℤ)
  pub allowlist : Option (List AllowlistEntry)
  pub denylist : Option (List String)
  pub denylist_threshold : Option ℤ
  pub calendar_windows : Option (List CalendarWindow)
  pub velocity : Option (ℤ × ℤ)
  pub category_ceilings : Option (List ℤ)

abbrev pair_of : Option RuleClause → Option (ℤ × ℤ)
pair_of (some (RuleClause.rolling_cap a s)) = some (a, s)
pair_of (some (RuleClause.velocity n s)) = some (n, s)
pair_of _ = none

abbrev payees_of : Option RuleClause → Option (List AllowlistEntry)
payees_of (some (RuleClause.allowlist ps)) = some ps
payees_of _ = none

abbrev addresses_of : Option RuleClause → Option (List String)
addresses_of (some (RuleClause.denylist as' t)) = some as'
addresses_of _ = none

abbrev threshold_of : Option RuleClause → Option ℤ
threshold_of (some (RuleClause.denylist as' t)) = t
threshold_of _ = none

abbrev windows_of : Option RuleClause → Option (List CalendarWindow)
windows_of (some (RuleClause.calendar ws)) = some ws
windows_of _ = none

abbrev ceilings_of : Option RuleClause → Option (List ℤ)
ceilings_of (some (RuleClause.category_ceilings cs)) = some cs
ceilings_of _ = none

-- `ruleToBundleRules`, none where it throws
unfoldable pub rule_to_bundle_rules : Rule → Option BundleRules
rule_to_bundle_rules rule = elim (get_clause ClauseType.per_payment_max rule.clauses) [
  | some (RuleClause.per_payment_max ceiling) ↦ some (record {
    per_payment_ceiling = ceiling;
    rolling = pair_of (get_clause ClauseType.rolling_cap rule.clauses);
    allowlist = payees_of (get_clause ClauseType.allowlist rule.clauses);
    denylist = addresses_of (get_clause ClauseType.denylist rule.clauses);
    denylist_threshold = threshold_of (get_clause ClauseType.denylist rule.clauses);
    calendar_windows = windows_of (get_clause ClauseType.calendar rule.clauses);
    velocity = pair_of (get_clause ClauseType.velocity rule.clauses);
    category_ceilings = ceilings_of (get_clause ClauseType.category_ceilings rule.clauses);
  })
  | _ ↦ none
]

-- `emptyRule`
abbrev pub empty_rule : RuleForm → String → Rule
empty_rule form name = record { name = name; form = form; version = 1; clauses = [] }
