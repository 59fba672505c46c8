-- ===== src/Api.antt =====
-- services/api/src: what the REST service's operations on tasks and disputes share. The rows that
-- only the service reads stand beside the workers' tables; errors are Nest's exceptions.
pub mod Summary
pub mod Tasks
pub mod Disputes
pub mod Lines
pub mod Payments
pub mod Eligibility
pub mod Hires
use clevercon.Prelude.{
  ℕ, ◌≡◌, refl, Bool, true, false, ◌&&◌, Option, none, some, List, [], ◌∷◌, ◌++◌, String, ◌==◌,
  find, if◌then◌else◌, ◌⊎◌, inl, inr, first_eq,
}
use clevercon.Prelude.Int.{ℤ}
use clevercon.Store.Rows.{Service, Tier}
use clevercon.Store.Tables.{World, Job}
use clevercon.Service.Js.{Js}

-- `PolicyRules`: amounts in ten-millionths of a USDC; an absent list and an empty one are read
-- alike.
pub record PolicyRules : Type 0 where
  pub per_payment_ceiling : Option ℤ
  pub rolling_cap : Option ℤ
  pub rolling_window : Option ℤ
  pub allowlist : List String
  pub denylist : List String
  pub denylist_threshold : Option ℤ

pub record EligibilityRules : Type 0 where
  pub allowed_tiers : List Tier
  pub service_allow : List ℕ
  pub service_deny : List ℕ

-- `Policy`, with the columns that the service reads; a private rule has no summary.
pub record PolicyRow : Type 0 where
  pub id : ℕ
  pub user_id : ℕ
  pub commitment : String
  pub is_private : Bool
  pub rule_summary : Option PolicyRules
  pub eligibility : Option EligibilityRules

pub record Wallet : Type 0 where
  pub user_id : ℕ
  pub address : ℕ
  pub is_primary : Bool

pub record Api (V : Type 0) : Type 0 where
  pub world : World V
  pub policies : List PolicyRow
  pub services : List Service
  pub wallets : List Wallet

pub data ApiError : Type 0 where
  bad_request not_found forbidden thrown : (message : String) → ApiError

pub data Result (A : Type 0) : Type 0 where
  ok : A → Result A
  err : ApiError → Result A

-- `if (!row) throw e`
abbrev pub found : {A : Type 0} → Option A → ApiError → Result A
found none e = err e
found (some a) e = ok a

-- `if (!b) throw e`
abbrev pub guard : Bool → ApiError → Result (Unit {0})
guard b e = if b then ok tt else err e

-- An exception ends the method; what follows a check runs where it passes.
infixl 5 ◌>>=◌
abbrev pub ◌>>=◌ : {A B : Type 0} (r : Result A) (next : A → Result B) → Result B
r >>= next = elim r [ err e ↦ err e | ok a ↦ next a ]

infixl 5 ◌>>◌
abbrev pub ◌>>◌ : {B : Type 0} (check : Result (Unit {0})) (rest : Result B) → Result B
check >> rest = elim check [ err e ↦ err e | ok _ ↦ rest ]

-- A handler: what it answers, and the tables it leaves, after an exception too.
abbrev pub Handler : Type 0 → Type 0 → Type 0
Handler V A = Api V → Result A × Api V

-- The reads of a handler and, where they succeed, its writes.
abbrev pub reads_then : {V A B : Type 0} → (Api V → Result A) → (A → Handler V B) → Handler V B
reads_then reads writes s = elim (reads s) [ ok a ↦ writes a s | err e ↦ (err e, s) ]

-- What the service is given: JavaScript, the account that an address names, whether the vault's
-- contract is configured and the delegates' keys are available, the queues.
pub record ApiHost : Type 0 where
  pub js : Js
  pub account : String → ℕ
  pub vault_active : Bool
  pub queue_down : Job → (time : ℕ) → Bool

module _ (host : ApiHost) {V : Type 0} where
  -- a job is added to its queue; a queue that is missing or refuses it is logged only
  unfoldable pub enqueue : Job → World V → World V
  enqueue job w = if host.queue_down job w.now then w else record w { jobs = w.jobs ++ job ∷ [] }

abbrev pub on_world : {V : Type 0} → (World V → World V) → Api V → Api V
on_world f s = record s { world = f s.world }

-- Inversions of a check that succeeds.
pub bind_ok :
    {A B : Type 0} (r : Result A) (next : A → Result B) {answer : B}
    → r >>= next ≡ ok answer
    → (x : A) × (r ≡ ok x) × (next x ≡ ok answer)
bind_ok (err e) next h = cc
bind_ok (ok a) next h = (a, refl, h)

pub found_ok : {A : Type 0} (o : Option A) (e : ApiError) {a : A} → found o e ≡ ok a → o ≡ some a
found_ok none e h = cc
found_ok (some x) e h = cc

pub guard_ok : (b : Bool) (e : ApiError) {u : Unit {0}} → guard b e ≡ ok u → b ≡ true
guard_ok true e h = refl
guard_ok false e h = cc

pub Result-cases :
    {A : Type 0} (r : Result A) → ((e : ApiError) × (r ≡ err e)) ⊎ ((a : A) × (r ≡ ok a))
Result-cases (err e) = inl (e, refl)
Result-cases (ok a) = inr (a, refl)

pub reads_then_ok :
    {V A B : Type 0} (reads : Api V → Result A) (writes : A → Handler V B) (s s' : Api V) {b : B}
    → reads_then reads writes s ≡ (ok b, s')
    → (a : A) × (reads s ≡ ok a) × (writes a s ≡ (ok b, s'))
reads_then_ok reads writes s s' h = elim (Result-cases (reads s)) [
  | inl (e, r) ↦ cc (first_eq (rw (r, reads_then) at h))
  | inr (a, r) ↦ (a, r, rw (r, reads_then) at h)
]

pub reads_then_err :
    {V A B : Type 0} (reads : Api V → Result A) (writes : A → Handler V B) (s : Api V)
    {e : ApiError}
    → reads s ≡ err e
    → reads_then reads writes s ≡ (err e, s)
reads_then_err reads writes s h = rw (h, reads_then) refl

pub reads_then_go :
    {V A B : Type 0} (reads : Api V → Result A) (writes : A → Handler V B) (s : Api V) {a : A}
    → reads s ≡ ok a
    → reads_then reads writes s ≡ writes a s
reads_then_go reads writes s h = rw (h, reads_then) refl
