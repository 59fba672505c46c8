-- ===== src/Api/Lines.antt =====
-- services/api/src/tasks/tasks.service.ts, `createPayment`: the lines of a payment, and the rules
-- that they are held to. Amounts are in ten-millionths of a USDC.
use clevercon.Prelude.{
  ℕ, zero, suc, ◌+◌, Bool, true, false, not, ◌&&◌, ◌||◌, Option, none, some, List, [], ◌∷◌, String,
  ◌==◌, leb, ltb, if◌then◌else◌, find, any, length, map,
}
use clevercon.Prelude.Int.{ℤ, pos, ltb_ℤ}
use Prim.Native.Char.{code}
use Prim.Native.String.{◌++◌ as ◌+++◌}
use text.Mathlib.Text.{◌==◌ as str_eq}
use clevercon.Store.Rows.{Task, TaskMode, TaskKey}
use clevercon.Api.{PolicyRules, bad_request, Result, ok, ◌>>◌, guard, ApiHost}

pub data PaymentKind : Type 0 where
  pay disburse : PaymentKind

-- `PaymentLine`; the amount is `Number(amount)`, none if it is not finite
pub record PaymentLine : Type 0 where
  pub payee : String
  pub amount : Option ℤ
  pub reason : Option String

pub record CreatePaymentParams : Type 0 where
  pub kind : PaymentKind
  pub lines : List PaymentLine
  pub policy_id : Option ℕ
  pub idempotency_key : Option String

-- A line that is left after the filter.
pub record Line : Type 0 where
  pub payee : String
  pub amount : ℕ
  pub reason : Option String

-- The ids that the database gives to new rows: the policy's, the task's, and those of its steps.
pub record FreshIds : Type 0 where
  pub policy : ℕ
  pub task : ℕ
  pub step : ℕ → ℕ

-- `task.findUnique({ where: { buyerId_idempotencyKey } })`
abbrev pub is_client_key : String → Option TaskKey → Bool
is_client_key k (some (TaskKey.client j)) = str_eq j k
is_client_key k _ = false

unfoldable pub keyed_task : ℕ → String → List Task → Option Task
keyed_task user key = find (λ (t : Task). t.buyer_id == user && is_client_key key t.idempotency_key)

-- the task of an earlier request with this request's key; the empty key counts as none
unfoldable pub prior_task : ℕ → Option String → List Task → Option Task
prior_task user none ts = none
prior_task user (some key) ts = if str_eq key "" then none else keyed_task user key ts

-- `/^G[A-Z2-7]{55}$/`
abbrev pub is_base32 : ℕ → Bool
is_base32 c = leb b'A' c && leb c b'Z' || leb b'2' c && leb c b'7'

abbrev pub base32_run : ℕ → String → Bool
base32_run zero String.[] = true
base32_run zero (String.◌∷◌ c s) = false
base32_run (suc n) String.[] = false
base32_run (suc n) (String.◌∷◌ c s) = is_base32 (code c) && base32_run n s

unfoldable pub is_stellar_address : String → Bool
is_stellar_address String.[] = false
is_stellar_address (String.◌∷◌ c s) = code c == b'G' && base32_run 55 s

abbrev pub nonempty_text : String → Option String
nonempty_text s = if str_eq s "" then none else some s

abbrev pub is_pay : PaymentKind → Bool
is_pay pay = true
is_pay disburse = false

abbrev pub total : List Line → ℕ
total [] = 0
total (l ∷ ls) = l.amount + total ls

abbrev pub largest : List Line → ℕ
largest [] = 0
largest (l ∷ ls) = let m = largest ls in if ltb l.amount m then m else l.amount

abbrev pub payees : List Line → List String
payees = map (λ (l : Line). l.payee)

-- `[...new Set(payees)]`, in the order of the first occurrences
abbrev pub without : String → List String → List String
without p [] = []
without p (q ∷ qs) = if str_eq q p then without p qs else q ∷ without p qs

unfoldable pub distinct : List String → List String
distinct [] = []
distinct (p ∷ ps) = p ∷ without p (distinct ps)

-- the rules of the limit that the lines themselves give
unfoldable pub derived_rules : List Line → PolicyRules
derived_rules ls = record {
  per_payment_ceiling = some (pos (largest ls));
  rolling_cap = none;
  rolling_window = none;
  allowlist = distinct (payees ls);
  denylist = [];
  denylist_threshold = none;
}

abbrev pub within_ceiling : Option ℤ → ℕ → Bool
within_ceiling none amount = true
within_ceiling (some c) amount = not (ltb_ℤ c (pos amount))

abbrev pub is_listed : List String → String → Bool
is_listed ps p = any (λ (q : String). str_eq q p) ps

abbrev pub allows : List String → String → Bool
allows [] p = true
allows ps p = is_listed ps p

-- the loop over the lines
unfoldable pub check_rules : PolicyRules → List Line → Result (Unit {0})
check_rules rules [] = ok tt
check_rules rules (l ∷ ls) = do
  guard (within_ceiling rules.per_payment_ceiling l.amount)
      (bad_request (("Line to " +++ l.payee) +++ " exceeds the per-payment cap"))
  guard (allows rules.allowlist l.payee)
      (bad_request (("Payee " +++ l.payee) +++ " is not on the policy allowlist"))
  check_rules rules ls

abbrev pub check_known_rules : Option PolicyRules → List Line → Result (Unit {0})
check_known_rules none ls = ok tt
check_known_rules (some rules) ls = check_rules rules ls

unfoldable pub check_addresses : List Line → Result (Unit {0})
check_addresses [] = ok tt
check_addresses (l ∷ ls) = do
  guard (is_stellar_address l.payee) (bad_request ("Invalid payee address: " +++ l.payee))
  check_addresses ls

abbrev pub mode_of : PaymentKind → TaskMode
mode_of pay = TaskMode.pay
mode_of disburse = TaskMode.disburse

abbrev pub client_key : Option String → Option TaskKey
client_key none = none
client_key (some k) = some (TaskKey.client k)

module _ (host : ApiHost) where
  -- the `map` and the `filter` of the lines
  unfoldable pub clean_line : PaymentLine → Option Line
  clean_line l =
      let payee = host.js.trim l.payee in
      let reason : Option String = elim l.reason [
        | none ↦ none
        | some r ↦ nonempty_text (host.js.trim r)
      ] in
      elim l.amount [
        | some (pos (suc n)) ↦
            if str_eq payee ""
            then none
            else some (record { payee = payee; amount = suc n; reason = reason })
        | _ ↦ none
      ]

  unfoldable pub clean_lines : List PaymentLine → List Line
  clean_lines [] = []
  clean_lines (l ∷ ls) = elim (clean_line l) [ none ↦ clean_lines ls | some c ↦ c ∷ clean_lines ls ]

  unfoldable pub check_lines : CreatePaymentParams → Result (List Line)
  check_lines params = do
    let ls = clean_lines params.lines
    guard (not (length ls == 0)) (bad_request "At least one valid payment line is required")
    guard (not (is_pay params.kind) || length ls == 1)
        (bad_request "A single payment has exactly one line")
    check_addresses ls
    ok ls
