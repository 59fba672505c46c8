-- ===== src/Api/Payments.antt =====
-- services/api/src/tasks/tasks.service.ts, `createPayment`: one payment or a disbursement, bounded
-- by a policy, whose steps are released to the settlement at once.
-- The budget is the exact sum of the lines, without the rounding of floating-point sums. A race of
-- two requests is the `admit` of both before the `insert_task` of either.
pub mod Fitting
pub mod Bounded
pub mod Again
use clevercon.Prelude.{
  ℕ, zero, suc, ◌+◌, Bool, true, false, not, ◌&&◌, ◌||◌, Option, none, some, List, [], ◌∷◌, ◌++◌,
  String, ◌==◌, leb, ltb, if◌then◌else◌, find, any, all, length, is_some, map,
}
use clevercon.Prelude.Int.{ℤ, pos, negsuc, ltb_ℤ, pos_part}
use Prim.Native.Char.{code}
use Prim.Native.String
use Prim.Native.String.{◌++◌ as ◌+++◌}
use text.Mathlib.Text.{◌==◌ as str_eq}
use clevercon.Json.{Json, null, num, str, arr, obj, prop, end, Elems, cons, nil}
use clevercon.Service.Js.{Js}
use clevercon.Store.Rows.{Task, TaskMode, TaskStatus, TaskKey, Policy, Step, StepStatus, Delegate}
use clevercon.Store.Tables.{World, Job, find_delegate}
use clevercon.Api.{
  Api, PolicyRules, PolicyRow, ApiError, bad_request, Result, ok, err, ◌>>=◌, ◌>>◌, guard, found,
  Handler, ApiHost, enqueue, on_world,
}
use clevercon.Api.Summary.{TaskSummary, serialize}
use clevercon.Api.Lines.{
  PaymentKind, PaymentLine, CreatePaymentParams, Line, FreshIds, keyed_task, prior_task, total,
  derived_rules, check_known_rules, mode_of, client_key, check_lines,
}

-- What a request is bound by: the lines, and the policy's row with its rules where it shows them.
pub record Bound : Type 0 where
  pub lines : List Line
  pub policy : PolicyRow
  pub rules : Option PolicyRules

-- `usdc(n) ?? null`, and `n ?? null`
abbrev stroops_text : Js → Option ℤ → Json
stroops_text js none = null
stroops_text js (some a) = str (js.show (num a))

abbrev number_or_null : Option ℤ → Json
number_or_null none = null
number_or_null (some n) = num n

abbrev elems_of : List String → Elems
elems_of [] = nil
elems_of (s ∷ ss) = cons (str s) (elems_of ss)

abbrev pub step_row : FreshIds → (i time : ℕ) → ApiHost → Line → Step
step_row ids i time host l = record {
  id = ids.step i;
  task_id = ids.task;
  index = i;
  service = none;
  payee = some (host.account l.payee);
  action = elim l.reason [ none ↦ "Payment" | some r ↦ r ];
  input = null;
  depends_on = [];
  estimated_cost = l.amount;
  status = StepStatus.released;
  output = none;
  error = none;
  quality_rating = none;
  quality_note = none;
  artifact = null;
  latency_ms = none;
  provider_job_handle = none;
  progress = null;
  input_request = null;
  input_response = null;
  release_at = none;
  created_at = time;
}

abbrev pub payment_task : ℕ → CreatePaymentParams → FreshIds → Bound → Task
payment_task user params ids b = record {
  id = ids.task;
  buyer_id = user;
  mode = mode_of params.kind;
  budget = total b.lines;
  status = TaskStatus.running;
  vault_task_id = none;
  vault_finalized_at = none;
  policy = some (record { id = b.policy.id; commitment = b.policy.commitment });
  idempotency_key = client_key params.idempotency_key;
}

-- a duplicate of the unique (buyerId, idempotencyKey): the error P2002
abbrev pub taken : ℕ → Option String → List Task → Option Task
taken user none ts = none
taken user (some key) ts = keyed_task user key ts

-- the handler of the error P2002
abbrev pub lost_race : {V : Type 0} → Option String → Task → Api V → Result TaskSummary
lost_race (some key) winner s =
    if str_eq key "" then err (ApiError.thrown "P2002") else ok (serialize winner s.world)
lost_race none winner s = err (ApiError.thrown "P2002")

module _ (host : ApiHost) where
  -- `JSON.stringify(norm)` of `canonicalEncoding`
  unfoldable pub canonical_encoding : PolicyRules → String
  canonical_encoding rules =
      let usdc = stroops_text host.js in
      let sorted = λ (ps : List String). arr (elems_of (host.js.sort ps)) in
      host.js.stringify (
        obj (
          prop "v" (num (pos 1)) (
            prop "r1_ceiling" (usdc rules.per_payment_ceiling) (
              prop "r2_cap" (usdc rules.rolling_cap) (
                prop "r2_window" (number_or_null rules.rolling_window) (
                  prop "r3_allowlist" (sorted rules.allowlist) (
                    prop "r4_denylist" (sorted rules.denylist)
                      (prop "r4_threshold" (usdc rules.denylist_threshold) end))))))))

  -- `policies.create(userId, { rules, isPrivate: false })`
  unfoldable pub derived_policy : (user fresh : ℕ) → PolicyRules → PolicyRow
  derived_policy user fresh rules = record {
    id = fresh;
    user_id = user;
    commitment = host.js.sha256_hex (canonical_encoding rules);
    is_private = false;
    rule_summary = some rules;
    eligibility = none;
  }

  abbrev pub step_rows : FreshIds → (i time : ℕ) → List Line → List Step
  step_rows ids i time [] = []
  step_rows ids i time (l ∷ ls) = step_row ids i time host l ∷ step_rows ids (i + 1) time ls

  module _ {V : Type 0} where
    -- the policy that bounds the lines: the chosen one, or a new one that they give
    unfoldable pub resolve_policy : ℕ → CreatePaymentParams → FreshIds → List Line → Handler V Bound
    resolve_policy user params ids ls s = elim params.policy_id [
      | some id ↦ elim (find (λ (p : PolicyRow). p.id == id && p.user_id == user) s.policies) [
        | none ↦ (err (bad_request "Unknown policy"), s)
        | some p ↦ (ok (record { lines = ls; policy = p; rules = p.rule_summary }), s)
      ]
      | none ↦
          let rules = derived_rules ls in
          let p = derived_policy user ids.policy rules in
          (
            ok (record { lines = ls; policy = p; rules = some rules }),
            record s { policies = s.policies ++ p ∷ [] },
          )
    ]

    -- `assertCanSettle`
    unfoldable pub assert_can_settle : ℕ → World V → Result (Unit {0})
    assert_can_settle user w = do
      guard host.vault_active (bad_request "On-chain settlement is not available right now.")
      guard (elim (find_delegate user w.delegates) [ none ↦ false | some d ↦ d.registered ])
          (bad_request "Enable Autopay (authorize the delegate) before paying")

    -- the rules, where they are known, and the configuration
    unfoldable pub check_bound : ℕ → Bound → World V → Result (Unit {0})
    check_bound user b w = do check_known_rules b.rules b.lines; assert_can_settle user w

    abbrev pub checked : ℕ → Result Bound × Api V → Result Bound × Api V
    checked user (err e, s) = (err e, s)
    checked user (ok b, s) = (check_bound user b s.world >>= λ _. ok b, s)

    -- the reads and the checks before the insertion; a derived policy stays when a check fails
    unfoldable pub admit : ℕ → CreatePaymentParams → FreshIds → Handler V Bound
    admit user params ids s = elim (check_lines host params) [
      | err e ↦ (err e, s)
      | ok ls ↦ checked user (resolve_policy user params ids ls s)
    ]

    -- the loop over the created steps
    unfoldable pub enqueue_all : FreshIds → (i : ℕ) → List Line → World V → World V
    enqueue_all ids i [] w = w
    enqueue_all ids i (l ∷ ls) w =
        enqueue_all ids (i + 1) ls (enqueue host (Job.settle_step (ids.step i)) w)

    -- the insertion of the task with its steps, and the queueing of their settlements
    unfoldable pub insert_task : ℕ → CreatePaymentParams → FreshIds → Bound → Handler V TaskSummary
    insert_task user params ids b s = elim (taken user params.idempotency_key s.world.tasks) [
      | some winner ↦ (lost_race params.idempotency_key winner s, s)
      | none ↦
          let t = payment_task user params ids b in
          let w : World V = record (s.world) {
            tasks = s.world.tasks ++ t ∷ [];
            steps = s.world.steps ++ step_rows ids 0 s.world.now b.lines;
          } in
          let s' = record s { world = enqueue_all ids 0 b.lines w } in (ok (serialize t w), s')
    ]

    abbrev pub go_on :
        ℕ → CreatePaymentParams → FreshIds → Result Bound × Api V → Result TaskSummary × Api V
    go_on user params ids (err e, s) = (err e, s)
    go_on user params ids (ok b, s) = insert_task user params ids b s

    -- `createPayment`
    unfoldable pub create_payment : ℕ → CreatePaymentParams → FreshIds → Handler V TaskSummary
    create_payment user params ids s = elim (prior_task user params.idempotency_key s.world.tasks) [
      | some t ↦ (ok (serialize t s.world), s)
      | none ↦ go_on user params ids (admit user params ids s)
    ]
