-- ===== src/Api/Hires.antt =====
-- services/api/src/tasks/tasks.service.ts, `create` and `lockOnChain`: a task is hired, locked where
-- that is possible, and handed to the workers. Titles and descriptions are left out; the budget is
-- in ten-millionths of a USDC.
pub mod Laws
pub mod Locked
pub mod Sourced
pub mod Created
use clevercon.Prelude.{
  ℕ, Bool, true, false, not, ◌&&◌, ◌||◌, Option, none, some, List, [], ◌∷◌, ◌++◌, String, ◌==◌,
  if◌then◌else◌, find, any,
}
use Prim.Native.String.{◌++◌ as ◌+++◌}
use clevercon.Prelude.Int.{ℤ, pos}
use clevercon.Json.{Json, null}
use clevercon.Store.Rows.{Tier, Service, Task, TaskMode, TaskStatus, Step, StepStatus, Policy}
use clevercon.Store.Tables.{World, Job, update_task, find_delegate}
use clevercon.Api.{
  Api, PolicyRules, EligibilityRules, PolicyRow, ApiError, bad_request, Result, ok, err, ◌>>=◌,
  ◌>>◌, guard, found, Handler, ApiHost, enqueue, on_world,
}
use clevercon.Api.Eligibility.{EligibilityCheck, permitted, blocked, check_eligibility}
use clevercon.Api.Summary.{TaskSummary, serialize}
use clevercon.Api.Lines.{prior_task, client_key}
use clevercon.Api.Payments.{taken, lost_race, derived_policy}

-- `CreateTaskParams`
pub record CreateTaskParams : Type 0 where
  pub mode : TaskMode
  pub budget : ℕ
  pub service_id : Option ℕ
  pub policy_id : Option ℕ
  pub input : Option Json
  pub idempotency_key : Option String

-- The ids that the database gives to new rows.
pub record HireIds : Type 0 where
  pub task : ℕ
  pub step : ℕ
  pub policy : ℕ

-- `policy.findFirst({ where: { id, userId } })`
unfoldable pub own_policy : ℕ → ℕ → List PolicyRow → Option PolicyRow
own_policy user id = find (λ (p : PolicyRow). p.id == id && p.user_id == user)

unfoldable pub find_service : ℕ → List Service → Option Service
find_service id = find (λ (v : Service). v.id == id)

abbrev pub eligibility_of : Option PolicyRow → Option EligibilityRules
eligibility_of none = none
eligibility_of (some p) = p.eligibility

abbrev pub permit : EligibilityCheck → Result (Unit {0})
permit permitted = ok tt
permit (blocked reason) = err (bad_request ("Hire blocked by your rule: " +++ reason))

unfoldable pub check_policy : ℕ → Option ℕ → Service → List PolicyRow → Result (Unit {0})
check_policy user none v ps = ok tt
check_policy user (some id) v ps =
    permit (check_eligibility (eligibility_of (own_policy user id ps)) v)

abbrev pub is_direct : TaskMode → Bool
is_direct TaskMode.direct = true
is_direct _ = false

abbrev pub direct_service :
    {V : Type 0} → ℕ → CreateTaskParams → Option ℕ → Api V → Result (Option Service)
direct_service user params none s = err (bad_request "A direct hire needs a serviceId")
direct_service user params (some id) s = do
  v ← found (find_service id s.services) (bad_request "Unknown service")
  check_policy user params.policy_id v s.policies
  ok (some v)

-- a search or a composition may name a service to start from, which must exist
abbrev pub named_service : {V : Type 0} → Option ℕ → Api V → Result (Option Service)
named_service none s = ok none
named_service (some id) s = do
  v ← found (find_service id s.services) (bad_request "Unknown service")
  ok none

-- the checks before the insertion, with the service that a direct hire pays
unfoldable pub read_service : {V : Type 0} → ℕ → CreateTaskParams → Api V → Result (Option Service)
read_service user params s =
    if is_direct params.mode
    then direct_service user params params.service_id s
    else named_service params.service_id s

abbrev pub hire_step : HireIds → Option Json → (time : ℕ) → Service → Step
hire_step ids input time v = record {
  id = ids.step;
  task_id = ids.task;
  index = 0;
  service = some v;
  payee = none;
  action = "Pay " +++ v.name;
  input = elim input [ none ↦ null | some j ↦ j ];
  depends_on = [];
  estimated_cost = v.price_per_call;
  status = StepStatus.pending;
  output = none;
  error = none;
  quality_rating = none;
  quality_note = none;
  artifact = null;
  latency_ms = none;
  provider_job_handle = none;
  progress = null;
  input_request = null;
  input_response = null;
  release_at = none;
  created_at = time;
}

abbrev pub hire_steps : HireIds → Option Json → (time : ℕ) → Option Service → List Step
hire_steps ids input time none = []
hire_steps ids input time (some v) = hire_step ids input time v ∷ []

abbrev pub hire_task : ℕ → CreateTaskParams → HireIds → Task
hire_task user params ids = record {
  id = ids.task;
  buyer_id = user;
  mode = params.mode;
  budget = params.budget;
  status = TaskStatus.draft;
  vault_task_id = none;
  vault_finalized_at = none;
  policy = none;
  idempotency_key = client_key params.idempotency_key;
}

-- the limit of a direct hire that names no policy: this provider, up to the budget
abbrev pub hire_rules : String → ℕ → PolicyRules
hire_rules payee budget = record {
  per_payment_ceiling = some (pos budget);
  rolling_cap = none;
  rolling_window = none;
  allowlist = payee ∷ [];
  denylist = [];
  denylist_threshold = none;
}

-- What locking calls: the availability of the delegates' keys, the key of a user (none where there
-- is none or it cannot be decrypted), `createTaskWithPolicy` with the vault's next state (none where
-- it throws), whether the row's update afterwards fails, the text of an address, and whether the
-- creation of a policy fails.
pub record LockHost (V : Type 0) : Type 0 where
  pub delegates_available : Bool
  pub keypair_for : ℕ → Option ℕ
  pub create_task_with_policy : (key budget : ℕ) → (commitment : String) → V → Option ℕ × V
  pub update_fails : Bool
  pub address_text : ℕ → String
  pub policy_fails : Bool

abbrev pub locked_row : ℕ → PolicyRow → Task → Task
locked_row vault_task p t = record t {
  vault_task_id = some vault_task;
  policy = some (record { id = p.id; commitment = p.commitment });
}

abbrev pub delegate_registered : {V : Type 0} → ℕ → World V → Bool
delegate_registered user w = elim (find_delegate user w.delegates) [
  | none ↦ false
  | some d ↦ d.registered
]

abbrev pub direct_payee : Option Service → Option ℕ
direct_payee none = none
direct_payee (some v) = v.stellar_address

abbrev pub hired_world :
    {V : Type 0} → ℕ → CreateTaskParams → HireIds → Option Service → World V → World V
hired_world user params ids v w = record w {
  tasks = w.tasks ++ hire_task user params ids ∷ [];
  steps = w.steps ++ hire_steps ids params.input w.now v;
}

module _ {V : Type 0} (lock : LockHost V) where
  -- what follows the transaction that locks the budget
  abbrev pub after_lock : ℕ → PolicyRow → Option ℕ × V → World V → World V
  after_lock task p (none, v) w = record w { vault = v }
  after_lock task p (some vault_task, v) w =
      if lock.update_fails
      then record w { vault = v }
      else record w { vault = v; tasks = update_task task (locked_row vault_task p) w.tasks }

  abbrev pub lock_with_key : (task budget : ℕ) → PolicyRow → Option ℕ → World V → World V
  lock_with_key task budget p none w = w
  lock_with_key task budget p (some key) w =
      after_lock task p (lock.create_task_with_policy key budget p.commitment w.vault) w

  abbrev pub lock_under : (user task budget : ℕ) → Option PolicyRow → World V → World V
  lock_under user task budget none w = w
  lock_under user task budget (some p) w =
      if delegate_registered user w
      then lock_with_key task budget p (lock.keypair_for user) w
      else w

module _ (host : ApiHost) {V : Type 0} (lock : LockHost V) where
  -- `lockOnChain`
  unfoldable pub lock_on_chain : (user task policy budget : ℕ) → Api V → Api V
  lock_on_chain user task policy budget s =
      if host.vault_active && lock.delegates_available
      then on_world (lock_under lock user task budget (own_policy user policy s.policies)) s
      else s

  -- the policy of a direct hire that names none, with its new row
  abbrev pub derive_policy : ℕ → CreateTaskParams → HireIds → Option ℕ → Api V → Option ℕ × Api V
  derive_policy user params ids none s = (none, s)
  derive_policy user params ids (some payee) s =
      if lock.policy_fails
      then (none, s)
      else (let p =
            derived_policy host user ids.policy
              (hire_rules (lock.address_text payee) params.budget) in
          (some p.id, record s { policies = s.policies ++ p ∷ [] }))

  -- the policy that bounds the task
  abbrev pub bounding_policy :
      ℕ → CreateTaskParams → HireIds → Option Service → Api V → Option ℕ × Api V
  bounding_policy user params ids v s = elim params.policy_id [
    | some id ↦ (some id, s)
    | none ↦ derive_policy user params ids (direct_payee v) s
  ]

  abbrev pub lock_bounded : ℕ → CreateTaskParams → HireIds → Option ℕ × Api V → Api V
  lock_bounded user params ids (none, s) = s
  lock_bounded user params ids (some policy, s) = lock_on_chain user ids.task policy params.budget s

  -- a task with a step is handed to the workers
  abbrev pub hand_over : HireIds → Option Service → Api V → Api V
  hand_over ids none s = s
  hand_over ids (some v) s = on_world (enqueue host (Job.execute ids.task)) s

  -- the insertion of the task and what follows it
  unfoldable pub insert_hire :
      ℕ → CreateTaskParams → HireIds → Option Service → Handler V TaskSummary
  insert_hire user params ids v s = elim (taken user params.idempotency_key s.world.tasks) [
    | some winner ↦ (lost_race params.idempotency_key winner s, s)
    | none ↦
        let w = hired_world user params ids v s.world in
        (
          ok (serialize (hire_task user params ids) w),
          hand_over ids v (
              lock_bounded user params ids
                (bounding_policy user params ids v (record s { world = w }))),
        )
  ]

  -- `create`
  unfoldable pub create : ℕ → CreateTaskParams → HireIds → Handler V TaskSummary
  create user params ids s = elim (prior_task user params.idempotency_key s.world.tasks) [
    | some t ↦ (ok (serialize t s.world), s)
    | none ↦ elim (read_service user params s) [
      | err e ↦ (err e, s)
      | ok v ↦ insert_hire user params ids v s
    ]
  ]
