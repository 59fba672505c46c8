-- ===== src/Tests/Hiring.antt =====
-- Hires and approvals.
use clevercon.Prelude.{◌≡◌, refl, Bool, true, false, none, some, [], ◌∷◌}
use clevercon.Store.Rows.{TaskMode, TaskStatus, StepStatus, Service, Tier}
use clevercon.Store.Tables.{find_task, steps_of}
use clevercon.Api.{Api, ApiHost, PolicyRow, bad_request, ok, err}
use clevercon.Api.Summary.{TaskSummary, serialize, spent_of}
use clevercon.Api.Lines.{prior_task, keyed_task}
use clevercon.Api.Tasks.{approve, own_task}
use clevercon.Api.Tasks.Laws.{approve-again}
use clevercon.Api.Eligibility.{check_eligibility}
use clevercon.Api.Hires.{
  CreateTaskParams, HireIds, LockHost, create, read_service, check_policy, own_policy, find_service,
  insert_hire,
}
use clevercon.Api.Hires.Created.{Hired, create-Hired, create_err-same}
use clevercon.Tests.Fixtures.{plain_js, world_of, step_row, reachable}

abbrev hire_host : ApiHost
hire_host = record {
  js = plain_js;
  account = λ s. 20;
  vault_active = true;
  queue_down = λ j t. false;
}

abbrev lock : LockHost Bool
lock = record {
  delegates_available = true;
  keypair_for = λ u. some 4;
  create_task_with_policy = λ key budget c v. (some 9, true);
  update_fails = false;
  address_text = λ a. "G";
  policy_fails = false;
}

-- a policy that allows one service, which is on the first tier, and only that tier
abbrev curated : PolicyRow
curated = record {
  id = 3;
  user_id = 10;
  commitment = "c";
  is_private = true;
  rule_summary = none;
  eligibility =
      some (record { allowed_tiers = Tier.t1 ∷ []; service_allow = 6 ∷ []; service_deny = 5 ∷ [] });
}

abbrev offered : Service
offered = record {
  id = 6;
  provider_id = none;
  name = "n";
  description = none;
  capabilities = [];
  price_per_call = 7;
  endpoint = none;
  stellar_address = some 20;
  tier = some Tier.t1;
  output_schema = none;
  verification = none;
}

abbrev denied : Service
denied = record offered { id = 5 }

abbrev shop : Api Bool
shop = record {
  world = world_of none [];
  policies = curated ∷ [];
  services = offered ∷ denied ∷ [];
  wallets = [];
}

abbrev hire : CreateTaskParams
hire = record {
  mode = TaskMode.direct;
  budget = 8;
  service_id = some 6;
  policy_id = some 3;
  input = none;
  idempotency_key = some "k";
}

abbrev new_ids : HireIds
new_ids = record { task = 2; step = 1; policy = 4 }

abbrev hired : Api Bool
hired = (create hire_host lock 10 hire new_ids shop).1

abbrev hired_summary : TaskSummary
hired_summary = record {
  id = 2;
  mode = TaskMode.direct;
  status = TaskStatus.draft;
  budget = 8;
  spent = 0;
  step_count = 1;
  completed_steps = 0;
}

hires : create hire_host lock 10 hire new_ids shop ≡ (ok hired_summary, hired)
unfolding create prior_task keyed_task read_service find_service check_policy check_eligibility
    own_policy insert_hire serialize spent_of steps_of
hires = refl

create-Hired_example : Hired hire_host lock 10 hire new_ids shop hired
unfolding find_task prior_task keyed_task
create-Hired_example =
    create-Hired hire_host lock 10 hire new_ids shop hired hired_summary refl refl refl hires

abbrev refused_hire : CreateTaskParams
refused_hire = record hire { service_id = some 5 }

abbrev after_refusal : Api Bool
after_refusal = (create hire_host lock 10 refused_hire new_ids shop).1

refuses : create hire_host lock 10 refused_hire new_ids shop ≡ (
  err (bad_request "Hire blocked by your rule: this service is on your blocked list"),
  after_refusal,
)
unfolding create prior_task keyed_task read_service find_service check_policy check_eligibility
    own_policy
refuses = refl

create_err-same_example : after_refusal ≡ shop
create_err-same_example =
    create_err-same hire_host lock 10 refused_hire new_ids shop after_refusal
      (bad_request "Hire blocked by your rule: this service is on your blocked list") refuses

abbrev held_api : Api Bool
held_api = record shop {
  world = world_of (some 5) (step_row 7 0 reachable [] StepStatus.awaiting_approval ∷ []);
}

abbrev approved : Api Bool
approved = (approve hire_host 10 1 held_api).1

approves : approve hire_host 10 1 held_api ≡ (ok 1, approved)
unfolding approve own_task steps_of
approves = refl

approve-again_example : approve hire_host 10 1 approved ≡ (ok 0, approved)
approve-again_example = approve-again hire_host 10 1 1 held_api approved approves
