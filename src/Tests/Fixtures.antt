-- ===== src/Tests/Fixtures.antt =====
-- A vault, a host and rows for the concrete runs. The vault's state says whether it has released.
use clevercon.Prelude.{ℕ, Bool, true, false, Option, none, some, List, [], ◌∷◌, String}
use clevercon.Json.{Json, null, str, bool, obj, prop, end}
use clevercon.Store.Rows.{Task, TaskMode, TaskStatus, Step, StepStatus, Service, Tier, Delegate}
use clevercon.Store.Tables.{World}
use clevercon.Proof.Bytes.{zeros, length-zeros, zeros-IsByte}
use clevercon.Proof.Inputs.{Crypto}
use clevercon.Worker.Chain.{ok, err, Completion, failed_on_chain}
use clevercon.Worker.Env.{Env, VaultCalls}
use clevercon.Worker.Host.{Host, response}
use clevercon.Service.Js.{Js}
use clevercon.Worker.Settle.Batch.{BatchSettlePayload}

abbrev pub zero_crypto : Crypto
zero_crypto = record {
  sha256 = λ b. zeros 32;
  scval_xdr = λ a. some [];
  hex_bytes = λ s. zeros 32;
  length-sha256 = λ b. length-zeros 32;
  sha256-IsByte = λ b. zeros-IsByte 32;
}

abbrev pub good_calls : VaultCalls Bool
good_calls = record {
  lock = λ d b c v. (ok 5, v);
  release = λ d p v. (ok 77, true);
  release_batch = λ d p v. (ok 88, true);
  complete = λ d t v. (ok Completion.completed, v);
}

abbrev pub bad_calls : VaultCalls Bool
bad_calls = record {
  lock = λ d b c v. (ok 5, v);
  release = λ d p v. (err (failed_on_chain 9), v);
  release_batch = λ d p v. (err (failed_on_chain 9), v);
  complete = λ d t v. (ok Completion.completed, v);
}

abbrev pub env_of : VaultCalls Bool → Env Bool
env_of calls = record {
  calls = calls;
  crypto = zero_crypto;
  has_encryption_key = true;
  has_vault_contract = true;
  has_usdc_sac = true;
  lock_timeout = λ d t. none;
  insert_fault = λ k t. none;
}

abbrev pub good_env : Env Bool
good_env = env_of good_calls

abbrev pub bad_env : Env Bool
bad_env = env_of bad_calls

-- a provider's reply: `{ ok: true, status: 'completed', contentType: …, data: 'd' }`
abbrev pub delivery : Json
delivery =
    obj (prop "ok" (bool true) (prop "contentType" (str "text/plain") (prop "data" (str "d") end)))

abbrev pub plain_js : Js
plain_js = record {
  parse = λ s. some delivery;
  stringify = λ v. "{}";
  show = λ v. "n";
  to_number = λ v. none;
  trim = λ s. s;
  take = λ n s. s;
  chars = λ s. [];
  sort = λ ks. ks;
  sha256_hex = λ s. "h";
  verify_signature = λ k p s. some true;
  type_error = "TypeError";
  fetch_error = "fetch failed";
  prisma_error = "invalid value";
}

abbrev pub host : Host Bool
host = record {
  env = good_env;
  js = plain_js;
  fetch = λ e r t. response 20 200 true (some "reply");
  judge = λ d a i o. none;
  queue_down = λ j t. false;
  dispute_window = none;
  async_poll = none;
  async_max = none;
}

abbrev pub service : Option String → Option Tier → Option Service
service endpoint tier = some (record {
  id = 40;
  provider_id = some 41;
  name = "hash";
  description = none;
  capabilities = [];
  price_per_call = 5;
  endpoint = endpoint;
  stellar_address = some 20;
  tier = tier;
  output_schema = none;
  verification = none;
})

abbrev pub step_row : (id index : ℕ) → Option Service → (depends_on : List ℕ) → StepStatus → Step
step_row id index service depends_on status = record {
  id = id;
  task_id = 1;
  index = index;
  service = service;
  payee = none;
  action = "hash";
  input = null;
  depends_on = depends_on;
  estimated_cost = 5;
  status = status;
  output = none;
  error = none;
  quality_rating = none;
  quality_note = none;
  artifact = null;
  latency_ms = none;
  provider_job_handle = none;
  progress = null;
  input_request = null;
  input_response = null;
  release_at = none;
  created_at = 0;
}

abbrev pub task_row : Option ℕ → Task
task_row vault_task_id = record {
  id = 1;
  buyer_id = 10;
  mode = TaskMode.compose;
  budget = 50;
  status = TaskStatus.running;
  vault_task_id = vault_task_id;
  vault_finalized_at = none;
  policy = some (record { id = 3; commitment = "c0" });
  idempotency_key = none;
}

abbrev pub delegate_row : Delegate
delegate_row = record { user_id = 10; public_key = 30; registered = true }

abbrev pub world_of : Option ℕ → List Step → World Bool
world_of vault_task_id steps = record {
  tasks = task_row vault_task_id ∷ [];
  steps = steps;
  payments = [];
  disputes = [];
  delegates = delegate_row ∷ [];
  reputations = [];
  jobs = [];
  now = 1000;
  vault = false;
}

abbrev pub reachable : Option Service
reachable = service (some "https://p") (some Tier.t1)

-- one released step of a task that is not locked
abbrev pub released_world : World Bool
released_world = world_of none (step_row 7 0 reachable [] StepStatus.released ∷ [])

abbrev pub batch : BatchSettlePayload
batch = record {
  buyer_id = 10;
  vault_task_id = none;
  commitment_hex = "c0";
  plan_cost = 50;
  step_id = 2;
  payees = 20 ∷ 21 ∷ [];
  amounts = 5 ∷ 6 ∷ [];
  nullifiers = [];
  valid_after = 0;
  valid_before = 9;
  reset_r2 = false;
  reset_r7 = false;
  proof = ([], [], []);
}
