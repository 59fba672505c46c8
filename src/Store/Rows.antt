-- ===== src/Store/Rows.antt =====
-- The enums and models of packages/db/prisma/schema.prisma.
use clevercon.Prelude.{ℕ, Bool, Option, List, String, ◌==◌}
use clevercon.Prelude.Int.{ℤ}
use clevercon.Json.{Json}

pub data TaskMode : Type 0 where
  direct search_one compose pay disburse : TaskMode

pub data TaskStatus : Type 0 where
  draft pending running completed cancelled disputed failed : TaskStatus

pub data StepStatus : Type 0 where
  pending running input_required awaiting_approval released failed skipped : StepStatus

pub data PaymentMethod : Type 0 where
  x402 mpp vault_release : PaymentMethod

pub data PaymentStatus : Type 0 where
  pending submitted confirmed failed : PaymentStatus

pub data DisputeStatus : Type 0 where
  opened resolved rejected : DisputeStatus

pub data Tier : Type 0 where
  t1 t2 t3 : Tier

abbrev pub task_rank : TaskStatus → ℕ
task_rank TaskStatus.draft = 0
task_rank TaskStatus.pending = 1
task_rank TaskStatus.running = 2
task_rank TaskStatus.completed = 3
task_rank TaskStatus.cancelled = 4
task_rank TaskStatus.disputed = 5
task_rank TaskStatus.failed = 6

abbrev pub step_rank : StepStatus → ℕ
step_rank StepStatus.pending = 0
step_rank StepStatus.running = 1
step_rank StepStatus.input_required = 2
step_rank StepStatus.awaiting_approval = 3
step_rank StepStatus.released = 4
step_rank StepStatus.failed = 5
step_rank StepStatus.skipped = 6

-- `task.status === s`, `step.status === s`
abbrev pub task_is : TaskStatus → TaskStatus → Bool
task_is s t = task_rank t == task_rank s

abbrev pub step_is : StepStatus → StepStatus → Bool
step_is s t = step_rank t == step_rank s

abbrev pub is_open_dispute : DisputeStatus → Bool
is_open_dispute DisputeStatus.opened = Bool.true
is_open_dispute _ = Bool.false

abbrev pub is_vault_release : PaymentMethod → Bool
is_vault_release PaymentMethod.vault_release = Bool.true
is_vault_release _ = Bool.false

abbrev pub is_confirmed : PaymentStatus → Bool
is_confirmed PaymentStatus.confirmed = Bool.true
is_confirmed _ = Bool.false

-- `Service.verification`: a method's name and its parameters, a JSON object.
pub record Verification : Type 0 where
  pub method : String
  pub spec : Json

pub record Service : Type 0 where
  pub id : ℕ
  pub provider_id : Option ℕ
  pub name : String
  pub description : Option String
  pub capabilities : List String
  pub price_per_call : ℕ
  pub endpoint : Option String
  pub stellar_address : Option ℕ
  pub tier : Option Tier
  pub output_schema : Option Json
  pub verification : Option Verification

pub record Step : Type 0 where
  pub id : ℕ
  pub task_id : ℕ
  pub index : ℕ
  pub service : Option Service
  pub payee : Option ℕ
  pub action : String
  pub input : Json
  pub depends_on : List ℕ
  pub estimated_cost : ℕ
  pub status : StepStatus
  pub output : Option String
  pub error : Option String
  pub quality_rating : Option ℕ
  pub quality_note : Option String
  pub artifact : Json
  pub latency_ms : Option ℕ
  pub provider_job_handle : Option String
  pub progress : Json
  pub input_request : Json
  pub input_response : Json
  pub release_at : Option ℕ
  pub created_at : ℕ

-- `Policy`: the commitment that the on-chain task is locked under.
pub record Policy : Type 0 where
  pub id : ℕ
  pub commitment : String

-- `Task.idempotencyKey`: a client's key, or `batch-${buyerId}-${stepId}` of a batch. A client's
-- key is taken not to be spelled like one of a batch.
pub data TaskKey : Type 0 where
  client : String → TaskKey
  batch : ℕ → ℕ → TaskKey

pub record Task : Type 0 where
  pub id : ℕ
  pub buyer_id : ℕ
  pub mode : TaskMode
  pub budget : ℕ
  pub status : TaskStatus
  pub vault_task_id : Option ℕ
  pub vault_finalized_at : Option ℕ
  pub policy : Option Policy
  pub idempotency_key : Option TaskKey

-- `Payment.idempotencyKey`: `settle-${stepId}`, and `batch-${buyerId}-${stepId}-${i}`.
pub data PaymentKey : Type 0 where
  settle : ℕ → PaymentKey
  batch : ℕ → ℕ → ℕ → PaymentKey

pub record Payment : Type 0 where
  pub task_id : ℕ
  pub step_id : Option ℕ
  pub to_address : ℕ
  pub amount : ℕ
  pub method : PaymentMethod
  pub status : PaymentStatus
  pub tx_hash : ℕ
  pub key : PaymentKey

pub record Dispute : Type 0 where
  pub id : ℕ
  pub task_id : ℕ
  pub raised_by : ℕ
  pub reason : Option String
  pub status : DisputeStatus
  pub provider_response : Option String
  pub resolution : Option String
  pub refund_to_user : Option ℤ
  pub payout_to_provider : Option ℤ
  pub resolved_at : Option ℕ

-- `AgentDelegate`: the key that signs for a user, here its public key.
pub record Delegate : Type 0 where
  pub user_id : ℕ
  pub public_key : ℕ
  pub registered : Bool

-- `ServiceReputation`; `score` is in tenths, as the code rounds it.
pub record Reputation : Type 0 where
  pub service_id : ℕ
  pub total_jobs : ℕ
  pub successful_jobs : ℕ
  pub failed_jobs : ℕ
  pub score : ℕ
  pub avg_latency_ms : ℕ
  pub disputes : ℕ
  pub disputes_upheld : ℕ
