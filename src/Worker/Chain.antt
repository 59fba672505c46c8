-- ===== src/Worker/Chain.antt =====
-- services/workers/src/sequence.ts and the chain calls of settlement.ts.
-- An error of a chain call is the message that the code throws, by its kind; `thrown` stands for
-- the messages of the RPC client and of Redis, which hold neither of the two phrases and no
-- contract error code. The RPC server answers each attempt; what it answers is a parameter.
pub mod Laws
use clevercon.Prelude.{
  ℕ, zero, suc, ◌+◌, Bool, true, false, Option, none, some, List, [], ◌∷◌, String, ◌==◌,
  if◌then◌else◌,
}

pub data ChainError : Type 0 where
  -- `… simulation failed: …`, with the code of `Error(Contract, #n)` if it names one
  simulation_failed : Option ℕ → ChainError
  -- `… rejected on submit: …`
  rejected : String → ChainError
  -- `… failed on-chain: …`, `… timed out: …`
  failed_on_chain timed_out : ℕ → ChainError
  -- `… failed after n attempts (last: …)`
  exhausted : ℕ → ChainError
  -- `task lock did not yield a vault task id`
  no_task_id : ChainError
  thrown : String → ChainError

pub data Outcome (A : Type 0) : Type 0 where
  ok : A → Outcome A
  err : ChainError → Outcome A

-- `/simulation failed|failed on-chain/i.test(msg)`
unfoldable pub is_deterministic : ChainError → Bool
is_deterministic (simulation_failed _) = true
is_deterministic (failed_on_chain _) = true
is_deterministic _ = false

-- `/Error\(Contract, #(\d+)\)/`
unfoldable pub contract_error_code : ChainError → Option ℕ
contract_error_code (simulation_failed n) = n
contract_error_code _ = none

-- What the server answers to one attempt: an error of `getAccount` or of the request to simulate,
-- the simulation's error with its contract code, the response to `sendTransaction`, the polls.
pub data SendResponse : Type 0 where
  send_error : String → SendResponse
  -- status ERROR: is it txBadSeq, and the name of the result
  error_bad_seq : SendResponse
  error_other : String → SendResponse
  accepted : (hash : ℕ) → SendResponse

pub data Poll : Type 0 where
  poll_error : String → Poll
  not_found : Poll
  success : (value : ℕ) → Poll
  failure : Poll

pub record Attempt : Type 0 where
  pub rpc_error : Option String
  pub simulation_error : Option (Option ℕ)
  pub response : SendResponse
  pub polls : ℕ → Poll

pub record SubmitResult : Type 0 where
  pub hash : ℕ
  pub return_value : ℕ

-- the loop over `getTransaction`, with the rounds left
unfoldable pub poll_loop : ℕ → ℕ → ℕ → (ℕ → Poll) → Outcome SubmitResult
poll_loop zero i hash polls = err (timed_out hash)
poll_loop (suc rounds) i hash polls =
    let rest = poll_loop rounds (i + 1) hash polls in
    elim (polls i) [
      | success v ↦ ok (record { hash = hash; return_value = v })
      | failure ↦ err (failed_on_chain hash)
      | not_found ↦ rest
      | poll_error msg ↦ err (thrown msg)
    ]

-- one attempt; `none` continues with the next
unfoldable pub run_attempt : Attempt → Option (Outcome SubmitResult)
unfolding poll_loop
run_attempt a = elim a.rpc_error [
  | some msg ↦ some (err (thrown msg))
  | none ↦ elim a.simulation_error [
    | some code ↦ some (err (simulation_failed code))
    | none ↦ elim a.response [
      | send_error msg ↦ some (err (thrown msg))
      | error_bad_seq ↦ none
      | error_other name ↦ some (err (rejected name))
      | accepted hash ↦ some (poll_loop 30 0 hash a.polls)
    ]
  ]
]

-- the loop over the attempts, with those left
unfoldable pub submit_from : ℕ → ℕ → ℕ → (ℕ → Attempt) → Outcome SubmitResult
submit_from attempts zero k server = err (exhausted attempts)
submit_from attempts (suc left) k server =
    let rest = submit_from attempts left (k + 1) server in
    elim (run_attempt (server k)) [ none ↦ rest | some r ↦ r ]

abbrev pub default_attempts : ℕ
default_attempts = 4

unfoldable pub submit_delegate_call : (ℕ → Attempt) → Outcome SubmitResult
unfolding submit_from
submit_delegate_call server = submit_from default_attempts default_attempts 0 server

-- `completeTaskOnChain`, after the submission of `complete_task`
pub data Completion : Type 0 where
  completed already disputed : Completion

abbrev pub task_already_completed : ℕ
task_already_completed = 9

abbrev pub task_disputed : ℕ
task_disputed = 19

abbrev pub by_code : ChainError → Option ℕ → Outcome Completion
by_code e none = err e
by_code e (some code) =
    if code == task_already_completed
    then ok already
    else if code == task_disputed
    then ok disputed
    else err e

unfoldable pub complete_task_on_chain : Outcome SubmitResult → Outcome Completion
unfolding contract_error_code
complete_task_on_chain (ok r) = ok completed
complete_task_on_chain (err e) = by_code e (contract_error_code e)
