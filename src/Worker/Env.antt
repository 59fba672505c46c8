-- ===== src/Worker/Env.antt =====
-- What the workers are given: the transactions of a delegate on the vault, the process's
-- environment, the libraries, and the faults that these choose. A transaction's outcome and the
-- vault's next state are a parameter: the contract is the Rust program under contracts/.
use clevercon.Prelude.{
  ℕ, suc, Bool, ◌&&◌, Option, none, some, List, String, length, ◌==◌, if◌then◌else◌,
}
use text.Mathlib.Text.{◌==◌ as str_eq}
use clevercon.Store.Rows.{PaymentKey}
use clevercon.Store.Tables.{World}
use clevercon.Worker.Chain.{Outcome, err, thrown, Completion}
use clevercon.Proof.Bytes.{Bytes}
use clevercon.Proof.Inputs.{Crypto}

-- The arguments of `release_payment_proved`.
pub record ReleaseParams : Type 0 where
  pub task_id : ℕ
  pub step_id : ℕ
  pub amount : ℕ
  pub payee : ℕ
  pub nullifier : Bytes
  pub proof : Bytes

-- The arguments of `release_payment_proved_batch`.
pub record BatchParams : Type 0 where
  pub task_id : ℕ
  pub step_id : ℕ
  pub payees : List ℕ
  pub amounts : List ℕ
  pub nullifiers : List Bytes
  pub valid_after : ℕ
  pub valid_before : ℕ
  pub reset_r2 : Bool
  pub reset_r7 : Bool
  pub proof : Bytes × Bytes × Bytes

-- The transactions on the vault that a delegate signs: their outcome and the vault's next state.
pub record VaultCalls (V : Type 0) : Type 0 where
  pub lock : (delegate budget : ℕ) → String → V → Outcome ℕ × V
  pub release : (delegate : ℕ) → ReleaseParams → V → Outcome ℕ × V
  pub release_batch : (delegate : ℕ) → BatchParams → V → Outcome ℕ × V
  pub complete : (delegate task : ℕ) → V → Outcome Completion × V

-- The process's environment, its libraries, and the faults that they choose.
pub record Env (V : Type 0) : Type 0 where
  pub calls : VaultCalls V
  pub crypto : Crypto
  pub has_encryption_key : Bool
  pub has_vault_contract : Bool
  pub has_usdc_sac : Bool
  -- whether the delegate's lock is acquired at this time, or times out with a message
  pub lock_timeout : (delegate time : ℕ) → Option String
  -- a fault of the database on the insertion of a payment, other than a taken key
  pub insert_fault : PaymentKey → (time : ℕ) → Option String

-- JavaScript reads a null and the number 0 as false.
abbrev pub truthy_id : Option ℕ → Option ℕ
truthy_id (some (suc n)) = some (suc n)
truthy_id _ = none

abbrev pub nonempty : String → Option String
nonempty s = if str_eq s "" then none else some s

module _ {V : Type 0} (env : Env V) where
  -- `createTaskWithPolicyOnChain`
  unfoldable pub create_task_with_policy : (delegate budget : ℕ) → String → V → Outcome ℕ × V
  create_task_with_policy delegate budget commitment v =
      if length (env.crypto.hex_bytes commitment) == 32
      then env.calls.lock delegate budget commitment v
      else (err (thrown "policy commitment must be 32 bytes"), v)

  unfoldable pub settlement_configured : Bool
  settlement_configured = env.has_encryption_key && env.has_vault_contract && env.has_usdc_sac

  -- `withDelegate`: the serialised section of a delegate's key
  unfoldable pub with_delegate {ℓ} :
      {A : Type ℓ} → (delegate : ℕ) → (String → A) → (World V → A × World V) → World V → A × World V
  with_delegate key timed_out body w = elim (env.lock_timeout key w.now) [
    | some msg ↦ (timed_out msg, w)
    | none ↦ body w
  ]
