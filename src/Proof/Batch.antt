-- ===== src/Proof/Batch.antt =====
-- packages/agent-sdk/src/payments/batch-prover.ts, `buildBatchWitness`: the slots of a batch that
-- the circuit reads, one for each release and null ones after them. The fields of the policy and of
-- the task, which the function copies into its answer, are left out, and numbers are kept as numbers
-- where the code prints them in decimal.
pub mod Slots
use clevercon.Prelude.{
  ℕ, zero, suc, Bool, ◌||◌, Option, none, some, List, [], ◌∷◌, ◌==◌, ltb, if◌then◌else◌, length,
}
use clevercon.Proof.Bytes.{value}
use clevercon.Proof.Inputs.{Crypto, payee_field, ◌>>=◌}
use clevercon.Proof.Allowlist.{AllowlistMembership}

abbrev pub batch_n : ℕ
batch_n = 4

abbrev pub allowlist_depth : ℕ
allowlist_depth = 16

pub record BatchRelease : Type 0 where
  pub payee_address : ℕ
  pub amount_stroops : ℕ
  pub spend_counter : ℕ
  pub membership : Option AllowlistMembership

-- One slot: the elements of the flat arrays at one index.
pub record Slot : Type 0 where
  pub payee_field : ℕ
  pub amount : ℕ
  pub active : ℕ
  pub spend_counter : ℕ
  pub payee_cap : ℕ
  pub payee_category : ℕ
  pub r3_path : List ℕ
  pub r3_index : List ℕ

-- `zeros`
unfoldable pub zero_list : ℕ → List ℕ
zero_list zero = []
zero_list (suc n) = 0 ∷ zero_list n

unfoldable pub null_slot : Slot
null_slot = record {
  payee_field = 0;
  amount = 0;
  active = 0;
  spend_counter = 0;
  payee_cap = 0;
  payee_category = 0;
  r3_path = zero_list allowlist_depth;
  r3_index = zero_list allowlist_depth;
}

-- the fields of a release, with those of its membership where it has one
abbrev pub active_slot : ℕ → BatchRelease → Option AllowlistMembership → Slot
active_slot field r none = record {
  payee_field = field;
  amount = r.amount_stroops;
  active = 1;
  spend_counter = r.spend_counter;
  payee_cap = 0;
  payee_category = 0;
  r3_path = zero_list allowlist_depth;
  r3_index = zero_list allowlist_depth;
}
active_slot field r (some m) = record {
  payee_field = field;
  amount = r.amount_stroops;
  active = 1;
  spend_counter = r.spend_counter;
  payee_cap = m.cap;
  payee_category = m.category;
  r3_path = m.path_elements;
  r3_index = m.path_indices;
}

module _ (c : Crypto) where
  unfoldable pub slot_of : BatchRelease → Option Slot
  slot_of r = do f ← payee_field c r.payee_address; some (active_slot (value f) r r.membership)

  -- the loop over the slots, with those left
  unfoldable pub fill_slots : (left : ℕ) → List BatchRelease → Option (List Slot)
  fill_slots zero rs = some []
  fill_slots (suc n) [] = do some (null_slot ∷ (← fill_slots n []))
  fill_slots (suc n) (r ∷ rs) = do some ((← slot_of r) ∷ (← fill_slots n rs))

  -- `buildBatchWitness`; none where it throws
  unfoldable pub build_batch_witness : (flags : List Bool) → List BatchRelease → Option (List Slot)
  build_batch_witness flags rs =
      if length rs == 0 || ltb batch_n (length rs)
      then none
      else if length flags == 8
      then fill_slots batch_n rs
      else none
