-- ===== src/Tests/Listing.antt =====
-- An allowlist of three payees, and a batch that pays one of them.
use clevercon.Prelude.{ℕ, Bool, true, ◌+◌, ◌*◌, ◌≡◌, refl, some, none, List, [], ◌∷◌, arith}
use clevercon.Proof.Inputs.{payee_field, payee_hash}
use clevercon.Proof.Bytes.{value, value_from, zeros}
use clevercon.Proof.Allowlist.{
  Poseidon, Entry, Allowlist, build_allowlist, leaves_of, leaf, level, pair_up, zero_hash,
  membership, first_index, path_elements, path_bits,
}
use clevercon.Proof.Batch.{BatchRelease, Slot, null_slot, slot_of, fill_slots, build_batch_witness}
use clevercon.Proof.Batch.Slots.{Filled, build_batch_witness-Filled}
use clevercon.Proof.Allowlist.Paths.{Verified, membership-Verified}
use clevercon.Tests.Fixtures.{zero_crypto}

abbrev hashes : Poseidon
hashes = record { p2 = λ a b. a + 2 * b + 1; p3 = λ a b c. a + b + c }

abbrev entry_of : (payee cap : ℕ) → Entry
entry_of payee cap = record { payee_address = payee; cap_stroops = some cap; category = none }

abbrev payees : List Entry
payees = entry_of 20 5 ∷ entry_of 21 6 ∷ entry_of 22 7 ∷ []

-- the leaves 5, 6 and 7, and above them 18 and 8
abbrev listed : Allowlist
listed = record { entries = payees; leaves = 5 ∷ 6 ∷ 7 ∷ []; depth = 2; root = 35 }

builds : build_allowlist zero_crypto hashes payees 2 ≡ some listed
unfolding build_allowlist leaves_of leaf level pair_up zero_hash payee_field payee_hash value
    value_from zeros
builds = refl

membership-Verified_example : Verified zero_crypto hashes payees listed 22
membership-Verified_example =
    membership-Verified zero_crypto hashes payees 2 22 listed builds (omega arith) refl

-- one release, to the last payee of the list
abbrev release : BatchRelease
release = record {
  payee_address = 22;
  amount_stroops = 3;
  spend_counter = 1;
  membership = membership hashes listed 22;
}

abbrev flags : List Bool
flags = true ∷ true ∷ true ∷ true ∷ true ∷ true ∷ true ∷ true ∷ []

-- the sibling of the leaf 7 is the zero hash 0, and that of its parent is 18
abbrev slots : List Slot
slots =
    record {
      payee_field = 0;
      amount = 3;
      active = 1;
      spend_counter = 1;
      payee_cap = 7;
      payee_category = 0;
      r3_path = 0 ∷ 18 ∷ [];
      r3_index = 0 ∷ 1 ∷ [];
    }
    ∷ null_slot
    ∷ null_slot
    ∷ null_slot
    ∷ []

assembles : build_batch_witness zero_crypto flags (release ∷ []) ≡ some slots
unfolding build_batch_witness fill_slots slot_of payee_field payee_hash value value_from zeros
    membership first_index path_elements path_bits level pair_up zero_hash
assembles = refl

build_batch_witness-Filled_example : Filled zero_crypto hashes 4 35 (release ∷ []) slots
build_batch_witness-Filled_example =
    build_batch_witness-Filled zero_crypto hashes payees 2 listed flags (release ∷ []) slots builds
      (omega arith) ((refl, refl), tt) assembles
