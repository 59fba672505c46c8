-- ===== src/Tests/Settling.antt =====
-- Settlements of one step.
use clevercon.Prelude.{ℕ, ◌≡◌, refl, ap, Bool, Option, none, some, []}
use clevercon.Store.Tables.{World, find_task, find_step, find_delegate, has_key}
use clevercon.Store.Tables.Laws.{HasDistinctKeys}
use clevercon.Proof.Bytes.{Bytes, zeros}
use clevercon.Proof.Binding.{BindingProof, build_binding_proof, build_with, find_opening, closes}
use clevercon.Proof.Inputs.{encode_public_inputs, to_field, assert32, payee_hash, amount_scalar}
use clevercon.Store.Rows.{StepStatus}
use clevercon.Worker.Chain.{Outcome, ok}
use clevercon.Worker.Env.{with_delegate, create_task_with_policy, settlement_configured}
use clevercon.Worker.Settle.{
  settle_step, settle_prepared, prepare, prepare_step, carry_out, lock_and_release, lock_if_needed,
  write_lock, release_at, finish, record_payment, settled_payment, settled, skipped, proceed, Plan,
  proof_input,
}
use clevercon.Worker.Settle.Once.{Paid, settle_step-Paid}
use clevercon.Worker.Settle.Replay.{settle_step-replay}
use clevercon.Worker.Settle.Race.{
  IsIdempotent, carry_out-race, lock_if_needed-again, settle_step-HasDistinctKeys,
}
use clevercon.Tests.Fixtures.{
  released_world, good_env, bad_env, good_calls, step_row, task_row, delegate_row, reachable,
}

abbrev nullifier : Bytes
nullifier = zeros 32

abbrev after : World Bool
after = (settle_step good_env 7 nullifier released_world).1

settles :
    settle_step good_env 7 nullifier released_world
    ≡ (settled 77 10 1 (some 41) 5 (some "hash"), after)
unfolding settle_step settle_prepared prepare prepare_step carry_out lock_and_release lock_if_needed
    write_lock release_at finish record_payment settled_payment find_task find_step find_delegate
    has_key with_delegate create_task_with_policy settlement_configured build_binding_proof
    build_with find_opening closes encode_public_inputs to_field assert32 payee_hash amount_scalar
    zeros
settles = refl

settle_step-Paid_example :
    (plan : Plan) × (prepare good_env 7 released_world ≡ proceed plan)
    × Paid good_env plan nullifier 77 10 1 5 released_world after
settle_step-Paid_example =
    settle_step-Paid good_env 7 nullifier released_world after 77 10 1 (some 41) 5 (some "hash")
      settles

settle_step-replay_example :
    settle_step good_env 7 nullifier after ≡ (skipped "already settled" (some 10) (some 1), after)
settle_step-replay_example =
    settle_step-replay good_env 7 nullifier nullifier released_world after 77 10 1 (some 41) 5
      (some "hash") settles

abbrev plan : Plan
plan = record {
  step = step_row 7 0 reachable [] StepStatus.released;
  task = task_row none;
  commitment = "c0";
  payee = 20;
  delegate = delegate_row;
}

abbrev raced : World Bool
raced = (carry_out good_env plan nullifier released_world).1

good_calls-IsIdempotent : IsIdempotent good_calls
good_calls-IsIdempotent = record {
  again = λ d p p' v v' tx s t a r h.
      (77, ap (λ (b : Bool). (ok 77, b)) (ap (λ (r : Outcome ℕ × Bool). r.1) h));
}

task_is_found : find_task 1 released_world.tasks ≡ some (task_row none)
unfolding find_task
task_is_found = refl

carries_out :
    carry_out good_env plan nullifier released_world
    ≡ (settled 77 10 1 (some 41) 5 (some "hash"), raced)
unfolding carry_out lock_and_release lock_if_needed write_lock release_at finish record_payment
    find_task has_key with_delegate create_task_with_policy build_binding_proof build_with
    find_opening closes encode_public_inputs to_field assert32 payee_hash amount_scalar zeros
carries_out = refl

abbrev proof_of : Option BindingProof → BindingProof
proof_of none = record { proof = []; pi_hash = [] }
proof_of (some p) = p

abbrev proof : BindingProof
proof = proof_of (build_binding_proof good_env.crypto (proof_input good_env plan nullifier))

proof_is_built :
    build_binding_proof good_env.crypto (proof_input good_env plan nullifier) ≡ some proof
unfolding build_binding_proof build_with find_opening closes encode_public_inputs to_field assert32
    payee_hash amount_scalar zeros
proof_is_built = refl

carry_out-race_example :
    carry_out good_env plan nullifier raced ≡ (skipped "already settled" (some 10) (some 1), raced)
carry_out-race_example =
    carry_out-race good_env plan nullifier nullifier released_world raced 77 10 1 (some 41) 5
      (some "hash") (task_row none) proof good_calls-IsIdempotent task_is_found carries_out
      proof_is_built refl refl

takes_lock : (lock_if_needed good_env plan released_world).0 ≡ ok 5
unfolding lock_if_needed write_lock find_task create_task_with_policy zeros
takes_lock = refl

abbrev locked_world : World Bool
locked_world = (lock_if_needed good_env plan released_world).1

lock_if_needed-again_example : lock_if_needed good_env plan locked_world ≡ (ok 5, locked_world)
lock_if_needed-again_example =
    lock_if_needed-again good_env plan plan released_world locked_world task_is_found refl refl
      takes_lock refl

settle_step-HasDistinctKeys_example :
    HasDistinctKeys (settle_step good_env 7 nullifier released_world).1.payments
settle_step-HasDistinctKeys_example =
    settle_step-HasDistinctKeys good_env 7 nullifier released_world tt

abbrev after_failure : World Bool
after_failure = (settle_step bad_env 7 nullifier released_world).1
