-- ===== src/Tests/Batches.antt =====
-- The finalisation of a task, and settlements of a batch.
use clevercon.Prelude.{◌≡◌, refl, Bool, true, false, none, some, [], ◌∷◌, any}
use clevercon.Store.Rows.{
  TaskMode, TaskStatus, Step, StepStatus, step_is, PaymentKey, PaymentMethod, PaymentStatus,
}
use clevercon.Store.Tables.{World, find_task, find_delegate, steps_of}
use clevercon.Proof.Bytes.{zeros}
use clevercon.Worker.Env.{with_delegate, create_task_with_policy, settlement_configured}
use clevercon.Worker.Settle.Finalize.{
  finalize_task_if_complete, finish_finalize, is_non_terminal, finalized, skipped,
}
use clevercon.Worker.Settle.Finalize.Laws.{
  Finalized, finalize_task_if_complete-Finalized, finalize_task_if_complete-again,
  finalize_task_if_complete_parked,
}
use clevercon.Worker.Settle.Batch.{settle_batch, batch_params}
use clevercon.Worker.Settle.Batch.Rollback.{settle_batch_unlocks}
use clevercon.Tests.Fixtures.{
  good_env, bad_env, world_of, task_row, step_row, delegate_row, reachable, batch,
}

abbrev paid_world : World Bool
paid_world = record (world_of (some 5) (step_row 7 0 reachable [] StepStatus.released ∷ [])) {
  payments =
      record {
        task_id = 1;
        step_id = some 7;
        to_address = 20;
        amount = 5;
        method = PaymentMethod.vault_release;
        status = PaymentStatus.confirmed;
        tx_hash = 77;
        key = PaymentKey.settle 7;
      }
      ∷ [];
}

abbrev finalized_world : World Bool
finalized_world = (finalize_task_if_complete good_env 1 paid_world).1

finalizes :
    finalize_task_if_complete good_env 1 paid_world
    ≡ (finalized TaskMode.compose true, finalized_world)
unfolding finalize_task_if_complete finish_finalize is_non_terminal find_task find_delegate steps_of
    with_delegate settlement_configured
finalizes = refl

finalize_task_if_complete-Finalized_example :
    Finalized good_env 1 TaskMode.compose true paid_world finalized_world
finalize_task_if_complete-Finalized_example =
    finalize_task_if_complete-Finalized good_env 1 paid_world finalized_world TaskMode.compose true
      finalizes

finalize_task_if_complete-again_example :
    finalize_task_if_complete good_env 1 finalized_world
    ≡ (skipped "already finalized", finalized_world)
finalize_task_if_complete-again_example =
    finalize_task_if_complete-again good_env 1 paid_world finalized_world TaskMode.compose true
      finalizes

-- a task with a step that waits for its buyer's answer
abbrev parked_world : World Bool
parked_world = world_of (some 5) (step_row 7 0 reachable [] StepStatus.input_required ∷ [])

abbrev is_parked_step : Step → Bool
is_parked_step s = step_is StepStatus.input_required s.status

finalize_task_if_complete_parked_example :
    (w' : World Bool) × (finalize_task_if_complete good_env 1 parked_world
      ≡ (finalized TaskMode.compose true, w'))
    × (find_task 1 w'.tasks
        ≡ some (record (task_row (some 5)) {
          vault_finalized_at = some 1000;
          status = TaskStatus.completed;
        }))
    × (any is_parked_step (steps_of 1 w'.steps) ≡ true)
unfolding find_task find_delegate steps_of is_non_terminal settlement_configured
finalize_task_if_complete_parked_example =
    finalize_task_if_complete_parked good_env 1 parked_world (task_row (some 5)) 5 delegate_row
      false refl refl refl refl refl refl refl refl refl refl refl

abbrev empty_world : World Bool
empty_world = world_of none []

settle_batch_unlocks_example :
    (settle_batch bad_env batch 9 empty_world).1.vault
    ≡ (bad_env.calls.complete 30 5
        (bad_env.calls.release_batch 30 (batch_params bad_env batch 5) false).1).1
unfolding find_delegate settlement_configured create_task_with_policy zeros
settle_batch_unlocks_example =
    settle_batch_unlocks bad_env batch 9 empty_world delegate_row 5 false refl refl refl refl refl
