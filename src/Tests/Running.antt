-- ===== src/Tests/Running.antt =====
-- Runs of tasks, polls and releases.
use clevercon.Prelude.{◌≡◌, ◌≢◌, refl, Bool, false, none, some, [], ◌∷◌}
use clevercon.Json.{obj, end, truthy, get, lookup}
use clevercon.Store.Rows.{TaskStatus, Step, StepStatus}
use clevercon.Store.Tables.{World, find_task, find_step, steps_of, open_disputes}
use clevercon.Worker.Execute.{good, finalize_delivery, accept, is_acceptable_output}
use clevercon.Worker.Execute.Taken.{Taken, finalize_delivery-Taken}
use clevercon.Worker.Execute.Task.{
  ExecuteStatus, ran, skipped, failed, Pass, execute_step, execute_task, status_at,
}
use clevercon.Worker.Execute.Task.Gate.{Waits, execute_step_waits}
use clevercon.Worker.Execute.Task.Replay.{execute_task-replay}
use clevercon.Worker.Execute.Task.Stuck.{execute_task_stuck, unreachable}
use clevercon.Worker.Settle.Finalize.{finalize_task_if_complete}
use clevercon.Worker.Execute.Release.{release_held_step, release_guarded, released}
use clevercon.Worker.Execute.Release.Laws.{Released, release_held_step-Released}
use clevercon.Tests.Fixtures.{host, delivery, world_of, task_row, step_row, reachable, service}

abbrev first : StepStatus → Step
first status = step_row 7 0 reachable [] status

abbrev pending_world : World Bool
pending_world = world_of (some 5) (first StepStatus.pending ∷ [])

abbrev delivered : World Bool
delivered =
    (finalize_delivery host (first StepStatus.pending) (some 5) (obj end) delivery "reply" 20 0
      pending_world).1

delivers :
    finalize_delivery host
      (first StepStatus.pending)
      (some 5)
      (obj end)
      delivery
      "reply"
      20
      0
      pending_world
    ≡ (good StepStatus.released, delivered)
unfolding finalize_delivery accept is_acceptable_output truthy get lookup
delivers = refl

finalize_delivery-Taken_example :
    Taken host
      (first StepStatus.pending)
      (obj end)
      delivery
      "reply"
      0
      StepStatus.released
      pending_world
      delivered
finalize_delivery-Taken_example =
    finalize_delivery-Taken host (first StepStatus.pending) (some 5) (obj end) delivery "reply" 20 0
      StepStatus.released pending_world delivered delivers

abbrev second : Step
second = step_row 8 1 reachable (0 ∷ []) StepStatus.pending

abbrev waiting_pass : Pass Bool
waiting_pass = record {
  loaded = first StepStatus.pending ∷ second ∷ [];
  any_failed = false;
  any_held = false;
  steps_run = 0;
  world = world_of (some 5) (first StepStatus.pending ∷ second ∷ []);
}

execute_step_waits_example :
    Waits second waiting_pass (execute_step host (task_row (some 5)) second waiting_pass)
unfolding status_at
execute_step_waits_example = execute_step_waits host (task_row (some 5)) second waiting_pass refl

abbrev idle_world : World Bool
idle_world =
    world_of (some 5)
      (first StepStatus.released ∷ step_row 8 1 reachable [] StepStatus.awaiting_approval ∷ [])

execute_task-replay_example :
    (status : ExecuteStatus) × ((execute_task host 1 idle_world).0 ≡ ran status 0 10)
    × (status ≢ failed)
    × ((execute_task host 1 idle_world).1.steps ≡ idle_world.steps)
    × ((execute_task host 1 idle_world).1.payments ≡ idle_world.payments)
    × ((execute_task host 1 idle_world).1.jobs ≡ idle_world.jobs)
unfolding find_task steps_of
execute_task-replay_example =
    execute_task-replay host 1 idle_world (task_row (some 5)) refl refl (refl, (refl, tt))

abbrev dead_end : Step
dead_end = step_row 7 0 (service none none) [] StepStatus.pending

abbrev stuck_world : World Bool
stuck_world = world_of (some 5) (dead_end ∷ second ∷ [])

execute_task_stuck_example :
    (w' : World Bool) × (execute_task host 1 stuck_world ≡ (ran failed 0 10, w'))
    × (find_task 1 w'.tasks ≡ some (record (task_row (some 5)) { status = TaskStatus.failed }))
    × (steps_of 1 w'.steps ≡ unreachable host dead_end ∷ second ∷ [])
    × (w'.vault ≡ false)
    × (execute_task host 1 w' ≡ (skipped "task already terminal" (some 10), w'))
    × ((finalize_task_if_complete host.env 1 w').1 ≡ w')
unfolding find_task steps_of
execute_task_stuck_example =
    execute_task_stuck host 1 stuck_world (task_row (some 5)) dead_end second refl refl refl refl
      refl refl refl refl refl refl

abbrev held_world : World Bool
held_world = world_of (some 5) (first StepStatus.awaiting_approval ∷ [])

abbrev after_release : World Bool
after_release = (release_held_step host 7 held_world).1

releases : release_held_step host 7 held_world ≡ (released 10 1, after_release)
unfolding release_held_step release_guarded find_step find_task open_disputes
releases = refl

release_held_step-Released_example : Released host 7 10 1 held_world after_release
release_held_step-Released_example =
    release_held_step-Released host 7 10 1 held_world after_release releases

abbrev running_world : World Bool
running_world = record (world_of (some 5) (first StepStatus.running ∷ [])) { now = 4000000 }
