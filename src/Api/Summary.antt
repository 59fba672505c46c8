-- ===== src/Api/Summary.antt =====
-- `serialize` of services/api/src/tasks/tasks.service.ts: the view of a task that the operations
-- answer with, less its texts and times.
use clevercon.Prelude.{ℕ, ◌+◌, ◌&&◌, List, [], ◌∷◌, ◌==◌, length, select, count}
use clevercon.Store.Rows.{
  Task, TaskMode, TaskStatus, Step, StepStatus, step_is, Payment, is_confirmed,
}
use clevercon.Store.Tables.{World, steps_of}

pub record TaskSummary : Type 0 where
  pub id : ℕ
  pub mode : TaskMode
  pub status : TaskStatus
  pub budget : ℕ
  pub spent : ℕ
  pub step_count : ℕ
  pub completed_steps : ℕ

abbrev pub sum_amounts : List Payment → ℕ
sum_amounts [] = 0
sum_amounts (p ∷ ps) = p.amount + sum_amounts ps

-- the confirmed payments of a task
unfoldable pub spent_of : ℕ → List Payment → ℕ
spent_of task ps =
    sum_amounts (select (λ (p : Payment). p.task_id == task && is_confirmed p.status) ps)

unfoldable pub serialize : {V : Type 0} → Task → World V → TaskSummary
serialize t w = record {
  id = t.id;
  mode = t.mode;
  status = t.status;
  budget = t.budget;
  spent = spent_of t.id w.payments;
  step_count = length (steps_of t.id w.steps);
  completed_steps =
      count (λ (s : Step). step_is StepStatus.released s.status) (steps_of t.id w.steps);
}
