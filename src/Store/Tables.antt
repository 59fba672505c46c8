-- ===== src/Store/Tables.antt =====
-- The tables and their queries: `findUnique`, `update`, `findFirst`, `count`, and a `create` that
-- the unique index on `Payment.idempotencyKey` may refuse.
pub mod Laws
use clevercon.Prelude.{
  ℕ, Bool, true, false, ◌&&◌, Option, none, some, List, [], ◌∷◌, ◌++◌, ◌==◌, if◌then◌else◌, any,
  count, find, select, map, ◌≡◌, ◌≢◌, refl, arith,
}
use clevercon.Store.Rows.{
  Step, StepStatus, Task, Payment, PaymentKey, settle, batch, Dispute, Delegate, Reputation, Policy,
  is_open_dispute,
}

-- A job added to a queue of services/workers/src/queue.ts; a delay is in milliseconds.
pub data Job : Type 0 where
  execute : ℕ → Job
  settle_step : ℕ → Job
  release_step : ℕ → ℕ → Job
  poll_step : ℕ → ℕ → Job

pub record World (V : Type 0) : Type 0 where
  pub tasks : List Task
  pub steps : List Step
  pub payments : List Payment
  pub disputes : List Dispute
  pub delegates : List Delegate
  pub reputations : List Reputation
  pub jobs : List Job
  pub now : ℕ
  pub vault : V

-- `where: { id }`
unfoldable pub find_task : ℕ → List Task → Option Task
find_task id = find (λ (t : Task). t.id == id)

unfoldable pub find_step : ℕ → List Step → Option Step
find_step id = find (λ (s : Step). s.id == id)

unfoldable pub find_delegate : ℕ → List Delegate → Option Delegate
find_delegate user = find (λ (d : Delegate). d.user_id == user)

-- `include: { steps }`: the steps of a task, which the table holds in the order of their index
unfoldable pub steps_of : ℕ → List Step → List Step
steps_of task = select (λ (s : Step). s.task_id == task)

-- `update({ where: { id }, data })`, the data as a function of the row
unfoldable pub update_task : ℕ → (Task → Task) → List Task → List Task
update_task id f [] = []
update_task id f (t ∷ ts) = (if t.id == id then f t else t) ∷ update_task id f ts

unfoldable pub update_step : ℕ → (Step → Step) → List Step → List Step
update_step id f [] = []
update_step id f (s ∷ ss) = (if s.id == id then f s else s) ∷ update_step id f ss

unfoldable pub update_reputation : ℕ → (Reputation → Reputation) → List Reputation → List Reputation
update_reputation id f [] = []
update_reputation id f (r ∷ rs) =
    (if r.service_id == id then f r else r) ∷ update_reputation id f rs

abbrev pub same_key : PaymentKey → PaymentKey → Bool
same_key (settle a) (settle b) = a == b
same_key (batch a b c) (batch a' b' c') = a == a' && b == b' && c == c'
same_key _ _ = false

unfoldable pub has_key : PaymentKey → List Payment → Bool
has_key k = any (λ (p : Payment). same_key p.key k)

unfoldable pub open_disputes : ℕ → List Dispute → ℕ
open_disputes task = count (λ (d : Dispute). d.task_id == task && is_open_dispute d.status)
