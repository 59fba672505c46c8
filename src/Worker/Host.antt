-- ===== src/Worker/Host.antt =====
-- What the executor is given beside the settlement's environment: the providers it calls, the
-- judge, the queues and the configuration. Each is a parameter.
use clevercon.Prelude.{ℕ, Bool, Option, none, some, [], ◌∷◌, ◌++◌, String, ltb, ◌/◌, if◌then◌else◌}
use clevercon.Json.{Json}
use clevercon.Store.Tables.{World, Job}
use clevercon.Service.Js.{Js}
use clevercon.Worker.Env.{Env}

-- What a `POST` to a provider's endpoint comes to, after some milliseconds: a response with its
-- status and its text, none if the text cannot be read, or a failure of the request.
pub data Reply : Type 0 where
  lost : (took : ℕ) → Reply
  response : (took code : ℕ) (is_ok : Bool) (text : Option String) → Reply

pub record Host (V : Type 0) : Type 0 where
  pub env : Env V
  pub js : Js
  pub fetch : (endpoint : String) (request : Json) (time : ℕ) → Reply
  -- the advisory rating and note, none where the judge has none or throws
  pub judge : (description action : String) (input output : Json) → Option (ℕ × String)
  -- does the queue refuse the job
  pub queue_down : Job → (time : ℕ) → Bool
  -- the variables of the environment in thousandths, none if unset, no finite number or negative
  pub dispute_window : Option ℕ
  pub async_poll : Option ℕ
  pub async_max : Option ℕ

-- `Number.isFinite(n) && n > 0 ? Math.floor(n) : standard`
unfoldable pub seconds : (standard : ℕ) → Option ℕ → ℕ
seconds standard none = standard
seconds standard (some n) = if ltb 0 n then n / 1000 else standard

module _ {V : Type 0} (host : Host V) where
  abbrev pub async_poll_seconds : ℕ
  async_poll_seconds = seconds 10 host.async_poll

  abbrev pub async_max_seconds : ℕ
  async_max_seconds = seconds 3600 host.async_max

  abbrev pub dispute_window_seconds : ℕ
  dispute_window_seconds = seconds 0 host.dispute_window

  -- a job is added to its queue; that the queue refuses it is caught and ignored
  unfoldable pub enqueue : Job → World V → World V
  enqueue job w = if host.queue_down job w.now then w else record w { jobs = w.jobs ++ job ∷ [] }
