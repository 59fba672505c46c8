-- ===== src/Worker/Execute.antt =====
-- services/workers/src/executor.ts: the acceptance of a delivery, and what it and its failure
-- write. The ids of rows are numbers here. A write of the database is taken to succeed, other
-- than that of a job handle that is no text.
pub mod Accept
pub mod Taken
pub mod Task
pub mod Poll
pub mod Release
use clevercon.Prelude.{
  ℕ, zero, suc, ◌+◌, ◌-◌, ◌*◌, ◌/◌, Bool, true, false, not, ◌&&◌, ◌||◌, Option, none, some, List,
  [], ◌∷◌, String, ltb, ◌==◌, if◌then◌else◌, find, is_some, or_else,
}
use clevercon.Prelude.Int.{ℤ}
use text.Mathlib.Text.{◌==◌ as str_eq}
use Prim.Native.String.{◌++◌ as ◌+++◌}
use clevercon.Json.{
  Json, undefined, null, bool, num, str, arr, obj, Props, end, prop, get, truthy, nullish_or,
  is_object, is_bool, is_num, is_str, is_text,
}
use clevercon.Store.Rows.{Step, StepStatus, Service, Tier, Reputation, Verification}
use clevercon.Store.Tables.{World, Job, update_step, update_reputation}
use clevercon.Service.Js.{Js}
use clevercon.Service.Verify.{Check, passed, deferred, refused, faulted, validate_schema}
use clevercon.Service.Verify.Delivery.{verify_delivery}
use clevercon.Worker.Env.{truthy_id, nonempty}
use clevercon.Worker.Host.{Host, enqueue, async_poll_seconds}

-- A result, or an error that is thrown with a message.
pub data Thrown (A : Type 0) : Type 0 where
  good : A → Thrown A
  thrown : String → Thrown A

abbrev pub is_tier : Tier → Option Tier → Bool
is_tier Tier.t1 (some Tier.t1) = true
is_tier Tier.t2 (some Tier.t2) = true
is_tier Tier.t3 (some Tier.t3) = true
is_tier _ _ = false

abbrev pub tier_of : Step → Option Tier
tier_of s = elim s.service [ none ↦ none | some v ↦ v.tier ]

abbrev pub endpoint_of : Step → Option String
endpoint_of s = elim s.service [
  | none ↦ none
  | some v ↦ elim v.endpoint [ none ↦ none | some e ↦ nonempty e ]
]

-- `step.input ?? {}`
abbrev pub input_of : Step → Json
input_of s = nullish_or s.input (obj end)

module _ (js : Js) where
  -- `isAcceptableOutput`
  unfoldable pub is_acceptable_output : String → Bool
  is_acceptable_output output =
      let trimmed = js.trim output in
      if str_eq trimmed "" then false else elim (js.parse trimmed) [
        | none ↦ true
        | some parsed ↦ not (truthy parsed && is_object parsed && truthy (get "error" parsed))
      ]

  abbrev pub is_envelope : Json → Bool
  is_envelope parsed =
      truthy parsed
      && is_object parsed
      && is_bool (get "ok" parsed)
      && (is_num (get "issuedAt" parsed) || is_str (get "contentType" parsed))

  abbrev pub wrapped : (ok : Bool) (content_type : String) (body : Json) (time : ℕ) → Json
  wrapped ok content_type body time = obj (
      prop "ok" (bool ok) (
        prop "contentType" (str content_type)
          (prop "data" body (prop "issuedAt" (num (ℤ.pos (time / 1000))) end))))

  -- `parseResultEnvelope`
  unfoldable pub parse_result_envelope : String → (time : ℕ) → Json
  parse_result_envelope text time =
      let trimmed = js.trim text in
      elim (js.parse trimmed) [
        | none ↦ wrapped (not (str_eq trimmed "")) "text/plain" (str trimmed) time
        | some parsed ↦
            if is_envelope parsed then parsed else wrapped true "application/json" parsed time
      ]

  abbrev first_of : List String → String → String
  first_of [] action = action
  first_of (c ∷ cs) action = c

  abbrev with_attachments : Json → Props → Props
  with_attachments (arr xs) ps = prop "attachments" (arr xs) ps
  with_attachments _ ps = ps

  -- `buildBaseRequest`, and the properties that the caller adds
  unfoldable pub build_request : Step → (task : ℕ) → (time : ℕ) → Props → Json
  build_request step task time added =
      let job = num (ℤ.pos step.id) in
      let row = num (ℤ.pos task) in
      let capabilities : List String = elim step.service [ none ↦ [] | some v ↦ v.capabilities ] in
      obj (
        prop "jobId" job (
          prop "taskId" row (
            prop "stepId" job (
              prop "action" (str (first_of capabilities step.action)) (
                prop "input" (input_of step) (
                  with_attachments (get "attachments" (input_of step)) (
                    prop "replyFormat" (str "json") (
                      prop "deadline" (num (ℤ.pos (time / 1000 + 15))) (
                        prop "idempotencyKey" (str ((js.show row +++ ":") +++ js.show job))
                          added)))))))))

  abbrev pub schema_check : Step → Json → Check
  schema_check step envelope = elim step.service [
    | none ↦ passed
    | some v ↦ elim v.output_schema [
      | none ↦ passed
      | some schema ↦ validate_schema js (get "data" envelope) schema
    ]
  ]

  -- the trustless gate of T1
  abbrev pub tier_check : Step → (input envelope : Json) → Check
  tier_check step input envelope = elim step.service [
    | none ↦ passed
    | some v ↦ elim v.verification [
      | none ↦ passed
      | some how ↦
          if is_tier Tier.t1 v.tier then verify_delivery js none [] how input envelope else passed
    ]
  ]

  abbrev pub require : String → Check → Thrown Unit → Thrown Unit
  require what (refused r) next = thrown ((what +++ " failed: ") +++ r)
  require what faulted next = thrown js.type_error
  require what _ next = next

  -- the part of `finalizeDelivery` that may throw
  unfoldable pub accept : Step → (input envelope : Json) (raw : String) → Thrown Unit
  accept step input envelope raw =
      if not (is_acceptable_output raw)
      then thrown "provider output rejected (acceptance check)"
      else require "schema check" (schema_check step envelope)
          (require "verification" (tier_check step input envelope) (good tt))

  abbrev pub stored_output : Json → String
  stored_output envelope = js.take 2000 (elim (get "data" envelope) [
    | str s ↦ s
    | body ↦ js.stringify (nullish_or body (nullish_or (get "artifact" envelope) (str "")))
  ])

-- The new counts and ratings: `score` in tenths, both quotients rounded half up.
unfoldable pub rated : (success : Bool) (latency : ℕ) → Reputation → Reputation
rated success latency r =
    let total = suc r.total_jobs in
    let good = if success then suc r.successful_jobs else r.successful_jobs in
    let bad = if success then r.failed_jobs else suc r.failed_jobs in
    let mean = (2 * (r.avg_latency_ms * r.successful_jobs + latency) + good) / (2 * good) in
    record r {
      total_jobs = total;
      successful_jobs = good;
      failed_jobs = bad;
      score = (100 * good + total) / (2 * total);
      avg_latency_ms = if success then mean else r.avg_latency_ms;
    }

abbrev pub keep_artifact : Json → Json → Json
keep_artifact artifact old = if truthy artifact then artifact else old

module _ {V : Type 0} (host : Host V) where
  -- `recordOutcome`; a service without a row of its reputation is left without one
  unfoldable pub record_outcome :
      Option Service → (success : Bool) (latency : ℕ) → World V → World V
  record_outcome none success latency w = w
  record_outcome (some v) success latency w = record w {
    reputations = update_reputation v.id (rated success latency) w.reputations;
  }

  abbrev pub write_step : ℕ → (Step → Step) → World V → World V
  write_step id f w = record w { steps = update_step id f w.steps }

  abbrev judged : Step → (input output : Json) → World V → World V
  judged step input output w =
      let description : String = elim step.service [
        | none ↦ step.action
        | some v ↦ elim v.description [ none ↦ step.action | some d ↦ d ]
      ] in
      elim (host.judge description step.action input output) [
        | none ↦ w
        | some (rating, note) ↦
            write_step step.id
              (λ s. record s { quality_rating = some rating; quality_note = nonempty note }) w
      ]

  -- the held branch
  unfoldable pub hold : Step → (input envelope : Json) (latency window : ℕ) → World V → World V
  hold step input envelope latency window w =
      let windowed = is_tier Tier.t2 (tier_of step) && ltb 0 window in
      let due = w.now + window * 1000 in
      let parked =
        write_step step.id
          (λ s. record s {
            status = StepStatus.awaiting_approval;
            output = some (stored_output host.js envelope);
            latency_ms = some latency;
            error = none;
            release_at = if windowed then some due else s.release_at;
            artifact = keep_artifact (get "artifact" envelope) s.artifact;
          })
          w in
      let signalled =
        judged step input (get "data" envelope) (record_outcome step.service true latency parked) in
      if windowed
      then enqueue host (Job.release_step step.id (window * 1000)) signalled
      else signalled

  -- the other branch: the step is released, and settled if its task is locked
  unfoldable pub release_now :
      Step → (vault_task : Option ℕ) (envelope : Json) (latency : ℕ) → World V → World V
  release_now step vault_task envelope latency w =
      let released = record_outcome step.service true latency (
        write_step step.id
          (λ s. record s {
            status = StepStatus.released;
            output = some (stored_output host.js envelope);
            latency_ms = some latency;
            error = none;
            artifact = keep_artifact (get "artifact" envelope) s.artifact;
          })
          w) in
      if is_some (truthy_id vault_task) && is_some step.service
      then enqueue host (Job.settle_step step.id) released
      else released

  abbrev pub is_held : Step → (window : ℕ) → Bool
  is_held step window =
      is_tier Tier.t2 (tier_of step) && ltb 0 window || is_tier Tier.t3 (tier_of step)

  abbrev pub after_accept :
      Step
      → (vault_task : Option ℕ) (input envelope : Json) (latency window : ℕ) → World V
      → Thrown Unit
      → Thrown StepStatus × World V
  after_accept step vault_task input envelope latency window w (thrown e) = (thrown e, w)
  after_accept step vault_task input envelope latency window w (good _) =
      if is_held step window
      then (good StepStatus.awaiting_approval, hold step input envelope latency window w)
      else (good StepStatus.released, release_now step vault_task envelope latency w)

  -- `finalizeDelivery`, with the step's new status for 'held' and 'released'
  unfoldable pub finalize_delivery :
      Step
      → (vault_task : Option ℕ) (input envelope : Json) (raw : String) (latency window : ℕ)
      → World V
      → Thrown StepStatus × World V
  finalize_delivery step vault_task input envelope raw latency window w =
      after_accept step vault_task input envelope latency window w
        (accept host.js step input envelope raw)

  -- a `handle` of the envelope as the column takes it: none to keep what is there
  abbrev pub handle_text : Json → Thrown (Option String)
  handle_text undefined = good none
  handle_text null = good none
  handle_text (str s) = good (some s)
  handle_text _ = thrown host.js.prisma_error

  abbrev pub progress_of : Json → Json
  progress_of envelope = if truthy (get "progress" envelope) then get "progress" envelope else null

  abbrev pub poll_job : Step → Job
  poll_job step = Job.poll_step step.id (async_poll_seconds host * 1000)

  -- `parkWorking`
  unfoldable pub park_working : Step → (envelope : Json) → World V → Thrown StepStatus × World V
  park_working step envelope w =
      if not (truthy (get "handle" envelope))
      then (thrown "provider returned working without a job handle", w)
      else elim (handle_text (get "handle" envelope)) [
        | thrown e ↦ (thrown e, w)
        | good handle ↦ (
          good StepStatus.running,
          enqueue host (poll_job step) (
              write_step step.id
                (λ s. record s {
                  status = StepStatus.running;
                  provider_job_handle = handle;
                  progress = progress_of envelope;
                  error = none;
                })
                w),
        )
      ]

  -- `parkInputRequired`
  unfoldable pub park_input_required :
      Step → (envelope : Json) → World V → Thrown StepStatus × World V
  park_input_required step envelope w =
      if not (truthy (get "inputRequest" envelope))
      then (thrown "provider returned input_required without an inputRequest", w)
      else elim (handle_text (get "handle" envelope)) [
        | thrown e ↦ (thrown e, w)
        | good handle ↦ (
          good StepStatus.input_required,
          enqueue host (poll_job step) (
              write_step step.id
                (λ s. record s {
                  status = StepStatus.input_required;
                  input_request = get "inputRequest" envelope;
                  input_response = null;
                  provider_job_handle = or_else handle step.provider_job_handle;
                  progress = progress_of envelope;
                  error = none;
                })
                w),
        )
      ]

  abbrev pub or_zero : Option ℕ → ℕ
  or_zero none = 0
  or_zero (some n) = n

  -- `failStep`
  unfoldable pub fail_step : Step → (message : String) (latency : Option ℕ) → World V → World V
  fail_step step message latency w = record_outcome step.service false (or_zero latency) (
      write_step step.id
        (λ s. record s {
          status = StepStatus.failed;
          error = some message;
          latency_ms = or_else latency s.latency_ms;
        })
        w)

  abbrev pub rejection : Json → String
  rejection envelope =
      if truthy (get "error" envelope)
      then "provider error: " +++ host.js.show (get "error" envelope)
      else "provider delivery rejected"

  abbrev pub is_rejected : Json → Bool
  is_rejected envelope =
      not (truthy (get "ok" envelope)) || is_text "failed" (get "status" envelope)
