-- ===== src/Worker/Health.antt =====
-- services/workers/src/health.ts: the sweep that pings each listable service and hides those that
-- have failed several times in a row. What an endpoint answers is a parameter.
pub mod History
use clevercon.Prelude.{
  ℕ, zero, suc, ◌+◌, Bool, true, false, ◌||◌, Option, none, some, List, [], ◌∷◌, ◌++◌, ◌==◌, leb,
  ltb, if◌then◌else◌, select, map,
}

pub data ServiceStatus : Type 0 where
  active inactive new : ServiceStatus

-- The columns of `Service` that the sweep reads and writes.
pub record HealthRow : Type 0 where
  pub id : ℕ
  pub status : ServiceStatus
  pub healthy : Bool
  pub last_healthy_at : Option ℕ
  pub health_failures : ℕ

pub record SweepResult : Type 0 where
  pub checked : ℕ
  pub healthy : ℕ
  pub unhealthy : ℕ

-- the status that a probe's response has, none if the request fails or times out
abbrev pub Probe : Type 0
Probe = Option ℕ

abbrev pub unhealthy_after : ℕ
unhealthy_after = 3

abbrev pub sweep_concurrency : ℕ
sweep_concurrency = 8

-- `res.status < 500`
unfoldable pub is_reachable : Probe → Bool
is_reachable none = false
is_reachable (some code) = ltb code 500

abbrev pub is_listable : HealthRow → Bool
is_listable r = elim r.status [ ServiceStatus.active ↦ true | ServiceStatus.new ↦ true | _ ↦ false ]

abbrev pub recovered : ℕ → HealthRow → HealthRow
recovered time r = record r { healthy = true; last_healthy_at = some time; health_failures = 0 }

-- the number of failures is counted on from the one that the sweep has read
abbrev pub failed_again : ℕ → (failures : ℕ) → HealthRow → HealthRow
failed_again limit failures r = record r {
  health_failures = failures + 1;
  healthy = if leb limit (failures + 1) then false else r.healthy;
}

unfoldable pub update_row : ℕ → (HealthRow → HealthRow) → List HealthRow → List HealthRow
update_row id f [] = []
update_row id f (r ∷ rs) = (if r.id == id then f r else r) ∷ update_row id f rs

module _ (limit time : ℕ) (answer : ℕ → Probe) where
  -- `probe`; a write that fails is ignored
  unfoldable pub probe : HealthRow → SweepResult × List HealthRow → SweepResult × List HealthRow
  probe s (n, rows) =
      if is_reachable (answer s.id)
      then (
        record n { checked = n.checked + 1; healthy = n.healthy + 1 },
        update_row s.id (recovered time) rows,
      )
      else (
        record n { checked = n.checked + 1; unhealthy = n.unhealthy + 1 },
        update_row s.id (failed_again limit s.health_failures) rows,
      )

  unfoldable pub probe_all :
      List HealthRow → SweepResult × List HealthRow → SweepResult × List HealthRow
  probe_all [] n = n
  probe_all (s ∷ ss) n = probe_all ss (probe s n)

  -- `sweepHealth`: the chunks one after the other; the probes of one chunk write rows of their own,
  -- so that their order within it does not matter
  unfoldable pub sweep_health : List HealthRow → SweepResult × List HealthRow
  sweep_health rows =
      probe_all (select is_listable rows) (record { checked = 0; healthy = 0; unhealthy = 0 }, rows)
