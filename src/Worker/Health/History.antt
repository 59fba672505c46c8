-- ===== src/Worker/Health/History.antt =====
-- What the sweeps make of a service, over its history of answers.
use clevercon.Prelude.{
  ℕ, ◌+◌, ◌≡◌, ◌≤◌, refl, ◌∙◌, Bool, true, false, not, Option, some, List, [], ◌∷◌, ◌==◌, leb,
  if◌then◌else◌, arith, Bool-cases, inl, inr, find, any, select,
}
use clevercon.Worker.Health.{
  HealthRow, SweepResult, Probe, is_reachable, is_listable, recovered, failed_again, update_row,
  probe, probe_all, sweep_health,
}

abbrev pub find_row : ℕ → List HealthRow → Option HealthRow
find_row k = find (λ (r : HealthRow). r.id == k)

abbrev has_row : ℕ → List HealthRow → Bool
has_row k = any (λ (r : HealthRow). r.id == k)

-- The primary key of the table.
abbrev pub HasDistinctIds : List HealthRow → Type 0
HasDistinctIds [] = Unit
HasDistinctIds (r ∷ rs) = (has_row r.id rs ≡ false) × HasDistinctIds rs

find_row-update :
    (k j : ℕ) (f : HealthRow → HealthRow) (rows : List HealthRow) {r : HealthRow}
    → ((r : HealthRow) → (f r).id ≡ r.id)
    → find_row k rows ≡ some r
    → find_row k (update_row j f rows) ≡ some (if j == k then f r else r)
unfolding update_row
find_row-update k j f [] keep e = cc
find_row-update k j f (x ∷ rows) {r} keep e =
    ground (arith, keep x, keep r, find_row-update k j f rows {r = r} keep)

has_row-find :
    (k : ℕ) (rows : List HealthRow) {r : HealthRow}
    → find_row k rows ≡ some r
    → has_row k rows ≡ true
has_row-find k [] e = cc
has_row-find k (x ∷ rows) {r} e = ground (arith, has_row-find k rows {r = r})

find_row-id : (k : ℕ) (rows : List HealthRow) {r : HealthRow} → find_row k rows ≡ some r → r.id ≡ k
find_row-id k [] e = cc
find_row-id k (x ∷ rows) {r} e = ground (arith, find_row-id k rows {r = r})

find_row-select :
    (k : ℕ) (rows : List HealthRow) {r : HealthRow}
    → find_row k rows ≡ some r
    → is_listable r ≡ true
    → find_row k (select is_listable rows) ≡ some r
find_row-select k [] e l = cc
find_row-select k (x ∷ rows) {r} e l = ground (arith, find_row-select k rows {r = r})

has_row-select :
    (k : ℕ) (rows : List HealthRow)
    → has_row k rows ≡ false
    → has_row k (select is_listable rows) ≡ false
has_row-select k [] e = refl
has_row-select k (x ∷ rows) e = ground (arith, has_row-select k rows)

HasDistinctIds-select :
    (rows : List HealthRow) → HasDistinctIds rows → HasDistinctIds (select is_listable rows)
HasDistinctIds-select [] h = tt
HasDistinctIds-select (x ∷ rows) h = elim (Bool-cases (is_listable x)) [
  | inl e ↦ rw e (has_row-select x.id rows h.0, HasDistinctIds-select rows h.1)
  | inr e ↦ rw e (HasDistinctIds-select rows h.1)
]

has_row-update :
    (k j : ℕ) (f : HealthRow → HealthRow) (rows : List HealthRow)
    → ((r : HealthRow) → (f r).id ≡ r.id)
    → has_row k (update_row j f rows) ≡ has_row k rows
unfolding update_row
has_row-update k j f [] keep = refl
has_row-update k j f (x ∷ rows) keep = ground (arith, keep x, has_row-update k j f rows keep)

HasDistinctIds-update :
    (j : ℕ) (f : HealthRow → HealthRow) (rows : List HealthRow)
    → ((r : HealthRow) → (f r).id ≡ r.id)
    → HasDistinctIds rows
    → HasDistinctIds (update_row j f rows)
unfolding update_row
HasDistinctIds-update j f [] keep d = tt
HasDistinctIds-update j f (x ∷ rows) keep d = elim (Bool-cases (x.id == j)) [
  | inl e ↦ rw e (
    rw (keep x) (has_row-update x.id j f rows keep ∙ d.0),
    HasDistinctIds-update j f rows keep d.1,
  )
  | inr e ↦ rw e (has_row-update x.id j f rows keep ∙ d.0, HasDistinctIds-update j f rows keep d.1)
]

module _ (limit time : ℕ) (answer : ℕ → Probe) where
  -- What one probe makes of the row that it has read.
  abbrev pub probed : HealthRow → HealthRow
  probed r =
      if is_reachable (answer r.id)
      then recovered time r
      else failed_again limit r.health_failures r

  probe_other :
      (k : ℕ) (s : HealthRow) (n : SweepResult × List HealthRow) {r : HealthRow}
      → (s.id == k) ≡ false
      → find_row k n.1 ≡ some r
      → find_row k (probe limit time answer s n).1 ≡ some r
  unfolding probe
  probe_other k s (n, rows) {r} e f = ground (
    arith,
    find_row-update k s.id (recovered time) rows {r = r} (λ r. refl),
    find_row-update k s.id (failed_again limit s.health_failures) rows {r = r} (λ r. refl),
  )

  probe_own :
      (k : ℕ) (n : SweepResult × List HealthRow) (r : HealthRow)
      → (r.id == k) ≡ true
      → find_row k n.1 ≡ some r
      → find_row k (probe limit time answer r n).1 ≡ some (probed r)
  unfolding probe
  probe_own k (n, rows) r e f = ground (
    arith,
    find_row-update k r.id (recovered time) rows {r = r} (λ r. refl),
    find_row-update k r.id (failed_again limit r.health_failures) rows {r = r} (λ r. refl),
  )

  probe_all_absent :
      (k : ℕ) (ss : List HealthRow) (n : SweepResult × List HealthRow) {r : HealthRow}
      → has_row k ss ≡ false
      → find_row k n.1 ≡ some r
      → find_row k (probe_all limit time answer ss n).1 ≡ some r
  unfolding probe_all
  probe_all_absent k [] n e f = f
  probe_all_absent k (s ∷ ss) n {r} e f =
      probe_all_absent k ss (probe limit time answer s n) {r = r} (ground arith)
        (probe_other k s n {r = r} (ground arith) f)

  probe_all_once :
      (k : ℕ) (ss : List HealthRow) (n : SweepResult × List HealthRow) (r : HealthRow)
      → HasDistinctIds ss
      → find_row k ss ≡ some r
      → find_row k n.1 ≡ some r
      → find_row k (probe_all limit time answer ss n).1 ≡ some (probed r)
  unfolding probe_all
  probe_all_once k [] n r d e f = cc
  probe_all_once k (s ∷ ss) n r d e f = elim (Bool-cases (s.id == k)) [
    | inl own ↦
        let same : s ≡ r = ground arith in
        let absent : has_row k ss ≡ false = ground (arith, d.0) in
        probe_all_absent k ss (probe limit time answer s n) absent
          (rw same (probe_own k n r (rw same at own) f))
    | inr other ↦
        probe_all_once k ss (probe limit time answer s n) r d.1 (rw other at e)
          (probe_other k s n other f)
  ]

  sweep-probed :
      (k : ℕ) (rows : List HealthRow) (r : HealthRow)
      → HasDistinctIds rows
      → find_row k rows ≡ some r
      → is_listable r ≡ true
      → find_row k (sweep_health limit time answer rows).1 ≡ some (probed r)
  unfolding sweep_health
  sweep-probed k rows r d e l =
      probe_all_once k (select is_listable rows) _ r (HasDistinctIds-select rows d)
        (find_row-select k rows e l) e

  has_row-probe_all :
      (k : ℕ) (ss : List HealthRow) (n : SweepResult × List HealthRow)
      → has_row k (probe_all limit time answer ss n).1 ≡ has_row k n.1
  unfolding probe_all probe
  has_row-probe_all k [] n = refl
  has_row-probe_all k (s ∷ ss) (n, rows) = elim (Bool-cases (is_reachable (answer s.id))) [
    | inl e ↦
        has_row-probe_all k ss (probe limit time answer s (n, rows))
        ∙ rw (e, probe) (has_row-update k s.id (recovered time) rows (λ r. refl))
    | inr e ↦
        has_row-probe_all k ss (probe limit time answer s (n, rows))
        ∙ rw (e, probe)
            (has_row-update k s.id (failed_again limit s.health_failures) rows (λ r. refl))
  ]

  HasDistinctIds-probe_all :
      (ss : List HealthRow) (n : SweepResult × List HealthRow)
      → HasDistinctIds n.1
      → HasDistinctIds (probe_all limit time answer ss n).1
  unfolding probe_all probe
  HasDistinctIds-probe_all [] n d = d
  HasDistinctIds-probe_all (s ∷ ss) (n, rows) d = elim (Bool-cases (is_reachable (answer s.id))) [
    | inl e ↦
        HasDistinctIds-probe_all ss (probe limit time answer s (n, rows))
          (rw (e, probe) (HasDistinctIds-update s.id (recovered time) rows (λ r. refl) d))
    | inr e ↦ HasDistinctIds-probe_all ss (probe limit time answer s (n, rows)) (
        rw (e, probe)
          (HasDistinctIds-update s.id (failed_again limit s.health_failures) rows (λ r. refl) d))
  ]

sweep-distinct :
    (limit time : ℕ) (answer : ℕ → Probe) (rows : List HealthRow)
    → HasDistinctIds rows
    → HasDistinctIds (sweep_health limit time answer rows).1
unfolding sweep_health
sweep-distinct limit time answer rows d =
    HasDistinctIds-probe_all limit time answer (select is_listable rows) _ d

probed_listable :
    (limit time : ℕ) (answer : ℕ → Probe) (r : HealthRow)
    → is_listable r ≡ true
    → is_listable (probed limit time answer r) ≡ true
probed_listable limit time answer r e = elim (Bool-cases (is_reachable (answer r.id))) [
  | inl f ↦ rw f e
  | inr f ↦ rw f e
]

-- The sweeps in turn, each at its time and with its answers.
abbrev pub sweeps : ℕ → List (ℕ × (ℕ → Probe)) → List HealthRow → List HealthRow
sweeps limit [] rows = rows
sweeps limit ((time, answer) ∷ history) rows =
    sweeps limit history (sweep_health limit time answer rows).1

-- The failures in a row at the end of a history, after those counted before it.
abbrev pub trailing : (id failures : ℕ) → List (ℕ × (ℕ → Probe)) → ℕ
trailing k n [] = n
trailing k n ((time, answer) ∷ history) =
    trailing k (if is_reachable (answer k) then 0 else n + 1) history

-- The directory shows a service unless it has failed as often in a row as the limit says.
abbrev pub IsShownRightly : ℕ → HealthRow → Type 0
IsShownRightly limit r = r.healthy ≡ not (leb limit r.health_failures)

probed-IsShownRightly :
    (limit time : ℕ) (answer : ℕ → Probe) (r : HealthRow)
    → 1 ≤ limit
    → IsShownRightly limit r
    → IsShownRightly limit (probed limit time answer r)
probed-IsShownRightly limit time answer r l h = ground arith

-- Over any history of sweeps, a listable service counts its failures since it last answered and
-- is shown exactly while these are below the limit; so it is hidden after that many failures in a
-- row, and shown again by the first answer.
pub sweeps-shown :
    (limit k : ℕ) (history : List (ℕ × (ℕ → Probe))) (rows : List HealthRow) (r : HealthRow)
    → 1 ≤ limit
    → HasDistinctIds rows
    → find_row k rows ≡ some r
    → is_listable r ≡ true
    → IsShownRightly limit r
    → (r' : HealthRow) × (find_row k (sweeps limit history rows) ≡ some r')
      × (r'.health_failures ≡ trailing k r.health_failures history)
      × (r'.healthy ≡ not (leb limit (trailing k r.health_failures history)))
sweeps-shown limit k [] rows r l d e s h = (r, e, refl, h)
sweeps-shown limit k ((time, answer) ∷ history) rows r l d e s h =
    let next = probed limit time answer r in
    let rows' = (sweep_health limit time answer rows).1 in
    let count : next.health_failures
        ≡ (if is_reachable (answer k) then 0 else r.health_failures + 1) =
      ground (arith, find_row-id k rows e) in
    let (r', found, failures, shown) =
      sweeps-shown limit k history rows' next l (sweep-distinct limit time answer rows d)
        (sweep-probed limit time answer k rows r d e s) (probed_listable limit time answer r s)
        (probed-IsShownRightly limit time answer r l h) in
    (r', found, rw count at failures, rw count at shown)
