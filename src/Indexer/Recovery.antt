-- ===== src/Indexer/Recovery.antt =====
-- A poll that breaks off is made good by the next one.
use clevercon.Prelude.{
  ℕ, ◌+◌, ◌≡◌, refl, sym, ap, ◌∙◌, true, Option, none, List, [], ◌∷◌, ◌++◌, String, arith, inl, inr,
}
use text.Mathlib.TextPositions.{eq_refl}
use clevercon.Indexer.{
  NormalizedEvent, Db, Values, applied, duplicate, threw, failed, has_cursor, commit, after_commit,
  persist_from, persist_events,
}
use clevercon.Indexer.Once.{has_cursor-append, commit_cases}

abbrev pub Fault : Type 0
Fault = NormalizedEvent → Option String

abbrev pub no_fault : NormalizedEvent → Option String
no_fault e = none

module _ (values : Values) where
  pub persist_from_threw :
      (fault : Fault) (n : ℕ) (e : NormalizedEvent) (es : List NormalizedEvent) (s t : Db)
      (m : String)
      → commit values fault e s ≡ (threw m, t)
      → persist_from values fault n (e ∷ es) s ≡ (failed m, t)
  unfolding persist_from
  persist_from_threw fault n e es s t m h =
      ap
        (λ r.
          after_commit r (λ t. persist_from values fault (n + 1) es t)
            (λ t. persist_from values fault n es t))
        h

  pub persist_from_duplicate :
      (fault : Fault) (n : ℕ) (e : NormalizedEvent) (es : List NormalizedEvent) (s t : Db)
      → commit values fault e s ≡ (duplicate, t)
      → persist_from values fault n (e ∷ es) s ≡ persist_from values fault n es t
  unfolding persist_from
  persist_from_duplicate fault n e es s t h =
      ap
        (λ r.
          after_commit r (λ t. persist_from values fault (n + 1) es t)
            (λ t. persist_from values fault n es t))
        h

  pub persist_from_applied :
      (fault : Fault) (n : ℕ) (e : NormalizedEvent) (es : List NormalizedEvent) (s t : Db)
      → commit values fault e s ≡ (applied, t)
      → persist_from values fault n (e ∷ es) s ≡ persist_from values fault (n + 1) es t
  unfolding persist_from
  persist_from_applied fault n e es s t h =
      ap
        (λ r.
          after_commit r (λ t. persist_from values fault (n + 1) es t)
            (λ t. persist_from values fault n es t))
        h

  commit_again :
      (e : NormalizedEvent) (s : Db)
      → has_cursor e.cursor s.chain_events ≡ true
      → commit values no_fault e s ≡ (duplicate, s)
  unfolding commit
  commit_again e s h = rw (h, commit) refl

  -- The rest of the tables' state does not depend on the count so far.
  persist_from-count :
      (fault : Fault) (n m : ℕ) (es : List NormalizedEvent) (s : Db)
      → (persist_from values fault n es s).1 ≡ (persist_from values fault m es s).1
  persist_from-count fault n m [] s = unfold persist_from in refl
  persist_from-count fault n m (e ∷ es) s = elim (commit_cases values fault e s) [
    | inl (x, c) ↦
        rw (persist_from_threw fault n e es s s x c, persist_from_threw fault m e es s s x c) refl
    | inr (inl (c, _)) ↦
        rw (persist_from_duplicate fault n e es s s c, persist_from_duplicate fault m e es s s c)
          (persist_from-count fault n m es s)
    | inr (inr (rows, c, _, _)) ↦
        rw (persist_from_applied fault n e es s _ c, persist_from_applied fault m e es s _ c)
          (persist_from-count fault (n + 1) (m + 1) es _)
  ]

  -- A stored cursor stays.
  commit-stored :
      (fault : Fault) (e : NormalizedEvent) (c : String) (s : Db)
      → has_cursor c s.chain_events ≡ true
      → has_cursor c (commit values fault e s).1.chain_events ≡ true
  commit-stored fault e c s h = elim (commit_cases values fault e s) [
    | inl (x, k) ↦ rw k h
    | inr (inl (k, _)) ↦ rw k h
    | inr (inr (rows, k, _, _)) ↦ rw (k, has_cursor-append c e s.chain_events, h) refl
  ]

  pub persist_from-stored :
      (fault : Fault) (n : ℕ) (es : List NormalizedEvent) (c : String) (s : Db)
      → has_cursor c s.chain_events ≡ true
      → has_cursor c (persist_from values fault n es s).1.chain_events ≡ true
  unfolding persist_from
  persist_from-stored fault n [] c s h = h
  persist_from-stored fault n (e ∷ es) c s h = elim (commit_cases values fault e s) [
    | inl (x, k) ↦ rw (persist_from_threw fault n e es s s x k) h
    | inr (inl (k, _)) ↦
        rw (persist_from_duplicate fault n e es s s k) (persist_from-stored fault n es c s h)
    | inr (inr (rows, k, _, _)) ↦ rw (persist_from_applied fault n e es s _ k) (
        persist_from-stored fault (n + 1) es c _
          (rw (has_cursor-append c e s.chain_events, h) refl))
  ]

  pub added : (e : NormalizedEvent) (s : Db) → has_cursor e.cursor (s.chain_events ++ e ∷ []) ≡ true
  added e s = ground (arith, has_cursor-append e.cursor e s.chain_events, eq_refl e.cursor)

  passes :
      (m : ℕ) (e : NormalizedEvent) (es : List NormalizedEvent) (s : Db)
      → has_cursor e.cursor s.chain_events ≡ true
      → persist_from values no_fault m (e ∷ es) s ≡ persist_from values no_fault m es s
  passes m e es s h = persist_from_duplicate no_fault m e es s s (commit_again e s h)

  commit_unfaulted :
      (fault : Fault) (e : NormalizedEvent) (s t : Db)
      → commit values fault e s ≡ (applied, t)
      → commit values no_fault e s ≡ (applied, t)
  unfolding commit
  commit_unfaulted fault e s t h = ground arith

  resumes :
      (fault : Fault) (n m k : ℕ) (es : List NormalizedEvent) (s : Db)
      → (persist_from values no_fault m es (persist_from values fault n es s).1).1
        ≡ (persist_from values no_fault k es s).1
  unfolding persist_from
  resumes fault n m k [] s = refl
  resumes fault n m k (e ∷ es) s = elim (commit_cases values fault e s) [
    | inl (x, c) ↦
        ap (λ r. (persist_from values no_fault m (e ∷ es) r.1).1)
          (persist_from_threw fault n e es s s x c)
        ∙ persist_from-count no_fault m k (e ∷ es) s
    | inr (inl (c, h)) ↦
        ap (λ r. (persist_from values no_fault m (e ∷ es) r.1).1)
          (persist_from_duplicate fault n e es s s c)
        ∙ ap (λ r. r.1) (passes m e es _ (persist_from-stored fault n es e.cursor s h))
        ∙ resumes fault n m k es s
        ∙ sym (ap (λ r. r.1) (passes k e es s h))
    | inr (inr (rows, c, _, _)) ↦
        ap (λ r. (persist_from values no_fault m (e ∷ es) r.1).1)
          (persist_from_applied fault n e es s _ c)
        ∙ ap (λ r. r.1)
            (passes m e es _ (persist_from-stored fault (n + 1) es e.cursor _ (added e s)))
        ∙ resumes fault (n + 1) m (k + 1) es _
        ∙ sym (
            ap (λ r. r.1)
              (persist_from_applied no_fault k e es s _ (commit_unfaulted fault e s _ c)))
  ]

  -- However a pass over a list of events broke off, by faults of the database or by a malformed
  -- event, or even if it went through, the same pass without faults then leaves the tables as it
  -- would have left them without the first: nothing is lost and nothing is counted twice.
  pub persist_events_resumes :
      (fault : NormalizedEvent → Option String) (es : List NormalizedEvent) (s : Db)
      → (persist_events values no_fault es (persist_events values fault es s).1).1
        ≡ (persist_events values no_fault es s).1
  unfolding persist_events
  persist_events_resumes fault es s = resumes fault 0 0 0 es s
