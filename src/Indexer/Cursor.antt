-- ===== src/Indexer/Cursor.antt =====
-- A round of the indexer's loop, and the cursor that it leaves.
use clevercon.Prelude.{
  ℕ, ◌+◌, ◌≡◌, refl, sym, ap, All, first_eq, ◌∙◌, true, Option, none, List, [], ◌∷◌, String, inl,
  inr, Bool, false, some, Option-cases, Bool-cases, subst,
}
use text.Mathlib.Text.{◌==◌ as str_eq}
use clevercon.Indexer.{
  NormalizedEvent, Db, Values, Commit, Persisted, stored, failed, Response, put_cursor, has_cursor,
  get_cursor, stream_key, persist_from, persist_events, advance, poll,
}
use clevercon.Indexer.Once.{commit_cases, Reach, here, next, transact, resume_at, Step}
use clevercon.Indexer.Recovery.{
  Fault, persist_from_threw, persist_from_duplicate, persist_from_applied, persist_from-stored,
  added,
}

pair_eq : {A B : Type 0} {q : A × B} {a : A} → q.0 ≡ a → q ≡ (a, q.1)
pair_eq {q = (x, y)} h = ap (λ x. (x, y)) h

module _ (values : Values) where
  persist_from-Reach :
      (fault : Fault) (n : ℕ) (es : List NormalizedEvent) (s t : Db)
      → Reach values s t
      → Reach values s (persist_from values fault n es t).1
  persist_from-Reach fault n [] s t r = unfold persist_from in r
  persist_from-Reach fault n (e ∷ es) s t r = elim (commit_cases values fault e t) [
    | inl (x, c) ↦ rw (persist_from_threw values fault n e es t t x c) r
    | inr (inl (c, _)) ↦
        rw (persist_from_duplicate values fault n e es t t c) (persist_from-Reach fault n es s t r)
    | inr (inr (rows, c, _, _)) ↦ rw (persist_from_applied values fault n e es t _ c) (
        persist_from-Reach fault (n + 1) es s _
          (next r (subst (λ (p : Commit × Db). Step values t p.1) c (transact fault e))))
  ]

  advance-Reach :
      (cursor_fault : Bool) (c : Option String) (s : Db) (r : Persisted × Db)
      → Reach values s r.1
      → Reach values s (advance values cursor_fault c r)
  advance-Reach true c s (p, t) h = h
  advance-Reach false none s (p, t) h = h
  advance-Reach false (some c) s (failed m, t) h = h
  advance-Reach false (some c) s (stored n, t) h = elim (Bool-cases (str_eq c "")) [
    | inl e ↦ rw e h
    | inr e ↦ rw e (next h (resume_at (put_cursor stream_key c t.indexer_state)))
  ]

  -- a pass over a list of events does not write the cursor
  persist_from-state :
      (fault : Fault) (n : ℕ) (es : List NormalizedEvent) (s : Db)
      → (persist_from values fault n es s).1.indexer_state ≡ s.indexer_state
  unfolding persist_from
  persist_from-state fault n [] s = refl
  persist_from-state fault n (e ∷ es) s = elim (commit_cases values fault e s) [
    | inl (x, c) ↦ rw (persist_from_threw values fault n e es s s x c) refl
    | inr (inl (c, _)) ↦
        rw (persist_from_duplicate values fault n e es s s c) (persist_from-state fault n es s)
    | inr (inr (rows, c, _, _)) ↦
        rw (persist_from_applied values fault n e es s _ c) (persist_from-state fault (n + 1) es _)
  ]

  abbrev pub IsStored : Db → NormalizedEvent → Type 0
  IsStored t e = has_cursor e.cursor t.chain_events ≡ true

  -- A pass that goes through has stored every event.
  persist_from-stores :
      (fault : Fault) (n : ℕ) (es : List NormalizedEvent) (s t : Db) {k : ℕ}
      → persist_from values fault n es s ≡ (stored k, t)
      → All (IsStored t) es
  persist_from-stores fault n [] s t h = tt
  persist_from-stores fault n (e ∷ es) s t h = elim (commit_cases values fault e s) [
    | inl (x, c) ↦ cc (first_eq (sym (persist_from_threw values fault n e es s s x c) ∙ h))
    | inr (inl (c, f)) ↦
        let rest = sym (persist_from_duplicate values fault n e es s s c) ∙ h in
        (
          subst (λ (p : Persisted × Db). IsStored p.1 e) rest
              (persist_from-stored values fault n es e.cursor s f),
          persist_from-stores fault n es s t rest,
        )
    | inr (inr (rows, c, _, _)) ↦
        let rest = sym (persist_from_applied values fault n e es s _ c) ∙ h in
        (
          subst (λ (p : Persisted × Db). IsStored p.1 e) rest
              (persist_from-stored values fault (n + 1) es e.cursor _ (added values e s)),
          persist_from-stores fault (n + 1) es _ t rest,
        )
  ]

  -- What a round does to the cursor: nothing, or it moves to the one that the server answered with
  -- the events, all of which are stored.
  pub data Cursor (server : Option String → Option Response) (s s' : Db) : Type 0 where
    stays : s'.indexer_state ≡ s.indexer_state → Cursor server s s'
    moves :
        (r : Response) (c : String)
        → server (get_cursor stream_key s.indexer_state) ≡ some r
        → r.cursor ≡ some c
        → s'.indexer_state ≡ put_cursor stream_key c s.indexer_state
        → All (IsStored s') r.events
        → Cursor server s s'

  advance-Cursor :
      (cursor_fault : Bool) (server : Option String → Option Response) (c : Option String)
      (r : Response) (s : Db) (q : Persisted × Db)
      → server (get_cursor stream_key s.indexer_state) ≡ some r
      → r.cursor ≡ c
      → q.1.indexer_state ≡ s.indexer_state
      → ((k : ℕ) → q.0 ≡ stored k → All (IsStored q.1) r.events)
      → Cursor server s (advance values cursor_fault c q)
  advance-Cursor true server c r s (p, t) a b e h = stays e
  advance-Cursor false server none r s (p, t) a b e h = stays e
  advance-Cursor false server (some c) r s (failed m, t) a b e h = stays e
  advance-Cursor false server (some c) r s (stored n, t) a b e h = elim (Bool-cases (str_eq c "")) [
    | inl f ↦ rw f (stays e)
    | inr f ↦ rw f (moves r c a b (ap (put_cursor stream_key c) e) (h n refl))
  ]

  -- A round of an indexer's loop, whatever the server answers and wherever the database fails, is
  -- a sequence of single transactions and writes of the cursor, and the cursor it leaves is the one
  -- it found, or the one that the server answered together with events that are then all stored: an
  -- event that could not be stored is not passed over.
  pub poll-Reach :
      (fault : NormalizedEvent → Option String) (cursor_fault : Bool)
      (server : Option String → Option Response) (s : Db)
      → Reach values s (poll values fault cursor_fault server s)
        × Cursor server s (poll values fault cursor_fault server s)
  unfolding poll persist_events
  poll-Reach fault cursor_fault server s =
      elim (Option-cases (server (get_cursor stream_key s.indexer_state))) [
        | inl e ↦ rw (e, poll) (here, stays refl)
        | inr (r, e) ↦
            rw (e, poll)
              (
                advance-Reach cursor_fault r.cursor s _
                    (persist_from-Reach fault 0 r.events s s here),
                advance-Cursor cursor_fault server r.cursor r s
                    (persist_from values fault 0 r.events s) e refl
                    (persist_from-state fault 0 r.events s)
                    (λ k h. persist_from-stores fault 0 r.events s _ (pair_eq h)),
              )
      ]
