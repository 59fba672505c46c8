-- ===== src/Indexer/Once.antt =====
-- Each event is stored and projected once, whatever the indexers do in turn: the tables under
-- commits, faults, replays and any interleaving of polls.
use clevercon.Prelude.{
  ◌≡◌, refl, true, false, ◌||◌, Option, none, some, List, [], ◌∷◌, ◌++◌, String, arith,
  Option-cases, Bool-cases, inl, inr, ◌⊎◌,
}
use text.Mathlib.Text.{◌==◌ as str_eq}
use text.Mathlib.TextEquality.{eq_iff}
use clevercon.Indexer.{
  NormalizedEvent, VaultAccount, Db, Values, applied, duplicate, threw, has_cursor,
  project_vault_event, commit,
}

str_eq_sym : (s t : String) → str_eq s t ≡ str_eq t s
str_eq_sym s t = ground (arith, eq_iff s t, eq_iff t s)

pub has_cursor-append :
    (c : String) (e : NormalizedEvent) (es : List NormalizedEvent)
    → has_cursor c (es ++ e ∷ []) ≡ (has_cursor c es || str_eq e.cursor c)
unfolding has_cursor
has_cursor-append c e [] = ground arith
has_cursor-append c e (d ∷ es) = ground (arith, has_cursor-append c e es)

-- The unique index on `ChainEvent.cursor`.
abbrev pub HasDistinctCursors : List NormalizedEvent → Type 0
HasDistinctCursors [] = Unit
HasDistinctCursors (e ∷ es) = (has_cursor e.cursor es ≡ false) × HasDistinctCursors es

HasDistinctCursors-append :
    (e : NormalizedEvent) (es : List NormalizedEvent)
    → HasDistinctCursors es
    → has_cursor e.cursor es ≡ false
    → HasDistinctCursors (es ++ e ∷ [])
unfolding has_cursor
HasDistinctCursors-append e [] h f = (refl, tt)
HasDistinctCursors-append e (d ∷ es) h f = ground (
  arith,
  HasDistinctCursors-append e es h.1,
  has_cursor-append d.cursor e es,
  str_eq_sym e.cursor d.cursor,
)

module _ (values : Values) where
  -- What a list of events comes to, each projected once and in its order.
  abbrev pub project_all : List NormalizedEvent → List VaultAccount → Option (List VaultAccount)
  project_all [] rows = some rows
  project_all (e ∷ es) rows = elim (project_vault_event values e rows) [
    | none ↦ none
    | some rows' ↦ project_all es rows'
  ]

  project_all-append :
      (e : NormalizedEvent) (es : List NormalizedEvent) (rows : List VaultAccount)
      {mid last : List VaultAccount}
      → project_all es rows ≡ some mid
      → project_vault_event values e mid ≡ some last
      → project_all (es ++ e ∷ []) rows ≡ some last
  project_all-append e [] rows {mid} {last} h g = ground arith
  project_all-append e (d ∷ es) rows {mid} {last} h g =
      elim (Option-cases (project_vault_event values d rows)) [
        | inl n ↦ ground arith
        | inr (rows', n) ↦ ground (arith, project_all-append e es rows' {mid = mid} {last = last})
      ]

  -- The mirror shows exactly the stored events, and no event is stored twice.
  pub record IsExact (s : Db) : Type 0 where
    pub distinct : HasDistinctCursors s.chain_events
    pub mirrored : project_all s.chain_events [] ≡ some s.vault_accounts

  -- The ends of a transaction.
  pub commit_cases :
      (fault : NormalizedEvent → Option String) (e : NormalizedEvent) (s : Db)
      → ((m : String) × (commit values fault e s ≡ (threw m, s)))
        ⊎ ((commit values fault e s ≡ (duplicate, s)) × (has_cursor e.cursor s.chain_events ≡ true))
        ⊎ ((rows : List VaultAccount) × (commit values fault e s ≡ (
          applied,
          record s { chain_events = s.chain_events ++ e ∷ []; vault_accounts = rows },
        ))
            × (has_cursor e.cursor s.chain_events ≡ false)
            × (project_vault_event values e s.vault_accounts ≡ some rows))
  unfolding commit
  commit_cases fault e s = elim (Option-cases (fault e)) [
    | inr (m, f) ↦ inl (m, rw (f, commit) refl)
    | inl f ↦ elim (Bool-cases (has_cursor e.cursor s.chain_events)) [
      | inl c ↦ inr (inl (rw (f, c, commit) refl, c))
      | inr c ↦ elim (Option-cases (project_vault_event values e s.vault_accounts)) [
        | inl p ↦ inl ("[DecimalError] Invalid argument", rw (f, c, p, commit) refl)
        | inr (rows, p) ↦ inr (inr (rows, rw (f, c, p, commit) refl, c, p))
      ]
    ]
  ]

  commit-IsExact :
      (fault : NormalizedEvent → Option String) (e : NormalizedEvent) (s : Db)
      → IsExact s
      → IsExact (commit values fault e s).1
  commit-IsExact fault e s h = elim (commit_cases fault e s) [
    | inl (m, c) ↦ rw c h
    | inr (inl (c, _)) ↦ rw c h
    | inr (inr (rows, c, fresh, p)) ↦ rw c (record {
      distinct = HasDistinctCursors-append e s.chain_events h.distinct fresh;
      mirrored = project_all-append e s.chain_events [] h.mirrored p;
    })
  ]

  -- What any of the indexers may do next: the transaction of an event, at any fault, or a write of
  -- the cursor to resume from.
  pub data Step (s : Db) : Db → Type 0 where
    transact :
        (fault : NormalizedEvent → Option String) (e : NormalizedEvent)
        → Step s (commit values fault e s).1
    resume_at : (rows : List (String × String)) → Step s (record s { indexer_state = rows })

  pub data Reach (s : Db) : Db → Type 0 where
    here : Reach s s
    next : {t u : Db} → Reach s t → Step t u → Reach s u

  Step-IsExact : {s t : Db} → Step s t → IsExact s → IsExact t
  Step-IsExact {s} (transact fault e) h = commit-IsExact fault e s h
  Step-IsExact (resume_at rows) h = record { distinct = h.distinct; mirrored = h.mirrored }

  -- From tables whose mirror is exact, through any interleaving of the transactions and cursor
  -- writes of any number of indexers, with any faults, the mirror is exact: the stored events have
  -- distinct cursors, and the accounts are what projecting each stored event once, in the order of
  -- storage, comes to.
  pub Reach-IsExact : (s t : Db) → Reach s t → IsExact s → IsExact t
  Reach-IsExact s t here h = h
  Reach-IsExact s t (next {t = m} r st) h = Step-IsExact st (Reach-IsExact s m r h)
