-- ===== src/Store/Tables/Laws.antt =====
-- The tables under an update and an insertion.
use clevercon.Prelude.{
  ℕ, ◌≡◌, refl, true, false, ◌||◌, some, List, [], ◌∷◌, ◌++◌, arith, sym, subst,
}
use clevercon.Store.Rows.{Task, Step, Payment, PaymentKey, settle, batch}
use clevercon.Store.Tables.{
  find_task, update_task, find_step, update_step, steps_of, same_key, has_key,
}

-- An update of the row that a query finds, which keeps the id, is found.
pub find_task-update :
    (k : ℕ) (f : Task → Task) (ts : List Task) {t : Task}
    → ((t : Task) → (f t).id ≡ t.id)
    → find_task k ts ≡ some t
    → find_task k (update_task k f ts) ≡ some (f t)
unfolding find_task update_task
find_task-update k f [] keep e = cc
find_task-update k f (s ∷ ts) {t} keep e =
    ground (arith, keep s, keep t, find_task-update k f ts {t = t} keep)

pub find_task-id : (k : ℕ) (ts : List Task) {t : Task} → find_task k ts ≡ some t → t.id ≡ k
unfolding find_task
find_task-id k [] e = cc
find_task-id k (s ∷ ts) {t} e = ground (arith, find_task-id k ts {t = t})

pub find_step-id : (k : ℕ) (ss : List Step) {s : Step} → find_step k ss ≡ some s → s.id ≡ k
unfolding find_step
find_step-id k [] e = cc
find_step-id k (r ∷ ss) {s} e = ground (arith, find_step-id k ss {s = s})

pub same_key_refl : (k : PaymentKey) → same_key k k ≡ true
same_key_refl (settle a) = ground arith
same_key_refl (batch a b c) = ground arith

pub same_key_sym : (k j : PaymentKey) → same_key k j ≡ same_key j k
same_key_sym (settle a) (settle b) = ground arith
same_key_sym (settle a) (batch b c d) = refl
same_key_sym (batch a b c) (settle d) = refl
same_key_sym (batch a b c) (batch a' b' c') = ground arith

-- The key of an added payment is taken, and so is each that was taken before.
pub has_key-append :
    (k : PaymentKey) (p : Payment) (ps : List Payment)
    → has_key k (ps ++ p ∷ []) ≡ (has_key k ps || same_key p.key k)
unfolding has_key
has_key-append k p [] = ground arith
has_key-append k p (q ∷ ps) = ground (arith, has_key-append k p ps)

-- No two payments have one key: the unique index on `Payment.idempotencyKey`.
abbrev pub HasDistinctKeys : List Payment → Type 0
HasDistinctKeys [] = Unit
HasDistinctKeys (p ∷ ps) = (has_key p.key ps ≡ false) × HasDistinctKeys ps

pub HasDistinctKeys-append :
    (p : Payment) (ps : List Payment)
    → HasDistinctKeys ps
    → has_key p.key ps ≡ false
    → HasDistinctKeys (ps ++ p ∷ [])
unfolding has_key
HasDistinctKeys-append p [] h e = (refl, tt)
HasDistinctKeys-append p (q ∷ ps) h e =
    ground
      (arith, HasDistinctKeys-append p ps h.1, has_key-append q.key p ps, same_key_sym p.key q.key)

-- The same where the update names the row that was found.
pub find_task-update_own :
    (k : ℕ) (f : Task → Task) (ts : List Task) (t : Task)
    → ((t : Task) → (f t).id ≡ t.id)
    → find_task k ts ≡ some t
    → find_task k (update_task t.id f ts) ≡ some (f t)
find_task-update_own k f ts t keep e =
    subst (λ j. find_task k (update_task j f ts) ≡ some (f t)) (sym (find_task-id k ts e))
      (find_task-update k f ts keep e)

pub same_key_sound : (k j : PaymentKey) → same_key k j ≡ true → k ≡ j
same_key_sound (settle a) (settle b) h = ground arith
same_key_sound (settle a) (batch b c d) h = cc h
same_key_sound (batch a b c) (settle d) h = cc h
same_key_sound (batch a b c) (batch a' b' c') h = ground arith

pub find_step-update :
    (k : ℕ) (f : Step → Step) (ss : List Step) {s : Step}
    → ((s : Step) → (f s).id ≡ s.id)
    → find_step k ss ≡ some s
    → find_step k (update_step k f ss) ≡ some (f s)
unfolding find_step update_step
find_step-update k f [] keep e = cc
find_step-update k f (r ∷ ss) {s} keep e =
    ground (arith, keep r, keep s, find_step-update k f ss {s = s} keep)

pub find_step-update_own :
    (k : ℕ) (f : Step → Step) (ss : List Step) (s : Step)
    → ((s : Step) → (f s).id ≡ s.id)
    → find_step k ss ≡ some s
    → find_step k (update_step s.id f ss) ≡ some (f s)
find_step-update_own k f ss s keep e =
    subst (λ j. find_step k (update_step j f ss) ≡ some (f s)) (sym (find_step-id k ss e))
      (find_step-update k f ss keep e)

pub steps_of-update :
    (task k : ℕ) (f : Step → Step) (ss : List Step)
    → ((s : Step) → (f s).task_id ≡ s.task_id)
    → steps_of task (update_step k f ss) ≡ update_step k f (steps_of task ss)
unfolding steps_of update_step
steps_of-update task k f [] keep = refl
steps_of-update task k f (s ∷ ss) keep = ground (arith, keep s, steps_of-update task k f ss keep)
