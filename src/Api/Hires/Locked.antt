-- ===== src/Api/Hires/Locked.antt =====
-- What a hire writes, with the lock of its budget, and what it answers.
use clevercon.Prelude.{
  ℕ, ◌≡◌, refl, sym, ap, ◌∙◌, true, false, ◌&&◌, Option, none, some, List, [], ◌∷◌, ◌++◌, arith,
  Option-cases, Bool-cases, inl, inr, ◌==◌, subst, find-holds, if◌then◌else◌, find,
}
use clevercon.Store.Rows.{Task}
use clevercon.Store.Tables.{World, find_task, update_task}
use clevercon.Api.{Api, ApiHost, PolicyRow}
use clevercon.Api.Hires.{
  CreateTaskParams, HireIds, own_policy, hire_task, LockHost, locked_row, after_lock,
  delegate_registered, lock_under, lock_on_chain, lock_bounded,
}

update_task-append :
    (k : ℕ) (f : Task → Task) (ts : List Task) (t : Task)
    → find_task k ts ≡ none
    → t.id ≡ k
    → update_task k f (ts ++ t ∷ []) ≡ ts ++ f t ∷ []
unfolding update_task find_task
update_task-append k f [] t h e = ground arith
update_task-append k f (x ∷ ts) t h e = ground (arith, update_task-append k f ts t)

-- The policy with the id, and the buyer's own.
abbrev IsOwn : (user id : ℕ) → List PolicyRow → PolicyRow → Type 0
IsOwn user id ps p =
    (find (λ (p : PolicyRow). p.id == id && p.user_id == user) ps ≡ some p) × (p.user_id ≡ user)

own_policy-IsOwn :
    (user id : ℕ) (ps : List PolicyRow) (p : PolicyRow)
    → own_policy user id ps ≡ some p
    → IsOwn user id ps p
unfolding own_policy
own_policy-IsOwn user id ps p h =
    let e = find-holds (λ (p : PolicyRow). p.id == id && p.user_id == user) ps h in
    (h, ground arith)

module _ {V : Type 0} (lock : LockHost V) where
  -- the new row once the lock has answered
  abbrev pub row_after : PolicyRow → Option ℕ → Task → Task
  row_after p none t = t
  row_after p (some vault_task) t = if lock.update_fails then t else locked_row vault_task p t

  -- How the budget of a row was locked: not tried, or tried under the stored policy with the id,
  -- the buyer's own, by the buyer's registered delegate and for the whole budget.
  pub data Locking (user : ℕ) (ps : List PolicyRow) (policy : Option ℕ) (t : Task) (w : World V)
      (t' : Task) (v' : V) : Type 0 where
    untried : t' ≡ t → v' ≡ w.vault → Locking user ps policy t w t' v'
    tried :
        (id : ℕ) (p : PolicyRow) (key : ℕ)
        → policy ≡ some id
        → IsOwn user id ps p
        → delegate_registered user w ≡ true
        → lock.keypair_for user ≡ some key
        → v' ≡ (lock.create_task_with_policy key t.budget p.commitment w.vault).1
        → t' ≡ row_after p (lock.create_task_with_policy key t.budget p.commitment w.vault).0 t
        → Locking user ps policy t w t' v'

  -- What locking the last row of a table leaves.
  pub record Locked (user : ℕ) (ps : List PolicyRow) (policy : Option ℕ) (ts : List Task) (t : Task)
      (w w' : World V) : Type 0 where
    pub row : Task
    pub tasks_now : w'.tasks ≡ ts ++ row ∷ []
    pub locking : Locking user ps policy t w row w'.vault
    pub same_steps : w'.steps ≡ w.steps
    pub same_payments : w'.payments ≡ w.payments
    pub same_jobs : w'.jobs ≡ w.jobs
    pub same_time : w'.now ≡ w.now

  left_alone :
      (user : ℕ) (ps : List PolicyRow) (policy : Option ℕ) (ts : List Task) (t : Task) (w : World V)
      → w.tasks ≡ ts ++ t ∷ []
      → Locked user ps policy ts t w w
  left_alone user ps policy ts t w e = record {
    row = t;
    tasks_now = e;
    locking = untried refl refl;
    same_steps = refl;
    same_payments = refl;
    same_jobs = refl;
    same_time = refl;
  }

  written :
      (user id : ℕ) (ps : List PolicyRow) (key : ℕ) (ts us : List Task) (t row : Task)
      (p : PolicyRow) (w : World V) (o : Option ℕ) (v : V)
      → us ≡ ts ++ row ∷ []
      → row ≡ row_after p o t
      → IsOwn user id ps p
      → delegate_registered user w ≡ true
      → lock.keypair_for user ≡ some key
      → lock.create_task_with_policy key t.budget p.commitment w.vault ≡ (o, v)
      → Locked user ps (some id) ts t w (record w { vault = v; tasks = us })
  written user id ps key ts us t row p w o v e r own reg k c = record {
    row = row;
    tasks_now = e;
    locking =
        tried id p key refl own reg k (ap (λ x. x.1) (sym c))
          (r ∙ ap (λ (x : Option ℕ × V). row_after p x.0 t) (sym c));
    same_steps = refl;
    same_payments = refl;
    same_jobs = refl;
    same_time = refl;
  }

  after_lock_unsaved :
      (task vt : ℕ) (p : PolicyRow) (w : World V) (v : V)
      → lock.update_fails ≡ true
      → record w { vault = v } ≡ after_lock lock task p (some vt, v) w
  after_lock_unsaved task vt p w v u = rw u refl

  after_lock_saved :
      (task vt : ℕ) (p : PolicyRow) (w : World V) (v : V)
      → lock.update_fails ≡ false
      → record w { vault = v; tasks = update_task task (locked_row vt p) w.tasks }
        ≡ after_lock lock task p (some vt, v) w
  after_lock_saved task vt p w v u = rw u refl

  after_lock-Locked :
      (user id : ℕ) (ps : List PolicyRow) (key : ℕ) (ts : List Task) (t : Task) (p : PolicyRow)
      (w : World V) (o : Option ℕ × V)
      → w.tasks ≡ ts ++ t ∷ []
      → find_task t.id ts ≡ none
      → IsOwn user id ps p
      → delegate_registered user w ≡ true
      → lock.keypair_for user ≡ some key
      → lock.create_task_with_policy key t.budget p.commitment w.vault ≡ o
      → Locked user ps (some id) ts t w (after_lock lock t.id p o w)
  after_lock-Locked user id ps key ts t p w (none, v) e f own reg k c =
      written user id ps key ts w.tasks t t p w none v e refl own reg k c
  after_lock-Locked user id ps key ts t p w (some vt, v) e f own reg k c =
      elim (Bool-cases lock.update_fails) [
        | inl u ↦
            subst (Locked user ps (some id) ts t w) (after_lock_unsaved t.id vt p w v u)
              (written user id ps key ts w.tasks t t p w (some vt) v e (rw u refl) own reg k c)
        | inr u ↦ subst (Locked user ps (some id) ts t w) (after_lock_saved t.id vt p w v u) (
            written user id ps key ts (update_task t.id (locked_row vt p) w.tasks) t
              (locked_row vt p t) p w (some vt) v
              (ap (update_task t.id (locked_row vt p)) e
                ∙ update_task-append t.id (locked_row vt p) ts t f refl)
              (rw u refl) own reg k c)
      ]

  lock_under-Locked :
      (user id : ℕ) (ps : List PolicyRow) (ts : List Task) (t : Task) (o : Option PolicyRow)
      (w : World V)
      → w.tasks ≡ ts ++ t ∷ []
      → find_task t.id ts ≡ none
      → ((p : PolicyRow) → o ≡ some p → IsOwn user id ps p)
      → Locked user ps (some id) ts t w (lock_under lock user t.id t.budget o w)
  lock_under-Locked user id ps ts t none w e f own = left_alone user ps (some id) ts t w e
  lock_under-Locked user id ps ts t (some p) w e f own =
      elim (Bool-cases (delegate_registered user w)) [
        | inr r ↦ rw r (left_alone user ps (some id) ts t w e)
        | inl r ↦ elim (Option-cases (lock.keypair_for user)) [
          | inl k ↦ rw (r, k) (left_alone user ps (some id) ts t w e)
          | inr (key, k) ↦
              rw (r, k)
                (after_lock-Locked user id ps key ts t p w
                  (lock.create_task_with_policy key t.budget p.commitment w.vault) e f (own p refl)
                  r k refl)
        ]
      ]

module _ (host : ApiHost) {V : Type 0} (lock : LockHost V) where
  lock_on_chain-Locked :
      (user policy : ℕ) (ts : List Task) (t : Task) (s : Api V)
      → s.world.tasks ≡ ts ++ t ∷ []
      → find_task t.id ts ≡ none
      → Locked lock user s.policies
          (some policy)
          ts
          t
          s.world
          (lock_on_chain host lock user t.id policy t.budget s).world
  unfolding lock_on_chain
  lock_on_chain-Locked user policy ts t s e f =
      elim (Bool-cases (host.vault_active && lock.delegates_available)) [
        | inl a ↦ rw a (
            lock_under-Locked lock user policy s.policies ts t (own_policy user policy s.policies)
              s.world e f (own_policy-IsOwn user policy s.policies))
        | inr a ↦ rw a (left_alone lock user s.policies (some policy) ts t s.world e)
      ]

  pub lock_bounded-Locked :
      (user : ℕ) (params : CreateTaskParams) (ids : HireIds) (ts : List Task) (q : Option ℕ × Api V)
      → q.1.world.tasks ≡ ts ++ hire_task user params ids ∷ []
      → find_task ids.task ts ≡ none
      → Locked lock user q.1.policies q.0 ts
          (hire_task user params ids)
          q.1.world
          (lock_bounded host lock user params ids q).world
  lock_bounded-Locked user params ids ts (none, s) e f =
      left_alone lock user s.policies none ts (hire_task user params ids) s.world e
  lock_bounded-Locked user params ids ts (some policy, s) e f =
      lock_on_chain-Locked user policy ts (hire_task user params ids) s e f

  pub lock_bounded-policies :
      (user : ℕ) (params : CreateTaskParams) (ids : HireIds) (q : Option ℕ × Api V)
      → (lock_bounded host lock user params ids q).policies ≡ q.1.policies
  unfolding lock_on_chain
  lock_bounded-policies user params ids (none, s) = refl
  lock_bounded-policies user params ids (some policy, s) =
      elim (Bool-cases (host.vault_active && lock.delegates_available)) [
        | inl a ↦ rw a refl
        | inr a ↦ rw a refl
      ]
