-- ===== src/Indexer/Books.antt =====
-- What the mirror of an account adds up to, from the moment that it has a row.
use clevercon.Prelude.{
  ◌≡◌, refl, ◌+◌, ◌&&◌, some, List, [], ◌∷◌, String, arith, Option-cases, Bool-cases, inl, inr,
  if◌then◌else◌, subst, sym, some_subst,
}
use clevercon.Prelude.Int.{ℤ, pos, pos_part, neg_part, ◌+ℤ◌, ◌-ℤ◌, +ℤ_parts, -ℤ_parts, eq_of_parts}
use mathlib.Core.Path.{fun_ext}
use text.Mathlib.Text.{◌==◌ as str_eq}
use text.Mathlib.TextEquality.{eq_iff}
use clevercon.Indexer.{
  NormalizedEvent, VaultAccount, Values, Movement, deposits, withdraws, opens, closes, Reading,
  ignored, invalid, moves, find_account, upsert_account, deposit, withdraw, open_task, close_task,
  apply_movement, read_event, project_reading, project_vault_event,
}
use clevercon.Indexer.Once.{project_all}

projected :
    (values : Values) (d : NormalizedEvent) (es : List NormalizedEvent) (rows : List VaultAccount)
    {mid last : List VaultAccount}
    → project_vault_event values d rows ≡ some mid
    → project_all values (d ∷ es) rows ≡ some last
    → project_all values es mid ≡ some last
projected values d es rows {mid} {last} n e = ground arith

-- What a movement adds to each of an account's sums.
abbrev pub deposited : Movement → ℤ
deposited (deposits n) = n
deposited _ = pos 0

abbrev pub withdrawn : Movement → ℤ
withdrawn (withdraws n) = n
withdrawn _ = pos 0

abbrev pub planned : Movement → ℤ
planned (opens n) = n
planned _ = pos 0

abbrev pub spent : Movement → ℤ
spent (closes s r) = s
spent _ = pos 0

abbrev pub refunded : Movement → ℤ
refunded (closes s r) = r
refunded _ = pos 0

abbrev pub opened : Movement → ℤ
opened (opens n) = pos 1
opened _ = pos 0

abbrev pub closed : Movement → ℤ
closed (closes s r) = pos 1
closed _ = pos 0

-- The part of an event that concerns an account.
abbrev pub share : (Movement → ℤ) → (address asset : String) → Reading → ℤ
share f address asset ignored = pos 0
share f address asset invalid = pos 0
share f address asset (moves x y m) = if str_eq x address && str_eq y asset then f m else pos 0

module _ (values : Values) where
  abbrev pub total : (Movement → ℤ) → (address asset : String) → List NormalizedEvent → ℤ
  total f address asset [] = pos 0
  total f address asset (e ∷ es) =
      share f address asset (read_event values e) +ℤ total f address asset es

-- The books of an account, between two of its rows and over the sums of what happened.
pub record Balances (a b : VaultAccount) (sum : (Movement → ℤ) → ℤ) : Type 0 where
  pub balance : b.balance +ℤ sum withdrawn +ℤ sum spent ≡ a.balance +ℤ sum deposited
  pub locked : b.locked +ℤ (sum spent +ℤ sum refunded) ≡ a.locked +ℤ sum planned
  pub total_deposited : b.total_deposited ≡ a.total_deposited +ℤ sum deposited
  pub total_spent : b.total_spent ≡ a.total_spent +ℤ sum spent
  pub active_tasks : b.active_tasks +ℤ sum closed ≡ a.active_tasks +ℤ sum opened

find_account-upsert :
    (x y p q : String) (create : VaultAccount) (update : VaultAccount → VaultAccount)
    (rows : List VaultAccount) {a : VaultAccount}
    → ((r : VaultAccount) → (update r).address ≡ r.address)
    → ((r : VaultAccount) → (update r).asset ≡ r.asset)
    → find_account p q rows ≡ some a
    → find_account p q (upsert_account x y create update rows)
      ≡ some (if str_eq x p && str_eq y q then update a else a)
unfolding find_account upsert_account
find_account-upsert x y p q create update [] k l h = cc
find_account-upsert x y p q create update (r ∷ rows) {a} k l h = ground (
  arith,
  eq_iff r.address x,
  eq_iff r.asset y,
  eq_iff r.address p,
  eq_iff r.asset q,
  eq_iff x p,
  eq_iff y q,
  k r,
  l r,
  find_account-upsert x y p q create update rows {a = a} k l,
)

-- The update of a row by a movement.
abbrev moved : Movement → VaultAccount → VaultAccount
moved (deposits n) a = record a {
  balance = a.balance +ℤ n;
  total_deposited = a.total_deposited +ℤ n;
}
moved (withdraws n) a = record a { balance = a.balance -ℤ n }
moved (opens n) a = record a { locked = a.locked +ℤ n; active_tasks = a.active_tasks +ℤ pos 1 }
moved (closes s r) a = record a {
  locked = a.locked -ℤ (s +ℤ r);
  balance = a.balance -ℤ s;
  total_spent = a.total_spent +ℤ s;
  active_tasks = a.active_tasks -ℤ pos 1;
}

find_account-apply :
    (x y p q : String) (m : Movement) (rows : List VaultAccount) {a : VaultAccount}
    → find_account p q rows ≡ some a
    → find_account p q (apply_movement x y m rows)
      ≡ some (if str_eq x p && str_eq y q then moved m a else a)
unfolding deposit withdraw open_task close_task
find_account-apply x y p q (deposits n) rows h =
    find_account-upsert x y p q _ _ rows (λ r. refl) (λ r. refl) h
find_account-apply x y p q (withdraws n) rows h =
    find_account-upsert x y p q _ _ rows (λ r. refl) (λ r. refl) h
find_account-apply x y p q (opens n) rows h =
    find_account-upsert x y p q _ _ rows (λ r. refl) (λ r. refl) h
find_account-apply x y p q (closes s r) rows h =
    find_account-upsert x y p q _ _ rows (λ r. refl) (λ r. refl) h

-- An equation of integers in a form that is linear in the parts.
same_parts : {x y : ℤ} → x ≡ y → pos_part x + neg_part y ≡ pos_part y + neg_part x
same_parts {x} {y} e = rw e (omega arith)

ruleset parts = (arith, +ℤ_parts, -ℤ_parts)

module _ (a b : VaultAccount) (f g : (Movement → ℤ) → ℤ) where
  balance_moved :
      (n : Movement)
      → ((m : Movement → ℤ) → g m ≡ m n +ℤ f m)
      → b.balance +ℤ f withdrawn +ℤ f spent ≡ (moved n a).balance +ℤ f deposited
      → b.balance +ℤ g withdrawn +ℤ g spent ≡ a.balance +ℤ g deposited
  balance_moved (deposits n) e h = eq_of_parts _ _ (
      omega (
        parts,
        same_parts h,
        same_parts (e withdrawn),
        same_parts (e spent),
        same_parts (e deposited),
      ))
  balance_moved _ e h = eq_of_parts _ _ (
      omega (
        parts,
        same_parts h,
        same_parts (e withdrawn),
        same_parts (e spent),
        same_parts (e deposited),
      ))

  locked_moved :
      (n : Movement)
      → ((m : Movement → ℤ) → g m ≡ m n +ℤ f m)
      → b.locked +ℤ (f spent +ℤ f refunded) ≡ (moved n a).locked +ℤ f planned
      → b.locked +ℤ (g spent +ℤ g refunded) ≡ a.locked +ℤ g planned
  locked_moved (deposits n) e h = eq_of_parts _ _ (
      omega (
        parts,
        same_parts h,
        same_parts (e refunded),
        same_parts (e spent),
        same_parts (e planned),
      ))
  locked_moved _ e h = eq_of_parts _ _ (
      omega (
        parts,
        same_parts h,
        same_parts (e refunded),
        same_parts (e spent),
        same_parts (e planned),
      ))

  total_deposited_moved :
      (n : Movement)
      → ((m : Movement → ℤ) → g m ≡ m n +ℤ f m)
      → b.total_deposited ≡ (moved n a).total_deposited +ℤ f deposited
      → b.total_deposited ≡ a.total_deposited +ℤ g deposited
  total_deposited_moved (deposits n) e h =
      eq_of_parts _ _ (omega (parts, same_parts h, same_parts (e deposited)))
  total_deposited_moved _ e h =
      eq_of_parts _ _ (omega (parts, same_parts h, same_parts (e deposited)))

  total_spent_moved :
      (n : Movement)
      → ((m : Movement → ℤ) → g m ≡ m n +ℤ f m)
      → b.total_spent ≡ (moved n a).total_spent +ℤ f spent
      → b.total_spent ≡ a.total_spent +ℤ g spent
  total_spent_moved (deposits n) e h =
      eq_of_parts _ _ (omega (parts, same_parts h, same_parts (e spent)))
  total_spent_moved _ e h = eq_of_parts _ _ (omega (parts, same_parts h, same_parts (e spent)))

  active_tasks_moved :
      (n : Movement)
      → ((m : Movement → ℤ) → g m ≡ m n +ℤ f m)
      → b.active_tasks +ℤ f closed ≡ (moved n a).active_tasks +ℤ f opened
      → b.active_tasks +ℤ g closed ≡ a.active_tasks +ℤ g opened
  active_tasks_moved (deposits n) e h =
      eq_of_parts _ _ (omega (parts, same_parts h, same_parts (e closed), same_parts (e opened)))
  active_tasks_moved _ e h =
      eq_of_parts _ _ (omega (parts, same_parts h, same_parts (e closed), same_parts (e opened)))

  Balances-moved :
      (n : Movement)
      → ((m : Movement → ℤ) → g m ≡ m n +ℤ f m)
      → Balances (moved n a) b f
      → Balances a b g
  Balances-moved n e h = record {
    balance = balance_moved n e h.balance;
    locked = locked_moved n e h.locked;
    total_deposited = total_deposited_moved n e h.total_deposited;
    total_spent = total_spent_moved n e h.total_spent;
    active_tasks = active_tasks_moved n e h.active_tasks;
  }

zero_add_ℤ : (z : ℤ) → pos 0 +ℤ z ≡ z
zero_add_ℤ z = eq_of_parts _ _ (omega parts)

-- Sums to which an event adds nothing.
Balances-same :
    (a b : VaultAccount) (f : (Movement → ℤ) → ℤ)
    → Balances a b f
    → Balances a b (λ m. pos 0 +ℤ f m)
Balances-same a b f h = subst (Balances a b) (fun_ext (λ m. sym (zero_add_ℤ (f m)))) h

-- The row of an account after an event, and how the books go on from it.
abbrev Goes : (p q : String) → Reading → List VaultAccount → VaultAccount → Type 0
Goes p q r rows a =
    (a' : VaultAccount) × (find_account p q rows ≡ some a')
    × ((b : VaultAccount) (f : (Movement → ℤ) → ℤ)
        → Balances a' b f
        → Balances a b (λ m. share m p q r +ℤ f m))

goes :
    (values : Values) (p q : String) (r : Reading) (rows rows' : List VaultAccount)
    (a : VaultAccount)
    → find_account p q rows ≡ some a
    → project_reading values r rows ≡ some rows'
    → Goes p q r rows' a
goes values p q ignored rows rows' a h e =
    (a, some_subst (λ l. find_account p q l ≡ some a) e h, λ b f. Balances-same a b f)
goes values p q invalid rows rows' a h e = cc
goes values p q (moves x y m) rows rows' a h e =
    let found =
      some_subst
        (λ l. find_account p q l ≡ some (if str_eq x p && str_eq y q then moved m a else a)) e
        (find_account-apply x y p q m rows h) in
    elim (Bool-cases (str_eq x p && str_eq y q)) [
      | inl c ↦ (
        moved m a,
        rw c at found,
        λ b f k. Balances-moved a b f (λ n. share n p q (moves x y m) +ℤ f n) m (λ n. rw c refl) k,
      )
      | inr c ↦ (a, rw c at found, λ b f k. rw c (Balances-same a b f k))
    ]

module _ (values : Values) (p q : String) where
  -- From any moment at which an account has a row, through any list of events that are projected,
  -- its row stands, and its columns have changed by the events that name the account: the balance
  -- by deposits less withdrawals and spent amounts, the locked amount by plan costs less spent and
  -- refunded amounts, the two totals and the number of active tasks accordingly.
  pub project_all-Balances :
      (es : List NormalizedEvent) (rows rows' : List VaultAccount) (a : VaultAccount)
      → find_account p q rows ≡ some a
      → project_all values es rows ≡ some rows'
      → (b : VaultAccount) × (find_account p q rows' ≡ some b)
        × Balances a b (λ m. total values m p q es)
  project_all-Balances [] rows rows' a h e = (
    a,
    some_subst (λ l. find_account p q l ≡ some a) e h,
    record {
      balance = eq_of_parts _ _ (omega parts);
      locked = eq_of_parts _ _ (omega parts);
      total_deposited = eq_of_parts _ _ (omega parts);
      total_spent = eq_of_parts _ _ (omega parts);
      active_tasks = eq_of_parts _ _ (omega parts);
    },
  )
  project_all-Balances (d ∷ es) rows rows' a h e =
      elim (Option-cases (project_vault_event values d rows)) [
        | inl n ↦ ground arith
        | inr (mid, n) ↦
            let (a', found, go) =
              goes values p q (read_event values d) rows mid a h
                (unfold project_vault_event in n) in
            let (b, last, books) =
              project_all-Balances es mid rows' a' found (projected values d es rows n e) in
            (b, last, go b (λ m. total values m p q es) books)
      ]
