-- ===== src/Indexer.antt =====
-- services/indexer/src/indexer.ts: the events of the vault are stored and projected into the
-- mirror of its accounts, each in one transaction that the unique cursor guards.
-- Amounts are in stroops, ten-millionths of a USDC: the code divides by ten million on the way in,
-- and the columns keep seven digits.
pub mod Once
pub mod Recovery
pub mod Cursor
pub mod Books
use clevercon.Prelude.{
  ℕ, ◌+◌, Bool, true, false, ◌&&◌, ◌||◌, Option, none, some, List, [], ◌∷◌, ◌++◌, String, any, find,
  if◌then◌else◌,
}
use clevercon.Prelude.Int.{ℤ, pos, ◌+ℤ◌, ◌-ℤ◌}
use clevercon.Json.{Json, arr, str, undefined, null, elems, get, nullish_or}
use text.Mathlib.Text.{◌==◌ as str_eq}

pub record NormalizedEvent : Type 0 where
  pub contract_id : String
  pub type : String
  pub ledger : ℕ
  pub tx_hash : String
  pub cursor : String
  pub payload : Json

-- `VaultAccount`
pub record VaultAccount : Type 0 where
  pub address : String
  pub asset : String
  pub balance : ℤ
  pub locked : ℤ
  pub total_deposited : ℤ
  pub total_spent : ℤ
  pub active_tasks : ℤ

-- The tables that the indexer writes.
pub record Db : Type 0 where
  pub chain_events : List NormalizedEvent
  pub vault_accounts : List VaultAccount
  pub indexer_state : List (String × String)

-- What the code takes from JavaScript and Prisma: `String(v)` of a value that is no text, and
-- `new Prisma.Decimal(v)` of a number of stroops, none where it throws.
pub record Values : Type 0 where
  pub show : Json → String
  pub decimal : Json → Option ℤ

abbrev pub first_item : List Json → Json
first_item [] = undefined
first_item (v ∷ vs) = v

abbrev pub second_item : List Json → Json
second_item [] = undefined
second_item (v ∷ vs) = first_item vs

abbrev pub items : Json → List Json
items (arr xs) = elems xs
items v = []

abbrev pub is_nullish : Json → Bool
is_nullish undefined = true
is_nullish null = true
is_nullish v = false

abbrev pub is_row : String → String → VaultAccount → Bool
is_row address asset a = str_eq a.address address && str_eq a.asset asset

unfoldable pub find_account : String → String → List VaultAccount → Option VaultAccount
find_account address asset = find (is_row address asset)

-- `upsert({ where: { address_asset }, create, update })`
unfoldable pub upsert_account :
    (address asset : String)
    → VaultAccount
    → (VaultAccount → VaultAccount)
    → List VaultAccount
    → List VaultAccount
upsert_account address asset create update [] = create ∷ []
upsert_account address asset create update (a ∷ rows) =
    let rest = upsert_account address asset create update rows in
    if is_row address asset a then update a ∷ rows else a ∷ rest

-- a row with the columns' defaults
abbrev pub new_account : String → String → VaultAccount
new_account address asset = record {
  address = address;
  asset = asset;
  balance = pos 0;
  locked = pos 0;
  total_deposited = pos 0;
  total_spent = pos 0;
  active_tasks = pos 0;
}

unfoldable pub deposit : String → String → ℤ → List VaultAccount → List VaultAccount
deposit address asset amount =
    upsert_account address asset
      (record (new_account address asset) { balance = amount; total_deposited = amount })
      λ a. record a { balance = a.balance +ℤ amount; total_deposited = a.total_deposited +ℤ amount }

unfoldable pub withdraw : String → String → ℤ → List VaultAccount → List VaultAccount
withdraw address asset amount =
    upsert_account address asset (new_account address asset)
      λ a. record a { balance = a.balance -ℤ amount }

unfoldable pub open_task : String → String → ℤ → List VaultAccount → List VaultAccount
open_task address asset plan_cost =
    upsert_account address asset
      (record (new_account address asset) { locked = plan_cost; active_tasks = pos 1 })
      λ a. record a { locked = a.locked +ℤ plan_cost; active_tasks = a.active_tasks +ℤ pos 1 }

unfoldable pub close_task :
    String → String → (spent refund : ℤ) → List VaultAccount → List VaultAccount
close_task address asset spent refund =
    upsert_account address asset (new_account address asset) λ a. record a {
      locked = a.locked -ℤ (spent +ℤ refund);
      balance = a.balance -ℤ spent;
      total_spent = a.total_spent +ℤ spent;
      active_tasks = a.active_tasks -ℤ pos 1;
    }

-- What an event says of an account: the branches of `projectVaultEvent`.
pub data Movement : Type 0 where
  deposits withdraws opens : (amount : ℤ) → Movement
  closes : (spent refund : ℤ) → Movement

pub data Reading : Type 0 where
  ignored invalid : Reading
  moves : (address asset : String) → Movement → Reading

abbrev pub apply_movement : String → String → Movement → List VaultAccount → List VaultAccount
apply_movement address asset (deposits amount) = deposit address asset amount
apply_movement address asset (withdraws amount) = withdraw address asset amount
apply_movement address asset (opens amount) = open_task address asset amount
apply_movement address asset (closes spent refund) = close_task address asset spent refund

abbrev pub moves_by : String → String → (ℤ → Movement) → Option ℤ → Reading
moves_by address asset f none = invalid
moves_by address asset f (some n) = moves address asset (f n)

abbrev pub closes_by : String → String → Option ℤ → Option ℤ → Reading
closes_by address asset (some spent) (some refund) = moves address asset (closes spent refund)
closes_by address asset spent refund = invalid

-- How the transaction of one event ends; a duplicate is the error P2002.
pub data Commit : Type 0 where
  applied duplicate : Commit
  threw : (message : String) → Commit

pub data Persisted : Type 0 where
  stored : (applied : ℕ) → Persisted
  failed : (message : String) → Persisted

-- the `catch`: a duplicate goes on, any other error leaves the loop
abbrev pub after_commit :
    Commit × Db → (Db → Persisted × Db) → (Db → Persisted × Db) → Persisted × Db
after_commit (applied, t) more again = more t
after_commit (duplicate, t) more again = again t
after_commit (threw msg, t) more again = (failed msg, t)

-- What `getEvents` answers: the decoded events and the cursor to go on from.
pub record Response : Type 0 where
  pub events : List NormalizedEvent
  pub cursor : Option String

unfoldable pub has_cursor : String → List NormalizedEvent → Bool
has_cursor c = any (λ (e : NormalizedEvent). str_eq e.cursor c)

-- `getCursor`, `setCursor`
unfoldable pub get_cursor : String → List (String × String) → Option String
get_cursor key [] = none
get_cursor key ((k, c) ∷ rows) = if str_eq k key then some c else get_cursor key rows

unfoldable pub put_cursor : String → String → List (String × String) → List (String × String)
put_cursor key cursor [] = (key, cursor) ∷ []
put_cursor key cursor ((k, c) ∷ rows) =
    let rest = put_cursor key cursor rows in
    if str_eq k key then (k, cursor) ∷ rows else (k, c) ∷ rest

abbrev pub stream_key : String
stream_key = "vault"

module _ (values : Values) where
  -- `String(v ?? '')`
  abbrev pub text_of : Json → String
  text_of (str s) = s
  text_of undefined = ""
  text_of null = ""
  text_of v = values.show v

  -- `usdc(v)`, in stroops
  abbrev pub usdc : Json → Option ℤ
  usdc v = values.decimal (nullish_or v (str "0"))

  -- the reads of `projectVaultEvent`
  unfoldable pub read_event : NormalizedEvent → Reading
  read_event e =
      let topics = items (get "topics" e.payload) in
      let details = get "data" e.payload in
      let address = text_of (first_item topics) in
      let asset = text_of (second_item topics) in
      let held = text_of (get "asset" details) in
      let raw = get "amount" details in
      if str_eq e.type "deposit_event" || str_eq e.type "withdraw_event"
      then (if str_eq address "" || str_eq asset "" || is_nullish raw
          then ignored
          else if str_eq e.type "deposit_event"
          then moves_by address asset deposits (usdc raw)
          else moves_by address asset withdraws (usdc raw))
      else if str_eq e.type "task_new_event" || str_eq e.type "task_done_event"
      then (if str_eq address "" || str_eq held ""
          then ignored
          else if str_eq e.type "task_new_event"
          then moves_by address held opens (usdc (get "plan_cost" details))
          else closes_by address held (usdc (get "spent" details)) (usdc (get "refund" details)))
      else ignored

  -- `projectVaultEvent`; none where a malformed amount throws
  abbrev pub project_reading : Reading → List VaultAccount → Option (List VaultAccount)
  project_reading ignored rows = some rows
  project_reading invalid rows = none
  project_reading (moves address asset m) rows = some (apply_movement address asset m rows)

  unfoldable pub project_vault_event :
      NormalizedEvent → List VaultAccount → Option (List VaultAccount)
  project_vault_event e = project_reading (read_event e)

  -- A fault of the database rolls the transaction of an event back.
  unfoldable pub commit : (NormalizedEvent → Option String) → NormalizedEvent → Db → Commit × Db
  commit fault e s = elim (fault e) [
    | some msg ↦ (threw msg, s)
    | none ↦
        if has_cursor e.cursor s.chain_events
        then (duplicate, s)
        else elim (project_vault_event e s.vault_accounts) [
          | none ↦ (threw "[DecimalError] Invalid argument", s)
          | some rows ↦
              (applied, record s { chain_events = s.chain_events ++ e ∷ []; vault_accounts = rows })
        ]
  ]

  -- the loop of `persistEvents`, with the number applied
  unfoldable pub persist_from :
      (NormalizedEvent → Option String) → ℕ → List NormalizedEvent → Db → Persisted × Db
  persist_from fault n [] s = (stored n, s)
  persist_from fault n (e ∷ es) s =
      after_commit (commit fault e s) (λ t. persist_from fault (n + 1) es t)
        (λ t. persist_from fault n es t)

  unfoldable pub persist_events :
      (NormalizedEvent → Option String) → List NormalizedEvent → Db → Persisted × Db
  persist_events fault = persist_from fault 0

  -- `if (res.cursor) await indexer.setCursor(…)`, which may fail too
  abbrev pub advance : (cursor_fault : Bool) → Option String → Persisted × Db → Db
  advance false (some c) (stored n, s) =
      if str_eq c ""
      then s
      else record s { indexer_state = put_cursor stream_key c s.indexer_state }
  advance f c (r, s) = s

  -- One round of the loop of services/indexer/src/index.ts; none where `getEvents` fails.
  unfoldable pub poll :
      (NormalizedEvent → Option String)
      → (cursor_fault : Bool) → (Option String → Option Response)
      → Db
      → Db
  poll fault cursor_fault server s = elim (server (get_cursor stream_key s.indexer_state)) [
    | none ↦ s
    | some r ↦ advance cursor_fault r.cursor (persist_events fault r.events s)
  ]
