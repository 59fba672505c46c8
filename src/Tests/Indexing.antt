-- ===== src/Tests/Indexing.antt =====
-- Runs of the indexer.
use clevercon.Prelude.{◌≡◌, refl, false, Option, none, some, List, [], ◌∷◌, String, if◌then◌else◌}
use clevercon.Prelude.Int.{pos}
use text.Mathlib.Text.{◌==◌ as str_eq}
use clevercon.Json.{str, arr, obj, prop, end, cons, nil, get, lookup, nullish_or}
use clevercon.Indexer.{
  NormalizedEvent, VaultAccount, Db, Values, Response, new_account, find_account, read_event,
  project_vault_event, commit, persist_events, poll, deposit, withdraw,
}
use clevercon.Indexer.Once.{IsExact, Reach, here, next, transact, Reach-IsExact}
use clevercon.Indexer.Recovery.{no_fault, persist_events_resumes}
use clevercon.Indexer.Cursor.{poll-Reach, Cursor}
use clevercon.Indexer.Books.{Balances, total, project_all-Balances}

abbrev values : Values
values = record { show = λ v. "v"; decimal = λ v. some (pos 5) }

-- a deposit or a withdrawal of five stroops by the account `GA`
abbrev moved : (type cursor : String) → NormalizedEvent
moved type cursor = record {
  contract_id = "CV";
  type = type;
  ledger = 7;
  tx_hash = "t";
  cursor = cursor;
  payload = obj (
      prop "topics" (arr (cons (str "GA") (cons (str "USDC") nil)))
        (prop "data" (obj (prop "amount" (str "5") end)) end));
}

abbrev empty : Db
empty = record { chain_events = []; vault_accounts = []; indexer_state = [] }

empty-IsExact : IsExact values empty
empty-IsExact = record { distinct = tt; mirrored = refl }

abbrev once : Db
once = (commit values no_fault (moved "deposit_event" "c1") empty).1

-- two indexers that meet the same event
abbrev twice : Db
twice = (commit values no_fault (moved "deposit_event" "c1") once).1

Reach-IsExact_example : IsExact values twice
Reach-IsExact_example =
    Reach-IsExact values empty twice
      (next (next here (transact no_fault (moved "deposit_event" "c1")))
        (transact no_fault (moved "deposit_event" "c1")))
      empty-IsExact

abbrev events : List NormalizedEvent
events = moved "deposit_event" "c1" ∷ moved "withdraw_event" "c2" ∷ []

-- the second event meets a fault of the database
abbrev breaks : NormalizedEvent → Option String
breaks e = if str_eq e.cursor "c2" then some "down" else none

abbrev server : Option String → Option Response
server c = some (record { events = events; cursor = some "c2" })

poll-Reach_example :
    Reach values empty (poll values breaks false server empty)
    × Cursor values server empty (poll values breaks false server empty)
poll-Reach_example = poll-Reach values breaks false server empty

persist_events_resumes_example :
    (persist_events values no_fault events (persist_events values breaks events empty).1).1
    ≡ (persist_events values no_fault events empty).1
persist_events_resumes_example = persist_events_resumes values breaks events empty

abbrev account : VaultAccount
account = record (new_account "GA" "USDC") { balance = pos 9 }

abbrev later : List VaultAccount
later = withdraw "GA" "USDC" (pos 5) (deposit "GA" "USDC" (pos 5) (account ∷ []))

project_all-Balances_example :
    (b : VaultAccount) × (find_account "GA" "USDC" later ≡ some b)
    × Balances account b (λ m. total values m "GA" "USDC" events)
unfolding find_account project_vault_event read_event get lookup nullish_or
project_all-Balances_example =
    project_all-Balances values "GA" "USDC" events (account ∷ []) later account refl refl
