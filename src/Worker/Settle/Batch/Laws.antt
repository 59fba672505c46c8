-- ===== src/Worker/Settle/Batch/Laws.antt =====
-- What a batch settlement leaves on the vault and in the tables, whether it succeeds or fails.
use clevercon.Prelude.{
  ℕ, ◌+◌, ◌≡◌, refl, sym, ap, ◌∙◌, true, ◌||◌, Option, none, some, List, [], ◌∷◌, arith, Bool-cases,
  inl, inr, length,
}
use clevercon.Store.Rows.{Payment, PaymentKey}
use clevercon.Store.Tables.{World, same_key, has_key}
use clevercon.Store.Tables.Laws.{HasDistinctKeys, same_key_refl, same_key_sym, same_key_sound}
use clevercon.Worker.Settle.Batch.{
  BatchSettlePayload, upsert_leg, upsert_legs, record_batch_activity, leg_row, log_legs,
  upsert_batch_task,
}

-- An upsert of a leg keeps the other payments' keys, and takes its own.
has_key-upsert_leg :
    (k : PaymentKey) (row : Payment) (ps : List Payment)
    → has_key k (upsert_leg row ps) ≡ (has_key k ps || same_key row.key k)
unfolding has_key upsert_leg
has_key-upsert_leg k row [] = ground arith
has_key-upsert_leg k row (q ∷ ps) = elim (Bool-cases (same_key q.key row.key)) [
  | inl e ↦
      let same : q.key ≡ row.key = same_key_sound q.key row.key e in
      rw e (rw (sym same) (ground arith))
  | inr e ↦ ground (arith, has_key-upsert_leg k row ps)
]

HasDistinctKeys-upsert_leg :
    (row : Payment) (ps : List Payment) → HasDistinctKeys ps → HasDistinctKeys (upsert_leg row ps)
unfolding upsert_leg has_key
HasDistinctKeys-upsert_leg row [] h = (refl, tt)
HasDistinctKeys-upsert_leg row (q ∷ ps) h = ground (
  arith,
  HasDistinctKeys-upsert_leg row ps h.1,
  has_key-upsert_leg q.key row ps,
  same_key_sym q.key row.key,
)

HasDistinctKeys-upsert_legs :
    (p : BatchSettlePayload) (task tx i : ℕ) (payees amounts : List ℕ) (ps : List Payment)
    → HasDistinctKeys ps
    → HasDistinctKeys (upsert_legs p task tx i payees amounts ps)
unfolding upsert_legs
HasDistinctKeys-upsert_legs p task tx i [] amounts ps h = h
HasDistinctKeys-upsert_legs p task tx i (x ∷ payees) [] ps h = h
HasDistinctKeys-upsert_legs p task tx i (x ∷ payees) (a ∷ amounts) ps h =
    HasDistinctKeys-upsert_legs p task tx (i + 1) payees amounts
      (upsert_leg (leg_row p task tx i x a) ps)
      (HasDistinctKeys-upsert_leg (leg_row p task tx i x a) ps h)

-- The keys of the legs from the i-th on are taken.
abbrev IsLogged : BatchSettlePayload → ℕ → List ℕ → List ℕ → List Payment → Type 0
IsLogged p i (x ∷ payees) (a ∷ amounts) ps =
    (has_key (PaymentKey.batch p.buyer_id p.step_id i) ps ≡ true)
    × IsLogged p (i + 1) payees amounts ps
IsLogged p i _ _ ps = Unit

IsLogged-upsert_leg :
    (p : BatchSettlePayload) (row : Payment) (i : ℕ) (payees amounts : List ℕ) (ps : List Payment)
    → IsLogged p i payees amounts ps
    → IsLogged p i payees amounts (upsert_leg row ps)
IsLogged-upsert_leg p row i [] amounts ps h = tt
IsLogged-upsert_leg p row i (x ∷ payees) [] ps h = tt
IsLogged-upsert_leg p row i (x ∷ payees) (a ∷ amounts) ps h = (
  rw (has_key-upsert_leg (PaymentKey.batch p.buyer_id p.step_id i) row ps, h.0) refl,
  IsLogged-upsert_leg p row (i + 1) payees amounts ps h.1,
)

has_key-upsert_legs :
    (p : BatchSettlePayload) (k : PaymentKey) (task tx i : ℕ) (payees amounts : List ℕ)
    (ps : List Payment)
    → has_key k ps ≡ true
    → has_key k (upsert_legs p task tx i payees amounts ps) ≡ true
unfolding upsert_legs
has_key-upsert_legs p k task tx i [] amounts ps h = h
has_key-upsert_legs p k task tx i (x ∷ payees) [] ps h = h
has_key-upsert_legs p k task tx i (x ∷ payees) (a ∷ amounts) ps h =
    has_key-upsert_legs p k task tx (i + 1) payees amounts (upsert_leg (leg_row p task tx i x a) ps)
      (rw (has_key-upsert_leg k (leg_row p task tx i x a) ps, h) refl)

upsert_legs-IsLogged :
    (p : BatchSettlePayload) (task tx i : ℕ) (payees amounts : List ℕ) (ps : List Payment)
    → IsLogged p i payees amounts (upsert_legs p task tx i payees amounts ps)
unfolding upsert_legs
upsert_legs-IsLogged p task tx i [] amounts ps = tt
upsert_legs-IsLogged p task tx i (x ∷ payees) [] ps = tt
upsert_legs-IsLogged p task tx i (x ∷ payees) (a ∷ amounts) ps =
    let k = PaymentKey.batch p.buyer_id p.step_id i in
    let row = leg_row p task tx i x a in
    let taken : has_key k (upsert_leg row ps) ≡ true =
      has_key-upsert_leg k row ps ∙ ap (λ b. has_key k ps || b) (same_key_refl k) ∙ ground arith in
    (
      has_key-upsert_legs p k task tx (i + 1) payees amounts (upsert_leg row ps) taken,
      upsert_legs-IsLogged p task tx (i + 1) payees amounts (upsert_leg row ps),
    )

length-upsert_leg :
    (row : Payment) (ps : List Payment)
    → has_key row.key ps ≡ true
    → length (upsert_leg row ps) ≡ length ps
unfolding upsert_leg has_key
length-upsert_leg row [] h = cc h
length-upsert_leg row (q ∷ ps) h = ground (arith, length-upsert_leg row ps)

length-upsert_legs :
    (p : BatchSettlePayload) (task tx i : ℕ) (payees amounts : List ℕ) (ps : List Payment)
    → IsLogged p i payees amounts ps
    → length (upsert_legs p task tx i payees amounts ps) ≡ length ps
unfolding upsert_legs
length-upsert_legs p task tx i [] amounts ps h = refl
length-upsert_legs p task tx i (x ∷ payees) [] ps h = refl
length-upsert_legs p task tx i (x ∷ payees) (a ∷ amounts) ps h =
    let row = leg_row p task tx i x a in
    length-upsert_legs p task tx (i + 1) payees amounts (upsert_leg row ps)
      (IsLogged-upsert_leg p row (i + 1) payees amounts ps h.1)
    ∙ length-upsert_leg row ps h.0

-- A batch that is recorded as settled a second time, with any hash and any row of its task, adds
-- no payment to those of the first time: one row for each leg, however often the job is run.
length-record_batch_activity-again :
    {V : Type 0} (p : BatchSettlePayload) (tx tx' fresh fresh' : ℕ) (w : World V)
    → length
        (record_batch_activity p
          (some tx')
          fresh'
          (record_batch_activity p (some tx) fresh w)).payments
      ≡ length (record_batch_activity p (some tx) fresh w).payments
unfolding record_batch_activity
length-record_batch_activity-again p tx tx' fresh fresh' w =
    let first = upsert_batch_task p (some tx) fresh w.now w.tasks in
    let second = upsert_batch_task p (some tx') fresh' w.now first.1 in
    length-upsert_legs p second.0 tx' 0 p.payees p.amounts
      (upsert_legs p first.0 tx 0 p.payees p.amounts w.payments)
      (upsert_legs-IsLogged p first.0 tx 0 p.payees p.amounts w.payments)

pub log_legs-HasDistinctKeys :
    (p : BatchSettlePayload) (task : ℕ) (o : Option ℕ) (ps : List Payment)
    → HasDistinctKeys ps
    → HasDistinctKeys (log_legs p task o ps)
log_legs-HasDistinctKeys p task none ps h = h
log_legs-HasDistinctKeys p task (some tx) ps h =
    HasDistinctKeys-upsert_legs p task tx 0 p.payees p.amounts ps h
