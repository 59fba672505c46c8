-- ===== src/Worker/Execute/Accept.antt =====
-- What a delivery that `finalizeDelivery` takes has passed, and what it may write.
use clevercon.Prelude.{
  ℕ, ◌≡◌, refl, sym, ◌∙◌, Bool, true, false, Option, none, some, String, arith, Bool-cases, inl,
  inr, ◌⊎◌,
}
use clevercon.Json.{Json}
use clevercon.Store.Rows.{Step, Service}
use clevercon.Store.Tables.{World, Job}
use clevercon.Service.Js.{Js}
use clevercon.Service.Verify.{Check, passed, deferred, refused, faulted}
use clevercon.Worker.Host.{Host, enqueue}
use clevercon.Worker.Execute.{
  Thrown, good, thrown, is_acceptable_output, schema_check, tier_check, require, accept,
  after_accept, finalize_delivery, hold, release_now, record_outcome, fail_step, park_working,
  park_input_required,
}

-- A check that does not refuse: it passed, or was left to the buyer.
abbrev pub Lets : Check → Type 0
Lets c = (c ≡ passed) ⊎ ((r : String) × (c ≡ deferred r))

module _ (js : Js) where
  require-good :
      (what : String) (c : Check) (next : Thrown Unit)
      → require js what c next ≡ good tt
      → Lets c × (next ≡ good tt)
  require-good what passed next h = (inl refl, h)
  require-good what (deferred r) next h = (inr (r, refl), h)
  require-good what (refused r) next h = cc h
  require-good what faulted next h = cc h

  accept_refused :
      (step : Step) (input envelope : Json) (raw : String)
      → is_acceptable_output js raw ≡ false
      → accept js step input envelope raw ≡ thrown "provider output rejected (acceptance check)"
  unfolding accept
  accept_refused step input envelope raw e = rw (e, accept)

  accept_usable :
      (step : Step) (input envelope : Json) (raw : String)
      → is_acceptable_output js raw ≡ true
      → accept js step input envelope raw
        ≡ require js "schema check"
            (schema_check js step envelope)
            (require js "verification" (tier_check js step input envelope) (good tt))
  unfolding accept
  accept_usable step input envelope raw e = rw (e, accept)

  -- What a delivery that is not refused has passed.
  pub record Accepted (step : Step) (input envelope : Json) (raw : String) : Type 0 where
    pub usable : is_acceptable_output js raw ≡ true
    pub in_schema : Lets (schema_check js step envelope)
    pub verified : Lets (tier_check js step input envelope)

  pub accept-good :
      (step : Step) (input envelope : Json) (raw : String)
      → accept js step input envelope raw ≡ good tt
      → Accepted step input envelope raw
  accept-good step input envelope raw h = elim (Bool-cases (is_acceptable_output js raw)) [
    | inr e ↦ cc (sym (accept_refused step input envelope raw e) ∙ h)
    | inl e ↦
        let rest = require js "verification" (tier_check js step input envelope) (good tt) in
        let (schema, more) =
          require-good "schema check" (schema_check js step envelope) rest
            (sym (accept_usable step input envelope raw e) ∙ h) in
        let (tier, done) =
          require-good "verification" (tier_check js step input envelope) (good tt) more in
        record { usable = e; in_schema = schema; verified = tier }
  ]

-- The tables that a delivery never writes, and the vault.
pub record SameFunds {V : Type 0} (w w' : World V) : Type 0 where
  pub tasks : w'.tasks ≡ w.tasks
  pub payments : w'.payments ≡ w.payments
  pub disputes : w'.disputes ≡ w.disputes
  pub delegates : w'.delegates ≡ w.delegates
  pub vault : w'.vault ≡ w.vault

pub SameFunds-refl : {V : Type 0} (w : World V) → SameFunds w w
SameFunds-refl w = record {
  tasks = refl;
  payments = refl;
  disputes = refl;
  delegates = refl;
  vault = refl;
}

pub SameFunds-trans :
    {V : Type 0} {w w' w'' : World V} → SameFunds w w' → SameFunds w' w'' → SameFunds w w''
SameFunds-trans a b = record {
  tasks = b.tasks ∙ a.tasks;
  payments = b.payments ∙ a.payments;
  disputes = b.disputes ∙ a.disputes;
  delegates = b.delegates ∙ a.delegates;
  vault = b.vault ∙ a.vault;
}

module _ {V : Type 0} (host : Host V) where
  pub enqueue-SameFunds : (j : Job) (w : World V) → SameFunds w (enqueue host j w)
  unfolding enqueue
  enqueue-SameFunds j w = ground arith

  pub record_outcome-SameFunds :
      (v : Option Service) (b : Bool) (n : ℕ) (w : World V)
      → SameFunds w (record_outcome host v b n w)
  unfolding record_outcome
  record_outcome-SameFunds none b n w = SameFunds-refl w
  record_outcome-SameFunds (some v) b n w = ground arith

  pub fail_step-SameFunds :
      (s : Step) (m : String) (n : Option ℕ) (w : World V) → SameFunds w (fail_step host s m n w)
  unfolding fail_step record_outcome
  fail_step-SameFunds s m n w = ground arith

  hold-SameFunds :
      (s : Step) (i e : Json) (n m : ℕ) (w : World V) → SameFunds w (hold host s i e n m w)
  unfolding hold record_outcome enqueue
  hold-SameFunds s i e n m w = ground arith

  release_now-SameFunds :
      (s : Step) (v : Option ℕ) (e : Json) (n : ℕ) (w : World V)
      → SameFunds w (release_now host s v e n w)
  unfolding release_now record_outcome enqueue
  release_now-SameFunds s v e n w = ground arith

  after_accept-SameFunds :
      (s : Step) (v : Option ℕ) (i e : Json) (n m : ℕ) (w : World V) (r : Thrown Unit)
      → SameFunds w (after_accept host s v i e n m w r).1
  after_accept-SameFunds s v i e n m w (thrown x) = SameFunds-refl w
  after_accept-SameFunds s v i e n m w (good x) =
      ground (arith, hold-SameFunds s i e n m w, release_now-SameFunds s v e n w)

  pub finalize_delivery-SameFunds :
      (s : Step) (v : Option ℕ) (i e : Json) (raw : String) (n m : ℕ) (w : World V)
      → SameFunds w (finalize_delivery host s v i e raw n m w).1
  unfolding finalize_delivery
  finalize_delivery-SameFunds s v i e raw n m w =
      after_accept-SameFunds s v i e n m w (accept host.js s i e raw)

  pub park_working-SameFunds :
      (s : Step) (e : Json) (w : World V) → SameFunds w (park_working host s e w).1
  unfolding park_working enqueue
  park_working-SameFunds s e w = ground arith

  pub park_input_required-SameFunds :
      (s : Step) (e : Json) (w : World V) → SameFunds w (park_input_required host s e w).1
  unfolding park_input_required enqueue
  park_input_required-SameFunds s e w = ground arith
