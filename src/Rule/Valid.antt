-- ===== src/Rule/Valid.antt =====
-- What a rule that validates is.
use clevercon.Prelude.{
  ℕ, ◌≤◌, ◌≡◌, refl, sym, ap, ◌∙◌, Bool, true, false, not, ◌||◌, Option, none, some, List, [], ◌∷◌,
  ◌++◌, String, arith, length, ltb, Bool-cases, inl, inr, any, All, ==_iff, ◌==◌,
}
use clevercon.Prelude.Int.{ℤ, pos, ltb_ℤ}
use text.Mathlib.Text.{◌==◌ as str_eq}
use clevercon.Rule.{
  Rule, RuleClause, ClauseType, type_of, type_rank, is_type, get_clause, AllowlistEntry,
  CalendarWindow, positive, when, is_empty, given_and, payee_errors, each, clause_errors, Seen,
  has_type, see, see_all, set_min, set_max, crossed, header_errors, validate_rule, max_denylist,
  max_calendar_windows, max_categories, max_allowlist,
}

append-nil_left : {A : Type 0} (xs ys : List A) → xs ++ ys ≡ [] → xs ≡ []
append-nil_left [] ys h = refl
append-nil_left (x ∷ xs) ys h = cc h

append-nil_right : {A : Type 0} (xs ys : List A) → xs ++ ys ≡ [] → ys ≡ []
append-nil_right [] ys h = h
append-nil_right (x ∷ xs) ys h = cc h

when-nil : (b : Bool) (s : String) → when b s ≡ [] → b ≡ false
when-nil true s h = cc h
when-nil false s h = refl

abbrev pub IsGiven : (ℤ → Bool) → Option ℤ → Type 0
IsGiven p none = Unit
IsGiven p (some v) = p v ≡ true

module _ (is_stellar_addr : String → Bool) (trim : String → String) where
  abbrev pub PayeeOk : AllowlistEntry → Type 0
  PayeeOk p =
      (is_stellar_addr p.address ≡ true)
      × (given_and (λ v. not (positive v)) p.per_payee_cap ≡ false)
      × (given_and (λ v. ltb_ℤ v (pos 0) || not (ltb_ℤ v (pos max_categories))) p.category ≡ false)

  -- What each clause must be.
  abbrev pub ClauseOk : RuleClause → Type 0
  ClauseOk (RuleClause.per_payment_max a) = positive a ≡ true
  ClauseOk (RuleClause.per_payment_min a) = positive a ≡ true
  ClauseOk (RuleClause.rolling_cap a s) = (positive a ≡ true) × (positive s ≡ true)
  ClauseOk (RuleClause.velocity n s) = (positive n ≡ true) × (positive s ≡ true)
  ClauseOk (RuleClause.allowlist ps) =
      (is_empty ps ≡ false) × (length ps ≤ max_allowlist) × All PayeeOk ps
  ClauseOk (RuleClause.denylist as' t) =
      (is_empty as' ≡ false)
      × (length as' ≤ max_denylist)
      × All (λ a. is_stellar_addr a ≡ true) as'
      × (given_and (λ v. ltb_ℤ v (pos 0)) t ≡ false)
  ClauseOk (RuleClause.calendar ws) =
      (is_empty ws ≡ false)
      × (length ws ≤ max_calendar_windows)
      × All (λ (w : CalendarWindow). ltb_ℤ w.start_unix w.end_unix ≡ true) ws
  ClauseOk (RuleClause.category_ceilings cs) =
      (is_empty cs ≡ false) × (length cs ≤ max_categories) × All (λ v. positive v ≡ true) cs
  ClauseOk (RuleClause.bond_status b) = positive b ≡ true
  ClauseOk (RuleClause.tier ts) = is_empty ts ≡ false
  ClauseOk (RuleClause.service_allow ids) = is_empty ids ≡ false
  ClauseOk (RuleClause.service_deny ids) = is_empty ids ≡ false
  ClauseOk (RuleClause.provider_criteria a rate c) =
      given_and (λ v. ltb_ℤ v (pos 0) || ltb_ℤ (pos 10000000) v) rate ≡ false

  when-not : (b : Bool) (s : String) → when (not b) s ≡ [] → b ≡ true
  when-not true s h = refl
  when-not false s h = cc h

  when-le : (m n : ℕ) (s : String) → when (ltb m n) s ≡ [] → n ≤ m
  when-le m n s h = ground arith

  each-nil :
      {A : Type 0} (P : A → Type 0) (f : A → List String) (xs : List A)
      → ((x : A) → f x ≡ [] → P x)
      → each is_stellar_addr trim f xs ≡ []
      → All P xs
  each-nil P f [] step h = tt
  each-nil P f (x ∷ xs) step h =
      let rest = each is_stellar_addr trim f xs in
      (step x (append-nil_left (f x) rest h), each-nil P f xs step (append-nil_right (f x) rest h))

  payee_errors-nil : (p : AllowlistEntry) → payee_errors is_stellar_addr trim p ≡ [] → PayeeOk p
  payee_errors-nil p h = ground arith

  listed-nil :
      {A : Type 0} (xs : List A) (m : ℕ) (s t : String) (rest : List String)
      → when (is_empty xs) s ++ (when (ltb m (length xs)) t ++ rest) ≡ []
      → (is_empty xs ≡ false) × (length xs ≤ m) × (rest ≡ [])
  listed-nil xs m s t rest h =
      let more = append-nil_right (when (is_empty xs) s) (when (ltb m (length xs)) t ++ rest) h in
      (
        when-nil (is_empty xs) s (append-nil_left (when (is_empty xs) s) _ h),
        when-le m (length xs) t (append-nil_left (when (ltb m (length xs)) t) rest more),
        append-nil_right (when (ltb m (length xs)) t) rest more,
      )

  clause_errors-nil : (c : RuleClause) → clause_errors is_stellar_addr trim c ≡ [] → ClauseOk c
  unfolding clause_errors
  clause_errors-nil (RuleClause.per_payment_max a) h = ground arith
  clause_errors-nil (RuleClause.per_payment_min a) h = ground arith
  clause_errors-nil (RuleClause.rolling_cap a s) h = ground arith
  clause_errors-nil (RuleClause.velocity n s) h = ground arith
  clause_errors-nil (RuleClause.bond_status b) h = ground arith
  clause_errors-nil (RuleClause.tier ts) h = ground arith
  clause_errors-nil (RuleClause.service_allow ids) h = ground arith
  clause_errors-nil (RuleClause.service_deny ids) h = ground arith
  clause_errors-nil (RuleClause.provider_criteria a rate c) h = ground arith
  clause_errors-nil (RuleClause.allowlist ps) h =
      let (nonempty, short, rest) = listed-nil ps max_allowlist _ _ _ h in
      (nonempty, short, each-nil PayeeOk _ ps payee_errors-nil rest)
  clause_errors-nil (RuleClause.denylist as' t) h =
      let (nonempty, short, rest) = listed-nil as' max_denylist _ _ _ h in
      (
        nonempty,
        short,
        each-nil (λ a. is_stellar_addr a ≡ true) _ as' (λ a. when-not (is_stellar_addr a) _)
            (append-nil_left _ _ rest),
        when-nil (given_and (λ v. ltb_ℤ v (pos 0)) t) _ (append-nil_right _ _ rest),
      )
  clause_errors-nil (RuleClause.calendar ws) h =
      let (nonempty, short, rest) = listed-nil ws max_calendar_windows _ _ _ h in
      (
        nonempty,
        short,
        each-nil (λ (w : CalendarWindow). ltb_ℤ w.start_unix w.end_unix ≡ true) _ ws
            (λ (w : CalendarWindow). when-not (ltb_ℤ w.start_unix w.end_unix) _) rest,
      )
  clause_errors-nil (RuleClause.category_ceilings cs) h =
      let (nonempty, short, rest) = listed-nil cs max_categories _ _ _ h in
      (nonempty, short, each-nil (λ v. positive v ≡ true) _ cs (λ v. when-not (positive v) _) rest)

  -- A loop over the clauses that found no error.
  abbrev Run : List RuleClause → Seen is_stellar_addr trim → Seen is_stellar_addr trim
  Run cs s = see_all is_stellar_addr trim cs s

  see_all-nil :
      (cs : List RuleClause) (s : Seen is_stellar_addr trim)
      → (Run cs s).errors ≡ []
      → s.errors ≡ []
  unfolding see_all
  see_all-nil [] s h = h
  see_all-nil (c ∷ cs) s h =
      append-nil_left s.errors _ (see_all-nil cs (see is_stellar_addr trim c s) h)

  -- the first clause of such a loop
  first-nil :
      (c : RuleClause) (cs : List RuleClause) (s : Seen is_stellar_addr trim)
      → (Run (c ∷ cs) s).errors ≡ []
      → (has_type is_stellar_addr trim (type_of c) s.types ≡ false) × ClauseOk c
  unfolding see_all
  first-nil c cs s h =
      let own = append-nil_right s.errors _ (see_all-nil cs (see is_stellar_addr trim c s) h) in
      (
        when-nil (has_type is_stellar_addr trim (type_of c) s.types) _ (append-nil_left _ _ own),
        clause_errors-nil c (append-nil_right _ (clause_errors is_stellar_addr trim c) own),
      )

  -- The clauses are of types not listed, and of different types.
  abbrev pub Fresh : List ClauseType → List RuleClause → Type 0
  Fresh types [] = Unit
  Fresh types (c ∷ cs) =
      (has_type is_stellar_addr trim (type_of c) types ≡ false) × Fresh (type_of c ∷ types) cs

  distinct_clauses :
      (cs : List RuleClause) (s : Seen is_stellar_addr trim)
      → (Run cs s).errors ≡ []
      → Fresh s.types cs × All ClauseOk cs
  unfolding see_all
  distinct_clauses [] s h = (tt, tt)
  distinct_clauses (c ∷ cs) s h =
      let (new, ok) = first-nil c cs s h in
      let (fresh, all_ok) = distinct_clauses cs (see is_stellar_addr trim c s) h in
      ((new, fresh), (ok, all_ok))

  set_min_other :
      (c : RuleClause) (old : Option ℤ)
      → is_type ClauseType.per_payment_min c ≡ false
      → set_min is_stellar_addr trim c old ≡ old
  unfolding type_of type_rank
  set_min_other c old h = ground arith

  set_max_other :
      (c : RuleClause) (old : Option ℤ)
      → is_type ClauseType.per_payment_max c ≡ false
      → set_max is_stellar_addr trim c old ≡ old
  unfolding type_of type_rank
  set_max_other c old h = ground arith

  not_listed :
      (type : ClauseType) (c : RuleClause) (types : List ClauseType)
      → has_type is_stellar_addr trim (type_of c) types ≡ false
      → has_type is_stellar_addr trim type types ≡ true
      → is_type type c ≡ false
  not_listed type c types fresh listed = elim (Bool-cases (is_type type c)) [
    | inr e ↦ e
    | inl e ↦
        let same = (==_iff (type_rank (type_of c)) (type_rank type)).0 e in
        let listed' : has_type is_stellar_addr trim (type_of c) types ≡ true =
          ap (λ n. any (λ t. type_rank t == n) types) same ∙ listed in
        cc (sym fresh ∙ listed')
  ]

  kept_min :
      (cs : List RuleClause) (s : Seen is_stellar_addr trim)
      → Fresh s.types cs
      → has_type is_stellar_addr trim ClauseType.per_payment_min s.types ≡ true
      → (Run cs s).min ≡ s.min
  unfolding see_all
  kept_min [] s fresh listed = refl
  kept_min (c ∷ cs) s fresh listed =
      kept_min cs (see is_stellar_addr trim c s) fresh.1 (ground (arith, listed))
      ∙ set_min_other c s.min (not_listed ClauseType.per_payment_min c s.types fresh.0 listed)

  kept_max :
      (cs : List RuleClause) (s : Seen is_stellar_addr trim)
      → Fresh s.types cs
      → has_type is_stellar_addr trim ClauseType.per_payment_max s.types ≡ true
      → (Run cs s).max ≡ s.max
  unfolding see_all
  kept_max [] s fresh listed = refl
  kept_max (c ∷ cs) s fresh listed =
      kept_max cs (see is_stellar_addr trim c s) fresh.1 (ground (arith, listed))
      ∙ set_max_other c s.max (not_listed ClauseType.per_payment_max c s.types fresh.0 listed)

  set_min_found :
      (c : RuleClause) (low : ℤ) (old : Option ℤ)
      → c ≡ RuleClause.per_payment_min low
      → ClauseOk c
      → set_min is_stellar_addr trim c old ≡ some low
  set_min_found c low old e ok = ground arith

  set_max_found :
      (c : RuleClause) (high : ℤ) (old : Option ℤ)
      → c ≡ RuleClause.per_payment_max high
      → ClauseOk c
      → set_max is_stellar_addr trim c old ≡ some high
  set_max_found c high old e ok = ground arith

  found_min :
      (cs : List RuleClause) (s : Seen is_stellar_addr trim) (low : ℤ)
      → Fresh s.types cs
      → All ClauseOk cs
      → get_clause ClauseType.per_payment_min cs ≡ some (RuleClause.per_payment_min low)
      → (Run cs s).min ≡ some low
  unfolding see_all get_clause
  found_min [] s low fresh ok h = cc h
  found_min (c ∷ cs) s low fresh ok h = elim (Bool-cases (is_type ClauseType.per_payment_min c)) [
    | inr e ↦ found_min cs (see is_stellar_addr trim c s) low fresh.1 ok.1 (rw e at h)
    | inl e ↦
        let same : some c ≡ some (RuleClause.per_payment_min low) = rw e at h in
        let is_min : c ≡ RuleClause.per_payment_min low = cc same in
        kept_min cs (see is_stellar_addr trim c s) fresh.1 (ground (arith, e))
        ∙ set_min_found c low s.min is_min ok.0
  ]

  found_max :
      (cs : List RuleClause) (s : Seen is_stellar_addr trim) (high : ℤ)
      → Fresh s.types cs
      → All ClauseOk cs
      → get_clause ClauseType.per_payment_max cs ≡ some (RuleClause.per_payment_max high)
      → (Run cs s).max ≡ some high
  unfolding see_all get_clause
  found_max [] s high fresh ok h = cc h
  found_max (c ∷ cs) s high fresh ok h = elim (Bool-cases (is_type ClauseType.per_payment_max c)) [
    | inr e ↦ found_max cs (see is_stellar_addr trim c s) high fresh.1 ok.1 (rw e at h)
    | inl e ↦
        let same : some c ≡ some (RuleClause.per_payment_max high) = rw e at h in
        let is_max : c ≡ RuleClause.per_payment_max high = cc same in
        kept_max cs (see is_stellar_addr trim c s) fresh.1 (ground (arith, e))
        ∙ set_max_found c high s.max is_max ok.0
  ]

  -- What a rule must be to be stored.
  pub record IsValid (rule : Rule) : Type 0 where
    pub named : str_eq (trim rule.name) "" ≡ false
    pub nonempty : is_empty rule.clauses ≡ false
    pub distinct : Fresh [] rule.clauses
    pub clauses_ok : All ClauseOk rule.clauses
    pub in_order :
        (low high : ℤ)
        → get_clause ClauseType.per_payment_min rule.clauses ≡ some (RuleClause.per_payment_min low)
        → get_clause ClauseType.per_payment_max rule.clauses
          ≡ some (RuleClause.per_payment_max high)
        → ltb_ℤ high low ≡ false

  abbrev initial : Rule → Seen is_stellar_addr trim
  initial rule = record {
    types = [];
    min = none;
    max = none;
    errors = header_errors is_stellar_addr trim rule;
  }

  header_errors-nil :
      (rule : Rule)
      → header_errors is_stellar_addr trim rule ≡ []
      → (str_eq (trim rule.name) "" ≡ false) × (is_empty rule.clauses ≡ false)
  header_errors-nil rule h = ground arith

  -- A rule without validation errors has a name and at least one clause, has no two clauses of one
  -- type, has in each clause amounts, counts and addresses in their range and no more entries than
  -- the circuit takes, and its floor is not above its ceiling.
  pub validate_rule-IsValid :
      (rule : Rule) → validate_rule is_stellar_addr trim rule ≡ [] → IsValid rule
  unfolding validate_rule
  validate_rule-IsValid rule h =
      let s = initial rule in
      let clean = append-nil_left (Run rule.clauses s).errors _ h in
      let crossing =
        when-nil (crossed is_stellar_addr trim (Run rule.clauses s).min (Run rule.clauses s).max) _
          (append-nil_right (Run rule.clauses s).errors _ h) in
      let (named, nonempty) = header_errors-nil rule (see_all-nil rule.clauses s clean) in
      let (distinct, ok) = distinct_clauses rule.clauses s clean in
      record {
        named = named;
        nonempty = nonempty;
        distinct = distinct;
        clauses_ok = ok;
        in_order = λ low high has_min has_max.
            rw
              (
                found_min rule.clauses s low distinct ok has_min,
                found_max rule.clauses s high distinct ok has_max,
              )
              at crossing;
      }
