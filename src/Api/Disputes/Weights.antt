-- ===== src/Api/Disputes/Weights.antt =====
-- How the services of a task are weighed: each one's reputation once, however many of the task's
-- steps it has.
use clevercon.Prelude.{
  ℕ, ◌+◌, ◌≡◌, refl, sym, ap, ◌∙◌, Bool, true, false, not, ◌&&◌, none, some, List, [], ◌∷◌, ◌==◌,
  any, map, if◌then◌else◌, arith, Bool-cases, inl, inr,
}
use clevercon.Store.Rows.{Step, Reputation}
use clevercon.Store.Tables.{update_reputation}
use clevercon.Api.Disputes.{service_ids, without, distinct, weighed, weigh_services}

abbrev has : List ℕ → ℕ → Bool
has is k = any (λ i. i == k) is

-- a step that the service works on
abbrev pub is_by : ℕ → Step → Bool
is_by service s = elim s.service [ none ↦ false | some v ↦ v.id == service ]

-- the row of a service's reputation after a dispute on the steps
abbrev pub judged : Bool → List Step → Reputation → Reputation
judged upheld ss r =
    if any (is_by r.service_id) ss
    then record r {
      disputes = r.disputes + 1;
      disputes_upheld = r.disputes_upheld + (if upheld then 1 else 0);
    }
    else r

abbrev weighed_in : Bool → List ℕ → Reputation → Reputation
weighed_in upheld is r = if has is r.service_id then weighed upheld r else r

abbrev IsUnique : List ℕ → Type 0
IsUnique [] = Unit
IsUnique (i ∷ is) = (has is i ≡ false) × IsUnique is

has-without : (i k : ℕ) (is : List ℕ) → has (without i is) k ≡ (has is k && not (i == k))
has-without i k [] = ground arith
has-without i k (j ∷ is) = ground (arith, has-without i k is)

IsUnique-without : (i : ℕ) (is : List ℕ) → IsUnique is → IsUnique (without i is)
IsUnique-without i [] h = tt
IsUnique-without i (j ∷ is) h = ground (arith, IsUnique-without i is h.1, has-without i j is)

distinct-IsUnique : (is : List ℕ) → IsUnique (distinct is)
unfolding distinct
distinct-IsUnique [] = tt
distinct-IsUnique (i ∷ is) = (
  ground (arith, has-without i i (distinct is)),
  IsUnique-without i (distinct is) (distinct-IsUnique is),
)

has-distinct : (k : ℕ) (is : List ℕ) → has (distinct is) k ≡ has is k
unfolding distinct
has-distinct k [] = refl
has-distinct k (i ∷ is) = ground (arith, has-without i k (distinct is), has-distinct k is)

weigh_head :
    (upheld : Bool) (i : ℕ) (is : List ℕ) (r : Reputation)
    → has is i ≡ false
    → weighed_in upheld is (if r.service_id == i then weighed upheld r else r)
      ≡ weighed_in upheld (i ∷ is) r
weigh_head upheld i is r h = elim (Bool-cases (r.service_id == i)) [
  | inl e ↦
      let same : r.service_id ≡ i = ground arith in
      let absent : has is r.service_id ≡ false = ap (has is) same ∙ h in
      let other : (i == r.service_id) ≡ true = ground arith in rw (e, absent, other) refl
  | inr e ↦ let other : (i == r.service_id) ≡ false = ground arith in rw (e, other) refl
]

map_id : (upheld : Bool) (rs : List Reputation) → map (weighed_in upheld []) rs ≡ rs
map_id upheld [] = refl
map_id upheld (r ∷ rs) = ap (λ xs. r ∷ xs) (map_id upheld rs)

weigh_one :
    (upheld : Bool) (i : ℕ) (is : List ℕ) (rs : List Reputation)
    → has is i ≡ false
    → map (weighed_in upheld is) (update_reputation i (weighed upheld) rs)
      ≡ map (weighed_in upheld (i ∷ is)) rs
unfolding update_reputation
weigh_one upheld i is [] h = refl
weigh_one upheld i is (r ∷ rs) h =
    ap (λ x. x ∷ map (weighed_in upheld is) (update_reputation i (weighed upheld) rs))
      (weigh_head upheld i is r h)
    ∙ ap (λ xs. weighed_in upheld (i ∷ is) r ∷ xs) (weigh_one upheld i is rs h)

weigh_unique :
    (upheld : Bool) (is : List ℕ) (rs : List Reputation)
    → IsUnique is
    → weigh_services upheld is rs ≡ map (weighed_in upheld is) rs
unfolding weigh_services
weigh_unique upheld [] rs h = sym (map_id upheld rs)
weigh_unique upheld (i ∷ is) rs h =
    weigh_unique upheld is (update_reputation i (weighed upheld) rs) h.1
    ∙ weigh_one upheld i is rs h.0

has-service_ids : (k : ℕ) (ss : List Step) → has (service_ids ss) k ≡ any (is_by k) ss
has-service_ids k [] = refl
has-service_ids k (s ∷ ss) = ground (arith, has-service_ids k ss)

map_same :
    (f g : Reputation → Reputation) (rs : List Reputation)
    → ((r : Reputation) → f r ≡ g r)
    → map f rs ≡ map g rs
map_same f g [] h = refl
map_same f g (r ∷ rs) h = ap (λ x. x ∷ map f rs) (h r) ∙ ap (λ xs. g r ∷ xs) (map_same f g rs h)

pub weigh_services-map :
    (upheld : Bool) (ss : List Step) (rs : List Reputation)
    → weigh_services upheld (distinct (service_ids ss)) rs ≡ map (judged upheld ss) rs
weigh_services-map upheld ss rs =
    weigh_unique upheld (distinct (service_ids ss)) rs (distinct-IsUnique (service_ids ss))
    ∙ map_same (weighed_in upheld (distinct (service_ids ss))) (judged upheld ss) rs λ r.
      ap (λ (b : Bool). if b then weighed upheld r else r)
        (has-distinct r.service_id (service_ids ss) ∙ has-service_ids r.service_id ss)
