-- ===== src/Proof/Allowlist.antt =====
-- packages/agent-sdk/src/payments/allowlist.ts: the Merkle tree of the approved payees, whose root
-- a policy commits to, and the authentication path of each. Numbers are kept as numbers where the
-- code prints them in decimal; the payee's field element is that of Proof/Inputs, which
-- packages/agent-sdk/src/payments/policy-codec.ts repeats.
pub mod Climb
pub mod Paths
use clevercon.Prelude.{
  ℕ, zero, suc, ◌+◌, ◌-◌, ◌/◌, ◌%◌, Option, none, some, List, [], ◌∷◌, ◌==◌, if◌then◌else◌,
  get_elem?,
}
use mathlib.Core.Option
use clevercon.Proof.Bytes.{value}
use clevercon.Proof.Inputs.{Crypto, payee_field, ◌>>=◌}

-- Poseidon, of two and of three field elements.
pub record Poseidon : Type 0 where
  pub p2 : ℕ → ℕ → ℕ
  pub p3 : ℕ → ℕ → ℕ → ℕ

-- `AllowlistEntry`; a cap is in stroops
pub record Entry : Type 0 where
  pub payee_address : ℕ
  pub cap_stroops : Option ℕ
  pub category : Option ℕ

pub record AllowlistMembership : Type 0 where
  pub path_elements : List ℕ
  pub path_indices : List ℕ
  pub cap : ℕ
  pub category : ℕ

-- What `buildAllowlist` closes over, with the root.
pub record Allowlist : Type 0 where
  pub entries : List Entry
  pub leaves : List ℕ
  pub depth : ℕ
  pub root : ℕ

-- `x ?? 0`
abbrev pub or_zero : Option ℕ → ℕ
or_zero none = 0
or_zero (some n) = n

-- the first index of an address
unfoldable pub first_index : ℕ → List Entry → Option ℕ
first_index a [] = none
first_index a (e ∷ es) =
    if e.payee_address == a then some 0 else Option.map (λ i. suc i) (first_index a es)

-- `idx ^ 1`
abbrev pub sibling_index : ℕ → ℕ
sibling_index i = if i % 2 == 0 then i + 1 else i - 1

-- `idx & 1` on each level
unfoldable pub path_bits : (left idx : ℕ) → List ℕ
path_bits zero i = []
path_bits (suc n) i = (i % 2) ∷ path_bits n (i / 2)

-- an element of a level, or its zero hash
abbrev pub elem_or : ℕ → List ℕ → ℕ → ℕ
elem_or z xs i = elim (get_elem? xs i) [ none ↦ z | some x ↦ x ]

module _ (c : Crypto) (p : Poseidon) where
  unfoldable pub leaf : Entry → Option ℕ
  leaf e = do
    f ← payee_field c e.payee_address
    some (p.p3 (value f) (or_zero e.cap_stroops) (or_zero e.category))

  unfoldable pub leaves_of : List Entry → Option (List ℕ)
  leaves_of [] = some []
  leaves_of (e ∷ es) = do some ((← leaf e) ∷ (← leaves_of es))

module _ (p : Poseidon) where
  -- the hash of an empty subtree of each height
  unfoldable pub zero_hash : ℕ → ℕ
  zero_hash zero = 0
  zero_hash (suc d) = p.p2 (zero_hash d) (zero_hash d)

  unfoldable pub pair_up : (z : ℕ) → List ℕ → List ℕ
  pair_up z [] = []
  pair_up z (l ∷ []) = p.p2 l z ∷ []
  pair_up z (l ∷ r ∷ cur) = p.p2 l r ∷ pair_up z cur

  abbrev pub nonempty_level : ℕ → List ℕ → List ℕ
  nonempty_level d [] = zero_hash (suc d) ∷ []
  nonempty_level d (n ∷ next) = n ∷ next

  -- `levels[d]`
  unfoldable pub level : List ℕ → ℕ → List ℕ
  level leaves zero = leaves
  level leaves (suc d) = nonempty_level d (pair_up (zero_hash d) (level leaves d))

  -- the siblings on the way from an index of a level upwards
  unfoldable pub path_elements : List ℕ → (left d idx : ℕ) → List ℕ
  path_elements leaves zero d i = []
  path_elements leaves (suc n) d i =
      elem_or (zero_hash d) (level leaves d) (sibling_index i)
      ∷ path_elements leaves n (suc d) (i / 2)

  unfoldable pub membership : Allowlist → (payee : ℕ) → Option AllowlistMembership
  membership al a = do
    start ← first_index a al.entries
    e ← get_elem? al.entries start
    some (record {
      path_elements = path_elements al.leaves al.depth 0 start;
      path_indices = path_bits al.depth start;
      cap = or_zero e.cap_stroops;
      category = or_zero e.category;
    })

abbrev pub nonempty_entries : List Entry → Option (List Entry)
nonempty_entries [] = none
nonempty_entries (e ∷ es) = some (e ∷ es)

-- `buildAllowlist`; none where it throws
unfoldable pub build_allowlist : Crypto → Poseidon → List Entry → (depth : ℕ) → Option Allowlist
build_allowlist c p entries depth = do
  es ← nonempty_entries entries
  leaves ← leaves_of c p es
  root ← get_elem? (level p leaves depth) 0
  some (record { entries = es; leaves = leaves; depth = depth; root = root })
