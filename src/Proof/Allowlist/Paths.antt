-- ===== src/Proof/Allowlist/Paths.antt =====
-- The path of each approved payee leads from its leaf to the root.
use clevercon.Prelude.{
  ℕ, zero, suc, ◌^◌, ◌≤◌, ◌<◌, ◌≡◌, refl, sym, ap, ◌∙◌, subst, true, some, List, [], ◌∷◌, ◌==◌,
  get_elem?, length, any, arith, Bool-cases, inl, inr,
}
use clevercon.Proof.Bytes.{value, Bytes}
use clevercon.Proof.Inputs.{Crypto, payee_field, ◌>>=◌, >>=-eq-some}
use clevercon.Proof.Allowlist.{
  Poseidon, Entry, AllowlistMembership, Allowlist, or_zero, first_index, path_bits, leaf, leaves_of,
  level, path_elements, membership, build_allowlist,
}
use clevercon.Proof.Allowlist.Climb.{climb, root_of_path}

some_subst : (P : Allowlist → Type 0) {a b : Allowlist} → some a ≡ some b → P a → P b
some_subst P {a} {b} h x = let e : a ≡ b = cc h in subst P e x

-- The first index of an address is an entry's that has it.
first_index-found :
    (a : ℕ) (es : List Entry)
    → any (λ (e : Entry). e.payee_address == a) es ≡ true
    → (i : ℕ) × (e : Entry) × (first_index a es ≡ some i)
      × (get_elem? es i ≡ some e)
      × (e.payee_address ≡ a)
      × (i < length es)
unfolding first_index
first_index-found a [] h = cc h
first_index-found a (e ∷ es) h = elim (Bool-cases (e.payee_address == a)) [
  | inl b ↦ (0, e, rw b refl, refl, ground arith, omega arith)
  | inr b ↦
      let (i, e', f, g, same, lt) = first_index-found a es (ground arith) in
      (suc i, e', rw (b, f) refl, g, same, omega (arith, lt))
]

module _ (c : Crypto) (p : Poseidon) where
  leaves_of-∷ :
      (e : Entry) (es : List Entry) {ls : List ℕ}
      → leaves_of c p (e ∷ es) ≡ some ls
      → (x : ℕ) × (xs : List ℕ) × (leaf c p e ≡ some x)
        × (leaves_of c p es ≡ some xs)
        × (x ∷ xs ≡ ls)
  unfolding leaves_of
  leaves_of-∷ e es {ls} h =
      let (x, l, h1) = >>=-eq-some (leaf c p e) (λ x. leaves_of c p es >>= λ xs. some (x ∷ xs)) h in
      let (xs, r, h2) = >>=-eq-some (leaves_of c p es) (λ xs. some (x ∷ xs)) h1 in
      (x, xs, l, r, cc h2)

  leaves_of-get_elem? :
      (es : List Entry) (i : ℕ) {ls : List ℕ} {e : Entry}
      → leaves_of c p es ≡ some ls
      → get_elem? es i ≡ some e
      → (x : ℕ) × (leaf c p e ≡ some x) × (get_elem? ls i ≡ some x)
  leaves_of-get_elem? [] i h g = cc g
  leaves_of-get_elem? (e ∷ es) zero h g =
      let (x, xs, l, r, whole) = leaves_of-∷ e es h in
      let same : e ≡ _ = cc g in
      (x, ap (leaf c p) (sym same) ∙ l, ap (λ ys. get_elem? ys 0) (sym whole))
  leaves_of-get_elem? (e ∷ es) (suc i) h g =
      let (x, xs, l, r, whole) = leaves_of-∷ e es h in
      let (y, k, at) = leaves_of-get_elem? es i r g in
      (y, k, ap (λ ys. get_elem? ys (suc i)) (sym whole) ∙ at)

  -- A payee's membership: it starts at the payee's own field element, with the terms of an entry of
  -- the payee's, and its path leads to the root.
  pub record Verified (entries : List Entry) (al : Allowlist) (a : ℕ) : Type 0 where
    pub member : AllowlistMembership
    pub shown : membership p al a ≡ some member
    pub index : ℕ
    pub entry : Entry
    pub at_index : get_elem? entries index ≡ some entry
    pub of_payee : entry.payee_address ≡ a
    pub capped : member.cap ≡ or_zero entry.cap_stroops
    pub categorized : member.category ≡ or_zero entry.category
    pub field : Bytes
    pub of_field : payee_field c a ≡ some field
    pub leads_up :
        climb p
          (p.p3 (value field) member.cap member.category)
          member.path_elements
          member.path_indices
        ≡ al.root

  leaf-parts :
      (e : Entry) {x : ℕ}
      → leaf c p e ≡ some x
      → (f : Bytes) × (payee_field c e.payee_address ≡ some f)
        × (p.p3 (value f) (or_zero e.cap_stroops) (or_zero e.category) ≡ x)
  unfolding leaf
  leaf-parts e {x} h =
      let (f, l, k) =
        >>=-eq-some (payee_field c e.payee_address)
          (λ f. some (p.p3 (value f) (or_zero e.cap_stroops) (or_zero e.category))) h in
      (f, l, cc k)

  -- What building a tree answers.
  record Built (entries : List Entry) (depth : ℕ) (al : Allowlist) : Type 0 where
    same_entries : al.entries ≡ entries
    all_leaves : leaves_of c p entries ≡ some al.leaves
    same_depth : al.depth ≡ depth
    top : get_elem? (level p al.leaves depth) 0 ≡ some al.root

  build_allowlist-Built :
      (entries : List Entry) (depth : ℕ) {al : Allowlist}
      → build_allowlist c p entries depth ≡ some al
      → Built entries depth al
  unfolding build_allowlist
  build_allowlist-Built [] depth h = cc h
  build_allowlist-Built (e ∷ es) depth {al} h =
      let (ls, l, h1) =
        >>=-eq-some (leaves_of c p (e ∷ es))
          (λ ls. get_elem? (level p ls depth) 0 >>= λ r.
            some (record { entries = e ∷ es; leaves = ls; depth = depth; root = r }))
          h in
      let (r, t, h2) =
        >>=-eq-some (get_elem? (level p ls depth) 0)
          (λ r. some (record { entries = e ∷ es; leaves = ls; depth = depth; root = r })) h1 in
      some_subst (Built (e ∷ es) depth) h2
        (record { same_entries = refl; all_leaves = l; same_depth = refl; top = t })

  abbrev member_at : Allowlist → ℕ → Entry → AllowlistMembership
  member_at al i e = record {
    path_elements = path_elements p al.leaves al.depth 0 i;
    path_indices = path_bits al.depth i;
    cap = or_zero e.cap_stroops;
    category = or_zero e.category;
  }

  membership-found :
      (al : Allowlist) (a i : ℕ) {e : Entry}
      → first_index a al.entries ≡ some i
      → get_elem? al.entries i ≡ some e
      → membership p al a ≡ some (member_at al i e)
  unfolding membership
  membership-found al a i f g = rw (f, g) refl

  -- In an allowlist that is built of no more entries than its depth has leaves, each payee of an
  -- entry has a membership, and hashing upwards along its path, from the leaf of the payee with the
  -- terms that the membership names, gives the root that the policy commits to.
  pub membership-Verified :
      (entries : List Entry) (depth a : ℕ) (al : Allowlist)
      → build_allowlist c p entries depth ≡ some al
      → length entries ≤ 2 ^ depth
      → any (λ (e : Entry). e.payee_address == a) entries ≡ true
      → Verified entries al a
  membership-Verified entries depth a al h room listed =
      let built = build_allowlist-Built entries depth h in
      let (i, e, f, g, same, lt) =
        first_index-found a al.entries
          (ap (any (λ (e : Entry). e.payee_address == a)) built.same_entries ∙ listed) in
      let (x, l, at) =
        leaves_of-get_elem? al.entries i (ap (leaves_of c p) built.same_entries ∙ built.all_leaves)
          g in
      let (field, of_field, hashed) = leaf-parts e l in
      let small : i < 2 ^ al.depth =
        omega (arith, lt, room, ap length built.same_entries, ap (λ d. 2 ^ d) built.same_depth) in
      let top = ap (λ d. get_elem? (level p al.leaves d) 0) built.same_depth ∙ built.top in
      record {
        member = member_at al i e;
        shown = membership-found al a i f g;
        index = i;
        entry = e;
        at_index = ap (λ es. get_elem? es i) (sym built.same_entries) ∙ g;
        of_payee = same;
        capped = refl;
        categorized = refl;
        field = field;
        of_field = ap (payee_field c) (sym same) ∙ of_field;
        leads_up =
            ap (λ n. climb p n (path_elements p al.leaves al.depth 0 i) (path_bits al.depth i))
              hashed
            ∙ root_of_path p al.leaves al.depth i at small top;
      }
