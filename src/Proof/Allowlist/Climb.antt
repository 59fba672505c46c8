-- ===== src/Proof/Allowlist/Climb.antt =====
-- From a leaf of the tree, the path of its index leads to the root.
use clevercon.Prelude.{
  ℕ, zero, suc, ◌+◌, ◌/◌, ◌%◌, ◌^◌, ◌<◌, ◌≡◌, sym, ap, ◌∙◌, some, List, [], ◌∷◌, ◌==◌,
  if◌then◌else◌, get_elem?, arith,
}
use clevercon.Proof.Allowlist.{
  Poseidon, sibling_index, path_bits, elem_or, zero_hash, pair_up, nonempty_level, level,
  path_elements,
}

sibling_up : (i : ℕ) → sibling_index (suc (suc i)) ≡ suc (suc (sibling_index i))
sibling_up i = ground arith

half_up : (i : ℕ) → suc (i / 2) ≡ suc (suc i) / 2
half_up i = omega arith

-- the level that so many levels lead up to
abbrev above : ℕ → ℕ → ℕ
above zero d = d
above (suc n) d = above n (suc d)

above-add : (n d : ℕ) → above n d ≡ n + d
above-add zero d = omega arith
above-add (suc n) d = omega (arith, above-add n (suc d))

-- halving as often as there are levels
abbrev halve : ℕ → ℕ → ℕ
halve zero i = i
halve (suc n) i = halve n (i / 2)

halve-zero : (n i : ℕ) → i < 2 ^ n → halve n i ≡ 0
halve-zero zero i h = omega arith
halve-zero (suc n) i h = halve-zero n (i / 2) (omega arith)

module _ (p : Poseidon) where
  -- What the circuit does with a path: at each level the node is the left one where the index is 0.
  abbrev pub climb : ℕ → List ℕ → List ℕ → ℕ
  climb node (s ∷ ss) (b ∷ bs) = climb (if b == 0 then p.p2 node s else p.p2 s node) ss bs
  climb node ss bs = node

  -- the parent of an element of a level
  abbrev parent : ℕ → List ℕ → ℕ → ℕ → ℕ
  parent z xs i x =
      if i % 2 == 0
      then p.p2 x (elem_or z xs (sibling_index i))
      else p.p2 (elem_or z xs (sibling_index i)) x

  parent_up :
      (z l r i x : ℕ) (xs : List ℕ) → parent z xs i x ≡ parent z (l ∷ r ∷ xs) (suc (suc i)) x
  parent_up z l r i x xs =
      let same : i % 2 ≡ suc (suc i) % 2 = omega arith in
      ap (λ b. let s = elem_or z xs (sibling_index i) in if b == 0 then p.p2 x s else p.p2 s x) same
      ∙ ap
          (λ k.
            let s = elem_or z (l ∷ r ∷ xs) k in if suc (suc i) % 2 == 0 then p.p2 x s else p.p2 s x)
          (sym (sibling_up i))

  get_elem?-pair_up :
      (z : ℕ) (xs : List ℕ) (i : ℕ) {x : ℕ}
      → get_elem? xs i ≡ some x
      → get_elem? (pair_up p z xs) (i / 2) ≡ some (parent z xs i x)
  unfolding pair_up
  get_elem?-pair_up z [] i h = cc h
  get_elem?-pair_up z (l ∷ []) zero h = ground arith
  get_elem?-pair_up z (l ∷ []) (suc i) h = cc h
  get_elem?-pair_up z (l ∷ r ∷ xs) zero h = ground arith
  get_elem?-pair_up z (l ∷ r ∷ xs) (suc zero) h = ground arith
  get_elem?-pair_up z (l ∷ r ∷ xs) (suc (suc i)) {x} h =
      ap (get_elem? (p.p2 l r ∷ pair_up p z xs)) (sym (half_up i))
      ∙ get_elem?-pair_up z xs i h
      ∙ ap some (parent_up z l r i x xs)

  get_elem?-nonempty_level :
      (d : ℕ) (xs : List ℕ) (i : ℕ) {x : ℕ}
      → get_elem? xs i ≡ some x
      → get_elem? (nonempty_level p d xs) i ≡ some x
  get_elem?-nonempty_level d [] i h = cc h
  get_elem?-nonempty_level d (y ∷ ys) i h = h

  get_elem?-level :
      (leaves : List ℕ) (d i : ℕ) {x : ℕ}
      → get_elem? (level p leaves d) i ≡ some x
      → get_elem? (level p leaves (suc d)) (i / 2)
        ≡ some (parent (zero_hash p d) (level p leaves d) i x)
  get_elem?-level leaves d i h =
      unfold level in
      get_elem?-nonempty_level d (pair_up p (zero_hash p d) (level p leaves d)) (i / 2)
        (get_elem?-pair_up (zero_hash p d) (level p leaves d) i h)

  -- From an element of a level, its path leads to the element above it on each higher level.
  get_elem?-climb :
      (leaves : List ℕ) (n d i : ℕ) {x : ℕ}
      → get_elem? (level p leaves d) i ≡ some x
      → get_elem? (level p leaves (above n d)) (halve n i)
        ≡ some (climb x (path_elements p leaves n d i) (path_bits n i))
  unfolding path_elements path_bits
  get_elem?-climb leaves zero d i h = h
  get_elem?-climb leaves (suc n) d i h =
      get_elem?-climb leaves n (suc d) (i / 2) (get_elem?-level leaves d i h)

  at_bottom :
      (leaves : List ℕ) (i : ℕ) {x : ℕ}
      → get_elem? leaves i ≡ some x
      → get_elem? (level p leaves 0) i ≡ some x
  unfolding level
  at_bottom leaves i h = h

  pub root_of_path :
      (leaves : List ℕ) (depth i : ℕ) {x root : ℕ}
      → get_elem? leaves i ≡ some x
      → i < 2 ^ depth
      → get_elem? (level p leaves depth) 0 ≡ some root
      → climb x (path_elements p leaves depth 0 i) (path_bits depth i) ≡ root
  root_of_path leaves depth i {x} {root} h lt r =
      let up : get_elem? (level p leaves (above depth 0)) (halve depth i) ≡ some _ =
        get_elem?-climb leaves depth 0 i (at_bottom leaves i h) in
      let e : above depth 0 ≡ depth = omega (arith, above-add depth 0) in
      let at : some (climb x (path_elements p leaves depth 0 i) (path_bits depth i)) ≡ some root =
        sym up
        ∙ ap (λ m. get_elem? (level p leaves m) (halve depth i)) e
        ∙ ap (get_elem? (level p leaves depth)) (halve-zero depth i lt)
        ∙ r in
      cc at
