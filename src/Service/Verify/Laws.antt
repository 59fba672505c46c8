-- ===== src/Service/Verify/Laws.antt =====
-- The validator's fuel is enough, and what a value that it passes looks like.
use clevercon.Prelude.{
  ℕ, zero, suc, ◌+◌, ◌-◌, ◌≤◌, ◌<◌, ◌≡◌, refl, ◌⊎◌, inl, inr, some, List, [], ◌∷◌, String, arith,
  Option-cases, Bool-cases, some_subst,
}
use text.Mathlib.Text.{◌==◌ as str_eq}
use clevercon.Json.{
  Json, undefined, null, bool, num, str, arr, obj, Elems, nil, cons, Props, end, prop, elems, props,
  lookup, get, truthy,
}
use clevercon.Service.Js.{Js}
use clevercon.Service.Verify.{
  Check, size, size_elems, size_props, index_entries, entries_of, check_entries, check_items,
  check_object, check_array, check_node, validate,
}

pub size_pos : (v : Json) → 0 < size v
size_pos undefined = omega arith
size_pos null = omega arith
size_pos (bool b) = omega arith
size_pos (num n) = omega arith
size_pos (str s) = omega arith
size_pos (arr xs) = omega arith
size_pos (obj ps) = omega arith

size-lookup : (k : String) (ps : Props) {v : Json} → lookup k ps ≡ some v → size v ≤ size_props ps
unfolding lookup
size-lookup k end e = cc e
size-lookup k (prop j u ps) {v} e = elim (Bool-cases (str_eq j k)) [
  | inl here ↦
      let same : some u ≡ some v = rw here at e in
      some_subst (λ (x : Json). size x ≤ size u + size_props ps) same (omega arith)
  | inr other ↦ let le = size-lookup k ps {v = v} (rw other at e) in omega (arith, le)
]

abbrev pub entries_size : List (String × Json) → ℕ
entries_size [] = 0
entries_size ((k, v) ∷ es) = size v + entries_size es

entries_size-props : (ps : Props) → entries_size (props ps) ≡ size_props ps
entries_size-props end = refl
entries_size-props (prop k v ps) = omega (arith, entries_size-props ps)

module _ (js : Js) where
  entries_size-index :
      (i : ℕ) (xs : Elems) → entries_size (index_entries js i (elems xs)) ≡ size_elems xs
  entries_size-index i nil = refl
  entries_size-index i (cons v xs) = omega (arith, entries_size-index (suc i) xs)

  entries_size-entries_of : (v : Json) → entries_size (entries_of js v) < size v
  unfolding entries_of
  entries_size-entries_of undefined = omega arith
  entries_size-entries_of null = omega arith
  entries_size-entries_of (bool b) = omega arith
  entries_size-entries_of (num n) = omega arith
  entries_size-entries_of (str s) = omega arith
  entries_size-entries_of (arr xs) = omega (arith, entries_size-index 0 xs)
  entries_size-entries_of (obj ps) = omega (arith, entries_size-props ps)

  -- A member of a schema is smaller than the schema, or missing.
  get_smaller : (k : String) (s : Json) → (get k s ≡ undefined) ⊎ (size (get k s) < size s)
  unfolding get
  get_smaller k undefined = inl refl
  get_smaller k null = inl refl
  get_smaller k (bool b) = inl refl
  get_smaller k (num n) = inl refl
  get_smaller k (str t) = inl refl
  get_smaller k (arr xs) = inl refl
  get_smaller k (obj ps) = elim (Option-cases (lookup k ps)) [
    | inl e ↦ inl (rw (e, get))
    | inr (v, e) ↦ let le = size-lookup k ps e in inr (rw (e, get) (omega (arith, le)))
  ]

  pub entries_of-smaller : (k : String) (s : Json) → entries_size (entries_of js (get k s)) < size s
  unfolding entries_of
  entries_of-smaller k s = elim (get_smaller k s) [
    | inl e ↦ rw e (size_pos s)
    | inr h ↦ omega (arith, h, entries_size-entries_of (get k s))
  ]

  -- Two validators of members that agree on the small schemas.
  module _ (r r' : Json → Json → Check) (n : ℕ)
      (agree : (v s : Json) → size s ≤ n → r v s ≡ r' v s) where
    check_entries-agree :
        (es : List (String × Json)) (ps : Props)
        → entries_size es ≤ n
        → check_entries js r es ps ≡ check_entries js r' es ps
    unfolding check_entries
    check_entries-agree [] ps h = refl
    check_entries-agree ((k, sub) ∷ es) ps h =
        let rest = check_entries-agree es ps (omega (arith, h)) in
        elim (Option-cases (lookup k ps)) [
          | inl e ↦ rw (e, check_entries) rest
          | inr (v, e) ↦
              let same = agree v sub (omega (arith, h)) in
              rw (e, check_entries) (rw (same, rest) refl)
        ]

    check_items-agree :
        (vs : List Json) (sub : Json)
        → size sub ≤ n
        → check_items js r vs sub ≡ check_items js r' vs sub
    unfolding check_items
    check_items-agree [] sub h = refl
    check_items-agree (v ∷ vs) sub h = rw (agree v sub h, check_items-agree vs sub h) refl

    check_object-agree :
        (value schema : Json)
        → size schema ≤ suc n
        → check_object js r value schema ≡ check_object js r' value schema
    check_object-agree undefined schema h = refl
    check_object-agree null schema h = refl
    check_object-agree (bool b) schema h = refl
    check_object-agree (num i) schema h = refl
    check_object-agree (str t) schema h = refl
    check_object-agree (arr xs) schema h = refl
    check_object-agree (obj ps) schema h =
        let small = entries_of-smaller "properties" schema in
        let same =
          check_entries-agree (entries_of js (get "properties" schema)) ps
            (omega (arith, h, small)) in
        rw same refl

    check_array-agree :
        (value schema : Json)
        → size schema ≤ suc n
        → check_array js r value schema ≡ check_array js r' value schema
    unfolding truthy
    check_array-agree undefined schema h = refl
    check_array-agree null schema h = refl
    check_array-agree (bool b) schema h = refl
    check_array-agree (num i) schema h = refl
    check_array-agree (str t) schema h = refl
    check_array-agree (obj ps) schema h = refl
    check_array-agree (arr xs) schema h = elim (get_smaller "items" schema) [
      | inl e ↦ rw e (ground arith)
      | inr small ↦
          rw (check_items-agree (elems xs) (get "items" schema) (omega (arith, h, small))) refl
    ]

    check_node-agree :
        (value schema : Json)
        → size schema ≤ suc n
        → check_node js r value schema ≡ check_node js r' value schema
    check_node-agree value schema h =
        rw (check_object-agree value schema h, check_array-agree value schema h) refl

  -- The validator has fuel enough as soon as it has the schema's size: more changes nothing.
  pub validate_enough :
      (n m : ℕ) (value schema : Json)
      → size schema ≤ n
      → size schema ≤ m
      → validate js n value schema ≡ validate js m value schema
  unfolding validate
  validate_enough zero m value schema h g =
      let none_left : ⊥ = omega (arith, h, size_pos schema) in elim none_left [ ]
  validate_enough (suc n) zero value schema h g =
      let none_left : ⊥ = omega (arith, g, size_pos schema) in elim none_left [ ]
  validate_enough (suc n) (suc m) value schema h g =
      let same =
        check_node-agree (validate js n) (validate js m) (size schema - 1)
          (λ v s le.
            validate_enough n m v s (omega (arith, le, h, size_pos schema))
              (omega (arith, le, g, size_pos schema)))
          value schema (omega (arith, size_pos schema)) in
      rw same refl
