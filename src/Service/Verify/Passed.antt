-- ===== src/Service/Verify/Passed.antt =====
-- What a value that the validator passes looks like.
use clevercon.Prelude.{
  ℕ, suc, ◌-◌, ◌≤◌, ◌≡◌, refl, sym, ◌∙◌, true, some, List, [], ◌∷◌, String, arith, Option-cases,
  inl, inr, All, some_subst, subst,
}
use clevercon.Json.{Json, undefined, null, bool, num, str, arr, obj, Props, lookup, get, truthy}
use clevercon.Service.Js.{Js}
use clevercon.Service.Verify.{
  Check, passed, deferred, refused, faulted, size, and_then, within, has_all, required_keys,
  entries_of, check_type, check_required, check_entries, check_object, check_array, check_node,
  validate, validate_schema, type_name,
}
use clevercon.Service.Verify.Laws.{size_pos, entries_size, entries_of-smaller, validate_enough}

and_then-passed : (a b : Check) → and_then a b ≡ passed → (a ≡ passed) × (b ≡ passed)
and_then-passed passed b h = (refl, h)
and_then-passed (deferred r) b h = cc h
and_then-passed (refused r) b h = cc h
and_then-passed faulted b h = cc h

within-passed : (k : String) (c : Check) → within k c ≡ passed → c ≡ passed
within-passed k passed h = refl
within-passed k (deferred r) h = cc h
within-passed k (refused r) h = cc h
within-passed k faulted h = cc h

abbrev pub HasKey : Props → String → Type 0
HasKey ps k = (v : Json) × (lookup k ps ≡ some v)

has_all-passed : (ks : List String) (ps : Props) → has_all ks ps ≡ passed → All (HasKey ps) ks
has_all-passed [] ps h = tt
has_all-passed (k ∷ ks) ps h = elim (Option-cases (lookup k ps)) [
  | inl e ↦ cc (rw (e, has_all) at h)
  | inr (v, e) ↦ ((v, e), has_all-passed ks ps (rw (e, has_all) at h))
]

module _ (js : Js) where
  -- The members that an object has pass the schemas that are given for them.
  abbrev pub MemberPasses : Props → String × Json → Type 0
  MemberPasses ps e = (v : Json) → lookup e.0 ps ≡ some v → validate_schema js v e.1 ≡ passed

  check_entries-passed :
      (n : ℕ) (es : List (String × Json)) (ps : Props)
      → entries_size es ≤ n
      → check_entries js (validate js n) es ps ≡ passed
      → All (MemberPasses ps) es
  unfolding check_entries
  check_entries-passed n [] ps le h = tt
  check_entries-passed n ((k, sub) ∷ es) ps le h = elim (Option-cases (lookup k ps)) [
    | inl e ↦ (
      λ v found. cc (sym e ∙ found),
      check_entries-passed n es ps (omega (arith, le)) (rw (e, check_entries) at h),
    )
    | inr (u, e) ↦
        let both =
          and_then-passed (within k (validate js n u sub)) (check_entries js (validate js n) es ps)
            (rw (e, check_entries) at h) in
        let here =
          validate_enough js (size sub) n u sub (omega arith) (omega (arith, le))
          ∙ within-passed k (validate js n u sub) both.0 in
        (
          λ v found.
              some_subst (λ (x : Json). validate_schema js x sub ≡ passed) (sym e ∙ found) here,
          check_entries-passed n es ps (omega (arith, le)) both.1,
        )
  ]

  required-passed :
      (required : Json) (ps : Props)
      → check_required js required ps ≡ passed
      → (ks : List String) × (required_keys js required ≡ some ks) × All (HasKey ps) ks
  required-passed required ps h = elim (Option-cases (required_keys js required)) [
    | inl e ↦ cc (rw (e, check_required) at h)
    | inr (ks, e) ↦ (ks, e, has_all-passed ks ps (rw (e, check_required) at h))
  ]

  check_type-object :
      (value : Json) → check_type js value (str "object") ≡ passed → (ps : Props) × (value ≡ obj ps)
  unfolding type_name truthy
  check_type-object undefined h = cc h
  check_type-object null h = cc h
  check_type-object (bool b) h = cc h
  check_type-object (num n) h = cc h
  check_type-object (str s) h = cc h
  check_type-object (arr xs) h = cc h
  check_type-object (obj ps) h = (ps, refl)

  check_object-passed :
      (n : ℕ) (ps : Props) (schema : Json)
      → size schema ≤ suc n
      → get "type" schema ≡ str "object"
      → check_object js (validate js n) (obj ps) schema ≡ passed
      → ((ks : List String) × (required_keys js (get "required" schema) ≡ some ks)
          × All (HasKey ps) ks)
        × All (MemberPasses ps) (entries_of js (get "properties" schema))
  check_object-passed n ps schema le type h =
      let required = check_required js (get "required" schema) ps in
      let entries = check_entries js (validate js n) (entries_of js (get "properties" schema)) ps in
      let both = and_then-passed required entries (rw (type, check_object) at h) in
      (
        required-passed (get "required" schema) ps both.0,
        check_entries-passed n (entries_of js (get "properties" schema)) ps
            (omega (arith, le, entries_of-smaller js "properties" schema)) both.1,
      )

  -- A value that passes an object's schema is an object; it has each member that the schema
  -- requires, and each member that it has passes the schema given for it.
  pub validate_schema-passed :
      (value schema : Json)
      → truthy schema ≡ true
      → get "type" schema ≡ str "object"
      → validate_schema js value schema ≡ passed
      → (ps : Props) × (value ≡ obj ps)
        × ((ks : List String) × (required_keys js (get "required" schema) ≡ some ks)
            × All (HasKey ps) ks)
        × All (MemberPasses ps) (entries_of js (get "properties" schema))
  unfolding validate
  validate_schema-passed value schema given type h =
      let n = size schema - 1 in
      let run : validate js (suc n) value schema ≡ passed =
        validate_enough js (suc n) (size schema) value schema (omega (arith, size_pos schema))
          (omega arith)
        ∙ h in
      let node : check_node js (validate js n) value schema ≡ passed = rw given at run in
      let rest =
        and_then (check_object js (validate js n) value schema)
          (check_array js (validate js n) value schema) in
      let typed = and_then-passed (check_type js value (get "type" schema)) rest node in
      let (ps, is_obj) =
        check_type-object value (subst (λ t. check_type js value t ≡ passed) type typed.0) in
      let both =
        and_then-passed (check_object js (validate js n) value schema)
          (check_array js (validate js n) value schema) typed.1 in
      let (a, b) =
        check_object-passed n ps schema (omega (arith, size_pos schema)) type
          (subst (λ v. check_object js (validate js n) v schema ≡ passed) is_obj both.0) in
      (ps, is_obj, a, b)
