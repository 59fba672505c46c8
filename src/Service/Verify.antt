-- ===== src/Service/Verify.antt =====
-- packages/common/src/service-verify.ts: the check of a delivery against a service's output
-- schema, and the verification that the service declares. `fuel` bounds the nesting of a schema;
-- `validate_schema` starts with the schema's own depth. A property's name is taken not to be one
-- of `Object.prototype`, and numbers to be integers.
pub mod Laws
pub mod Passed
pub mod Delivery
pub mod Gate
use clevercon.Prelude.{
  ℕ, zero, suc, ◌+◌, Bool, true, false, not, ◌&&◌, ◌||◌, Option, none, some, List, [], ◌∷◌, String,
  map, or_else, if◌then◌else◌,
}
use clevercon.Prelude.Int.{ℤ, ◌*ℤ◌, eq_ℤ}
use text.Mathlib.Text.{◌==◌ as str_eq}
use Prim.Native.String.{◌++◌ as ◌+++◌}
use clevercon.Json.{
  Json, undefined, null, bool, num, str, arr, obj, Elems, nil, cons, Props, end, prop, elems, props,
  lookup, get, truthy, nullish_or, is_object, is_num, is_str, is_text,
}
use clevercon.Service.Js.{Js}
use clevercon.Store.Rows.{Verification}

-- `VerifyResult`; a check that throws has faulted.
pub data Check : Type 0 where
  passed : Check
  deferred : String → Check
  refused : String → Check
  faulted : Check

-- `typeof`, with the names that the validator gives to arrays and to null
unfoldable pub type_name : Json → String
type_name undefined = "undefined"
type_name null = "null"
type_name (bool b) = "boolean"
type_name (num n) = "number"
type_name (str s) = "string"
type_name (arr xs) = "array"
type_name (obj ps) = "object"

abbrev pub wanted : Json → Json
wanted t = if is_text "integer" t then str "number" else t

-- The fuel that a schema needs.
abbrev mutual
  pub size : Json → ℕ
  size (arr xs) = suc (size_elems xs)
  size (obj ps) = suc (size_props ps)
  size v = 1

  pub size_elems : Elems → ℕ
  size_elems nil = 0
  size_elems (cons v vs) = size v + size_elems vs

  pub size_props : Props → ℕ
  size_props end = 0
  size_props (prop k v ps) = size v + size_props ps

-- A check, and the next one where it passes.
abbrev pub and_then : Check → Check → Check
and_then (refused r) next = refused r
and_then faulted next = faulted
and_then (deferred r) next = deferred r
and_then passed next = next

abbrev pub within : String → Check → Check
within k (refused r) = refused ((k +++ ": ") +++ r)
within k c = c

abbrev pub has_all : List String → Props → Check
has_all [] ps = passed
has_all (k ∷ ks) ps = elim (lookup k ps) [
  | none ↦ refused ("missing required: " +++ k)
  | some v ↦ has_all ks ps
]

module _ (js : Js) where
  -- what the loop over `schema.required ?? []` visits, none where it throws
  unfoldable pub required_keys : Json → Option (List String)
  required_keys undefined = some []
  required_keys null = some []
  required_keys (arr xs) = some (map js.show (elems xs))
  required_keys (str s) = some (js.chars s)
  required_keys v = none

  abbrev pub index_entries : ℕ → List Json → List (String × Json)
  index_entries i [] = []
  index_entries i (v ∷ vs) = (js.show (num (ℤ.pos i)), v) ∷ index_entries (suc i) vs

  -- `Object.entries(schema.properties ?? {})`; the characters of a text constrain nothing
  unfoldable pub entries_of : Json → List (String × Json)
  entries_of (obj ps) = props ps
  entries_of (arr xs) = index_entries 0 (elems xs)
  entries_of v = []

  abbrev pub check_type : Json → Json → Check
  check_type value type = if not (truthy type) then passed else elim (wanted type) [
    | str s ↦
        if str_eq (type_name value) s
        then passed
        else refused ((("expected " +++ js.show type) +++ ", got ") +++ type_name value)
    | _ ↦ refused ((("expected " +++ js.show type) +++ ", got ") +++ type_name value)
  ]

  abbrev pub check_required : Json → Props → Check
  check_required required ps = elim (required_keys required) [
    | none ↦ faulted
    | some ks ↦ has_all ks ps
  ]

  module _ (rec : Json → Json → Check) where
    unfoldable pub check_entries : List (String × Json) → Props → Check
    check_entries [] ps = passed
    check_entries ((k, sub) ∷ es) ps = elim (lookup k ps) [
      | none ↦ check_entries es ps
      | some v ↦ and_then (within k (rec v sub)) (check_entries es ps)
    ]

    unfoldable pub check_items : List Json → Json → Check
    check_items [] sub = passed
    check_items (v ∷ vs) sub = and_then (rec v sub) (check_items vs sub)

    abbrev pub check_object : Json → Json → Check
    check_object (obj ps) schema =
        if is_text "object" (get "type" schema) || truthy (get "properties" schema)
        then and_then (check_required (get "required" schema) ps)
            (check_entries (entries_of (get "properties" schema)) ps)
        else passed
    check_object v schema = passed

    abbrev pub check_array : Json → Json → Check
    check_array (arr xs) schema =
        if is_text "array" (get "type" schema) && truthy (get "items" schema)
        then check_items (elems xs) (get "items" schema)
        else passed
    check_array v schema = passed

    abbrev pub check_node : Json → Json → Check
    check_node value schema =
        and_then (check_type value (get "type" schema))
          (and_then (check_object value schema) (check_array value schema))

  unfoldable pub validate : (fuel : ℕ) → Json → Json → Check
  validate zero value schema = if truthy schema then faulted else passed
  validate (suc n) value schema =
      if not (truthy schema) then passed else check_node (validate n) value schema

  -- `validateSchema`
  abbrev pub validate_schema : Json → Json → Check
  validate_schema value schema = validate (size schema) value schema
