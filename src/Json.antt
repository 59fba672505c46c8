-- ===== src/Json.antt =====
-- Values of JavaScript as the services read them from `JSON.parse` and from the database's JSON
-- columns. Numbers are integers: the code reads fractions nowhere that is modelled. `undefined`
-- stands for a missing property.
use clevercon.Prelude.{
  ℕ, Bool, true, false, not, Option, none, some, List, [], ◌∷◌, String, if◌then◌else◌,
}
use clevercon.Prelude.Int.{ℤ, pos}
use text.Mathlib.Text.{◌==◌ as str_eq}

mutual
  -- the members of an object, in the order of their insertion
  pub data Props : Type 0 where
    end : Props
    prop : String → Json → Props → Props

  pub data Json : Type 0 where
    obj : Props → Json
    arr : Elems → Json
    undefined null : Json
    num : ℤ → Json
    str : String → Json
    bool : Bool → Json

  pub data Elems : Type 0 where
    cons : Json → Elems → Elems
    nil : Elems

abbrev pub props : Props → List (String × Json)
props (prop key value rest) = (key, value) ∷ props rest
props end = []

abbrev pub elems : Elems → List Json
elems (cons first rest) = first ∷ elems rest
elems nil = []

-- `o[k]` on the properties of an object
unfoldable pub lookup : String → Props → Option Json
lookup k end = none
lookup k (prop j v ps) = if str_eq j k then some v else lookup k ps

-- `v.k`, `undefined` if `v` is no object or lacks the property
unfoldable pub get : String → Json → Json
unfolding lookup
get k (obj ps) = elim (lookup k ps) [ none ↦ undefined | some v ↦ v ]
get k _ = undefined

-- JavaScript's truthiness
unfoldable pub truthy : Json → Bool
truthy undefined = false
truthy null = false
truthy (bool b) = b
truthy (num (pos ℕ.zero)) = false
truthy (num n) = true
truthy (str s) = not (str_eq s "")
truthy (arr xs) = true
truthy (obj ps) = true

-- `v ?? w`
unfoldable pub nullish_or : Json → Json → Json
nullish_or undefined w = w
nullish_or null w = w
nullish_or v w = v

abbrev pub is_object : Json → Bool
is_object (obj ps) = true
is_object (arr xs) = true
is_object null = true
is_object v = false

abbrev pub is_bool : Json → Bool
is_bool (bool b) = true
is_bool v = false

abbrev pub is_num : Json → Bool
is_num (num n) = true
is_num v = false

abbrev pub is_str : Json → Bool
is_str (str s) = true
is_str v = false

-- `v === s`
abbrev pub is_text : String → Json → Bool
is_text s (str t) = str_eq t s
is_text s v = false
