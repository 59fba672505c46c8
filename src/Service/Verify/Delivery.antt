-- ===== src/Service/Verify/Delivery.antt =====
-- `resultSigningPayload`, the predicates and `verifyDelivery`. A delivery is the envelope that the
-- provider sent, a JSON value; `derive` and the added predicates are the caller's options.
use clevercon.Prelude.{
  Bool, true, false, not, ◌&&◌, ◌||◌, Option, none, some, List, [], ◌∷◌, String, map, if◌then◌else◌,
}
use clevercon.Prelude.Int.{ℤ, ◌*ℤ◌, eq_ℤ}
use text.Mathlib.Text.{◌==◌ as str_eq}
use Prim.Native.String.{◌++◌ as ◌+++◌}
use clevercon.Json.{
  Json, undefined, null, bool, num, str, arr, obj, Elems, nil, cons, Props, end, prop, get, truthy,
  nullish_or, is_text,
}
use clevercon.Service.Js.{Js}
use clevercon.Service.Verify.{Check, passed, deferred, refused}
use clevercon.Store.Rows.{Verification}

-- `a === b` on two values that were read apart: two objects are never the same
unfoldable pub strict_eq : Json → Json → Bool
strict_eq undefined undefined = true
strict_eq null null = true
strict_eq (bool true) (bool b) = b
strict_eq (bool false) (bool b) = not b
strict_eq (num a) (num b) = eq_ℤ a b
strict_eq (str s) (str t) = str_eq s t
strict_eq _ _ = false

abbrev pub comma : List String → String
comma [] = ""
comma (s ∷ []) = s
comma (s ∷ ss) = (s +++ ",") +++ comma ss

abbrev pub text_at : String → List (String × String) → String
text_at k [] = ""
text_at k ((j, s) ∷ es) = if str_eq j k then s else text_at k es

abbrev pub keys : List (String × String) → List String
keys [] = []
keys ((k, s) ∷ es) = k ∷ keys es

module _ (js : Js) where
  -- `{${Object.keys(o).sort().map(…).join(',')}}`, the members' texts at hand
  abbrev pub object_text : List (String × String) → String
  object_text es =
      ("{"
        +++ comma (map (λ k. (js.stringify (str k) +++ ":") +++ text_at k es) (js.sort (keys es))))
      +++ "}"

  unfoldable mutual
    pub stable : Json → String
    stable undefined = "null"
    stable (arr xs) = ("[" +++ comma (stable_elems xs)) +++ "]"
    stable (obj ps) = object_text (stable_props ps)
    stable v = js.stringify v

    pub stable_elems : Elems → List String
    stable_elems nil = []
    stable_elems (cons v vs) = stable v ∷ stable_elems vs

    pub stable_props : Props → List (String × String)
    stable_props end = []
    stable_props (prop k v ps) = (k, stable v) ∷ stable_props ps

  abbrev pub signed_body : Json → Json → String
  signed_body undefined hash = js.show (nullish_or hash (str ""))
  signed_body value hash = stable value

  -- `resultSigningPayload`
  unfoldable pub result_signing_payload : Json → String
  result_signing_payload output =
      (js.show (get "issuedAt" output) +++ ":")
      +++ signed_body (get "data" output) (get "hash" (get "artifact" output))

  abbrev same_product : Json → Json → Option ℤ → Bool
  same_product (num a) (num b) (some n) = eq_ℤ (a *ℤ b) n
  same_product _ _ _ = false

  abbrev pub product_predicate : Json → Json → Bool
  product_predicate input value =
      truthy value && same_product (get "a" value) (get "b" value) (js.to_number (get "n" input))

  abbrev pub sha256_predicate : Json → Json → Bool
  sha256_predicate input value = elim (get "data" input) [
    | str src ↦ truthy (get "sha256" value) && is_text (js.sha256_hex src) (get "sha256" value)
    | _ ↦ false
  ]

  -- A predicate answers, or throws.
  abbrev pub Predicate : Type 0
  Predicate = Json → Json → Option Bool

  abbrev pub predicate_of : List (String × Predicate) → Json → Option Predicate
  predicate_of [] name =
      if is_text "product" name
      then some (λ input value. some (product_predicate input value))
      else if is_text "sha256" name
      then some (λ input value. some (sha256_predicate input value))
      else none
  predicate_of ((k, p) ∷ ps) name = if is_text k name then some p else predicate_of ps name

  abbrev verdict : (reason fault : String) → Option Bool → Check
  verdict reason fault (some true) = passed
  verdict reason fault (some false) = refused reason
  verdict reason fault none = refused fault

  abbrev pub content_hash_check : Json → Json → Json → Check
  content_hash_check spec input output =
      let field = nullish_or (get "inputHashField" spec) (str "hash") in
      let expect = nullish_or (get "expect" spec) (get (js.show field) input) in
      let got = get "hash" (get "artifact" output) in
      if not (truthy expect)
      then refused "no expected hash to check against"
      else if strict_eq got expect
      then passed
      else refused ((("hash mismatch: " +++ js.show got) +++ " != ") +++ js.show expect)

  abbrev pub signature_check : Json → Json → Check
  signature_check spec output =
      let key = nullish_or (get "signerKey" spec) (str "") in
      if not (truthy key) || not (truthy (get "signature" output))
      then refused "missing signer key or signature"
      else verdict "signature invalid" "signature check failed"
          (js.verify_signature key (result_signing_payload output) (get "signature" output))

  abbrev pub run_predicate : List (String × Predicate) → (name : Json) → Json → Json → Check
  run_predicate added name input output = elim (predicate_of added name) [
    | none ↦ refused ("unknown witness predicate: " +++ js.show name)
    | some p ↦ verdict "witness check failed" "witness error" (p input (get "data" output))
  ]

  abbrev pub witness_check : List (String × Predicate) → Json → Json → Json → Check
  witness_check added spec input output =
      run_predicate added (nullish_or (get "predicate" spec) (str "")) input output

  abbrev pub onchain_check : Option (Json → Option Json) → Json → Json → Check
  onchain_check none input output = deferred "onchain verification deferred to buyer"
  onchain_check (some derive) input output = elim (derive input) [
    | none ↦ refused "onchain derive failed"
    | some expected ↦
        if str_eq (stable expected) (stable (get "data" output))
        then passed
        else refused "onchain re-derivation mismatch"
  ]

  -- `verifyDelivery`; the reasons are without the text of a caught error
  unfoldable pub verify_delivery :
      Option (Json → Option Json) → List (String × Predicate) → Verification → Json → Json → Check
  verify_delivery derive added v input output =
      let spec = nullish_or v.spec (obj end) in
      if not (truthy (get "ok" output))
      then refused (js.show (nullish_or (get "error" output) (str "provider returned not-ok")))
      else if str_eq v.method "attest" || str_eq v.method "manual"
      then passed
      else if str_eq v.method "content-hash"
      then content_hash_check spec input output
      else if str_eq v.method "signature"
      then signature_check spec output
      else if str_eq v.method "witness"
      then witness_check added spec input output
      else if str_eq v.method "onchain"
      then onchain_check derive input output
      else passed
