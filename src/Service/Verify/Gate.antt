-- ===== src/Service/Verify/Gate.antt =====
-- What each declared verification lets through.
use clevercon.Prelude.{
  ◌≡◌, ap, refl, true, false, ◌&&◌, ◌||◌, Option, none, some, List, [], String, arith, Bool-cases,
  inl, inr, if◌then◌else◌, subst,
}
use text.Mathlib.Text.{◌==◌ as str_eq}
use text.Mathlib.TextEquality.{eq_iff}
use clevercon.Json.{
  Json, undefined, null, bool, num, str, arr, obj, end, get, truthy, nullish_or, is_text,
}
use clevercon.Service.Js.{Js}
use clevercon.Service.Verify.{Check, passed}
use clevercon.Service.Verify.Delivery.{
  verify_delivery, Predicate, strict_eq, content_hash_check, signature_check, witness_check,
  result_signing_payload, sha256_predicate, onchain_check, run_predicate,
}
use clevercon.Store.Rows.{Verification}

is_text_lem : (s : String) (j : Json) → is_text s j ≡ true → j ≡ str s
is_text_lem s (str t) h = ap str ((eq_iff t s).0 h)
is_text_lem s undefined h = cc h
is_text_lem s null h = cc h
is_text_lem s (bool b) h = cc h
is_text_lem s (num n) h = cc h
is_text_lem s (arr xs) h = cc h
is_text_lem s (obj ps) h = cc h

module _ (js : Js) where
  -- what a content hash is held against
  abbrev pub expected_hash : (spec input : Json) → Json
  expected_hash spec input =
      nullish_or (get "expect" spec)
        (get (js.show (nullish_or (get "inputHashField" spec) (str "hash"))) input)

  -- A delivery that passes a content-hash check: a hash was expected, and the artifact has it.
  pub content_hash_check-passed :
      (spec input output : Json)
      → content_hash_check js spec input output ≡ passed
      → (truthy (expected_hash spec input) ≡ true)
        × (strict_eq (get "hash" (get "artifact" output)) (expected_hash spec input) ≡ true)
  content_hash_check-passed spec input output h = ground arith

  -- One that passes a signature check: key and signature are there, and the signature verifies.
  pub signature_check-passed :
      (spec output : Json)
      → signature_check js spec output ≡ passed
      → (truthy (nullish_or (get "signerKey" spec) (str "")) ≡ true)
        × (truthy (get "signature" output) ≡ true)
        × (js.verify_signature
              (nullish_or (get "signerKey" spec) (str ""))
              (result_signing_payload js output)
              (get "signature" output)
            ≡ some true)
  signature_check-passed spec output h = ground arith

  -- The digest that a delivery names is that of the text which the input names.
  abbrev pub Digested : (input value : Json) → Type 0
  Digested input value =
      (src : String) × (get "data" input ≡ str src)
      × (get "sha256" value ≡ str (js.sha256_hex src))
      × (truthy (get "sha256" value) ≡ true)

  digest_of :
      (given value : Json)
      → elim given [
        | str src ↦ truthy (get "sha256" value) && is_text (js.sha256_hex src) (get "sha256" value)
        | _ ↦ false
      ]
        ≡ true
      → (src : String) × (given ≡ str src)
        × (get "sha256" value ≡ str (js.sha256_hex src))
        × (truthy (get "sha256" value) ≡ true)
  digest_of (str src) value h =
      (src, refl, is_text_lem (js.sha256_hex src) (get "sha256" value) (ground arith), ground arith)
  digest_of undefined value h = cc h
  digest_of null value h = cc h
  digest_of (bool b) value h = cc h
  digest_of (num n) value h = cc h
  digest_of (arr xs) value h = cc h
  digest_of (obj ps) value h = cc h

  -- What passes, by the method that the service declares.
  abbrev pub Justified : Verification → (input output : Json) → Type 0
  Justified v input output =
      let spec = nullish_or v.spec (obj end) in
      (v.method ≡ "content-hash"
        → (truthy (expected_hash spec input) ≡ true)
          × (strict_eq (get "hash" (get "artifact" output)) (expected_hash spec input) ≡ true))
      × (v.method ≡ "signature"
          → (truthy (nullish_or (get "signerKey" spec) (str "")) ≡ true)
            × (truthy (get "signature" output) ≡ true)
            × (js.verify_signature (nullish_or (get "signerKey" spec) (str ""))
                  (result_signing_payload js output) (get "signature" output)
                ≡ some true))
      × (v.method ≡ "witness"
          → get "predicate" spec ≡ str "sha256"
          → Digested input (get "data" output))

  verify_delivery-ok :
      (derive : Option (Json → Option Json)) (added : List (String × Predicate js))
      (v : Verification) (input output : Json)
      → verify_delivery js derive added v input output ≡ passed
      → truthy (get "ok" output) ≡ true
  unfolding verify_delivery
  verify_delivery-ok derive added v input output h = ground arith

  verify_delivery_ok :
      (derive : Option (Json → Option Json)) (added : List (String × Predicate js)) (m : String)
      (spec input output : Json) {c : Check}
      → truthy (get "ok" output) ≡ true
      → verify_delivery js derive added (record { method = m; spec = spec }) input output ≡ c
      → (if str_eq m "attest" || str_eq m "manual"
          then passed
          else if str_eq m "content-hash"
          then content_hash_check js (nullish_or spec (obj end)) input output
          else if str_eq m "signature"
          then signature_check js (nullish_or spec (obj end)) output
          else if str_eq m "witness"
          then witness_check js added (nullish_or spec (obj end)) input output
          else if str_eq m "onchain"
          then onchain_check js derive input output
          else passed)
        ≡ c
  unfolding verify_delivery
  verify_delivery_ok derive added m spec input output ok h = rw (ok, verify_delivery) at h

  run_predicate-sha256 :
      (input output : Json)
      → run_predicate js [] (str "sha256") input output ≡ passed
      → sha256_predicate js input (get "data" output) ≡ true
  run_predicate-sha256 input output h =
      elim (Bool-cases (sha256_predicate js input (get "data" output))) [
        | inl e ↦ e
        | inr e ↦ cc (rw e at h)
      ]

  witness_check-sha256 :
      (spec input output : Json)
      → get "predicate" spec ≡ str "sha256"
      → witness_check js [] spec input output ≡ passed
      → sha256_predicate js input (get "data" output) ≡ true
  unfolding nullish_or
  witness_check-sha256 spec input output named h =
      run_predicate-sha256 input output
        (subst (λ n. run_predicate js [] (nullish_or n (str "")) input output ≡ passed) named h)

  -- A delivery that passes with no options was sent as good by its provider. Under the method
  -- content-hash the service or the buyer's input names a hash, not an empty one, and its artifact
  -- has that hash; under the method signature it has the declared signer's signature of its payload;
  -- and under the method witness with the predicate sha256 it has the digest of the input's text.
  pub verify_delivery-passed :
      (v : Verification) (input output : Json)
      → verify_delivery js none [] v input output ≡ passed
      → (truthy (get "ok" output) ≡ true) × Justified v input output
  verify_delivery-passed v input output h =
      let ok = verify_delivery-ok none [] v input output h in
      let run = verify_delivery_ok none [] v.method v.spec input output ok h in
      (
        ok,
        (
          λ m. content_hash_check-passed (nullish_or v.spec (obj end)) input output (rw m at run),
          λ m. signature_check-passed (nullish_or v.spec (obj end)) output (rw m at run),
          λ m named.
              digest_of (get "data" input) (get "data" output) (
                witness_check-sha256 (nullish_or v.spec (obj end)) input output named
                  (rw m at run)),
        ),
      )
