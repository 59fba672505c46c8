-- ===== src/Tests/Checks.antt =====
-- Proofs, chain calls, deliveries and rules.
use clevercon.Prelude.{
  ℕ, ◌+◌, ◌<◌, ◌≡◌, ◌⊎◌, ◌^◌, refl, true, Option, none, some, List, [], ◌∷◌, String, arith, All,
  length,
}
use clevercon.Prelude.Int.{pos}
use clevercon.Json.{
  Json, null, bool, num, str, arr, obj, nil, cons, end, prop, lookup, get, truthy, nullish_or,
}
use clevercon.Store.Rows.{Verification}
use clevercon.Proof.Bytes.{Bytes, zeros, value}
use clevercon.Proof.Inputs.{
  Field, encode_public_inputs, to_field, assert32, payee_hash, payee_field, amount_scalar,
}
use clevercon.Proof.Inputs.Laws.{value-amount_scalar, payee_field-lt}
use clevercon.Proof.Binding.{
  BindingProofInput, BindingProof, build_binding_proof, build_with, find_opening, closes,
  verify_binding_proof_locally,
}
use clevercon.Proof.Binding.Laws.{verify-build}
use clevercon.Worker.Chain.{
  Attempt, SendResponse, Poll, err, exhausted, run_attempt, submit_delegate_call,
}
use clevercon.Worker.Chain.Laws.{IsRefused, submit_delegate_call_cases}
use clevercon.Service.Verify.{
  passed, validate, validate_schema, check_entries, check_items, required_keys, entries_of,
  type_name,
}
use clevercon.Service.Verify.Passed.{validate_schema-passed, HasKey, MemberPasses}
use clevercon.Service.Verify.Delivery.{verify_delivery}
use clevercon.Service.Verify.Gate.{Justified, verify_delivery-passed}
use clevercon.Rule.{
  Rule, RuleForm, RuleClause, validate_rule, see_all, clause_errors, type_of, type_rank,
}
use clevercon.Rule.Valid.{IsValid, validate_rule-IsValid}
use clevercon.Tests.Fixtures.{zero_crypto, plain_js}

abbrev input : BindingProofInput
input = record {
  commitment = Field.buffer (zeros 32);
  payee = 20;
  amount = 5;
  nullifier = Field.buffer (zeros 32);
  grand_product_eval = none;
  selector_evals_hash = none;
  shifted_opening_eval = none;
}

abbrev proof_of : Option BindingProof → BindingProof
proof_of none = record { proof = []; pi_hash = [] }
proof_of (some p) = p

abbrev built_proof : BindingProof
built_proof = proof_of (build_binding_proof zero_crypto input)

builds : build_binding_proof zero_crypto input ≡ some built_proof
unfolding build_binding_proof build_with find_opening closes encode_public_inputs to_field assert32
    payee_hash amount_scalar zeros
builds = refl

verify-build_example :
    verify_binding_proof_locally zero_crypto built_proof.proof built_proof.pi_hash ≡ true
verify-build_example = verify-build zero_crypto input built_proof tt tt tt builds

value-amount_scalar_example :
    (b : Bytes) × (amount_scalar 5 ≡ some b) × (value b ≡ 5) × (length b ≡ 32)
value-amount_scalar_example = value-amount_scalar 5 (omega arith) (omega arith)

abbrev no_amount : ℕ
no_amount = 0

abbrev payee_bytes : Bytes
payee_bytes = zeros 32

payee_has_field : payee_field zero_crypto 20 ≡ some payee_bytes
unfolding payee_field payee_hash zeros
payee_has_field = refl

payee_field-lt_example : (value payee_bytes < 2 ^ 253) × (length payee_bytes ≡ 32)
payee_field-lt_example = payee_field-lt zero_crypto 20 payee_bytes payee_has_field

abbrev refusing : ℕ → Attempt
refusing k = record {
  rpc_error = none;
  simulation_error = none;
  response = SendResponse.error_bad_seq;
  polls = λ i. Poll.not_found;
}

submit_delegate_call_cases_example :
    ((j : ℕ) × (j < 4)
      × (run_attempt (refusing (0 + j)) ≡ some (submit_delegate_call refusing))
      × ((i : ℕ) → i < j → IsRefused (refusing (0 + i))))
    ⊎ ((submit_delegate_call refusing ≡ err (exhausted 4))
        × ((i : ℕ) → i < 4 → IsRefused (refusing (0 + i))))
submit_delegate_call_cases_example = submit_delegate_call_cases refusing

-- `{ type: 'object', required: ['a'], properties: { a: { type: 'number' } } }`
abbrev schema : Json
schema = obj (
    prop "type" (str "object") (
      prop "required" (arr (cons (str "n") nil))
        (prop "properties" (obj (prop "n" (obj (prop "type" (str "number") end)) end)) end)))

abbrev fitting : Json
fitting = obj (prop "n" (num (pos 1)) end)

fits : validate_schema plain_js fitting schema ≡ passed
unfolding validate check_entries check_items required_keys entries_of type_name get lookup truthy
fits = refl

validate_schema-passed_example :
    (ps : _) × (fitting ≡ obj ps)
    × ((ks : List String) × (required_keys plain_js (get "required" schema) ≡ some ks)
        × All (HasKey ps) ks)
    × All (MemberPasses plain_js ps) (entries_of plain_js (get "properties" schema))
unfolding truthy get lookup
validate_schema-passed_example = validate_schema-passed plain_js fitting schema refl refl fits

abbrev signed : Verification
signed = record { method = "signature"; spec = obj (prop "signerKey" (str "G") end) }

abbrev signed_delivery : Json
signed_delivery =
    obj (prop "ok" (bool true) (prop "signature" (str "s") (prop "issuedAt" (num (pos 1)) end)))

delivery_passes : verify_delivery plain_js none [] signed null signed_delivery ≡ passed
unfolding verify_delivery nullish_or get lookup truthy
delivery_passes = refl

verify_delivery-passed_example :
    (truthy (get "ok" signed_delivery) ≡ true) × Justified plain_js signed null signed_delivery
verify_delivery-passed_example =
    verify_delivery-passed plain_js signed null signed_delivery delivery_passes

abbrev rule : Rule
rule = record {
  name = "cap";
  form = RuleForm.private;
  version = 1;
  clauses =
      RuleClause.per_payment_max (pos 100)
      ∷ RuleClause.per_payment_min (pos 10)
      ∷ RuleClause.denylist ("G" ∷ []) none
      ∷ [];
}

rule_validates : validate_rule (λ a. true) (λ s. s) rule ≡ []
unfolding validate_rule see_all clause_errors type_of type_rank
rule_validates = refl

validate_rule-IsValid_example : IsValid (λ a. true) (λ s. s) rule
validate_rule-IsValid_example = validate_rule-IsValid (λ a. true) (λ s. s) rule rule_validates
