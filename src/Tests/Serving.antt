-- ===== src/Tests/Serving.antt =====
-- Requests to the service, and the workers' other jobs.
use clevercon.Prelude.{◌≡◌, refl, Bool, true, false, none, some, [], ◌∷◌, String}
use clevercon.Prelude.Int.{pos}
use clevercon.Store.Rows.{TaskMode, TaskStatus, StepStatus}
use clevercon.Store.Tables.{World, find_task, find_delegate, steps_of}
use clevercon.Api.{Api, ApiHost, bad_request, ok, err}
use clevercon.Api.Summary.{TaskSummary, serialize, spent_of}
use clevercon.Api.Tasks.{dispute_row}
use clevercon.Api.Disputes.{
  Resolution, Resolver, find_dispute, read_dispute, resolve, after_resolution,
}
use clevercon.Api.Disputes.Laws.{Resolved, resolve-Resolved, resolve-again}
use clevercon.Api.Lines.{
  PaymentKind, CreatePaymentParams, FreshIds, prior_task, keyed_task, check_lines, clean_lines,
  clean_line, check_addresses, is_stellar_address, check_rules, derived_rules, distinct,
}
use clevercon.Api.Payments.{
  Bound, create_payment, admit, insert_task, resolve_policy, derived_policy, check_bound,
  assert_can_settle,
}
use clevercon.Api.Payments.Bounded.{Bounded}
use clevercon.Api.Payments.Again.{create_payment-again, insert_task-race}
use clevercon.Tests.Fixtures.{plain_js, world_of, step_row, reachable}

abbrev locked_world : World Bool
locked_world = record (world_of (some 5) (step_row 7 0 reachable [] StepStatus.released ∷ [])) {
  disputes = dispute_row 50 1 20 none ∷ [];
}

abbrev api : World Bool → Api Bool
api w = record { world = w; policies = []; services = []; wallets = [] }

abbrev chain : Resolver Bool
chain task refund payout v = (ok 99, true)

abbrev half : Resolution
half = record {
  refund_to_user = pos 2;
  payout_to_provider = pos 3;
  upheld = true;
  resolution = none;
}

abbrev resolved_api : Api Bool
resolved_api = (resolve chain 50 half (api locked_world)).1

resolves : resolve chain 50 half (api locked_world) ≡ (ok 99, resolved_api)
unfolding resolve read_dispute find_dispute find_task after_resolution
resolves = refl

resolve-Resolved_example : Resolved chain 50 half 99 (api locked_world) resolved_api
resolve-Resolved_example =
    resolve-Resolved chain 50 half 99 (api locked_world) resolved_api resolves

resolve-again_example :
    resolve chain 50 half resolved_api
    ≡ (err (bad_request "dispute already resolved"), resolved_api)
resolve-again_example = resolve-again chain 50 half half 99 (api locked_world) resolved_api resolves

-- a payment of five stroops to one address
abbrev address : String
address = "GAAAAAAAAAAAAAAAAAAAAAAAAAAAAAAAAAAAAAAAAAAAAAAAAAAAAAAA"

abbrev payment : CreatePaymentParams
payment = record {
  kind = PaymentKind.pay;
  lines = record { payee = address; amount = some (pos 5); reason = none } ∷ [];
  policy_id = none;
  idempotency_key = some "k";
}

abbrev ids : FreshIds
ids = record { policy = 3; task = 2; step = λ i. i }

abbrev api_host : ApiHost
api_host = record {
  js = plain_js;
  account = λ s. 20;
  vault_active = true;
  queue_down = λ j t. false;
}

abbrev idle : Api Bool
idle = api (world_of none [])

abbrev summary : TaskSummary
summary = record {
  id = 2;
  mode = TaskMode.pay;
  status = TaskStatus.running;
  budget = 5;
  spent = 0;
  step_count = 1;
  completed_steps = 1;
}

abbrev paying : Api Bool
paying = (create_payment api_host 10 payment ids idle).1

creates : create_payment api_host 10 payment ids idle ≡ (ok summary, paying)
unfolding create_payment admit insert_task prior_task keyed_task check_lines clean_lines clean_line
    check_addresses is_stellar_address resolve_policy derived_policy check_bound assert_can_settle
    check_rules derived_rules distinct find_delegate serialize spent_of steps_of
creates = refl

create_payment-again_example : create_payment api_host 10 payment ids paying ≡ (ok summary, paying)
create_payment-again_example =
    create_payment-again api_host 10 payment payment ids ids idle paying summary "k" refl refl refl
      creates

abbrev bound : Bound
bound = record {
  lines = record { payee = address; amount = 5; reason = none } ∷ [];
  policy = derived_policy api_host 10 3 (derived_rules []);
  rules = none;
}

abbrev inserted : Api Bool
inserted = (insert_task api_host 10 payment ids bound idle).1

inserts : insert_task api_host 10 payment ids bound idle ≡ (ok summary, inserted)
unfolding insert_task keyed_task serialize spent_of steps_of
inserts = refl

insert_task-race_example :
    insert_task api_host 10 payment ids bound inserted ≡ (ok summary, inserted)
insert_task-race_example =
    insert_task-race api_host 10 payment payment ids ids bound bound idle inserted summary "k" refl
      refl refl inserts
