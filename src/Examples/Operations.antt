-- ===== src/Examples/Operations.antt =====
-- The theorems on operations, policy and adapters at one request.
use agentready_commerce.Prelude.{
  ℕ, String, ◌≡◌, refl, ◌↔◌, ◌≤◌, true, false, none, some, Option, List, [], ◌∷◌, ◌==◌,
  if◌then◌else◌, Outcome, returned, thrown, get_or_else, is_set,
}
use agentready_commerce.Domain.Order.{OrderState, approved}
use agentready_commerce.Domain.Policy.{CheckEnvelopeInput, check_envelope_for_payment}
use agentready_commerce.Domain.Policy.Laws.{Payable, check_envelope_for_payment-Payable}
use agentready_commerce.Domain.Material.{
  SameTerms, requires_reapproval, requires_reapproval-SameTerms,
}
use agentready_commerce.Domain.Canonical.{envelope_digest}
use agentready_commerce.Core.Types.{
  OperationRecord, approval_grant, payment_initiate, success, completed,
}
use agentready_commerce.Core.Store.{memory_store}
use agentready_commerce.Core.Coordinator.{Report, begin, complete}
use agentready_commerce.Core.Coordinator.Once.{begins, openings, openings-le-one, begin-complete}
use agentready_commerce.Core.Types.{replay, conflict}
use agentready_commerce.Payments.Types.{VerificationInput, VerificationResult}
use agentready_commerce.Payments.Adapters.{
  RazorpayApi, RemotePayment, razorpay_rail, registry_adapter,
}
use agentready_commerce.Payments.Laws.{Signed, Fetched, registry_adapter-verify}
use agentready_commerce.Commerce.Step.{Reply}
use agentready_commerce.Commerce.Approve.{approve_order, approval_reply}
use agentready_commerce.Commerce.Shop.{Shop, approve_kind, conflict_reply, run_operation}
use agentready_commerce.Commerce.Shop.Replay.{run_operation-once}
use agentready_commerce.Examples.Data.{host, call, mandate, envelope, quoted}

abbrev check : CheckEnvelopeInput
check = record {
  envelope = envelope;
  mandate = some mandate;
  expected_digest = envelope_digest host envelope;
  rail = some razorpay_rail;
  approved = true;
  allow_auto_approve = false;
  now = 1000;
}

check_envelope_for_payment-Payable_example :
    ((check_envelope_for_payment host check).allow ≡ true) ↔ Payable host check
check_envelope_for_payment-Payable_example = check_envelope_for_payment-Payable host check

openings-le-one_example :
    openings
      (memory_store {P = String})
      "op"
      []
      ((1, begins "op" approval_grant "h" "o1") ∷ (2, begins "op" approval_grant "h" "o1") ∷ [])
    ≤ 1
openings-le-one_example =
    openings-le-one (memory_store {P = String}) "op" []
      ((1, begins "op" approval_grant "h" "o1") ∷ (2, begins "op" approval_grant "h" "o1") ∷ [])

abbrev shop : Shop (memory_store {P = Reply}).State
shop = record {
  orders = ("o1", quoted) ∷ [];
  mandates = ("c1", mandate) ∷ [];
  webhook_dedup = [];
  operations = [];
  log = [];
}

abbrev granted : Reply
granted = approval_reply approved (some "appr_1")

abbrev digest : String
digest = envelope_digest host envelope

run_operation-once_example :
    run_operation memory_store approve_kind call "op" "h2" "o1"
      (λ o. approve_order host call "o1" o "other")
      (run_operation memory_store approve_kind call "op" "h1" "o1"
        (λ o. approve_order host call "o1" o digest)
        shop).1
    ≡ (
      (if "h1" == "h2" then returned granted else returned (conflict_reply approve_kind "op")),
      (run_operation memory_store approve_kind call "op" "h1" "o1"
          (λ o. approve_order host call "o1" o digest)
          shop).1,
    )
unfolding run_operation agentready_commerce.Prelude.get begin approve_order
    agentready_commerce.Commerce.Recommend.quote_active
    agentready_commerce.Commerce.Recommend.is_current_recommendation
    agentready_commerce.Commerce.Recommend.same_recommendation_binding
    agentready_commerce.Commerce.Session.intent_digest
    agentready_commerce.Domain.Canonical.canonical agentready_commerce.Domain.Canonical.join
    agentready_commerce.Domain.Canonical.sort_keys envelope_digest
    agentready_commerce.Domain.Order.transition_state complete agentready_commerce.Prelude.set
run_operation-once_example =
    run_operation-once memory_store approve_kind call "op" "h1" "o1"
      (λ o. approve_order host call "o1" o digest) shop granted call "h2" "o1"
      (λ o. approve_order host call "o1" o "other") refl refl refl refl

-- The same envelope at another price.
requires_reapproval-SameTerms_example :
    (requires_reapproval host envelope (record envelope { total_minor = 499800 }) ≡ false)
    ↔ SameTerms host envelope (record envelope { total_minor = 499800 })
requires_reapproval-SameTerms_example =
    requires_reapproval-SameTerms host envelope (record envelope { total_minor = 499800 })

abbrev finished : Report String
finished = record {
  outcome = success;
  result_ref = none;
  error_ref = none;
  result_payload = some "paid";
}

begin-complete_example :
    (r : OperationRecord String) × (s : (memory_store {P = String}).State) × (complete memory_store
        (begin memory_store [] "op" payment_initiate "h" "o1" 1).0
        "op"
        finished
        2
      ≡ some s)
    × (begin memory_store s "op" payment_initiate "h" "o1" 3
        ≡ (if "h" == "h" then (s, replay r) else (s, conflict r "h")))
    × (r.phase ≡ completed)
    × (r.outcome ≡ some success)
    × (r.result_payload ≡ some "paid")
unfolding agentready_commerce.Prelude.get
begin-complete_example =
    begin-complete memory_store [] "op" payment_initiate "h" "o1" 1 2 3 finished payment_initiate
      "h" "o1" refl

abbrev api : RazorpayApi
api = record {
  create_order = λ q. thrown "offline";
  payment = λ id. returned (record {
    id = id;
    order_id = some "order_1";
    amount = 504800;
    currency = "INR";
    status = "captured";
  });
  refund = λ id q. thrown "offline";
}

abbrev request : VerificationInput
request = record {
  logical_order_id = "o1";
  envelope_hash = "e";
  rail = razorpay_rail;
  external_order_id = "order_1";
  external_payment_id = "pay_1";
  expected_amount_minor = some 504800;
  signature = some "secretorder_1|pay_1";
}

abbrev fetched : VerificationResult
fetched = record {
  verified = true;
  rail = razorpay_rail;
  external_order_id = "order_1";
  external_payment_id = "pay_1";
  amount_minor = 504800;
  currency = "INR";
  status = "captured";
  reason = none;
}

registry_adapter-verify_example :
    Signed host (get_or_else (some "secret") "mock_secret") request
    × (false ≡ false
        → is_set (some "key") ≡ true
        → is_set (some "secret") ≡ true
        → Fetched host api request fetched)
unfolding registry_adapter agentready_commerce.Payments.Adapters.remote_verify
registry_adapter-verify_example =
    registry_adapter-verify host api (some "key") (some "secret") false request fetched refl refl
