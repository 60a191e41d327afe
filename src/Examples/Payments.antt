-- ===== src/Examples/Payments.antt =====
-- The theorems on approval and payment at one order.
use agentready_commerce.Prelude.{
  ℕ, String, ◌≡◌, refl, true, false, Option, none, some, List, [], ◌∷◌, ◌<>◌, set, has, is_set,
  returned,
}
use agentready_commerce.Domain.Order.{OrderState, approved, payment_pending, paid_verified}
use agentready_commerce.Domain.Canonical.{envelope_digest}
use agentready_commerce.Core.Types.{success}
use agentready_commerce.Payments.Adapters.{razorpay_rail}
use agentready_commerce.Commerce.Session.{EnvelopeRecord}
use agentready_commerce.Commerce.Step.{Done, Order, plain_reply}
use agentready_commerce.Commerce.Recommend.{quote_active}
use agentready_commerce.Commerce.Approve.{approve_order, approval_reply}
use agentready_commerce.Commerce.Approve.Laws.{Approves, approve_order-Approves}
use agentready_commerce.Commerce.Pay.{pay_order, attempt_reply}
use agentready_commerce.Commerce.Pay.Laws.{Ready, pay_order-Ready, pay_order-once}
use agentready_commerce.Commerce.Verify.{verify_order}
use agentready_commerce.Commerce.Webhook.{PaymentEntity, accepted_event, webhook_on_order}
use agentready_commerce.Commerce.Webhook.Laws.{PaidBy, webhook_on_order-PaidBy}
use agentready_commerce.Commerce.Verify.Repeated.{Answers, with_result, verify_order-again}
use agentready_commerce.Commerce.Step.Laws.{at}
use agentready_commerce.Commerce.Step.{error_reply}
use agentready_commerce.Core.Types.{failure}
use agentready_commerce.Examples.Data.{entry, report}
use agentready_commerce.Domain.Order.{payment_failed, fulfilment_failed, reapproval_required}
use agentready_commerce.Payments.Types.{VerificationResult, PaymentAdapter}
use agentready_commerce.Commerce.Tamper.{price}
use agentready_commerce.Commerce.Tamper.Laws.{tamper_order-unpayable}
use agentready_commerce.Examples.Data.{
  host, call, mandate, envelope, session, quoted, attempt, adapter,
}

abbrev digest : String
digest = envelope_digest host envelope

abbrev approval : Done
approval = record {
  reply = approval_reply approved (some "appr_1");
  outcome = success;
  result_ref = some "appr_1";
  error_ref = none;
}

approve_order-Approves_example :
    (r : EnvelopeRecord) × (quoted.envelope ≡ some r)
    × Approves host call quoted r digest (approve_order host call "o1" quoted digest).order approval
unfolding approve_order envelope_digest quote_active
    agentready_commerce.Commerce.Recommend.is_current_recommendation
    agentready_commerce.Commerce.Recommend.same_recommendation_binding
    agentready_commerce.Commerce.Session.intent_digest
    agentready_commerce.Domain.Canonical.canonical agentready_commerce.Domain.Canonical.join
    agentready_commerce.Domain.Canonical.sort_keys agentready_commerce.Domain.Order.transition_state
approve_order-Approves_example =
    approve_order-Approves host call "o1" quoted digest approval refl refl

-- The order with its envelope approved.
abbrev agreed : Order
agreed = record quoted {
  session = record session {
    state = approved;
    approval_event_id = some "appr_1";
    approved_digest = some digest;
  };
}

abbrev initiation : Done
initiation = record {
  reply = attempt_reply payment_pending attempt;
  outcome = success;
  result_ref = some "order_1";
  error_ref = none;
}

pay_order-Ready_example :
    (r : EnvelopeRecord) × (agreed.envelope ≡ some r)
    × Ready host call agreed r (some mandate) razorpay_rail
unfolding pay_order envelope_digest quote_active
    agentready_commerce.Commerce.Recommend.is_current_recommendation
    agentready_commerce.Commerce.Recommend.same_recommendation_binding
    agentready_commerce.Commerce.Session.intent_digest
    agentready_commerce.Domain.Canonical.canonical agentready_commerce.Domain.Canonical.join
    agentready_commerce.Domain.Canonical.sort_keys agentready_commerce.Domain.Order.transition_state
    agentready_commerce.Domain.Policy.check_envelope_for_payment
    agentready_commerce.Payments.Adapters.registry_get
pay_order-Ready_example =
    pay_order-Ready host call "o1" agreed razorpay_rail (some mandate) (adapter ∷ []) initiation
      refl refl

-- The order with a payment under way.
abbrev waiting : Order
waiting = record agreed {
  session = record agreed.session { state = payment_pending; external_order_id = some "order_1" };
}

pay_order-once_example :
    (pay_order host call "o1" waiting razorpay_rail (some mandate) (adapter ∷ [])
      ≡ pay_order host call "o1" waiting razorpay_rail (some mandate) [])
    × ((pay_order host call "o1" waiting razorpay_rail
          (some mandate)
          (adapter ∷ [])).order.session.external_order_id
        ≡ some "order_1")
pay_order-once_example =
    pay_order-once host call "order_1" "o1" waiting razorpay_rail (some mandate) (adapter ∷ []) []
      refl refl

abbrev verification : Done
verification = record {
  reply = plain_reply true paid_verified;
  outcome = success;
  result_ref = some "pay_1";
  error_ref = none;
}

abbrev captured : PaymentEntity
captured = record {
  id = "pay_1";
  order_id = some "order_1";
  amount = some 504800;
  currency = some "INR";
  status = some "captured";
  notes_order_id = some "o1";
}

webhook_on_order-PaidBy_example :
    (captured.status ≡ some "captured")
    × PaidBy host 1000 [] "evt_1" waiting captured "order_1"
        (webhook_on_order host 1000 [] "evt_1" waiting captured "order_1").order
unfolding webhook_on_order has agentready_commerce.Prelude.get set
    agentready_commerce.Domain.Order.transition_state
webhook_on_order-PaidBy_example =
    webhook_on_order-PaidBy host 1000 [] "evt_1" waiting captured "order_1" refl
      (accepted_event true false "accepted") refl refl

-- The rail reports another amount.
abbrev short_report : VerificationResult
short_report = record report { amount_minor = 100 }

abbrev short_adapter : PaymentAdapter
short_adapter = record adapter { verify = λ i. returned short_report }

verify_order-again_example :
    Answers false
      (at (with_result host "o1" "order_1" "pay_1" waiting short_report) payment_failed)
      (verify_order host (λ q. q) "o1" waiting "order_1" "pay_1" "sig" short_adapter)
    × Answers true
        (at (with_result host "o1" "order_1" "pay_1" waiting short_report) payment_failed)
        (verify_order host
          (λ q. q)
          "o1"
          (at (with_result host "o1" "order_1" "pay_1" waiting short_report) payment_failed)
          "order_1"
          "pay_1"
          "sig"
          short_adapter)
unfolding agentready_commerce.Commerce.Verify.binding_failures
verify_order-again_example =
    verify_order-again host "o1" "order_1" "pay_1" waiting entry "sig" "sig" short_adapter
      short_adapter short_report "amount n does not match approved envelope n" [] refl refl refl
      refl refl refl refl refl

abbrev broken : Order
broken = record waiting {
  session = record waiting.session {
    state = fulfilment_failed;
    external_payment_id = some "pay_1";
  };
}

abbrev reopened : Done
reopened = record {
  reply = plain_reply true reapproval_required;
  outcome = success;
  result_ref = none;
  error_ref = none;
}

abbrev refused_payment : Done
refused_payment = record {
  reply =
      record (error_reply reapproval_required
        "Policy blocked payment: envelope_not_approved, mandate_human_confirmation_required") {
          reason_codes =
              some ("envelope_not_approved" ∷ "mandate_human_confirmation_required" ∷ []);
        };
  outcome = failure;
  result_ref = none;
  error_ref =
      some "Policy blocked payment: envelope_not_approved, mandate_human_confirmation_required";
}

tamper_order-unpayable_example : refused_payment.reply.ok ≡ false
unfolding agentready_commerce.Commerce.Tamper.tamper_order
    agentready_commerce.Domain.Material.requires_reapproval
    agentready_commerce.Domain.Order.transition_state pay_order quote_active
    agentready_commerce.Commerce.Recommend.is_current_recommendation
    agentready_commerce.Commerce.Recommend.same_recommendation_binding
    agentready_commerce.Commerce.Session.intent_digest
    agentready_commerce.Domain.Canonical.canonical agentready_commerce.Domain.Canonical.join
    agentready_commerce.Domain.Canonical.sort_keys
    agentready_commerce.Domain.Policy.check_envelope_for_payment envelope_digest
tamper_order-unpayable_example =
    tamper_order-unpayable host "secret" call "o1" agreed price reopened call razorpay_rail
      (some mandate) (adapter ∷ []) refused_payment refl refl refl
