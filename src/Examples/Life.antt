-- ===== src/Examples/Life.antt =====
-- The theorems on the life of an order, at a quote that is approved, paid and verified.
use agentready_commerce.Prelude.{◌≡◌, refl, true, false, some, [], ◌∷◌, List}
use agentready_commerce.Domain.Order.{
  OrderState, draft, clarifying, quoted, awaiting_approval, approved, payment_pending,
  paid_verified, fulfilment_pending,
}
use agentready_commerce.Domain.Order.Paths.{walk, Visits, is_paid, paid_was_approved, walk-is_paid}
use agentready_commerce.Domain.Canonical.{envelope_digest}
use agentready_commerce.Payments.Adapters.{razorpay_rail}
use agentready_commerce.Commerce.Step.{Order}
use agentready_commerce.Commerce.Approve.{approve_order}
use agentready_commerce.Commerce.Pay.{pay_order}
use agentready_commerce.Commerce.Verify.{verify_order}
use agentready_commerce.Commerce.Fulfil.{fulfil_order}
use agentready_commerce.Commerce.Life.{SingleRail}
use agentready_commerce.Commerce.Life.Events.{
  Life, later, unchanged, approves, pays, verifies, fulfils, Life-SingleRail, Life-is_paid,
}
use agentready_commerce.Commerce.Life.Approved.{Approval, Life-approved}
use agentready_commerce.Examples.Data
use agentready_commerce.Examples.Data.{host, call, mandate, envelope, adapter}

abbrev agreed : Order
agreed = (approve_order host call "o1" Data.quoted (envelope_digest host envelope)).order

abbrev waiting : Order
waiting = (pay_order host call "o1" agreed razorpay_rail (some mandate) (adapter ∷ [])).order

abbrev paid : Order
paid = (verify_order host (λ q. q) "o1" waiting "order_1" "pay_1" "sig" adapter).order

abbrev shipped : Order
shipped = (fulfil_order "o1" paid false).order

abbrev bought : Life host "secret" "o1" Data.quoted paid
bought = later (approves call Data.quoted (envelope_digest host envelope)) (
    later (pays call agreed razorpay_rail (some mandate) (adapter ∷ []))
      (later (verifies waiting "order_1" "pay_1" "sig" adapter) (unchanged paid)))

abbrev delivered : Life host "secret" "o1" paid shipped
delivered = later (fulfils paid false) (unchanged shipped)

Life-SingleRail_example : SingleRail paid
Life-SingleRail_example = Life-SingleRail host "secret" "o1" Data.quoted paid bought (λ h. refl)

Life-approved_example : Approval host "secret" "o1" Data.quoted paid
unfolding verify_order pay_order approve_order agentready_commerce.Commerce.Recommend.quote_active
    agentready_commerce.Commerce.Recommend.is_current_recommendation
    agentready_commerce.Commerce.Recommend.same_recommendation_binding
    agentready_commerce.Commerce.Session.intent_digest
    agentready_commerce.Domain.Canonical.canonical agentready_commerce.Domain.Canonical.join
    agentready_commerce.Domain.Canonical.sort_keys envelope_digest
    agentready_commerce.Domain.Order.transition_state
    agentready_commerce.Domain.Policy.check_envelope_for_payment
    agentready_commerce.Payments.Adapters.registry_get
Life-approved_example = Life-approved host "secret" "o1" Data.quoted paid bought refl refl

Life-is_paid_example : is_paid shipped.session.state ≡ true
unfolding verify_order pay_order approve_order agentready_commerce.Commerce.Recommend.quote_active
    agentready_commerce.Commerce.Recommend.is_current_recommendation
    agentready_commerce.Commerce.Recommend.same_recommendation_binding
    agentready_commerce.Commerce.Session.intent_digest
    agentready_commerce.Domain.Canonical.canonical agentready_commerce.Domain.Canonical.join
    agentready_commerce.Domain.Canonical.sort_keys envelope_digest
    agentready_commerce.Domain.Order.transition_state
    agentready_commerce.Domain.Policy.check_envelope_for_payment
    agentready_commerce.Payments.Adapters.registry_get
Life-is_paid_example = Life-is_paid host "secret" "o1" paid shipped delivered refl

abbrev requests : List OrderState
requests =
    quoted ∷ paid_verified ∷ awaiting_approval ∷ approved ∷ payment_pending ∷ paid_verified ∷ []

paid_was_approved_example :
    (to_paid : Visits draft paid_verified requests) × (to_pending : Visits draft payment_pending
      to_paid.0)
    × Visits draft approved to_pending.0
unfolding walk agentready_commerce.Domain.Order.Paths.move
paid_was_approved_example = paid_was_approved draft requests refl refl
