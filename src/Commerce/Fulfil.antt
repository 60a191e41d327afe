-- ===== src/Commerce/Fulfil.antt =====
-- apps/web/lib/services.ts: fulfil and compensate, between the look-ups and the coordinator.
pub mod Laws
use agentready_commerce.Prelude.{
  String, Bool, true, not, ◌||◌, Option, none, some, List, [], ◌∷◌, ◌<>◌, is_set, if◌then◌else◌,
  get_or_else, Outcome, returned, thrown,
}
use agentready_commerce.Domain.Order.{
  OrderState, same_state, state_name, paid_verified, fulfilment_pending, fulfilled,
  fulfilment_failed, compensation_pending, refunded, manual_review,
}
use agentready_commerce.Payments.Types.{CompensationInput, CompensationResult, PaymentAdapter}
use agentready_commerce.Payments.Adapters.{razorpay_rail}
use agentready_commerce.Commerce.Session.{Session, EnvelopeRecord, Compensation}
use agentready_commerce.Commerce.Step.{
  LogInput, Reply, Done, Order, Step, emit, enter, plain_reply, fail_with, succeed,
}
use agentready_commerce.Commerce.Verify.{verified_by}
use agentready_commerce.Commerce.AgentPay.{x402_rail}

abbrev outcome_log :
    String → String → String → String → List String → List (String × String) → LogInput
outcome_log order type actor decision codes references = record {
  order = order;
  type = type;
  actor = actor;
  decision = some decision;
  reason_codes = codes;
  input_digest = none;
  output_digest = none;
  references = references;
}

unfoldable pub fulfil_order : String → Order → Bool → Step Done
fulfil_order order o fail =
    let failed = enter o fulfilment_pending (λ p. enter p fulfilment_failed (λ q.
      emit
        (outcome_log order "fulfilment.failed" "merchant" "review" ("inventory_unavailable" ∷ [])
          [])
        (fail_with q "Simulated fulfilment failure: inventory unavailable"))) in
    let shipped = enter o fulfilment_pending (λ p. enter p fulfilled (λ q.
      emit (outcome_log order "fulfilment.completed" "merchant" "allow" [] [])
        (succeed q (plain_reply true q.session.state) (some order)))) in
    if not (same_state o.session.state paid_verified)
    then fail_with o
        ("Fulfilment requires PAID_VERIFIED, current state " <> state_name o.session.state)
    else if fail
    then failed
    else shipped

abbrev refund_reply : OrderState → Option String → Reply
refund_reply state id = record (plain_reply true state) { refund_id = id }

abbrev pub refund_input : String → EnvelopeRecord → String → CompensationInput
refund_input order r payment = record {
  logical_order_id = order;
  envelope_hash = r.digest;
  rail = razorpay_rail;
  external_payment_id = payment;
  amount_minor = r.envelope.total_minor;
  reason = "Fulfilment failure — full refund";
}

abbrev pub compensated_by : Session → Compensation → Session
compensated_by s c = record s { compensation = some c }

-- The mock transfer that stands for a refund on the Agent Pay rail.
abbrev mock_refund : String → Order → String → Step Done
mock_refund order p payment =
    let id = "cmp_MOCK_" <> payment in
    let s =
      compensated_by p.session
        (record { refund_id = some id; reason = some "mock compensating transfer"; ok = true }) in
    enter (record p { session = s }) refunded
      (λ q.
        emit
          (outcome_log order "compensation.mock_resolved" "payment" "allow"
            ("mock_compensation_resolved" ∷ [])
            (("compensationId", id) ∷ ("paymentIdentifier", payment) ∷ []))
          (succeed q (refund_reply q.session.state (some id)) (some id)))

-- The `catch` around the adapter's refund.
unfoldable pub refund_failed : String → Order → String → Step Done
refund_failed order p e = enter p manual_review (λ q.
    emit (outcome_log order "compensation.manual_review" "merchant" "review" [] []) (fail_with q e))

-- The `try`, with what came of it: a throw of setState in it, which logs nothing, is caught too.
unfoldable pub recovered : String → Step Done → Outcome Done → Step Done
unfolding refund_failed
recovered order st (returned d) = st
recovered order st (thrown e) = refund_failed order st.order e

unfoldable pub refund_made : String → Order → CompensationResult → Step Done
refund_made order p c =
    let s =
      compensated_by p.session
        (record { refund_id = c.refund_id; reason = some "full refund"; ok = c.compensated }) in
    enter (record p { session = s }) refunded
      (λ q.
        emit
          (outcome_log order "compensation.refunded" "payment" "allow"
            ("paid_fulfilment_failure_refunded" ∷ [])
            (("refundId", get_or_else c.refund_id "") ∷ []))
          (succeed q (refund_reply q.session.state c.refund_id) c.refund_id))

unfoldable pub refund_attempted : String → Order → Outcome CompensationResult → Step Done
unfolding refund_made recovered
refund_attempted order p (returned c) =
    let made = refund_made order p c in recovered order made made.result
refund_attempted order p (thrown e) = refund_failed order p e

-- With the envelope and the payment at hand. `others` is what other calls do to the order while the
-- adapter is awaited.
unfoldable pub compensate_paid :
    String → (Order → Order) → Order → EnvelopeRecord → String → PaymentAdapter → Step Done
unfolding refund_attempted
compensate_paid order others o r payment adapter = enter o compensation_pending (λ p.
    if verified_by x402_rail p.session.verification
    then mock_refund order p payment
    else refund_attempted order (others p) (adapter.compensate (refund_input order r payment)))

unfoldable pub compensate_found :
    String → (Order → Order) → Order → Option EnvelopeRecord → PaymentAdapter → Step Done
compensate_found order others o none adapter = fail_with o "No envelope"
compensate_found order others o (some r) adapter =
    if not (is_set o.session.external_payment_id)
    then fail_with o "No external payment id"
    else compensate_paid order others o r (get_or_else o.session.external_payment_id "") adapter

unfoldable pub compensate_order : String → (Order → Order) → Order → PaymentAdapter → Step Done
unfolding compensate_found compensate_paid
compensate_order order others o adapter =
    if not (
      same_state o.session.state fulfilment_failed
      || same_state o.session.state compensation_pending)
    then fail_with o
        ("Compensation requires FULFILMENT_FAILED, current state " <> state_name o.session.state)
    else compensate_found order others o o.envelope adapter
