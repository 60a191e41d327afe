-- ===== src/Commerce/Pay.antt =====
-- apps/web/lib/services.ts: initiatePayment, between the look-ups and the coordinator.
pub mod Laws
use agentready_commerce.Prelude.{
  String, Bool, true, false, not, ◌&&◌, ◌||◌, Option, none, some, List, [], ◌∷◌, ltb, ◌=?◌, ◌<>◌,
  is_set, if◌then◌else◌, get_or_else, Host, Call, Outcome, returned, thrown,
}
use agentready_commerce.Domain.Order.{
  OrderState, same_state, payment_pending, paid_verified, fulfilment_pending, fulfilled,
  payment_failed,
}
use agentready_commerce.Domain.Types.{PurchaseMandate}
use agentready_commerce.Domain.Canonical.{join}
use agentready_commerce.Domain.Policy.{
  Decision, allowed, blocked, review, PolicyVerdict, CheckEnvelopeInput, check_envelope_for_payment,
}
use agentready_commerce.Payments.Types.{PaymentAttempt, PaymentAdapter}
use agentready_commerce.Payments.Adapters.{razorpay_rail, registry_get}
use agentready_commerce.Commerce.Session.{
  Session, EnvelopeRecord, X402OrderPayment, awaiting, settled,
}
use agentready_commerce.Commerce.Step.{
  LogInput, Reply, Done, Order, Step, emit, enter, plain_reply, fail_with, fail_coded, succeed,
  block_log,
}
use agentready_commerce.Commerce.Recommend.{quote_active}

-- `PAID_VERIFIED`, `FULFILMENT_PENDING` or `FULFILLED`.
abbrev pub already_paid : OrderState → Bool
already_paid s =
    same_state s paid_verified || (same_state s fulfilment_pending || same_state s fulfilled)

abbrev pub is_settled : Option X402OrderPayment → Bool
is_settled none = false
is_settled (some p) = elim p.status [ settled ↦ true | awaiting ↦ false ]

abbrev pub decision_text : Decision → String
decision_text allowed = "allow"
decision_text blocked = "block"
decision_text review = "review"

-- `Boolean(session.approvalEventId && session.approvedDigest === record.digest)`.
abbrev pub has_approved : Session → EnvelopeRecord → Bool
has_approved s r = is_set s.approval_event_id && s.approved_digest =? r.digest

abbrev pub payment_input :
    Call → Session → EnvelopeRecord → Option PurchaseMandate → String → CheckEnvelopeInput
payment_input call s r mandate rail = record {
  envelope = r.envelope;
  mandate = mandate;
  expected_digest = r.digest;
  rail = some rail;
  approved = has_approved s r;
  allow_auto_approve = false;
  now = call.now;
}

abbrev pub verdict_log : String → String → EnvelopeRecord → PolicyVerdict → LogInput
verdict_log order type r v = record {
  order = order;
  type = type;
  actor = "policy";
  decision = some (decision_text v.decision);
  reason_codes = v.reason_codes;
  input_digest = some r.digest;
  output_digest = none;
  references = [];
}

abbrev pub attempt_reply : OrderState → PaymentAttempt → Reply
attempt_reply state a = record (plain_reply true state) { attempt = some a }

-- The attempt that a repeated initiation answers with: no new order is made.
abbrev pub repeated_attempt : Call → String → String → EnvelopeRecord → PaymentAttempt
repeated_attempt call order external r = record {
  attempt_id = call.new_id "att";
  logical_order_id = order;
  rail = razorpay_rail;
  external_order_id = some external;
  status = "created";
  created_at = r.issued_at;
  amount_minor = r.envelope.total_minor;
  currency = r.envelope.currency;
}

abbrev payment_initiated : String → PaymentAttempt → LogInput
payment_initiated order a = record {
  order = order;
  type = "payment.initiated";
  actor = "payment";
  decision = some "allow";
  reason_codes = [];
  input_digest = none;
  output_digest = none;
  references = ("orderId", get_or_else a.external_order_id "") ∷ [];
}

abbrev initiate_failed : String → LogInput
initiate_failed order = record {
  order = order;
  type = "payment.initiate_failed";
  actor = "payment";
  decision = some "review";
  reason_codes = [];
  input_digest = none;
  output_digest = none;
  references = [];
}

-- The `try` and its `catch`, in the state PAYMENT_PENDING.
unfoldable pub pay_attempted : String → Order → Outcome PaymentAttempt → Step Done
pay_attempted order q (returned a) =
    let s = record q.session { external_order_id = a.external_order_id } in
    emit (payment_initiated order a)
      (succeed (record q { session = s }) (attempt_reply s.state a) a.external_order_id)
pay_attempted order q (thrown e) =
    enter q payment_failed (λ f. emit (initiate_failed order) (fail_with f e))

unfoldable pub pay_adapter :
    Call → String → Order → EnvelopeRecord → String → Option PaymentAdapter → Step Done
unfolding pay_attempted
pay_adapter call order o r rail none = fail_with o ("No adapter for rail " <> rail)
pay_adapter call order o r rail (some adapter) =
    enter o payment_pending (λ q. pay_attempted order q (adapter.initiate call r.envelope))

abbrev repeat_payment : Call → String → Order → EnvelopeRecord → String → Step Done
repeat_payment call order o r external =
    succeed o (attempt_reply o.session.state (repeated_attempt call order external r))
      (some external)

-- Everything has been checked: an order that is there is answered again, else one is made.
unfoldable pub pay_checked :
    Call → String → Order → EnvelopeRecord → String → Option PaymentAdapter → Step Done
unfolding pay_adapter
pay_checked call order o r rail adapter =
    let external = get_or_else o.session.external_order_id "" in
    if is_set o.session.external_order_id
    then (if same_state o.session.state payment_failed
        then enter o payment_pending (λ q. repeat_payment call order q r external)
        else repeat_payment call order o r external)
    else pay_adapter call order o r rail adapter

abbrev pub quote_error : String
quote_error = "Payment blocked: this quote is no longer active for the current intent"

abbrev rail_rejected : String → Option X402OrderPayment → LogInput
rail_rejected order none =
    block_log order "payment.rail_rejected" "policy" "rail_single_success" none
rail_rejected order (some p) =
    record (block_log order "payment.rail_rejected" "policy" "rail_single_success" none) {
      references = ("paymentIdentifier", p.payment_identifier) ∷ [];
    }

module _ (host : Host) where
  -- With a session and an envelope at hand.
  unfoldable pub pay_quoted :
      Call
      → String
      → Order
      → EnvelopeRecord
      → String
      → Option PurchaseMandate
      → List PaymentAdapter
      → Step Done
  unfolding pay_checked
  pay_quoted call order o r rail mandate adapters =
      let verdict = check_envelope_for_payment host (payment_input call o.session r mandate rail) in
      if not (quote_active host o.session r)
      then fail_coded o quote_error ("quote_invalidated" ∷ [])
      else if already_paid o.session.state
      then fail_coded o
          "This order already has a successful payment; new rail initiation is rejected."
          ("rail_single_success" ∷ [])
      else if is_settled o.session.x402_order_payment
      then emit (rail_rejected order o.session.x402_order_payment) (
          fail_coded o
            "This order already settled via Agent Pay (x402 mock); Razorpay initiation is rejected."
            ("rail_single_success" ∷ []))
      else if not verdict.allow
      then emit (verdict_log order "policy.payment_blocked" r verdict) (
          fail_coded o ("Policy blocked payment: " <> join ", " verdict.reason_codes)
            verdict.reason_codes)
      else if ltb r.envelope.total_minor 100
      then fail_coded o "Order amount is below Razorpay's 100 paise minimum"
          ("amount_below_minimum" ∷ [])
      else pay_checked call order o r rail (registry_get adapters rail)

  unfoldable pub pay_found :
      Call
      → String
      → Order
      → Option EnvelopeRecord
      → String
      → Option PurchaseMandate
      → List PaymentAdapter
      → Step Done
  pay_found call order o none rail mandate adapters = fail_with o "No envelope"
  pay_found call order o (some r) rail mandate adapters =
      pay_quoted call order o r rail mandate adapters

  unfoldable pub pay_order :
      Call → String → Order → String → Option PurchaseMandate → List PaymentAdapter → Step Done
  unfolding pay_found pay_quoted
  pay_order call order o rail mandate adapters =
      pay_found call order o o.envelope rail mandate adapters
