-- ===== src/Commerce/Verify.antt =====
-- apps/web/lib/services.ts: verifyPayment, between the look-ups and the coordinator, and
-- servicesReconcileHeld.
pub mod Binding
pub mod Laws
pub mod Repeated
use agentready_commerce.Prelude.{
  ℕ, String, Bool, true, false, not, ◌&&◌, ◌||◌, Option, none, some, List, [], ◌∷◌, ◌++◌, eqb, ◌==◌,
  ◌=?◌, ◌<>◌, is_empty, if◌then◌else◌, get_or_else, Host, Outcome, returned, thrown,
}
use agentready_commerce.Domain.Order.{paid_verified, payment_failed}
use agentready_commerce.Domain.Canonical.{join}
use agentready_commerce.Payments.Types.{VerificationInput, VerificationResult, PaymentAdapter}
use agentready_commerce.Payments.Adapters.{razorpay_rail}
use agentready_commerce.Commerce.Session.{Session, EnvelopeRecord, HeldWebhook}
use agentready_commerce.Commerce.Step.{
  LogInput, Done, Order, Step, stop, throw, emit, note, enter, plain_reply, fail_with, succeed,
  block_log,
}

-- `session.verification?.verified`.
abbrev pub is_verified : Option VerificationResult → Bool
is_verified none = false
is_verified (some v) = v.verified

abbrev pub verified_by : String → Option VerificationResult → Bool
verified_by rail none = false
verified_by rail (some v) = v.rail == rail

abbrev pub verification_input :
    String → EnvelopeRecord → String → String → String → VerificationInput
verification_input order r external payment signature = record {
  logical_order_id = order;
  envelope_hash = r.digest;
  rail = razorpay_rail;
  external_order_id = external;
  external_payment_id = payment;
  expected_amount_minor = some r.envelope.total_minor;
  signature = some signature;
}

abbrev pub failure_unless : Bool → String → List String
failure_unless true why = []
failure_unless false why = why ∷ []

abbrev payment_log : String → String → String → String → LogInput
payment_log order type code payment = record (block_log order type "payment" code none) {
  references = ("paymentId", payment) ∷ [];
}

abbrev payment_verified : String → String → String → LogInput
payment_verified order external payment = record {
  order = order;
  type = "payment.verified";
  actor = "payment";
  decision = some "allow";
  reason_codes = "signature_verified" ∷ "rail_binding_verified" ∷ "rail_single_success" ∷ [];
  input_digest = none;
  output_digest = none;
  references = ("orderId", external) ∷ ("paymentId", payment) ∷ [];
}

abbrev held_reconciled : String → HeldWebhook → LogInput
held_reconciled order held = record {
  order = order;
  type = "webhook.reconciled_after_client_verification";
  actor = "payment";
  decision = some "allow";
  reason_codes = "out_of_order_webhook_reconciled" ∷ "rail_single_success" ∷ [];
  input_digest = none;
  output_digest = none;
  references = ("eventId", held.event_id) ∷ ("paymentId", held.payment_id) ∷ [];
}

-- servicesReconcileHeld, then the rest.
unfoldable pub reconcile_held :
    String → Order → Option HeldWebhook → (Order → Step Done) → Step Done
reconcile_held order o none k = k o
reconcile_held order o (some held) k =
    let s = record o.session { held_webhook = none } in
    note held.event_id (emit (held_reconciled order held) (k (record o { session = s })))

module _ (host : Host) where
  -- What the reported payment must match before the order counts as paid.
  unfoldable pub binding_failures : Session → EnvelopeRecord → VerificationResult → List String
  binding_failures s r v =
      failure_unless (s.external_order_id =? v.external_order_id)
        ("fetched payment order_id " <> v.external_order_id <> " does not match session order")
      ++ (failure_unless (eqb v.amount_minor r.envelope.total_minor) (
            "amount "
            <> host.show v.amount_minor
            <> " does not match approved envelope "
            <> host.show r.envelope.total_minor)
          ++ (failure_unless (v.currency == r.envelope.currency) (
                "currency " <> v.currency <> " does not match approved envelope "
                <> r.envelope.currency)
              ++ failure_unless (v.status == "captured")
                  ("payment status is " <> v.status <> ", not captured")))

  abbrev pub binding_error : List String → String
  binding_error failures = "Payment binding rejected: " <> join "; " failures

  unfoldable pub verify_bound : String → Order → String → String → List String → Step Done
  unfolding reconcile_held
  verify_bound order o external payment (f ∷ fs) = enter o payment_failed (λ q.
      emit
        (record (payment_log order "payment.binding_rejected" "rail_binding_failed" payment) {
          actor = "policy";
        })
        (fail_with q (binding_error (f ∷ fs))))
  verify_bound order o external payment [] = enter o paid_verified (λ q.
      emit (payment_verified order external payment) (
        reconcile_held order q q.session.held_webhook
          (λ h. succeed h (plain_reply true h.session.state) (some payment))))

  -- The adapter has answered: its result is Kept before it is looked at.
  unfoldable pub verify_answered :
      String → Order → EnvelopeRecord → String → String → VerificationResult → Step Done
  unfolding verify_bound binding_failures
  verify_answered order o r external payment v =
      let s = record o.session { verification = some v; external_payment_id = some payment } in
      let Kept = record o { session = s } in
      let bound = verify_bound order Kept external payment (binding_failures s r v) in
      if not v.verified
      then enter Kept payment_failed (λ q.
        emit (payment_log order "payment.verification_failed" "signature_invalid" payment)
          (fail_with q (get_or_else v.reason "Verification failed")))
      else bound

  -- After the await of the adapter.
  unfoldable pub verify_called :
      String → Order → EnvelopeRecord → String → String → Outcome VerificationResult → Step Done
  verify_called order o r external payment (thrown e) = throw o e
  verify_called order o r external payment (returned v) =
      verify_answered order o r external payment v

  -- `others` is what other calls do to the order while the adapter is awaited.
  unfoldable pub verify_quoted :
      (Order → Order)
      → String
      → Order
      → EnvelopeRecord
      → String
      → String
      → String
      → PaymentAdapter
      → Step Done
  unfolding verify_called verify_answered
  verify_quoted others order o r external payment signature adapter =
      if is_verified o.session.verification
      then (if verified_by razorpay_rail o.session.verification
            && (o.session.external_order_id =? external && o.session.external_payment_id =? payment)
          then succeed o (plain_reply true o.session.state) (some payment)
          else emit
              (record (payment_log order "payment.rail_rejected" "rail_single_success" payment) {
                actor = "policy";
              })
              (fail_with o
                "This order already settled on another rail; Razorpay verification is rejected."))
      else if not (o.session.external_order_id =? external)
      then emit (block_log order "payment.binding_rejected" "policy" "order_id_mismatch" none) (
          enter o payment_failed
            (λ q. fail_with q "Submitted Razorpay order does not match this session's order"))
      else verify_called order (others o) r external payment
          (adapter.verify (verification_input order r external payment signature))

  unfoldable pub verify_found :
      (Order → Order)
      → String
      → Order
      → Option EnvelopeRecord
      → String
      → String
      → String
      → PaymentAdapter
      → Step Done
  verify_found others order o none external payment signature adapter = fail_with o "No envelope"
  verify_found others order o (some r) external payment signature adapter =
      verify_quoted others order o r external payment signature adapter

  unfoldable pub verify_order :
      (Order → Order) → String → Order → String → String → String → PaymentAdapter → Step Done
  unfolding verify_found verify_quoted
  verify_order others order o external payment signature adapter =
      verify_found others order o o.envelope external payment signature adapter
