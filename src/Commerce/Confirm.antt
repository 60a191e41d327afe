-- ===== src/Commerce/Confirm.antt =====
-- apps/web/lib/services.ts: confirmX402OrderPayment, between the look-ups and the coordinator.
use agentready_commerce.Prelude.{
  String, Bool, true, not, ◌&&◌, ◌||◌, Option, none, some, [], ◌∷◌, ◌==◌, ◌=?◌, ◌<>◌, is_set,
  if◌then◌else◌, get_or_else, Host,
}
use agentready_commerce.Domain.Order.{payment_pending, paid_verified}
use agentready_commerce.Payments.Types.{VerificationResult}
use agentready_commerce.Commerce.Session.{Session, EnvelopeRecord, X402OrderPayment, settled}
use agentready_commerce.Commerce.Step.{
  LogInput, Done, Order, Step, emit, enter, plain_reply, fail_coded, succeed, block_log,
}
use agentready_commerce.Commerce.Recommend.{quote_active}
use agentready_commerce.Commerce.Pay.{already_paid, is_settled}
use agentready_commerce.Commerce.Verify.{is_verified}
use agentready_commerce.Commerce.AgentPay.{x402_rail, head_of, reject, payment_reply, duplicate_log}

abbrev pub settled_payment : X402OrderPayment → X402OrderPayment
settled_payment p = record p {
  mock_tx_hash = some ("x402sim_" <> head_of p.request_digest);
  status = settled;
}

abbrev pub x402_verification : EnvelopeRecord → String → VerificationResult
x402_verification r identifier = record {
  verified = true;
  rail = x402_rail;
  external_order_id = identifier;
  external_payment_id = identifier;
  amount_minor = r.envelope.total_minor;
  currency = r.envelope.currency;
  status = "captured";
  reason = none;
}

abbrev verified_log : String → EnvelopeRecord → X402OrderPayment → LogInput
verified_log order r p = record {
  order = order;
  type = "x402_order.verified";
  actor = "payment";
  decision = some "allow";
  reason_codes = "mock_settlement_verified" ∷ "rail_binding_verified" ∷ "rail_single_success" ∷ [];
  input_digest = none;
  output_digest = none;
  references =
      ("paymentIdentifier", p.payment_identifier)
      ∷ ("mockTxHash", get_or_else p.mock_tx_hash "")
      ∷ ("envelopeDigest", r.digest)
      ∷ [];
}

-- The settlement: the payment is marked, the verification is set, the two states are entered.
unfoldable pub settle_order :
    String → Order → EnvelopeRecord → X402OrderPayment → String → Step Done
settle_order order o r pending identifier =
    let p = settled_payment pending in
    let s = record o.session {
      x402_order_payment = some p;
      verification = some (x402_verification r identifier);
      external_payment_id = some identifier;
    } in
    enter (record o { session = s }) payment_pending
      (λ q. enter q paid_verified (λ v.
        emit (verified_log order r p)
          (succeed v (payment_reply v.session.state p) (some identifier))))

module _ (host : Host) where
  -- What must not have changed since the preparation.
  abbrev pub confirmable : Session → EnvelopeRecord → X402OrderPayment → Bool
  confirmable s r pending =
      r.digest == pending.envelope_digest
      && (s.approved_digest =? r.digest && (is_set s.approval_event_id && quote_active host s r))

  abbrev changed_log : String → X402OrderPayment → LogInput
  changed_log order pending =
      block_log order "x402_order.rejected" "policy" "quote_invalidated"
        (some pending.envelope_digest)

  unfoldable pub confirm_pending :
      String → Order → EnvelopeRecord → X402OrderPayment → String → Step Done
  unfolding settle_order
  confirm_pending order o r pending identifier =
      let s = o.session in
      let settlement = settle_order order o r pending identifier in
      if is_settled (some pending)
      then emit (duplicate_log order identifier "duplicate_confirm_reused")
          (succeed o (plain_reply true s.state) (some identifier))
      else if not (confirmable s r pending)
      then emit (changed_log order pending) (
          fail_coded o
            "Envelope changed since Agent Pay preparation; approve the exact envelope again"
            ("quote_invalidated" ∷ []))
      else if is_verified s.verification || (is_set s.external_order_id || already_paid s.state)
      then reject order o
          "This order already settled or started on one rail; Agent Pay confirmation is rejected."
          "rail_single_success"
      else settlement

  abbrev unknown_identifier : String → Order → Step Done
  unknown_identifier order o =
      reject order o "Unknown Agent Pay payment identifier for this order" "identifier_unknown"

  unfoldable pub confirm_found :
      String → Order → Option EnvelopeRecord → Option X402OrderPayment → String → Step Done
  unfolding confirm_pending
  confirm_found order o none pending identifier = unknown_identifier order o
  confirm_found order o (some r) none identifier = unknown_identifier order o
  confirm_found order o (some r) (some pending) identifier =
      if pending.payment_identifier == identifier
      then confirm_pending order o r pending identifier
      else unknown_identifier order o

  unfoldable pub confirm_order : String → Order → String → Step Done
  unfolding confirm_found
  confirm_order order o identifier =
      confirm_found order o o.envelope o.session.x402_order_payment identifier
