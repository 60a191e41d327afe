-- ===== src/Commerce/AgentPay.antt =====
-- apps/web/lib/services.ts: prepareX402OrderPayment and confirmX402OrderPayment, between the
-- look-ups and the coordinator; packages/payments/src/x402.ts: the request's digest.
use Prim.Native.String.{slice}
use agentready_commerce.Prelude.{
  ℕ, String, Bool, true, not, ◌||◌, Option, none, some, [], ◌∷◌, ◌==◌, ◌<>◌, is_set, if◌then◌else◌,
  Host, Call,
}
use agentready_commerce.Domain.Order.{OrderState}
use agentready_commerce.Domain.Types.{PurchaseMandate}
use agentready_commerce.Domain.Canonical.{join}
use agentready_commerce.Domain.Policy.{check_envelope_for_payment}
use agentready_commerce.Commerce.Session.{EnvelopeRecord, X402OrderPayment, awaiting}
use agentready_commerce.Commerce.Step.{
  LogInput, Reply, Done, Order, Step, emit, plain_reply, fail_with, fail_coded, succeed, block_log,
}
use agentready_commerce.Commerce.Recommend.{quote_active}
use agentready_commerce.Commerce.Pay.{
  already_paid, is_settled, payment_input, verdict_log, quote_error,
}
use agentready_commerce.Commerce.Verify.{is_verified}

abbrev pub x402_rail : String
x402_rail = "x402_solana"

pub record OrderPaymentRequest : Type 0 where
  pub logical_order_id : String
  pub envelope_digest : String
  pub network : String
  pub asset : String
  pub amount_minor : ℕ
  pub currency : String
  pub payee : String
  pub purpose : String

-- With the constants X402_MOCK_ORDER_*.
unfoldable pub order_payment_request : String → EnvelopeRecord → OrderPaymentRequest
order_payment_request order r = record {
  logical_order_id = order;
  envelope_digest = r.digest;
  network = "solana:EtWTRABZaYq6iMfeYKouRu166VU2xqa1";
  asset = "usdc_devnet_mock_mint";
  amount_minor = r.envelope.total_minor;
  currency = r.envelope.currency;
  payee = "demo_payee_RunVista_mock";
  purpose = "order_payment";
}

-- `slice(0, 12)` of a hexadecimal digest.
abbrev pub head_of : String → String
head_of digest = slice digest 0 12

abbrev pub mock_order_payment_identifier : String → String
mock_order_payment_identifier digest = "x402ord_" <> head_of digest

-- `{ ok: false, state, error, reasonCodes: [code] }` behind an audit entry of the same code.
abbrev pub reject : String → Order → String → String → Step Done
reject order o why code =
    emit (block_log order "x402_order.rejected" "policy" code none) (fail_coded o why (code ∷ []))

abbrev pub payment_reply : OrderState → X402OrderPayment → Reply
payment_reply state p = record (plain_reply true state) { payment = some p }

abbrev pub duplicate_log : String → String → String → LogInput
duplicate_log order identifier code = record {
  order = order;
  type = "x402_order.duplicate";
  actor = "payment";
  decision = some "review";
  reason_codes = code ∷ [];
  input_digest = none;
  output_digest = none;
  references = ("paymentIdentifier", identifier) ∷ [];
}

abbrev prepared_log : String → EnvelopeRecord → X402OrderPayment → LogInput
prepared_log order r p = record {
  order = order;
  type = "x402_order.prepared";
  actor = "payment";
  decision = some "allow";
  reason_codes = "rail_selected" ∷ "mock_order_initiated" ∷ [];
  input_digest = some r.digest;
  output_digest = none;
  references =
      ("paymentIdentifier", p.payment_identifier)
      ∷ ("requestDigest", p.request_digest)
      ∷ ("envelopeDigest", r.digest)
      ∷ [];
}

module _ (host : Host) where
  -- canonicalOrderPaymentRequestDigest: `JSON.stringify` keeps the order of the fields.
  unfoldable pub order_payment_request_digest : OrderPaymentRequest → String
  order_payment_request_digest q = host.sha256 (
      "{"
      <> join "," (
          (host.quote "logicalOrderId" <> ":" <> host.quote q.logical_order_id)
          ∷ (host.quote "envelopeDigest" <> ":" <> host.quote q.envelope_digest)
          ∷ (host.quote "network" <> ":" <> host.quote q.network)
          ∷ (host.quote "asset" <> ":" <> host.quote q.asset)
          ∷ (host.quote "amountMinor" <> ":" <> host.show q.amount_minor)
          ∷ (host.quote "currency" <> ":" <> host.quote q.currency)
          ∷ (host.quote "payee" <> ":" <> host.quote q.payee)
          ∷ (host.quote "purpose" <> ":" <> host.quote q.purpose)
          ∷ [])
      <> "}")

  unfoldable pub new_payment : String → EnvelopeRecord → X402OrderPayment
  unfolding order_payment_request order_payment_request_digest
  new_payment order r =
      let q = order_payment_request order r in
      let digest = order_payment_request_digest q in
      record {
        payment_identifier = mock_order_payment_identifier digest;
        request_digest = digest;
        envelope_digest = r.digest;
        network = q.network;
        asset = q.asset;
        amount_minor = q.amount_minor;
        currency = q.currency;
        recipient = q.payee;
        mock_tx_hash = none;
        status = awaiting;
      }

  unfoldable pub prepare_new : String → Order → EnvelopeRecord → Step Done
  unfolding new_payment
  prepare_new order o r =
      let p = new_payment order r in
      let s = record o.session { x402_order_payment = some p } in
      emit (prepared_log order r p)
        (succeed (record o { session = s }) (payment_reply s.state p) (some p.payment_identifier))

  -- A payment that was prepared for the same envelope is used again.
  unfoldable pub prepare_checked :
      String → Order → EnvelopeRecord → Option X402OrderPayment → Step Done
  unfolding prepare_new
  prepare_checked order o r none = prepare_new order o r
  prepare_checked order o r (some p) =
      if p.envelope_digest == r.digest
      then emit (duplicate_log order p.payment_identifier "duplicate_prepare_reused")
          (succeed o (payment_reply o.session.state p) (some p.payment_identifier))
      else prepare_new order o r

  unfoldable pub prepare_quoted :
      Call → Bool → String → Order → EnvelopeRecord → Option PurchaseMandate → Step Done
  unfolding prepare_checked
  prepare_quoted call is_mock order o r mandate =
      let s = o.session in
      let verdict = check_envelope_for_payment host (payment_input call s r mandate x402_rail) in
      if not is_mock
      then reject order o
          "Agent Pay order payment is a mock simulation; unavailable outside mock mode"
          "mock_only_rail"
      else if is_verified s.verification
          || (is_settled s.x402_order_payment || already_paid s.state)
      then reject order o
          "This order already settled on one rail; Agent Pay preparation is rejected."
          "rail_single_success"
      else if is_set s.external_order_id
      then reject order o
          "A Razorpay payment was already initiated for this order; Agent Pay is rejected."
          "rail_already_initiated"
      else if not (quote_active host s r)
      then reject order o quote_error "quote_invalidated"
      else if not verdict.allow
      then emit (verdict_log order "x402_order.rejected" r verdict) (
          fail_coded o ("Policy blocked Agent Pay: " <> join ", " verdict.reason_codes)
            verdict.reason_codes)
      else prepare_checked order o r s.x402_order_payment

  unfoldable pub prepare_found :
      Call → Bool → String → Order → Option EnvelopeRecord → Option PurchaseMandate → Step Done
  prepare_found call is_mock order o none mandate = fail_with o "No envelope"
  prepare_found call is_mock order o (some r) mandate =
      prepare_quoted call is_mock order o r mandate

  unfoldable pub prepare_order : Call → Bool → String → Order → Option PurchaseMandate → Step Done
  unfolding prepare_found prepare_quoted
  prepare_order call is_mock order o mandate = prepare_found call is_mock order o o.envelope mandate
