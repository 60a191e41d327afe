-- ===== src/Commerce/Quote.antt =====
-- apps/web/lib/services.ts: buildQuote, between the look-ups and the coordinator.
use agentready_commerce.Prelude.{
  ℕ, ◌+◌, ◌*◌, String, true, Option, none, some, [], ◌∷◌, ◌<>◌, get_or_else, Host, Call,
}
use agentready_commerce.Domain.Order.{awaiting_approval}
use agentready_commerce.Domain.Types.{CommerceEnvelope, PurchaseMandate}
use agentready_commerce.Domain.Canonical.{envelope_digest, sign_envelope}
use agentready_commerce.Catalog.{CatalogVariant, CatalogProduct, estimate_shipping}
use agentready_commerce.Catalog.Seed.{shoe_catalog}
use agentready_commerce.Commerce.Session.{
  RecommendationBinding, Session, EnvelopeRecord, intent_digest,
}
use agentready_commerce.Commerce.Step.{LogInput, Order, Step, stop, throw, emit, enter}
use agentready_commerce.Commerce.Recommend.{recommendation_binding, current_recommendation}
use agentready_commerce.Commerce.Select.{
  SelectionValidation, selected, unselected, validate_current_selection,
}

abbrev pub quote_expiry_ms : ℕ
quote_expiry_ms = 15 * 60 * 1000

abbrev mandate_id_of : Option PurchaseMandate → String
mandate_id_of none = ""
mandate_id_of (some m) = m.mandate_id

module _ (host : Host) (secret : String) where
  -- `JSON.stringify` of the catalogue's return policy.
  abbrev return_policy_text : String
  return_policy_text =
      "{"
      <> host.quote "policyId"
      <> ":"
      <> host.quote shoe_catalog.return_policy.policy_id
      <> ","
      <> host.quote "returnable"
      <> ":true,"
      <> host.quote "windowDays"
      <> ":"
      <> host.show shoe_catalog.return_policy.window_days
      <> ","
      <> host.quote "condition"
      <> ":"
      <> host.quote shoe_catalog.return_policy.condition
      <> "}"

  unfoldable pub quote_envelope :
      Call
      → String
      → Session
      → CatalogProduct
      → CatalogVariant
      → Option PurchaseMandate
      → CommerceEnvelope
  unfolding estimate_shipping
  quote_envelope call order s p v mandate =
      let shipping = (estimate_shipping p.delivery_lead_days call.now).fee_minor in
      let subtotal = p.price_minor * 1 in
      record {
        logical_order_id = order;
        merchant_id = shoe_catalog.merchant_id;
        quote_id = call.new_id "qt";
        customer_id = s.customer_id;
        buyer_agent_id = none;
        items =
            record {
              product_id = p.product_id;
              sku = v.sku;
              variant =
                  ("size", get_or_else s.intent.size "")
                  ∷ ("colour", get_or_else s.intent.colour "black")
                  ∷ [];
              quantity = 1;
              unit_amount_minor = p.price_minor;
            }
            ∷ [];
        subtotal_minor = subtotal;
        tax_minor = 0;
        shipping_minor = shipping;
        total_minor = subtotal + shipping + 0;
        currency = "INR";
        inventory_hold_id = call.new_id "hold";
        return_policy_digest = host.sha256 return_policy_text;
        shipping_destination_digest = host.sha256 "Bengaluru, Karnataka, India";
        mandate_id = mandate_id_of mandate;
        approval_event_id = none;
        issued_at = call.now;
        expires_at = call.now + quote_expiry_ms;
        nonce = call.new_id "nonce";
      }

  -- The entry of the table of envelopes.
  unfoldable pub quote_record : Call → Session → CommerceEnvelope → EnvelopeRecord
  unfolding sign_envelope envelope_digest
  quote_record call s e = record {
    envelope = e;
    digest = envelope_digest host e;
    signature = sign_envelope host e secret;
    issued_at = call.now;
    recommendation = recommendation_binding s;
    intent_digest = intent_digest host s.intent;
  }

  abbrev with_quote : Session → String → Session
  with_quote s product_id =
      let b = recommendation_binding s in
      record s {
        dialogue = record s.dialogue {
          quote_product_id = some product_id;
          quote_valid = true;
          quote_intent_version = some b.intent_version;
          quote_recommendation_version = some b.recommendation_version;
          quote_action_token = some b.recommendation_action_token;
        };
      }

  abbrev envelope_created : String → String → LogInput
  envelope_created order digest = record {
    order = order;
    type = "quote.envelope_created";
    actor = "system";
    decision = none;
    reason_codes = [];
    input_digest = some digest;
    output_digest = none;
    references = [];
  }

  -- The envelope is stored and the quote is marked before the state is entered.
  unfoldable pub quote_selected :
      Call
      → String
      → Order
      → String
      → Option PurchaseMandate
      → SelectionValidation
      → Step EnvelopeRecord
  unfolding quote_envelope quote_record
  quote_selected call order o product_id mandate (unselected why codes) = throw o why
  quote_selected call order o product_id mandate (selected p v) =
      let e = quote_envelope call order o.session p v mandate in
      let r = quote_record call o.session e in
      let quoted : Order = record {
        session = with_quote o.session product_id;
        envelope = some r;
      } in
      enter quoted awaiting_approval (λ q. emit (envelope_created order r.digest) (stop q r))

  unfoldable pub quote_order :
      Call
      → String
      → Order
      → String
      → Option RecommendationBinding
      → Option PurchaseMandate
      → Step EnvelopeRecord
  unfolding quote_selected
  quote_order call order o product_id supplied mandate =
      let s = current_recommendation host call o.session in
      quote_selected call order (record o { session = s }) product_id mandate
        (validate_current_selection host call s product_id supplied)
