-- ===== src/Commerce/Webhook/Process.antt =====
-- apps/web/lib/webhook.ts: an event from its raw body to the order that it belongs to.
use agentready_commerce.Prelude.{
  String, Bool, true, false, not, ◌||◌, Option, none, some, [], ◌∷◌, ◌++◌, ◌==◌, ◌=?◌, ◌<>◌, is_set,
  truthy, get_or_else, if◌then◌else◌, Map, has, Host, Call, Outcome, returned,
}
use agentready_commerce.Payments.Adapters.{verify_razorpay_webhook_signature}
use agentready_commerce.Commerce.Step.{LogInput, Order}
use agentready_commerce.Commerce.Shop.{Shop, stored}
use agentready_commerce.Commerce.Webhook.{
  PaymentEntity, WebhookPayload, WebhookOutcome, rejected_event, accepted_event, webhook_log,
  webhook_on_order,
}

-- findSessionByExternalOrderId.
unfoldable pub find_order : Map Order → String → Option (String × Order)
find_order [] external = none
find_order ((k, o) ∷ rest) external =
    let later = find_order rest external in
    if o.session.external_order_id =? external then some (k, o) else later

abbrev pub supported : String → Bool
supported event = event == "payment.captured" || event == "payment.authorized"

module _ (host : Host) {S : Type 0} where
  abbrev logged : Shop S → LogInput → Shop S
  logged shop l = record shop { log = shop.log ++ (l ∷ []) }

  webhook_found :
      Call
      → Shop S
      → String
      → PaymentEntity
      → String
      → Option (String × Order)
      → Outcome WebhookOutcome × Shop S
  unfolding webhook_on_order
  webhook_found call shop event p external none = (returned (rejected_event "unknown_order"), shop)
  webhook_found call shop event p external (some (k, o)) =
      let st = webhook_on_order host call.now shop.webhook_dedup event o p external in
      (st.result, stored call k shop st)

  webhook_entity :
      Call
      → Shop S
      → String
      → Option String
      → Option PaymentEntity
      → Outcome WebhookOutcome × Shop S
  unfolding webhook_found find_order
  webhook_entity call shop event header none =
      (returned (rejected_event "missing_payment_entity"), shop)
  webhook_entity call shop event header (some p) =
      let id = get_or_else header (event <> "_" <> p.id) in
      let external = get_or_else p.order_id "" in
      let applied = webhook_found call shop id p external (find_order shop.orders external) in
      if not (truthy p.id)
      then (returned (rejected_event "missing_payment_entity"), shop)
      else if has shop.webhook_dedup id
      then (
        returned (record {
          ok = true;
          deduplicated = true;
          processed = false;
          held = false;
          reason_code = "deduplicated";
        }),
        shop,
      )
      else if not (supported event)
      then (
        returned (accepted_event false false "unsupported_event"),
        logged shop (
            webhook_log "unknown" "webhook.ignored" "payment" (some "review")
              ("unsupported_event_ignored" ∷ [])),
      )
      else if not (is_set p.order_id)
      then (returned (rejected_event "missing_order_id"), shop)
      else applied

  webhook_parsed :
      Call → Shop S → Option String → Option WebhookPayload → Outcome WebhookOutcome × Shop S
  unfolding webhook_entity
  webhook_parsed call shop header none = (returned (rejected_event "malformed_json"), shop)
  webhook_parsed call shop header (some w) = webhook_entity call shop w.event header w.entity

  -- `parse` is `JSON.parse` with the field accesses on its result.
  unfoldable pub process_webhook :
      (String → Option WebhookPayload)
      → Call
      → Shop S
      → String
      → Option String
      → Option String
      → String
      → Outcome WebhookOutcome × Shop S
  unfolding webhook_parsed
  process_webhook parse call shop body signature header secret =
      let parsed = webhook_parsed call shop header (parse body) in
      if not (is_set signature)
      then (returned (rejected_event "missing_signature"), shop)
      else if not (verify_razorpay_webhook_signature host secret body (get_or_else signature ""))
      then (
        returned (rejected_event "invalid_signature"),
        logged shop (
            webhook_log "unknown" "webhook.signature_invalid" "payment" (some "block")
              ("webhook_signature_invalid" ∷ [])),
      )
      else parsed
