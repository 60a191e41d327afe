-- ===== src/Commerce/Webhook.antt =====
-- apps/web/lib/webhook.ts, processRazorpayWebhookRaw, from the order on, with markVerifiedFromWebhook
-- of services.ts.
pub mod Laws
pub mod Process
use agentready_commerce.Prelude.{
  ℕ, String, Bool, true, false, not, ◌&&◌, ◌||◌, Option, none, some, List, [], ◌∷◌, ◌++◌, eqb, ◌==◌,
  ◌=?◌, ◌<>◌, is_set, truthy, is_empty, get_or_else, if◌then◌else◌, Map, get, set, has, Host, Call,
  Outcome, returned, thrown,
}
use agentready_commerce.Domain.Order.{
  OrderState, same_state, payment_pending, payment_failed, paid_verified, state_name,
}
use agentready_commerce.Domain.Canonical.{join}
use agentready_commerce.Payments.Types.{VerificationResult}
use agentready_commerce.Payments.Adapters.{razorpay_rail, verify_razorpay_webhook_signature}
use agentready_commerce.Commerce.Session.{Session, EnvelopeRecord, HeldWebhook}
use agentready_commerce.Commerce.Step.{
  LogInput, Order, Step, stop, throw, emit, note, enter, block_log,
}
use agentready_commerce.Commerce.Pay.{already_paid}
use agentready_commerce.Commerce.Verify.{failure_unless}
use agentready_commerce.Commerce.Shop.{Shop, stored}

-- The payment entity of RazorpayWebhookPayload.
pub record PaymentEntity : Type 0 where
  pub id : String
  pub order_id : Option String
  pub amount : Option ℕ
  pub currency : Option String
  pub status : Option String
  pub notes_order_id : Option String

-- What `JSON.parse` makes of a body; the entity may be missing.
pub record WebhookPayload : Type 0 where
  pub event : String
  pub entity : Option PaymentEntity

-- WebhookOutcome, without its prose and its echo of the ids.
pub record WebhookOutcome : Type 0 where
  pub ok : Bool
  pub deduplicated : Bool
  pub processed : Bool
  pub held : Bool
  pub reason_code : String

abbrev pub rejected_event : String → WebhookOutcome
rejected_event code = record {
  ok = false;
  deduplicated = false;
  processed = false;
  held = false;
  reason_code = code;
}

abbrev pub accepted_event : Bool → Bool → String → WebhookOutcome
accepted_event processed held code = record {
  ok = true;
  deduplicated = false;
  processed = processed;
  held = held;
  reason_code = code;
}

-- `x !== undefined && x !== y` as a failure.
abbrev unless_equal : Option ℕ → ℕ → String → List String
unless_equal none n why = []
unless_equal (some m) n why = failure_unless (eqb m n) why

abbrev unless_same : Option String → String → String → List String
unless_same none n why = []
unless_same (some m) n why = failure_unless (m == n) why

abbrev pub webhook_log : String → String → String → Option String → List String → LogInput
webhook_log order type actor decision codes = record {
  order = order;
  type = type;
  actor = actor;
  decision = decision;
  reason_codes = codes;
  input_digest = none;
  output_digest = none;
  references = [];
}

module _ (host : Host) where
  -- The failures that markVerifiedFromWebhook collects, with all the claims.
  unfoldable pub claim_failures : Session → EnvelopeRecord → PaymentEntity → String → List String
  claim_failures s r p external =
      failure_unless (s.external_order_id =? external)
        ("webhook order_id " <> external <> " does not match session order")
      ++ (unless_equal p.amount r.envelope.total_minor
            "webhook amount does not match approved envelope"
          ++ (unless_same p.currency r.envelope.currency
                "webhook currency does not match approved envelope"
              ++ unless_same p.status "captured" "webhook status is not captured"))

  -- The failures that the webhook's own check collects.
  unfoldable pub entity_failures : Option EnvelopeRecord → PaymentEntity → List String
  entity_failures none p = "no envelope record for this order" ∷ []
  entity_failures (some r) p =
      unless_equal p.amount r.envelope.total_minor "amount does not match approved envelope"
      ++ (unless_same p.currency r.envelope.currency "currency does not match approved envelope"
          ++ failure_unless (p.status =? "captured") "payment status is not captured")

  abbrev pub webhook_verification : EnvelopeRecord → String → String → VerificationResult
  webhook_verification r payment external = record {
    verified = true;
    rail = razorpay_rail;
    external_order_id = external;
    external_payment_id = payment;
    amount_minor = r.envelope.total_minor;
    currency = r.envelope.currency;
    status = "captured";
    reason = none;
  }

  unfoldable pub mark_bound :
      String → Order → EnvelopeRecord → PaymentEntity → String → Bool → List String → Step Bool
  mark_bound order o r p external seen (f ∷ fs) =
      emit
        (webhook_log order "webhook.binding_rejected" "policy" (some "block")
          ("webhook_binding_failed" ∷ []))
        (stop o false)
  mark_bound order o r p external true [] = stop o true
  mark_bound order o r p external false [] =
      let s = record o.session {
        external_payment_id = some p.id;
        verification = some (webhook_verification r p.id external);
      } in
      note ("webhook_mark_" <> p.id) (
        enter (record o { session = s }) paid_verified
          (λ q.
            emit
              (webhook_log order "payment.verified_via_webhook" "payment" (some "allow")
                ("webhook_verified" ∷ "rail_binding_verified" ∷ "rail_single_success" ∷ []))
              (stop q true)))

  -- markVerifiedFromWebhook; the table of processed webhooks is an argument.
  unfoldable pub mark_verified_from_webhook :
      Map ℕ → String → Order → Option EnvelopeRecord → PaymentEntity → String → Step Bool
  unfolding mark_bound claim_failures
  mark_verified_from_webhook dedup order o none p external = stop o false
  mark_verified_from_webhook dedup order o (some r) p external =
      mark_bound order o r p external (has dedup ("webhook_mark_" <> p.id))
        (claim_failures o.session r p external)

  abbrev of_marked : Outcome Bool → Outcome WebhookOutcome
  of_marked (returned true) = returned (accepted_event true false "accepted")
  of_marked (returned false) = returned (accepted_event false false "state_unsuitable")
  of_marked (thrown why) = thrown why

  -- In PAYMENT_PENDING: the event is marked before the payment is applied.
  abbrev marked : String → Step Bool → Step WebhookOutcome
  marked event st =
      note event
        (record { result = of_marked st.result; order = st.order; log = st.log; noted = st.noted })

  -- The event of a bound payment, by the state of the order.
  unfoldable pub apply_webhook :
      ℕ → Map ℕ → String → Order → PaymentEntity → String → Step WebhookOutcome
  unfolding mark_verified_from_webhook
  apply_webhook now dedup event o p external =
      let order = o.session.logical_order_id in
      let held = record o.session {
        held_webhook = some (record { event_id = event; payment_id = p.id; order_id = external });
      } in
      if same_state o.session.state payment_pending
      then marked event
          (mark_verified_from_webhook (set dedup event now) order o o.envelope p external)
      else if same_state o.session.state payment_failed
      then emit
          (webhook_log order "webhook.held_for_reconciliation" "payment" (some "review")
            ("out_of_order_webhook_held" ∷ []))
          (stop (record o { session = held }) (accepted_event false true "held"))
      else if already_paid o.session.state
      then note event (
          emit
            (webhook_log order "webhook.duplicate_rail_note" "payment" (some "review")
              ("rail_single_success" ∷ []))
            (stop o (accepted_event true false "accepted")))
      else stop o (rejected_event "state_unsuitable")

  unfoldable pub bind_webhook :
      ℕ → Map ℕ → String → Order → PaymentEntity → String → List String → Step WebhookOutcome
  unfolding apply_webhook
  bind_webhook now dedup event o p external [] = apply_webhook now dedup event o p external
  bind_webhook now dedup event o p external (f ∷ fs) =
      emit
        (webhook_log o.session.logical_order_id "webhook.binding_rejected" "policy" (some "block")
          ("webhook_binding_failed" ∷ []))
        (stop o (rejected_event "binding_failed"))

  -- A `notes` field that names another order is only logged.
  unfoldable pub noticed : String → Option String → Step WebhookOutcome → Step WebhookOutcome
  noticed order none k = k
  noticed order (some n) k =
      if truthy n && not (n == order)
      then emit
          (webhook_log order "webhook.notes_mismatch" "payment" (some "review")
            ("webhook_notes_untrusted" ∷ []))
          k
      else k

  -- The event on the order that its order id leads to.
  unfoldable pub webhook_on_order :
      ℕ → Map ℕ → String → Order → PaymentEntity → String → Step WebhookOutcome
  unfolding bind_webhook entity_failures noticed
  webhook_on_order now dedup event o p external =
      let order = o.session.logical_order_id in
      emit (webhook_log order "webhook.received" "payment" none []) (
        noticed order p.notes_order_id
          (bind_webhook now dedup event o p external (entity_failures o.envelope p)))
