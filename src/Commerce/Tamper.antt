-- ===== src/Commerce/Tamper.antt =====
-- apps/web/lib/services.ts: tamper, the simulated change of an envelope after its approval.
pub mod Laws
use agentready_commerce.Prelude.{
  ◌+◌, ◌-◌, String, true, not, Option, none, some, List, [], ◌∷◌, set, if◌then◌else◌, Host, Call,
}
use agentready_commerce.Domain.Order.{reapproval_required}
use agentready_commerce.Domain.Types.{EnvelopeItem, CommerceEnvelope}
use agentready_commerce.Domain.Canonical.{envelope_digest, sign_envelope}
use agentready_commerce.Domain.Material.{requires_reapproval}
use agentready_commerce.Core.Types.{failure, success}
use agentready_commerce.Commerce.Session.{EnvelopeRecord}
use agentready_commerce.Commerce.Step.{
  LogInput, Done, Order, Step, stop, throw, emit, enter, error_reply, plain_reply,
}

pub data TamperField : Type 0 where
  price variant : TamperField

-- The changed first item. The model is that of a price of 5000 paise or more: a lower one, which
-- repeated tampering comes to, turns negative in the source and stops at 0 here.
abbrev pub tampered_item : TamperField → EnvelopeItem → EnvelopeItem
tampered_item price i = record i { unit_amount_minor = i.unit_amount_minor - 5000 }
tampered_item variant i = record i { variant = set i.variant "size" "UK 10" }

abbrev tampered_totals : TamperField → EnvelopeItem → CommerceEnvelope → CommerceEnvelope
tampered_totals price i e = record e {
  subtotal_minor = i.unit_amount_minor;
  total_minor = i.unit_amount_minor + e.shipping_minor;
}
tampered_totals variant i e = e

-- The candidate; without a first item the source throws.
unfoldable pub tampered :
    Call → TamperField → CommerceEnvelope → List EnvelopeItem → Option CommerceEnvelope
tampered call f e [] = none
tampered call f e (i ∷ is) =
    let j = tampered_item f i in
    some (record (tampered_totals f j e) { items = j ∷ is; nonce = call.new_id "nonce" })

abbrev reapproval_log : String → String → String → LogInput
reapproval_log order old new_digest = record {
  order = order;
  type = "policy.reapproval_required";
  actor = "policy";
  decision = some "block";
  reason_codes = "material_change_reapproval" ∷ [];
  input_digest = some old;
  output_digest = some new_digest;
  references = [];
}

module _ (host : Host) (secret : String) where
  abbrev tampered_record : EnvelopeRecord → Call → CommerceEnvelope → EnvelopeRecord
  tampered_record r call e = record r {
    envelope = e;
    digest = envelope_digest host e;
    signature = sign_envelope host e secret;
    issued_at = call.now;
  }

  -- The envelope is replaced and the approval is cleared before the state is entered.
  unfoldable pub tamper_with :
      Call → String → Order → EnvelopeRecord → Option CommerceEnvelope → Step Done
  tamper_with call order o r none = throw o "Cannot read properties of undefined"
  tamper_with call order o r (some e) =
      let s = record o.session { approved_digest = none; approval_event_id = none } in
      let changed : Order = record { session = s; envelope = some (tampered_record r call e) } in
      if not (requires_reapproval host r.envelope e)
      then stop o (record {
        reply = error_reply o.session.state "No material change detected";
        outcome = failure;
        result_ref = none;
        error_ref = none;
      })
      else enter changed reapproval_required (λ q.
        emit (reapproval_log order r.digest (envelope_digest host e)) (
          stop q (record {
            reply = plain_reply true q.session.state;
            outcome = success;
            result_ref = none;
            error_ref = none;
          })))

  unfoldable pub tamper_found :
      Call → String → Order → Option EnvelopeRecord → TamperField → Step Done
  unfolding tampered tamper_with
  tamper_found call order o none f = stop o (record {
    reply = error_reply o.session.state "No envelope";
    outcome = failure;
    result_ref = none;
    error_ref = none;
  })
  tamper_found call order o (some r) f =
      tamper_with call order o r (tampered call f r.envelope r.envelope.items)

  unfoldable pub tamper_order : Call → String → Order → TamperField → Step Done
  unfolding tamper_found
  tamper_order call order o f = tamper_found call order o o.envelope f
