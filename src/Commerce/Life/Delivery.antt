-- ===== src/Commerce/Life/Delivery.antt =====
-- apps/web/lib/services.ts: fulfil, compensate and tamper, on every branch.
use agentready_commerce.Prelude.{
  String, refl, Bool, not, ◌||◌, Option, none, some, is_set, get_or_else, Host, Call, Outcome,
  returned, thrown,
}
use agentready_commerce.Domain.Order.{
  paid_verified, fulfilment_pending, fulfilled, fulfilment_failed, compensation_pending, refunded,
  manual_review, reapproval_required, same_state,
}
use agentready_commerce.Domain.Types.{CommerceEnvelope}
use agentready_commerce.Payments.Types.{PaymentAdapter, CompensationResult}
use agentready_commerce.Commerce.Session.{EnvelopeRecord}
use agentready_commerce.Commerce.Step.{Order}
use agentready_commerce.Commerce.Step.Laws.{at, enter_elim}
use agentready_commerce.Commerce.Life.{
  Calm, Calm-at, Calm-refl, Calm-trans, Calm-same, Calm-enter, Calm-if,
}
use agentready_commerce.Commerce.Verify.{verified_by}
use agentready_commerce.Commerce.AgentPay.{x402_rail}
use agentready_commerce.Commerce.Fulfil.{
  fulfil_order, refund_input, refund_made, recovered, refund_failed, compensated_by,
  refund_attempted, compensate_paid, compensate_found, compensate_order,
}
use agentready_commerce.Commerce.Tamper.{
  TamperField, tampered, tamper_with, tamper_found, tamper_order,
}
use agentready_commerce.Domain.Material.{requires_reapproval}

pub fulfil_order-Calm :
    (order : String) (o : Order) (fail : Bool) → Calm o (fulfil_order order o fail).order
unfolding fulfil_order
fulfil_order-Calm order o fail =
    Calm-if o (not (same_state o.session.state paid_verified)) _ _ (Calm-refl o) (λ c.
      Calm-if o fail _ _
        (Calm-enter o o fulfilment_pending _ refl (Calm-refl o)
          (λ h. Calm-enter o _ fulfilment_failed _ refl h (λ k. k)))
        (λ c.
          Calm-enter o o fulfilment_pending _ refl (Calm-refl o)
            (λ h. Calm-enter o _ fulfilled _ refl h (λ k. k))))

refund_attempted-Calm :
    (order : String) (o p : Order) (answer : Outcome CompensationResult)
    → Calm o p
    → Calm o (refund_attempted order p answer).order
unfolding refund_attempted refund_made recovered refund_failed
refund_attempted-Calm order o p (returned c) before =
    enter_elim (λ st. Calm o (recovered order st st.result).order) _ refunded _
      (λ go_on. Calm-trans o _ _ noted (Calm-at _ refunded refl go_on))
      (λ why. Calm-enter o _ manual_review _ refl noted (λ h. h))
  where
    noted : Calm o (record p {
      session =
          compensated_by p.session
            (record { refund_id = c.refund_id; reason = some "full refund"; ok = c.compensated });
    })
    noted = Calm-trans o p _ before (Calm-same p _ refl (λ h. h))
refund_attempted-Calm order o p (thrown e) before =
    Calm-enter o p manual_review _ refl before (λ h. h)

compensate_found-Calm :
    (order : String) (o : Order) (found : Option EnvelopeRecord) (adapter : PaymentAdapter)
    → Calm o (compensate_found order (λ q. q) o found adapter).order
unfolding compensate_found compensate_paid
compensate_found-Calm order o none adapter = Calm-refl o
compensate_found-Calm order o (some r) adapter =
    let payment = get_or_else o.session.external_payment_id "" in
    Calm-if o (not (is_set o.session.external_payment_id)) _ _ (Calm-refl o) (λ c.
      Calm-enter o o compensation_pending _ refl (Calm-refl o) (λ h.
        Calm-if o (verified_by x402_rail o.session.verification) _ _
          (Calm-enter o _ refunded _ refl
            (Calm-trans o (at o compensation_pending) _ h (Calm-same _ _ refl (λ k. k))) (λ k. k))
          (λ c.
            refund_attempted-Calm order o _ (adapter.compensate (refund_input order r payment)) h)))

pub compensate_order-Calm :
    (order : String) (o : Order) (adapter : PaymentAdapter)
    → Calm o (compensate_order order (λ q. q) o adapter).order
unfolding compensate_order
compensate_order-Calm order o adapter =
    Calm-if o
      (not (
        same_state o.session.state fulfilment_failed
        || same_state o.session.state compensation_pending))
      _ _ (Calm-refl o) (λ c. compensate_found-Calm order o o.envelope adapter)

module _ (host : Host) (secret : String) (call : Call) (order : String) where
  tamper_with-Calm :
      (o : Order) (r : EnvelopeRecord) (candidate : Option CommerceEnvelope)
      → Calm o (tamper_with host secret call order o r candidate).order
  unfolding tamper_with
  tamper_with-Calm o r none = Calm-refl o
  tamper_with-Calm o r (some e) =
      Calm-if o (not (requires_reapproval host r.envelope e)) _ _ (Calm-refl o)
        (λ c. Calm-enter o _ reapproval_required _ refl (Calm-same o _ refl (λ h. h)) (λ h. h))

  tamper_found-Calm :
      (o : Order) (found : Option EnvelopeRecord) (f : TamperField)
      → Calm o (tamper_found host secret call order o found f).order
  unfolding tamper_found
  tamper_found-Calm o none f = Calm-refl o
  tamper_found-Calm o (some r) f =
      tamper_with-Calm o r (tampered call f r.envelope r.envelope.items)

  pub tamper_order-Calm :
      (o : Order) (f : TamperField) → Calm o (tamper_order host secret call order o f).order
  unfolding tamper_order
  tamper_order-Calm o f = tamper_found-Calm o o.envelope f
