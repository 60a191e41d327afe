-- ===== src/Commerce/Tamper/Laws.antt =====
-- apps/web/lib/services.ts, tamper and initiatePayment: a changed envelope is not paid.
use agentready_commerce.Prelude.{
  String, ◌≡◌, refl, inl, inr, true, false, Option, none, some, List, Host, Call, returned,
  Bool-cases,
}
use agentready_commerce.Domain.Order.{reapproval_required}
use agentready_commerce.Domain.Types.{PurchaseMandate, CommerceEnvelope}
use agentready_commerce.Domain.Material.{requires_reapproval}
use agentready_commerce.Payments.Types.{PaymentAdapter}
use agentready_commerce.Commerce.Session.{Session, EnvelopeRecord}
use agentready_commerce.Commerce.Step.{Done, Order}
use agentready_commerce.Commerce.Step.Laws.{denied, transition_state-cases, Grants}
use agentready_commerce.Commerce.Pay.{has_approved, pay_order}
use agentready_commerce.Commerce.Pay.Laws.{Ready, pay_order-Ready}
use agentready_commerce.Commerce.Tamper.{
  TamperField, tampered, tamper_with, tamper_found, tamper_order,
}

module _ (host : Host) (secret : String) (call : Call) (order : String) where
  -- The change has been made and noticed.
  abbrev pub Reopened : Order → Type 0
  Reopened after =
      (after.session.state ≡ reapproval_required) × (after.session.approval_event_id ≡ none)

  tamper_with-Reopened :
      (o : Order) (r : EnvelopeRecord) (candidate : Option CommerceEnvelope)
      → Grants (λ after d. Reopened after) (tamper_with host secret call order o r candidate)
  unfolding tamper_with
  tamper_with-Reopened o r none = λ d e ok. cc
  tamper_with-Reopened o r (some c) = elim (Bool-cases (requires_reapproval host r.envelope c)) [
    | inr same ↦ simp same (λ d e ok. absurd (denied e refl ok))
    | inl changed ↦ elim (transition_state-cases o.session.state reapproval_required) [
      | inl go_on ↦ simp (changed, go_on) (λ d e ok. (refl, refl))
      | inr stopped ↦ simp (changed, stopped) (λ d e ok. cc)
    ]
  ]

  tamper_found-Reopened :
      (o : Order) (found : Option EnvelopeRecord) (f : TamperField)
      → Grants (λ after d. Reopened after) (tamper_found host secret call order o found f)
  unfolding tamper_found
  tamper_found-Reopened o none f = λ d e ok. absurd (denied e refl ok)
  tamper_found-Reopened o (some r) f =
      tamper_with-Reopened o r (tampered call f r.envelope r.envelope.items)

  tamper_order-Reopened :
      (o : Order) (f : TamperField)
      → Grants (λ after d. Reopened after) (tamper_order host secret call order o f)
  unfolding tamper_order
  tamper_order-Reopened o f = tamper_found-Reopened o o.envelope f

  unapproved :
      (s : Session) (r : EnvelopeRecord) → s.approval_event_id ≡ none → has_approved s r ≡ false
  unapproved s r h = rw h refl

  unready :
      (now : Call) (o : Order) (r : EnvelopeRecord) (m : Option PurchaseMandate) (rail : String)
      → o.session.approval_event_id ≡ none
      → Ready host now o r m rail
      → ⊥
  unready now o r m rail h ready = elim ready.payable.3.authorised [
    | inl approved ↦ cc (unapproved o.session r h, approved)
    | inr below ↦ cc (below.0)
  ]

  -- A tampering that is answered positively takes the approval away: whatever the mandate, the rail
  -- and the adapters, no initiation of a payment on the order as it then is is answered positively.
  pub tamper_order-unpayable :
      (o : Order) (f : TamperField) (d : Done) (now : Call) (rail : String)
      (m : Option PurchaseMandate) (adapters : List PaymentAdapter) (paid : Done)
      → (tamper_order host secret call order o f).result ≡ returned d
      → d.reply.ok ≡ true
      → (pay_order host now order
          (tamper_order host secret call order o f).order
          rail
          m
          adapters).result
        ≡ returned paid
      → paid.reply.ok ≡ false
  tamper_order-unpayable o f d now rail m adapters paid e ok h = elim (Bool-cases paid.reply.ok) [
    | inr negative ↦ negative
    | inl positive ↦
        let after = (tamper_order host secret call order o f).order in
        let (r, found, ready) =
          pay_order-Ready host now order after rail m adapters paid h positive in
        absurd (unready now after r m rail (tamper_order-Reopened o f d e ok).1 ready)
  ]
