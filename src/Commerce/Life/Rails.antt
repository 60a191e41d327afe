-- ===== src/Commerce/Life/Rails.antt =====
-- apps/web/lib/services.ts: approve, initiatePayment, prepareX402OrderPayment and
-- confirmX402OrderPayment, on every branch.
use agentready_commerce.Prelude.{
  String, ◌≡◌, refl, Bool, false, not, ◌&&◌, ◌||◌, Option, none, some, List, arith, ltb, ◌==◌, ◌=?◌,
  is_set, Host, Call, Outcome, returned, thrown,
}
use agentready_commerce.Domain.Order.{
  approved, expired, payment_pending, payment_failed, paid_verified, same_state,
}
use agentready_commerce.Domain.Types.{PurchaseMandate}
use agentready_commerce.Domain.Policy.{check_envelope_for_payment}
use agentready_commerce.Payments.Types.{PaymentAttempt, PaymentAdapter}
use agentready_commerce.Payments.Adapters.{registry_get}
use agentready_commerce.Commerce.Session.{EnvelopeRecord, X402OrderPayment}
use agentready_commerce.Commerce.Recommend.{quote_active}
use agentready_commerce.Commerce.Step.{Order}
use agentready_commerce.Commerce.Life.{
  Sound, Sound-refl, Sound-same, Sound-enter, Sound-if, Calm, Calm-refl, Calm-trans, Calm-same,
  Calm-enter, Calm-if,
}
use agentready_commerce.Commerce.Approve.{approve_quoted, approve_found, approve_order}
use agentready_commerce.Commerce.Pay.{
  already_paid, is_settled, payment_input, pay_attempted, pay_adapter, pay_checked, pay_quoted,
  pay_found, pay_order,
}
use agentready_commerce.Commerce.Verify.{is_verified}
use agentready_commerce.Commerce.AgentPay.{
  x402_rail, prepare_new, prepare_checked, prepare_quoted, prepare_found, prepare_order,
}
use agentready_commerce.Commerce.Confirm.{
  confirmable, settle_order, confirm_pending, confirm_found, confirm_order,
}

module _ (host : Host) (call : Call) (order : String) where
  approve_found-Sound :
      (o : Order) (found : Option EnvelopeRecord) (digest : String)
      → Sound o (approve_found host call order o found digest).order
  unfolding approve_found approve_quoted
  approve_found-Sound o none digest = Sound-refl o
  approve_found-Sound o (some r) digest =
      Sound-if o (not (quote_active host o.session r)) _ _ (Sound-refl o) (λ c.
        Sound-if o (is_set o.session.approval_event_id && o.session.approved_digest =? digest) _ _
          (Sound-refl o)
          (λ c. Sound-if o (not (r.digest == digest)) _ _ (Sound-refl o) (λ c.
            Sound-if o (ltb r.envelope.expires_at call.now) _ _
              (Sound-enter o o expired _ (Sound-refl o) (λ h. h))
              (λ c. Sound-enter o _ approved _ (Sound-same o _ refl (λ h. h)) (λ h. h)))))

  pub approve_order-Sound :
      (o : Order) (digest : String) → Sound o (approve_order host call order o digest).order
  unfolding approve_order
  approve_order-Sound o digest = approve_found-Sound o o.envelope digest

  -- The order is not settled by Agent Pay: any order of the rail may be noted.
  pay_attempted-Calm :
      (o q : Order) (answer : Outcome PaymentAttempt)
      → is_settled q.session.x402_order_payment ≡ false
      → Calm o q
      → Calm o (pay_attempted order q answer).order
  unfolding pay_attempted
  pay_attempted-Calm o q (returned a) unsettled before =
      Calm-trans o q _ before (Calm-same q _ refl (λ h yes_settled. cc))
  pay_attempted-Calm o q (thrown e) unsettled before =
      Calm-enter o q payment_failed _ refl before (λ h. h)

  pay_adapter-Calm :
      (o : Order) (r : EnvelopeRecord) (rail : String) (adapter : Option PaymentAdapter)
      → is_settled o.session.x402_order_payment ≡ false
      → Calm o (pay_adapter call order o r rail adapter).order
  unfolding pay_adapter
  pay_adapter-Calm o r rail none unsettled = Calm-refl o
  pay_adapter-Calm o r rail (some adapter) unsettled =
      Calm-enter o o payment_pending _ refl (Calm-refl o)
        (λ h. pay_attempted-Calm o _ (adapter.initiate call r.envelope) unsettled h)

  pay_checked-Calm :
      (o : Order) (r : EnvelopeRecord) (rail : String) (adapter : Option PaymentAdapter)
      → is_settled o.session.x402_order_payment ≡ false
      → Calm o (pay_checked call order o r rail adapter).order
  unfolding pay_checked
  pay_checked-Calm o r rail adapter unsettled =
      Calm-if o (is_set o.session.external_order_id) _ _
        (Calm-if o (same_state o.session.state payment_failed) _ _
          (Calm-enter o o payment_pending _ refl (Calm-refl o) (λ h. h)) (λ c. Calm-refl o))
        (λ c. pay_adapter-Calm o r rail adapter unsettled)

  pay_found-Calm :
      (o : Order) (found : Option EnvelopeRecord) (rail : String) (mandate : Option PurchaseMandate)
      (adapters : List PaymentAdapter)
      → Calm o (pay_found host call order o found rail mandate adapters).order
  unfolding pay_found pay_quoted
  pay_found-Calm o none rail mandate adapters = Calm-refl o
  pay_found-Calm o (some r) rail mandate adapters =
      let verdict = check_envelope_for_payment host (payment_input call o.session r mandate rail) in
      Calm-if o (not (quote_active host o.session r)) _ _ (Calm-refl o) (λ c.
        Calm-if o (already_paid o.session.state) _ _ (Calm-refl o) (λ c.
          Calm-if o (is_settled o.session.x402_order_payment) _ _ (Calm-refl o) (λ unsettled.
            Calm-if o (not verdict.allow) _ _ (Calm-refl o) (λ c.
              Calm-if o (ltb r.envelope.total_minor 100) _ _ (Calm-refl o)
                (λ c. pay_checked-Calm o r rail (registry_get adapters rail) unsettled)))))

  pub pay_order-Calm :
      (o : Order) (rail : String) (mandate : Option PurchaseMandate)
      (adapters : List PaymentAdapter)
      → Calm o (pay_order host call order o rail mandate adapters).order
  unfolding pay_order
  pay_order-Calm o rail mandate adapters = pay_found-Calm o o.envelope rail mandate adapters

  prepare_checked-Calm :
      (o : Order) (r : EnvelopeRecord) (pending : Option X402OrderPayment)
      → Calm o (prepare_checked host order o r pending).order
  unfolding prepare_checked prepare_new
  prepare_checked-Calm o r none = Calm-same o _ refl (λ h yes_settled. cc)
  prepare_checked-Calm o r (some p) =
      Calm-if o (p.envelope_digest == r.digest) _ _ (Calm-refl o)
        (λ c. Calm-same o _ refl (λ h yes_settled. cc))

  prepare_found-Calm :
      (is_mock : Bool) (o : Order) (found : Option EnvelopeRecord)
      (mandate : Option PurchaseMandate)
      → Calm o (prepare_found host call is_mock order o found mandate).order
  unfolding prepare_found prepare_quoted
  prepare_found-Calm is_mock o none mandate = Calm-refl o
  prepare_found-Calm is_mock o (some r) mandate =
      let s = o.session in
      let verdict = check_envelope_for_payment host (payment_input call s r mandate x402_rail) in
      Calm-if o (not is_mock) _ _ (Calm-refl o) (λ c.
        Calm-if o
          (is_verified s.verification || (is_settled s.x402_order_payment || already_paid s.state))
          _ _ (Calm-refl o)
          (λ c. Calm-if o (is_set s.external_order_id) _ _ (Calm-refl o) (λ c.
            Calm-if o (not (quote_active host s r)) _ _ (Calm-refl o) (λ c.
              Calm-if o (not verdict.allow) _ _ (Calm-refl o)
                (λ c. prepare_checked-Calm o r s.x402_order_payment)))))

  pub prepare_order-Calm :
      (is_mock : Bool) (o : Order) (mandate : Option PurchaseMandate)
      → Calm o (prepare_order host call is_mock order o mandate).order
  unfolding prepare_order
  prepare_order-Calm is_mock o mandate = prepare_found-Calm is_mock o o.envelope mandate

module _ (host : Host) (order : String) where
  settle_order-Calm :
      (o : Order) (r : EnvelopeRecord) (pending : X402OrderPayment) (identifier : String)
      → is_set o.session.external_order_id ≡ false
      → Calm o (settle_order order o r pending identifier).order
  unfolding settle_order
  settle_order-Calm o r pending identifier free =
      Calm-enter o _ payment_pending _ refl (Calm-same o _ refl (λ h yes_settled. free))
        (λ h. Calm-enter o _ paid_verified _ refl h (λ k. k))

  confirm_pending-Calm :
      (o : Order) (r : EnvelopeRecord) (pending : X402OrderPayment) (identifier : String)
      → Calm o (confirm_pending host order o r pending identifier).order
  unfolding confirm_pending
  confirm_pending-Calm o r pending identifier =
      let s = o.session in
      Calm-if o (is_settled (some pending)) _ _ (Calm-refl o) (λ c.
        Calm-if o (not (confirmable host s r pending)) _ _ (Calm-refl o) (λ c.
          Calm-if o
            (is_verified s.verification || (is_set s.external_order_id || already_paid s.state)) _ _
            (Calm-refl o)
            (λ started. settle_order-Calm o r pending identifier (unstarted _ _ _ started))))
    where
      unstarted : (a b c : Bool) → (a || (b || c)) ≡ false → b ≡ false
      unstarted a b c h = ground arith

  confirm_found-Calm :
      (o : Order) (found : Option EnvelopeRecord) (pending : Option X402OrderPayment)
      (identifier : String)
      → Calm o (confirm_found host order o found pending identifier).order
  unfolding confirm_found
  confirm_found-Calm o none pending identifier = Calm-refl o
  confirm_found-Calm o (some r) none identifier = Calm-refl o
  confirm_found-Calm o (some r) (some pending) identifier =
      Calm-if o (pending.payment_identifier == identifier) _ _
        (confirm_pending-Calm o r pending identifier) (λ c. Calm-refl o)

  pub confirm_order-Calm :
      (o : Order) (identifier : String) → Calm o (confirm_order host order o identifier).order
  unfolding confirm_order
  confirm_order-Calm o identifier =
      confirm_found-Calm o o.envelope o.session.x402_order_payment identifier
