-- ===== src/Commerce/Verify/Laws.antt =====
-- apps/web/lib/services.ts, verifyPayment: what makes an order paid.
use agentready_commerce.Prelude.{String, ◌≡◌, true, none, some, Host, returned}
use agentready_commerce.Domain.Order.{paid_verified}
use agentready_commerce.Payments.Types.{VerificationResult, PaymentAdapter}
use agentready_commerce.Payments.Adapters.{razorpay_rail}
use agentready_commerce.Commerce.Session.{EnvelopeRecord}
use agentready_commerce.Commerce.Step.{Order}
use agentready_commerce.Commerce.Verify.{is_verified, verified_by, verification_input}
use agentready_commerce.Commerce.Verify.Binding.{Bound}

module _ (host : Host) where
  -- The order after the payment has been verified.
  pub record Verified (o : Order) (r : EnvelopeRecord) (payment : String) (v : VerificationResult)
      (after : Order) : Type 0 where
    pub positive : v.verified ≡ true
    pub bound : Bound o.session r v
    pub paid : after.session.state ≡ paid_verified
    pub payment_id : after.session.external_payment_id ≡ some payment
    pub Kept : after.session.verification ≡ some v
    pub reconciled : after.session.held_webhook ≡ none
    pub same_envelope : after.envelope ≡ o.envelope

  -- What the end of a verification has Kept of the session that it was given.
  record Kept (q after : Order) : Type 0 where
    payment_id : after.session.external_payment_id ≡ q.session.external_payment_id
    verification : after.session.verification ≡ q.session.verification
    reconciled : after.session.held_webhook ≡ none
    same_envelope : after.envelope ≡ q.envelope
    same_state : after.session.state ≡ q.session.state

  -- A verification that the adapter was asked for.
  abbrev pub Fresh :
      (Order → Order)
      → String
      → Order
      → EnvelopeRecord
      → String
      → String
      → String
      → PaymentAdapter
      → Order
      → Type 0
  Fresh others order o r external payment signature adapter after =
      (o.session.external_order_id ≡ some external)
      × (v : VerificationResult) × (adapter.verify
            (verification_input order r external payment signature)
          ≡ returned v)
      × Verified (others o) r payment v after

  -- A verification of an order whose stored result is positive: it is repeated, on the same rail
  -- and for the same two ids, and nothing is changed.
  abbrev pub Again : Order → String → String → Order → Type 0
  Again o external payment after =
      (after ≡ o)
      × (is_verified o.session.verification ≡ true)
      × (verified_by razorpay_rail o.session.verification ≡ true)
      × (o.session.external_order_id ≡ some external)
      × (o.session.external_payment_id ≡ some payment)
