-- ===== src/Commerce/Verify/Repeated.antt =====
-- apps/web/lib/services.ts, verifyPayment: a verification that is repeated after a binding failure.
use agentready_commerce.Prelude.{
  String, ◌≡◌, refl, Bool, true, false, ◌&&◌, Option, some, List, ◌∷◌, ◌==◌, ==_refl, ◌=?◌, =?_iff,
  eq_iff, Host, returned, arith,
}
use agentready_commerce.Domain.Order.{
  OrderState, payment_pending, payment_failed, moved, transition_state,
}
use agentready_commerce.Payments.Types.{VerificationResult, PaymentAdapter}
use agentready_commerce.Payments.Adapters.{razorpay_rail}
use agentready_commerce.Commerce.Session.{EnvelopeRecord}
use agentready_commerce.Commerce.Step.{Done, Order, Step}
use agentready_commerce.Commerce.Step.Laws.{at}
use agentready_commerce.Commerce.Verify.{
  is_verified, verified_by, verification_input, binding_failures, verify_bound, verify_answered,
  verify_called, verify_quoted, verify_found, verify_order,
}

-- A step that answers, positively or not, and leaves an order.
abbrev pub Answers : Bool → Order → Step Done → Type 0
Answers b o st = (d : Done) × (st.result ≡ returned d) × (d.reply.ok ≡ b) × (st.order ≡ o)

moves-payment_failed :
    (s : OrderState)
    → s ≡ payment_pending
    → transition_state s payment_failed ≡ moved s payment_failed
unfolding transition_state
moves-payment_failed s h = rw h refl

module _ (host : Host) (order external payment : String) where
  verify_found-again :
      (q : Order) (found : Option EnvelopeRecord) (r : EnvelopeRecord) (signature : String)
      (adapter : PaymentAdapter)
      → found ≡ some r
      → is_verified q.session.verification ≡ true
      → (verified_by razorpay_rail q.session.verification
          && (q.session.external_order_id =? external && q.session.external_payment_id =? payment))
        ≡ true
      → Answers true q (verify_found host (λ q. q) order q found external payment signature adapter)
  unfolding verify_found verify_quoted
  verify_found-again q found r signature adapter e before same =
      simp (e, before, same) (_, refl, refl, refl)

  -- The order after a verification that the adapter called verified.
  abbrev pub with_result : Order → VerificationResult → Order
  with_result o v = record o {
    session = record o.session { verification = some v; external_payment_id = some payment };
  }

  verify_bound-fails :
      (q : Order) (fs : List String) (f : String) (rest : List String)
      → fs ≡ f ∷ rest
      → q.session.state ≡ payment_pending
      → Answers false (at q payment_failed) (verify_bound host order q external payment fs)
  unfolding verify_bound
  verify_bound-fails q fs f rest e h =
      rw (e, moves-payment_failed q.session.state h) (_, refl, refl, refl)

  verify_found-fails :
      (o : Order) (found : Option EnvelopeRecord) (r : EnvelopeRecord) (signature : String)
      (adapter : PaymentAdapter) (v : VerificationResult) (f : String) (rest : List String)
      → found ≡ some r
      → is_verified o.session.verification ≡ false
      → (o.session.external_order_id =? external) ≡ true
      → o.session.state ≡ payment_pending
      → adapter.verify (verification_input order r external payment signature) ≡ returned v
      → v.verified ≡ true
      → binding_failures host (with_result o v).session r v ≡ f ∷ rest
      → Answers false
          (at (with_result o v) payment_failed)
          (verify_found host (λ q. q) order o found external payment signature adapter)
  unfolding verify_found verify_quoted verify_called verify_answered
  verify_found-fails o found r signature adapter v f rest e fresh same h answer good failed =
      simp (e, fresh, same, answer, good) (verify_bound-fails (with_result o v) _ f rest failed h)

  -- A verification that no other call interrupts and whose payment the adapter calls verified, but which
  -- does not fit the session and its envelope (another order, amount or currency, or not captured), is
  -- answered negatively and leaves an order that waits for its payment in PAYMENT_FAILED. The adapter's result stays with the order: the same
  -- verification, repeated with any signature and adapter, is answered positively, and leaves the
  -- order as it is, in PAYMENT_FAILED.
  pub verify_order-again :
      (o : Order) (r : EnvelopeRecord) (signature signature' : String)
      (adapter other : PaymentAdapter) (v : VerificationResult) (f : String) (rest : List String)
      → o.envelope ≡ some r
      → is_verified o.session.verification ≡ false
      → o.session.external_order_id ≡ some external
      → o.session.state ≡ payment_pending
      → adapter.verify (verification_input order r external payment signature) ≡ returned v
      → v.verified ≡ true
      → v.rail ≡ razorpay_rail
      → binding_failures host (with_result o v).session r v ≡ f ∷ rest
      → Answers false
          (at (with_result o v) payment_failed)
          (verify_order host (λ q. q) order o external payment signature adapter)
        × Answers true (at (with_result o v) payment_failed) (
            verify_order host
              (λ q. q)
              order
              (at (with_result o v) payment_failed)
              external
              payment
              signature'
              other)
  unfolding verify_order
  verify_order-again o r signature signature' adapter other v f rest e fresh here h answer good rail
        failed =
      (
        verify_found-fails o o.envelope r signature adapter v f rest e fresh same h answer good
            failed,
        verify_found-again (at (with_result o v) payment_failed) o.envelope r signature' other e
            good all,
      )
    where
      same : (o.session.external_order_id =? external) ≡ true
      same = (=?_iff o.session.external_order_id external).1 here

      all :
          (v.rail == razorpay_rail
            && (o.session.external_order_id =? external && payment == payment))
          ≡ true
      all = ground (arith, same, ==_refl payment, eq_iff v.rail razorpay_rail, rail)
