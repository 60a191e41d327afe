-- ===== src/Commerce/Life/Claims.antt =====
-- apps/web/lib/services.ts, verifyPayment, and apps/web/lib/webhook.ts: the reports of a payment, on
-- every branch.
use agentready_commerce.Prelude.{
  ℕ, String, refl, Bool, true, false, not, ◌&&◌, Option, none, some, List, [], ◌∷◌, ◌==◌, ◌=?◌,
  truthy, set, Map, Host, Outcome, returned, thrown,
}
use agentready_commerce.Domain.Order.{payment_pending, payment_failed, paid_verified, same_state}
use agentready_commerce.Payments.Types.{PaymentAdapter, VerificationResult}
use agentready_commerce.Payments.Adapters.{razorpay_rail}
use agentready_commerce.Commerce.Session.{EnvelopeRecord, HeldWebhook}
use agentready_commerce.Commerce.Step.{Done, Order, stop}
use agentready_commerce.Commerce.Step.Laws.{at}
use agentready_commerce.Commerce.Life.{Calm, Calm-refl, Calm-trans, Calm-same, Calm-enter, Calm-if}
use agentready_commerce.Commerce.Pay.{already_paid}
use agentready_commerce.Commerce.Verify.{
  is_verified, verified_by, verification_input, reconcile_held, verify_bound, verify_answered,
  verify_called, verify_quoted, verify_found, verify_order,
}
use agentready_commerce.Commerce.Webhook.{
  PaymentEntity, entity_failures, mark_bound, mark_verified_from_webhook, apply_webhook,
  bind_webhook, noticed, webhook_on_order,
}

module _ (host : Host) (order : String) where
  reconcile_held-Calm :
      (o q : Order) (held : Option HeldWebhook) (k : Order → Done)
      → Calm o q
      → Calm o (reconcile_held order q held (λ h. stop h (k h))).order
  unfolding reconcile_held
  reconcile_held-Calm o q none k before = before
  reconcile_held-Calm o q (some w) k before = Calm-trans o q _ before (Calm-same q _ refl (λ h. h))

  verify_bound-Calm :
      (o q : Order) (external payment : String) (fs : List String)
      → Calm o q
      → Calm o (verify_bound host order q external payment fs).order
  unfolding verify_bound
  verify_bound-Calm o q external payment (f ∷ fs) before =
      Calm-enter o q payment_failed _ refl before (λ h. h)
  verify_bound-Calm o q external payment [] before =
      Calm-enter o q paid_verified _ refl before
        (λ h. reconcile_held-Calm o (at q paid_verified) q.session.held_webhook _ h)

  verify_called-Calm :
      (o : Order) (r : EnvelopeRecord) (external payment : String)
      (answer : Outcome VerificationResult)
      → Calm o (verify_called host order o r external payment answer).order
  unfolding verify_called verify_answered
  verify_called-Calm o r external payment (thrown e) = Calm-refl o
  verify_called-Calm o r external payment (returned v) =
      let Kept =
        Calm-same o
          (record o {
            session = record o.session {
              verification = some v;
              external_payment_id = some payment;
            };
          })
          refl (λ h. h) in
      Calm-if o (not v.verified) _ _ (Calm-enter o _ payment_failed _ refl Kept (λ h. h))
        (λ c. verify_bound-Calm o _ external payment _ Kept)

  verify_found-Calm :
      (o : Order) (found : Option EnvelopeRecord) (external payment signature : String)
      (adapter : PaymentAdapter)
      → Calm o (verify_found host (λ q. q) order o found external payment signature adapter).order
  unfolding verify_found verify_quoted
  verify_found-Calm o none external payment signature adapter = Calm-refl o
  verify_found-Calm o (some r) external payment signature adapter =
      Calm-if o (is_verified o.session.verification) _ _
        (Calm-if o
          (verified_by razorpay_rail o.session.verification
            && (o.session.external_order_id =? external
                && o.session.external_payment_id =? payment))
          _ _ (Calm-refl o) (λ c. Calm-refl o))
        (λ c.
          Calm-if o (not (o.session.external_order_id =? external)) _ _
            (Calm-enter o o payment_failed _ refl (Calm-refl o) (λ h. h))
            (λ c.
              verify_called-Calm o r external payment
                (adapter.verify (verification_input order r external payment signature))))

  pub verify_order-Calm :
      (o : Order) (external payment signature : String) (adapter : PaymentAdapter)
      → Calm o (verify_order host (λ q. q) order o external payment signature adapter).order
  unfolding verify_order
  verify_order-Calm o external payment signature adapter =
      verify_found-Calm o o.envelope external payment signature adapter

  mark_bound-Calm :
      (o : Order) (r : EnvelopeRecord) (p : PaymentEntity) (external : String) (seen : Bool)
      (fs : List String)
      → Calm o (mark_bound host order o r p external seen fs).order
  unfolding mark_bound
  mark_bound-Calm o r p external seen (f ∷ fs) = Calm-refl o
  mark_bound-Calm o r p external true [] = Calm-refl o
  mark_bound-Calm o r p external false [] =
      Calm-enter o _ paid_verified _ refl (Calm-same o _ refl (λ h. h)) (λ h. h)

  mark-Calm :
      (dedup : Map ℕ) (o : Order) (found : Option EnvelopeRecord) (p : PaymentEntity)
      (external : String)
      → Calm o (mark_verified_from_webhook host dedup order o found p external).order
  unfolding mark_verified_from_webhook
  mark-Calm dedup o none p external = Calm-refl o
  mark-Calm dedup o (some r) p external = mark_bound-Calm o r p external _ _

module _ (host : Host) (now : ℕ) (dedup : Map ℕ) (event : String) where
  apply_webhook-Calm :
      (o : Order) (p : PaymentEntity) (external : String)
      → Calm o (apply_webhook host now dedup event o p external).order
  unfolding apply_webhook
  apply_webhook-Calm o p external =
      Calm-if o (same_state o.session.state payment_pending) _ _
        (mark-Calm host o.session.logical_order_id (set dedup event now) o o.envelope p external)
        (λ c.
          Calm-if o (same_state o.session.state payment_failed) _ _ (Calm-same o _ refl (λ h. h))
            (λ c. Calm-if o (already_paid o.session.state) _ _ (Calm-refl o) (λ c. Calm-refl o)))

  bind_webhook-Calm :
      (o : Order) (p : PaymentEntity) (external : String) (fs : List String)
      → Calm o (bind_webhook host now dedup event o p external fs).order
  unfolding bind_webhook
  bind_webhook-Calm o p external [] = apply_webhook-Calm o p external
  bind_webhook-Calm o p external (f ∷ fs) = Calm-refl o

  pub webhook_on_order-Calm :
      (o : Order) (p : PaymentEntity) (external : String)
      → Calm o (webhook_on_order host now dedup event o p external).order
  unfolding webhook_on_order
  webhook_on_order-Calm o p external =
      noticed-Calm p.notes_order_id
        (bind_webhook-Calm o p external (entity_failures host o.envelope p))
    where
      noticed-Calm :
          (notes : Option String)
          → Calm o
              (bind_webhook host now dedup event o p external
                (entity_failures host o.envelope p)).order
          → Calm o
              (noticed host o.session.logical_order_id notes (
                bind_webhook host now dedup event o p external
                  (entity_failures host o.envelope p))).order
      noticed-Calm none h = h
      noticed-Calm (some n) h =
          Calm-if o (truthy n && not (n == o.session.logical_order_id)) _ _ h (λ c. h)
