-- ===== src/Commerce/Webhook/Laws.antt =====
-- apps/web/lib/webhook.ts with markVerifiedFromWebhook: what makes an order paid by a webhook.
use agentready_commerce.Prelude.{
  ℕ, String, ◌≡◌, refl, ◌⊎◌, inl, inr, Bool, true, false, not, ◌&&◌, Option, none, some, List, [],
  ◌∷◌, ◌++◌, eqb_iff, ◌==◌, eq_iff, =?_iff, ◌<>◌, truthy, Map, set, has, Host, Outcome, returned,
  thrown, Bool-cases,
}
use agentready_commerce.Domain.Order.{payment_pending, paid_verified, same_state}
use agentready_commerce.Commerce.Session.{Session, EnvelopeRecord}
use agentready_commerce.Commerce.Step.{Order, Step}
use agentready_commerce.Commerce.Step.Laws.{transition_state-cases}
use agentready_commerce.Commerce.Verify.Binding.{failure_unless-nil, failure_unless-nil_last}
use agentready_commerce.Commerce.Webhook.{
  PaymentEntity, WebhookOutcome, unless_equal, unless_same, claim_failures, entity_failures,
  mark_bound, mark_verified_from_webhook, of_marked, apply_webhook, bind_webhook, noticed,
  webhook_on_order,
}

-- A claim that is made agrees.
abbrev pub Agrees : {A : Type 0} → Option A → A → Type 0
Agrees none y = Unit
Agrees (some x) y = x ≡ y

append-nil : (xs ys : List String) → xs ++ ys ≡ [] → (xs ≡ []) × (ys ≡ [])
append-nil [] ys h = (refl, h)
append-nil (x ∷ xs) ys h = cc

unless_equal-nil : (o : Option ℕ) (n : ℕ) (why : String) → unless_equal o n why ≡ [] → Agrees o n
unless_equal-nil none n why h = tt
unless_equal-nil (some m) n why h = (eqb_iff m n).0 (failure_unless-nil_last _ why h)

unless_same-nil : (o : Option String) (t why : String) → unless_same o t why ≡ [] → Agrees o t
unless_same-nil none t why h = tt
unless_same-nil (some u) t why h = (eq_iff u t).0 (failure_unless-nil_last _ why h)

module _ (host : Host) where
  -- What the webhook says of the payment agrees with the order and its envelope.
  pub record Claimed (s : Session) (r : EnvelopeRecord) (p : PaymentEntity) (external : String)
      : Type 0 where
    pub order_id : s.external_order_id ≡ some external
    pub amount : Agrees p.amount r.envelope.total_minor
    pub currency : Agrees p.currency r.envelope.currency

  claim_failures-Claimed :
      (s : Session) (r : EnvelopeRecord) (p : PaymentEntity) (external : String)
      → claim_failures host s r p external ≡ []
      → Claimed s r p external
  unfolding claim_failures
  claim_failures-Claimed s r p external h =
      let (a, h1) = failure_unless-nil _ _ _ h in
      let (b, h2) = append-nil _ _ h1 in
      let (c, h3) = append-nil _ _ h2 in
      record {
        order_id = (=?_iff _ _).0 a;
        amount = unless_equal-nil _ _ _ b;
        currency = unless_same-nil _ _ _ c;
      }

  entity_failures-captured :
      (found : Option EnvelopeRecord) (p : PaymentEntity)
      → entity_failures host found p ≡ []
      → p.status ≡ some "captured"
  unfolding entity_failures
  entity_failures-captured none p h = cc
  entity_failures-captured (some r) p h =
      let (a, h1) = append-nil _ _ h in
      let (b, h2) = append-nil _ _ h1 in (=?_iff _ _).0 (failure_unless-nil_last _ _ h2)

  -- The payment is applied: the order is paid now, unless the same payment was applied before.
  abbrev pub Applied : Order → EnvelopeRecord → PaymentEntity → String → Bool → Order → Type 0
  Applied o r p external seen after =
      Claimed o.session r p external
      × ((after.session.state ≡ paid_verified) ⊎ ((seen ≡ true) × (after ≡ o)))

  mark_bound-Applied :
      (order : String) (o : Order) (r : EnvelopeRecord) (p : PaymentEntity) (external : String)
      (seen : Bool) (fs : List String)
      → claim_failures host o.session r p external ≡ fs
      → (mark_bound host order o r p external seen fs).result ≡ returned true
      → Applied o r p external seen (mark_bound host order o r p external seen fs).order
  unfolding mark_bound
  mark_bound-Applied order o r p external seen (f ∷ fs) e = λ h. cc
  mark_bound-Applied order o r p external true [] e =
      λ h. (claim_failures-Claimed o.session r p external e, inr (refl, refl))
  mark_bound-Applied order o r p external false [] e =
      elim (transition_state-cases o.session.state paid_verified) [
        | inl go_on ↦ rw go_on (λ h. (claim_failures-Claimed o.session r p external e, inl refl))
        | inr stopped ↦ rw stopped (λ h. cc)
      ]

  mark-Applied :
      (dedup : Map ℕ) (order : String) (o : Order) (found : Option EnvelopeRecord)
      (p : PaymentEntity) (external : String)
      → (mark_verified_from_webhook host dedup order o found p external).result ≡ returned true
      → (r : EnvelopeRecord) × (found ≡ some r)
        × Applied o r p external
            (has dedup ("webhook_mark_" <> p.id))
            (mark_verified_from_webhook host dedup order o found p external).order
  unfolding mark_verified_from_webhook
  mark-Applied dedup order o none p external h = cc
  mark-Applied dedup order o (some r) p external h =
      (r, refl, mark_bound-Applied order o r p external _ _ refl h)

  of_marked-true :
      (o : Outcome Bool) (w : WebhookOutcome)
      → of_marked host o ≡ returned w
      → w.processed ≡ true
      → o ≡ returned true
  of_marked-true (returned true) w e h = refl
  of_marked-true (returned false) w e h = cc
  of_marked-true (thrown why) w e h = cc

  -- An event that is processed.
  abbrev pub Processed : (Order → Type 0) → Step WebhookOutcome → Type 0
  Processed Q st = (w : WebhookOutcome) → st.result ≡ returned w → w.processed ≡ true → Q st.order

  module _ (now : ℕ) (dedup : Map ℕ) (event : String) (o : Order) (p : PaymentEntity)
      (external : String) where
    -- What a processed event has found and done on an order that waited for its payment.
    abbrev pub PaidBy : Order → Type 0
    PaidBy after =
        (r : EnvelopeRecord) × (o.envelope ≡ some r)
        × Applied o r p external (has (set dedup event now) ("webhook_mark_" <> p.id)) after

    apply_webhook-PaidBy :
        o.session.state ≡ payment_pending
        → Processed PaidBy (apply_webhook host now dedup event o p external)
    unfolding apply_webhook
    apply_webhook-PaidBy waiting = elim (Bool-cases (same_state o.session.state payment_pending)) [
      | inl here ↦ simp here (λ w e h.
          mark-Applied (set dedup event now) o.session.logical_order_id o o.envelope p external
            (of_marked-true _ w e h))
      | inr other ↦ cc (rw waiting at other)
    ]

    bind_webhook-PaidBy :
        (fs : List String)
        → entity_failures host o.envelope p ≡ fs
        → o.session.state ≡ payment_pending
        → Processed
            (λ after. (p.status ≡ some "captured") × PaidBy after)
            (bind_webhook host now dedup event o p external fs)
    unfolding bind_webhook
    bind_webhook-PaidBy (f ∷ fs) e waiting w h processed = cc
    bind_webhook-PaidBy [] e waiting w h processed =
        (entity_failures-captured o.envelope p e, apply_webhook-PaidBy waiting w h processed)

    noticed-Processed :
        (Q : Order → Type 0) (order : String) (notes : Option String) (k : Step WebhookOutcome)
        → Processed Q k
        → Processed Q (noticed host order notes k)
    unfolding noticed
    noticed-Processed Q order none k h = h
    noticed-Processed Q order (some n) k h = elim (Bool-cases (truthy n && not (n == order))) [
      | inl other ↦ simp other h
      | inr same ↦ simp same h
    ]

    -- A webhook on an order in PAYMENT_PENDING is answered as processed only if the order has an
    -- envelope, the payment's order id is the session's, its status is captured, and each of its amount
    -- and currency is the envelope's or is missing from the event; the order is then PAID_VERIFIED, or
    -- that payment had been applied by a webhook before and the order is unchanged.
    pub webhook_on_order-PaidBy :
        o.session.state ≡ payment_pending
        → (w : WebhookOutcome)
        → (webhook_on_order host now dedup event o p external).result ≡ returned w
        → w.processed ≡ true
        → (p.status ≡ some "captured")
          × PaidBy (webhook_on_order host now dedup event o p external).order
    unfolding webhook_on_order
    webhook_on_order-PaidBy waiting =
        noticed-Processed (λ after. (p.status ≡ some "captured") × PaidBy after) _ p.notes_order_id
          _ (bind_webhook-PaidBy _ refl waiting)
