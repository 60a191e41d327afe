-- ===== src/Commerce/Life/Events.antt =====
-- apps/web/lib/services.ts and webhook.ts: the life of an order, as any series of the operations on
-- it, in any order and with any arguments, adapters and clocks. The conversation (respond and
-- intentPatch) is not among them.
use agentready_commerce.Prelude.{
  ℕ, String, ◌≡◌, refl, ◌⊎◌, subst, inl, inr, Bool-cases, Bool, true, Option, List, Map, Host, Call,
}
use agentready_commerce.Domain.Order.{awaiting_approval}
use agentready_commerce.Domain.Order.Paths.{is_paid, walk-is_paid}
use agentready_commerce.Domain.Types.{PurchaseMandate}
use agentready_commerce.Payments.Types.{PaymentAdapter}
use agentready_commerce.Commerce.Session.{Session, RecommendationBinding}
use agentready_commerce.Commerce.Recommend.{
  is_current_recommendation, record_recommendation, current_recommendation,
}
use agentready_commerce.Commerce.Select.{
  SelectionValidation, selected, unselected, validate_current_selection,
}
use agentready_commerce.Commerce.Step.{Order}
use agentready_commerce.Commerce.Quote.{quote_selected, quote_order}
use agentready_commerce.Commerce.Approve.{approve_order}
use agentready_commerce.Commerce.Pay.{pay_order}
use agentready_commerce.Commerce.Verify.{verify_order}
use agentready_commerce.Commerce.AgentPay.{prepare_order}
use agentready_commerce.Commerce.Confirm.{confirm_order}
use agentready_commerce.Commerce.Fulfil.{fulfil_order, compensate_order}
use agentready_commerce.Commerce.Tamper.{TamperField, tamper_order}
use agentready_commerce.Commerce.Webhook.{PaymentEntity, webhook_on_order}
use agentready_commerce.Commerce.Life.{
  SingleRail, Sound, Sound-refl, Sound-trans, Calm, Calm-refl, Calm-trans, Calm-same, Calm-enter,
}
use agentready_commerce.Commerce.Life.Rails.{
  approve_order-Sound, pay_order-Calm, prepare_order-Calm, confirm_order-Calm,
}
use agentready_commerce.Commerce.Life.Claims.{verify_order-Calm, webhook_on_order-Calm}
use agentready_commerce.Commerce.Life.Delivery.{
  fulfil_order-Calm, compensate_order-Calm, tamper_order-Calm,
}

-- A session that differs in no state and on no rail.
abbrev Alike : Session → Session → Type 0
Alike s t =
    (s.state ≡ t.state)
    × (s.x402_order_payment ≡ t.x402_order_payment)
    × (s.external_order_id ≡ t.external_order_id)

module _ (host : Host) (secret : String) (order : String) where
  current-Alike : (call : Call) (s : Session) → Alike s (current_recommendation host call s)
  unfolding current_recommendation record_recommendation
  current-Alike call s = elim (Bool-cases (is_current_recommendation s)) [
    | inl current ↦ simp current (refl, refl, refl)
    | inr stale ↦ simp stale (refl, refl, refl)
  ]

  quote_selected-Calm :
      (call : Call) (o : Order) (product : String) (mandate : Option PurchaseMandate)
      (v : SelectionValidation)
      → Calm o (quote_selected host secret call order o product mandate v).order
  unfolding quote_selected
  quote_selected-Calm call o product mandate (unselected why codes) = Calm-refl o
  quote_selected-Calm call o product mandate (selected p v) =
      Calm-enter o _ awaiting_approval _ refl (Calm-same o _ refl (λ h. h)) (λ h. h)

  quote_order-Calm :
      (call : Call) (o : Order) (product : String) (supplied : Option RecommendationBinding)
      (mandate : Option PurchaseMandate)
      → Calm o (quote_order host secret call order o product supplied mandate).order
  unfolding quote_order
  quote_order-Calm call o product supplied mandate =
      let s = current_recommendation host call o.session in
      let (state, x402, external) = current-Alike call o.session in
      Calm-trans o (record o { session = s }) _
        (Calm-same o _ state (λ single h. rw (← external) (single (rw (← x402) at h))))
        (quote_selected-Calm call _ product mandate
          (validate_current_selection host call s product supplied))

  -- What may happen to an order, each operation run to its end before the next. An import of a session,
  -- which replaces the order by that of a token, is not among them.
  pub data Happens : Order → Order → Type 0 where
    quotes :
        (call : Call) (o : Order) (product : String) (supplied : Option RecommendationBinding)
        (mandate : Option PurchaseMandate)
        → Happens o (quote_order host secret call order o product supplied mandate).order
    approves :
        (call : Call) (o : Order) (digest : String)
        → Happens o (approve_order host call order o digest).order
    pays :
        (call : Call) (o : Order) (rail : String) (mandate : Option PurchaseMandate)
        (adapters : List PaymentAdapter)
        → Happens o (pay_order host call order o rail mandate adapters).order
    verifies :
        (o : Order) (external payment signature : String) (adapter : PaymentAdapter)
        → Happens o (verify_order host (λ q. q) order o external payment signature adapter).order
    prepares :
        (call : Call) (is_mock : Bool) (o : Order) (mandate : Option PurchaseMandate)
        → Happens o (prepare_order host call is_mock order o mandate).order
    confirms :
        (o : Order) (identifier : String) → Happens o (confirm_order host order o identifier).order
    fulfils : (o : Order) (fail : Bool) → Happens o (fulfil_order order o fail).order
    compensates :
        (o : Order) (adapter : PaymentAdapter)
        → Happens o (compensate_order order (λ q. q) o adapter).order
    tampers :
        (call : Call) (o : Order) (f : TamperField)
        → Happens o (tamper_order host secret call order o f).order
    notified :
        (now : ℕ) (dedup : Map ℕ) (event : String) (o : Order) (p : PaymentEntity)
        (external : String)
        → Happens o (webhook_on_order host now dedup event o p external).order

  pub data Life : Order → Order → Type 0 where
    unchanged : (o : Order) → Life o o
    later : {a b c : Order} → Happens a b → Life b c → Life a c

  -- An approval that leads into an agreed state, or a step that does not.
  abbrev pub Approving : Order → Order → Type 0
  Approving a b =
      (call : Call) × ((digest : String) × (◌≡◌ {A = Order}
          (approve_order host call order a digest).order b))

  pub Happens-Calm : (a b : Order) → Happens a b → Calm a b ⊎ (Sound a b × Approving a b)
  Happens-Calm a b (quotes call o product supplied mandate) =
      inl (quote_order-Calm call o product supplied mandate)
  Happens-Calm a b (approves call o digest) =
      inr (approve_order-Sound host call order o digest, (call, (digest, refl)))
  Happens-Calm a b (pays call o rail mandate adapters) =
      inl (pay_order-Calm host call order o rail mandate adapters)
  Happens-Calm a b (verifies o external payment signature adapter) =
      inl (verify_order-Calm host order o external payment signature adapter)
  Happens-Calm a b (prepares call is_mock o mandate) =
      inl (prepare_order-Calm host call order is_mock o mandate)
  Happens-Calm a b (confirms o identifier) = inl (confirm_order-Calm host order o identifier)
  Happens-Calm a b (fulfils o fail) = inl (fulfil_order-Calm order o fail)
  Happens-Calm a b (compensates o adapter) = inl (compensate_order-Calm order o adapter)
  Happens-Calm a b (tampers call o f) = inl (tamper_order-Calm host secret call order o f)
  Happens-Calm a b (notified now dedup event o p external) =
      inl (webhook_on_order-Calm host now dedup event o p external)

  Happens-Sound : (a b : Order) → Happens a b → Sound a b
  Happens-Sound a b h = elim (Happens-Calm a b h) [ inl c ↦ c.sound | inr c ↦ c.0 ]

  Life-Sound : (a b : Order) → Life a b → Sound a b
  Life-Sound a b (unchanged o) = Sound-refl o
  Life-Sound a b (later {b = m} h rest) =
      Sound-trans a m b (Happens-Sound a m h) (Life-Sound m b rest)

  -- However these operations on an order follow on each other, each run to its end, it never has an order on the Razorpay rail
  -- and a settlement by Agent Pay at once, if it had not at first.
  pub Life-SingleRail : (a b : Order) → Life a b → SingleRail a → SingleRail b
  Life-SingleRail a b life = (Life-Sound a b life).single

  -- However quotes, approvals, payments, verifications, webhooks, fulfilments, compensations and
  -- tamperings of an order follow on each other, each run to its end, an order that was paid stays
  -- paid: it comes back to no state before the payment. An import of a session is not among them.
  pub Life-is_paid :
      (a b : Order) → Life a b → is_paid a.session.state ≡ true → is_paid b.session.state ≡ true
  Life-is_paid a b life paid =
      let sound = Life-Sound a b life in
      subst (λ s. is_paid s ≡ true) sound.walked (walk-is_paid a.session.state sound.path paid)
