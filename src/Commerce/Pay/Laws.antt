-- ===== src/Commerce/Pay/Laws.antt =====
-- apps/web/lib/services.ts, initiatePayment: when a payment is begun, and that it is begun once.
use agentready_commerce.Prelude.{
  String, ◌≤◌, ◌≡◌, refl, inl, inr, true, false, Option, none, some, List, arith, ltb, is_set, Host,
  Call, returned, thrown, Bool-cases, subst,
}
use agentready_commerce.Domain.Order.{
  OrderState, moved, transition_state, payment_pending, payment_failed, paid_verified,
  fulfilment_pending, fulfilled, same_state,
}
use agentready_commerce.Domain.Order.Paths.{is_paid}
use agentready_commerce.Domain.Types.{PurchaseMandate}
use agentready_commerce.Domain.Policy.{check_envelope_for_payment}
use agentready_commerce.Domain.Policy.Laws.{Payable, check_envelope_for_payment-Payable}
use agentready_commerce.Payments.Types.{PaymentAdapter}
use agentready_commerce.Payments.Adapters.{registry_get}
use agentready_commerce.Commerce.Session.{EnvelopeRecord}
use agentready_commerce.Commerce.Recommend.{quote_active}
use agentready_commerce.Commerce.Step.{Done, Order, Step}
use agentready_commerce.Commerce.Step.Laws.{denied, transition_state-cases, Grants}
use agentready_commerce.Commerce.Pay.{
  already_paid, is_settled, payment_input, pay_adapter, pay_checked, pay_quoted, pay_found,
  pay_order,
}

module _ (host : Host) (call : Call) where
  -- Not in a state that stands for a successful payment.
  abbrev pub Unpaid : OrderState → Type 0
  Unpaid s = (¬ (s ≡ paid_verified)) × ((¬ (s ≡ fulfilment_pending)) × (¬ (s ≡ fulfilled)))

  Unpaid-state : (s : OrderState) → already_paid s ≡ false → Unpaid s
  Unpaid-state s h = (
    λ e. clash (subst (λ t. already_paid t ≡ false) e h),
    (
      λ e. clash (subst (λ t. already_paid t ≡ false) e h),
      λ e. clash (subst (λ t. already_paid t ≡ false) e h),
    ),
  )
    where
      clash : true ≡ false → ⊥
      clash e = cc

  -- What must hold for a payment to be begun on a rail.
  pub record Ready (o : Order) (r : EnvelopeRecord) (mandate : Option PurchaseMandate)
      (rail : String) : Type 0 where
    pub active : quote_active host o.session r ≡ true
    pub unpaid : Unpaid o.session.state
    pub fresh : is_set o.session.external_order_id ≡ false → is_paid o.session.state ≡ false
    pub unsettled : is_settled o.session.x402_order_payment ≡ false
    pub payable : Payable host (payment_input call o.session r mandate rail)
    pub minimum : 100 ≤ r.envelope.total_minor

  unpaid_before :
      (s : OrderState)
      → transition_state s payment_pending ≡ moved s payment_pending
      → is_paid s ≡ false
  unfolding transition_state
  unpaid_before s go_on = ground (arith, go_on)

  -- A first initiation comes from a state before the payment.
  pay_checked-fresh :
      (order : String) (o : Order) (r : EnvelopeRecord) (rail : String)
      (adapter : Option PaymentAdapter) (d : Done)
      → (pay_checked call order o r rail adapter).result ≡ returned d
      → d.reply.ok ≡ true
      → is_set o.session.external_order_id ≡ false
      → is_paid o.session.state ≡ false
  unfolding pay_checked pay_adapter
  pay_checked-fresh order o r rail none d e ok free = absurd (denied (simp free at e) refl ok)
  pay_checked-fresh order o r rail (some adapter) d e ok free =
      elim (transition_state-cases o.session.state payment_pending) [
        | inl go_on ↦ unpaid_before o.session.state go_on
        | inr stopped ↦ absurd (thrown_back (simp (free, stopped) at e))
      ]
    where
      thrown_back : {A : Type 0} {why : String} {x : A} → thrown why ≡ returned x → ⊥
      thrown_back h = cc

  pay_quoted-Ready :
      (order : String) (o : Order) (r : EnvelopeRecord) (rail : String)
      (mandate : Option PurchaseMandate) (adapters : List PaymentAdapter)
      → Grants
          (λ after d. Ready o r mandate rail)
          (pay_quoted host call order o r rail mandate adapters)
  unfolding pay_quoted
  pay_quoted-Ready order o r rail mandate adapters =
      elim (Bool-cases (quote_active host o.session r)) [
        | inr inactive ↦ rw inactive (λ d e ok. absurd (denied e refl ok))
        | inl active ↦ elim (Bool-cases (already_paid o.session.state)) [
          | inl paid ↦ rw (active, paid) (λ d e ok. absurd (denied e refl ok))
          | inr unpaid ↦ elim (Bool-cases (is_settled o.session.x402_order_payment)) [
            | inl done ↦ rw (active, unpaid, done) (λ d e ok. absurd (denied e refl ok))
            | inr unsettled ↦
                let verdict =
                  check_envelope_for_payment host (payment_input call o.session r mandate rail) in
                elim (Bool-cases verdict.allow) [
                  | inr blocked_now ↦
                      rw (active, unpaid, unsettled, blocked_now)
                        (λ d e ok. absurd (denied e refl ok))
                  | inl good ↦ elim (Bool-cases (ltb r.envelope.total_minor 100)) [
                    | inl small ↦
                        rw (active, unpaid, unsettled, good, small)
                          (λ d e ok. absurd (denied e refl ok))
                    | inr enough ↦ (λ d e ok. record {
                      active = active;
                      unpaid = Unpaid-state o.session.state unpaid;
                      fresh =
                          pay_checked-fresh order o r rail (registry_get adapters rail) d
                            (simp (active, unpaid, unsettled, good, enough) at e) ok;
                      unsettled = unsettled;
                      payable = (check_envelope_for_payment-Payable host _).0 good;
                      minimum = ground arith;
                    })
                  ]
                ]
          ]
        ]
      ]

  pay_found-Ready :
      (order : String) (o : Order) (found : Option EnvelopeRecord) (rail : String)
      (mandate : Option PurchaseMandate) (adapters : List PaymentAdapter)
      → Grants
          (λ after d. (r : EnvelopeRecord) × (found ≡ some r) × Ready o r mandate rail)
          (pay_found host call order o found rail mandate adapters)
  unfolding pay_found
  pay_found-Ready order o none rail mandate adapters d e ok = absurd (denied e refl ok)
  pay_found-Ready order o (some r) rail mandate adapters d e ok =
      (r, refl, pay_quoted-Ready order o r rail mandate adapters d e ok)

  -- An initiation of a payment, the first or a repeated one, is answered positively only for an
  -- order with an envelope whose quote is active, which is not PAID_VERIFIED, FULFILMENT_PENDING or
  -- FULFILLED, comes from no state after a payment if the rail has no order for it yet, is not settled
  -- by Agent Pay,
  -- whose total is at least 100 paise, and only where the policy allows it: envelope intact, the
  -- mandate's merchants, products, rails, amount and expiry and the envelope's expiry in order, and
  -- this digest approved.
  pub pay_order-Ready :
      (order : String) (o : Order) (rail : String) (mandate : Option PurchaseMandate)
      (adapters : List PaymentAdapter) (d : Done)
      → (pay_order host call order o rail mandate adapters).result ≡ returned d
      → d.reply.ok ≡ true
      → (r : EnvelopeRecord) × (o.envelope ≡ some r) × Ready o r mandate rail
  unfolding pay_order
  pay_order-Ready order o rail mandate adapters =
      pay_found-Ready order o o.envelope rail mandate adapters

-- A step that ends with this order of the rail.
record Keeps {A : Type 0} (x : String) (st : Step A) : Type 0 where
  external : st.order.session.external_order_id ≡ some x

module _ (host : Host) (call : Call) (x : String) where
  pay_checked-Keeps :
      (order : String) (o : Order) (r : EnvelopeRecord) (rail : String)
      (a b : Option PaymentAdapter)
      → o.session.external_order_id ≡ some x
      → is_set (some x) ≡ true
      → (pay_checked call order o r rail a ≡ pay_checked call order o r rail b)
        × Keeps x (pay_checked call order o r rail a)
  unfolding pay_checked
  pay_checked-Keeps order o r rail a b h filled =
      elim (Bool-cases (is_set o.session.external_order_id)) [
        | inr missing ↦ cc (rw h at missing)
        | inl there ↦ elim (Bool-cases (same_state o.session.state payment_failed)) [
          | inr other ↦ rw (there, other) (refl, record { external = h })
          | inl failed_before ↦ elim (transition_state-cases o.session.state payment_pending) [
            | inl go_on ↦ rw (there, failed_before, go_on) (refl, record { external = h })
            | inr stopped ↦ rw (there, failed_before, stopped) (refl, record { external = h })
          ]
        ]
      ]

  pay_quoted-Keeps :
      (order : String) (o : Order) (r : EnvelopeRecord) (rail : String)
      (mandate : Option PurchaseMandate) (adapters others : List PaymentAdapter)
      → o.session.external_order_id ≡ some x
      → is_set (some x) ≡ true
      → (pay_quoted host call order o r rail mandate adapters
          ≡ pay_quoted host call order o r rail mandate others)
        × Keeps x (pay_quoted host call order o r rail mandate adapters)
  unfolding pay_quoted
  pay_quoted-Keeps order o r rail mandate adapters others h filled =
      let (same, Kept) =
        pay_checked-Keeps order o r rail (registry_get adapters rail) (registry_get others rail) h
          filled in
      (rw same refl, record { external = ground (arith, h, Kept.external) })

  pay_found-Keeps :
      (order : String) (o : Order) (found : Option EnvelopeRecord) (rail : String)
      (mandate : Option PurchaseMandate) (adapters others : List PaymentAdapter)
      → o.session.external_order_id ≡ some x
      → is_set (some x) ≡ true
      → (pay_found host call order o found rail mandate adapters
          ≡ pay_found host call order o found rail mandate others)
        × Keeps x (pay_found host call order o found rail mandate adapters)
  unfolding pay_found
  pay_found-Keeps order o none rail mandate adapters others h filled =
      (refl, record { external = h })
  pay_found-Keeps order o (some r) rail mandate adapters others h filled =
      pay_quoted-Keeps order o r rail mandate adapters others h filled

  -- Once an order has an order id of the rail that is not empty, an initiation makes no other: whatever the adapters
  -- would do, they are not asked, and the order keeps that id.
  pub pay_order-once :
      (order : String) (o : Order) (rail : String) (mandate : Option PurchaseMandate)
      (adapters others : List PaymentAdapter)
      → o.session.external_order_id ≡ some x
      → is_set (some x) ≡ true
      → (pay_order host call order o rail mandate adapters
          ≡ pay_order host call order o rail mandate others)
        × ((pay_order host call order o rail mandate adapters).order.session.external_order_id
            ≡ some x)
  unfolding pay_order
  pay_order-once order o rail mandate adapters others h filled =
      let (same, Kept) = pay_found-Keeps order o o.envelope rail mandate adapters others h filled in
      (same, Kept.external)
