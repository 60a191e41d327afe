-- ===== src/Commerce/Fulfil/Laws.antt =====
-- apps/web/lib/services.ts: what fulfilment and compensation come to.
use agentready_commerce.Prelude.{
  String, ◌≡◌, ◌⊎◌, true, false, some, is_some, Outcome, returned, thrown,
}
use agentready_commerce.Domain.Order.{
  OrderState, fulfilment_failed, compensation_pending, refunded, manual_review,
}
use agentready_commerce.Payments.Types.{CompensationResult}
use agentready_commerce.Commerce.Step.{Done, Order, Step}
use agentready_commerce.Commerce.Step.Laws.{at}

-- How a compensation ends: the order is refunded and has its compensation, or the adapter threw and
-- the order waits for a manual review with that error as the negative answer.
abbrev pub Ends : Outcome CompensationResult → Step Done → Type 0
Ends answer st =
    (d : Done) × (st.result ≡ returned d)
    × (((st.order.session.state ≡ refunded)
          × (d.reply.ok ≡ true)
          × (is_some st.order.session.compensation ≡ true))
        ⊎ ((why : String) × (answer ≡ thrown why)
            × (st.order.session.state ≡ manual_review)
            × (d.reply.ok ≡ false)
            × (d.reply.error ≡ some why)))

-- The states in which a compensation may start.
abbrev pub Compensable : OrderState → Type 0
Compensable s = (s ≡ fulfilment_failed) ⊎ (s ≡ compensation_pending)

-- Other calls leave the order where the compensation waits for the adapter.
abbrev pub Waits : (Order → Order) → Order → Type 0
Waits others o = (others (at o compensation_pending)).session.state ≡ compensation_pending
