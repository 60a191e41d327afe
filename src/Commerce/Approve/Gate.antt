-- ===== src/Commerce/Approve/Gate.antt =====
-- apps/web/lib/services.ts, approve: the one way of an order into an agreed state.
use agentready_commerce.Prelude.{
  String, ◌≡◌, refl, sym, ◌∙◌, true, false, not, ◌&&◌, Option, none, some, ltb, ◌==◌, ◌=?◌, is_set,
  Host, Call, returned,
}
use agentready_commerce.Domain.Order.{approved, expired}
use agentready_commerce.Domain.Order.Paths.{is_agreed}
use agentready_commerce.Commerce.Session.{EnvelopeRecord}
use agentready_commerce.Commerce.Recommend.{quote_active}
use agentready_commerce.Commerce.Step.{Done, Order, Step}
use agentready_commerce.Commerce.Step.Laws.{enter_elim, if_elim}
use agentready_commerce.Commerce.Approve.{approve_quoted, approve_found, approve_order}

-- A step that leads into an agreed state is at APPROVED and was answered positively.
abbrev Gate : Step Done → Type 0
Gate st =
    is_agreed st.order.session.state ≡ true
    → (st.order.session.state ≡ approved)
      × ((d : Done) × ((st.result ≡ returned d) × (d.reply.ok ≡ true)))

module _ (host : Host) (call : Call) (order : String) (o : Order)
    (new_order : is_agreed o.session.state ≡ false) where
  outside : {A : Type 0} → is_agreed o.session.state ≡ true → A
  outside h = absurd (clash (sym new_order ∙ h))
    where
      clash : false ≡ true → ⊥
      clash e = cc

  approve_found-Gate :
      (found : Option EnvelopeRecord) (digest : String)
      → Gate (approve_found host call order o found digest)
  unfolding approve_found approve_quoted
  approve_found-Gate none digest = outside
  approve_found-Gate (some r) digest =
      if_elim Gate (not (quote_active host o.session r)) _ _ (λ c. outside)
        (λ c.
          if_elim Gate (is_set o.session.approval_event_id && o.session.approved_digest =? digest) _
            _ (λ c. outside)
            (λ c.
              if_elim Gate (not (r.digest == digest)) _ _ (λ c. outside)
                (λ c.
                  if_elim Gate (ltb r.envelope.expires_at call.now) _ _
                    (λ c. enter_elim Gate o expired _ (λ go_on h. absurd (cc)) (λ why. outside))
                    (λ c.
                      enter_elim Gate _ approved _ (λ go_on h. (refl, (_, (refl, refl))))
                        (λ why. outside)))))

  -- An approval that leads an order into an agreed state leaves it APPROVED and was answered positively.
  pub approve_order-Gate : (digest : String) → Gate (approve_order host call order o digest)
  unfolding approve_order
  approve_order-Gate digest = approve_found-Gate o.envelope digest
