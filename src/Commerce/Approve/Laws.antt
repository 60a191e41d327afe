-- ===== src/Commerce/Approve/Laws.antt =====
-- apps/web/lib/services.ts, approve: what a positive answer means.
use agentready_commerce.Prelude.{
  String, ◌≤◌, ◌≡◌, refl, ◌⊎◌, inl, inr, true, false, ◌&&◌, Option, none, some, arith, ltb, ◌==◌,
  eq_iff, ◌=?◌, =?_iff, and_left, and_right, is_set, Host, Call, returned, Bool-cases,
}
use agentready_commerce.Domain.Order.{approved, expired}
use agentready_commerce.Commerce.Session.{EnvelopeRecord}
use agentready_commerce.Commerce.Recommend.{quote_active}
use agentready_commerce.Commerce.Step.{Done, Order}
use agentready_commerce.Commerce.Step.Laws.{denied, of_returned, transition_state-cases, Grants}
use agentready_commerce.Commerce.Approve.{approve_quoted, approve_found, approve_order}

module _ (host : Host) (call : Call) where
  -- The order after a fresh approval of the envelope `r` under a digest.
  abbrev pub Granted : Order → EnvelopeRecord → String → Order → Done → Type 0
  Granted o r digest after d =
      (r.digest ≡ digest)
      × (call.now ≤ r.envelope.expires_at)
      × (after.session.state ≡ approved)
      × (after.session.approval_event_id ≡ some (call.new_id "appr"))
      × (d.reply.approval_event_id ≡ some (call.new_id "appr"))

  -- The order that had been approved under this digest before: nothing is changed.
  abbrev pub Repeated : Order → String → Order → Done → Type 0
  Repeated o digest after d =
      (after ≡ o)
      × (is_set o.session.approval_event_id ≡ true)
      × (d.reply.approval_event_id ≡ o.session.approval_event_id)

  abbrev pub Approves : Order → EnvelopeRecord → String → Order → Done → Type 0
  Approves o r digest after d =
      (quote_active host o.session r ≡ true)
      × (after.envelope ≡ o.envelope)
      × (after.session.approved_digest ≡ some digest)
      × (Granted o r digest after d ⊎ Repeated o digest after d)

  approve_quoted-Approves :
      (order : String) (o : Order) (r : EnvelopeRecord) (digest : String)
      → Grants (Approves o r digest) (approve_quoted host call order o r digest)
  unfolding approve_quoted
  approve_quoted-Approves order o r digest = elim (Bool-cases (quote_active host o.session r)) [
    | inr inactive ↦ rw inactive (λ d e ok. cc)
    | inl active ↦
        elim (Bool-cases
          (is_set o.session.approval_event_id && o.session.approved_digest =? digest)) [
            | inl old ↦
                rw (active, old)
                  (λ d e ok. (
                    refl,
                    refl,
                    same_digest old,
                    inr (refl, approved_before old, of_returned event e),
                  ))
            | inr fresh ↦ elim (Bool-cases (r.digest == digest)) [
              | inr other ↦ rw (active, fresh, other) (λ d e ok. cc)
              | inl same ↦ elim (Bool-cases (ltb r.envelope.expires_at call.now)) [
                | inl late ↦ elim (transition_state-cases o.session.state expired) [
                  | inl go_on ↦ rw (active, fresh, same, late, go_on) (λ d e ok. cc)
                  | inr stopped ↦ rw (active, fresh, same, late, stopped) (λ d e ok. cc)
                ]
                | inr timely ↦ elim (transition_state-cases o.session.state approved) [
                  | inl go_on ↦
                      rw (active, fresh, same, timely, go_on)
                        (λ d e ok. (
                          refl,
                          refl,
                          refl,
                          inl (
                            (eq_iff _ _).0 same,
                            ltb_false timely,
                            refl,
                            refl,
                            of_returned event e,
                          ),
                        ))
                  | inr stopped ↦ rw (active, fresh, same, timely, stopped) (λ d e ok. cc)
                ]
              ]
            ]
          ]
  ]
    where
      event : Done → Option String
      event d = d.reply.approval_event_id

      same_digest :
          (is_set o.session.approval_event_id && o.session.approved_digest =? digest) ≡ true
          → o.session.approved_digest ≡ some digest
      same_digest h =
          (=?_iff o.session.approved_digest digest).0
            (and_right (is_set o.session.approval_event_id) (o.session.approved_digest =? digest) h)

      approved_before :
          (is_set o.session.approval_event_id && o.session.approved_digest =? digest) ≡ true
          → is_set o.session.approval_event_id ≡ true
      approved_before h =
          and_left (is_set o.session.approval_event_id) (o.session.approved_digest =? digest) h

      ltb_false : ltb r.envelope.expires_at call.now ≡ false → call.now ≤ r.envelope.expires_at
      ltb_false h = ground arith

  approve_found-Approves :
      (order : String) (o : Order) (found : Option EnvelopeRecord) (digest : String)
      → Grants
          (λ after d. (r : EnvelopeRecord) × (found ≡ some r) × Approves o r digest after d)
          (approve_found host call order o found digest)
  unfolding approve_found
  approve_found-Approves order o none digest d e ok = absurd (denied e refl ok)
  approve_found-Approves order o (some r) digest d e ok =
      (r, refl, approve_quoted-Approves order o r digest d e ok)

  -- A positive answer to an approval is for an envelope whose quote is active: it leaves the envelope
  -- and binds the approval to exactly the submitted digest. Either this digest is the envelope's
  -- own, the envelope has not expired, and the order is now APPROVED under the new event that the
  -- answer names; or the order had been approved under this digest before, nothing is changed, and
  -- the answer names that event.
  pub approve_order-Approves :
      (order : String) (o : Order) (digest : String) (d : Done)
      → (approve_order host call order o digest).result ≡ returned d
      → d.reply.ok ≡ true
      → (r : EnvelopeRecord) × (o.envelope ≡ some r)
        × Approves o r digest (approve_order host call order o digest).order d
  unfolding approve_order
  approve_order-Approves order o digest = approve_found-Approves order o o.envelope digest
