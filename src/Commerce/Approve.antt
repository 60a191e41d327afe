-- ===== src/Commerce/Approve.antt =====
-- apps/web/lib/services.ts: approve, between the look-ups and the coordinator.
pub mod Laws
pub mod Gate
use agentready_commerce.Prelude.{
  ℕ, String, Bool, true, false, not, ◌&&◌, Option, none, some, List, [], ◌∷◌, ltb, ◌==◌, ◌=?◌,
  is_set, if◌then◌else◌, get_or_else, Host, Call,
}
use agentready_commerce.Domain.Order.{OrderState, approved, expired}
use agentready_commerce.Core.Types.{failure}
use agentready_commerce.Commerce.Session.{Session, EnvelopeRecord}
use agentready_commerce.Commerce.Step.{
  LogInput, Reply, Done, Order, Step, stop, emit, enter, plain_reply, error_reply, fail_with,
  succeed,
}
use agentready_commerce.Commerce.Recommend.{quote_active}

abbrev pub approval_granted : String → String → String → LogInput
approval_granted order digest event = record {
  order = order;
  type = "approval.granted";
  actor = "customer";
  decision = some "allow";
  reason_codes = "approval_binds_hash" ∷ [];
  input_digest = some digest;
  output_digest = some event;
  references = [];
}

abbrev pub approval_reply : OrderState → Option String → Reply
approval_reply state event = record (plain_reply true state) { approval_event_id = event }

-- The quote is current, not approved yet under this digest, has the digest and is still open.
abbrev pub grant : Call → String → Order → String → Step Done
grant call order o digest =
    let event = call.new_id "appr" in
    let granted = record o.session {
      approval_event_id = some event;
      approved_digest = some digest;
    } in
    enter (record o { session = granted }) approved
      (λ q.
        emit (approval_granted order digest event)
          (succeed q (approval_reply q.session.state (some event)) (some event)))

module _ (host : Host) where
  -- With a session and an envelope at hand.
  unfoldable pub approve_quoted : Call → String → Order → EnvelopeRecord → String → Step Done
  approve_quoted call order o r digest =
      if not (quote_active host o.session r)
      then fail_with o "This quote is no longer active for the current intent"
      else if is_set o.session.approval_event_id && o.session.approved_digest =? digest
      then succeed o (approval_reply o.session.state o.session.approval_event_id)
          o.session.approval_event_id
      else if not (r.digest == digest)
      then fail_with o "Digest mismatch: approval must bind to the exact envelope hash"
      else if ltb r.envelope.expires_at call.now
      then enter o expired (λ q. fail_with q "Quote expired")
      else grant call order o digest

  unfoldable pub approve_found : Call → String → Order → Option EnvelopeRecord → String → Step Done
  approve_found call order o none digest = fail_with o "No envelope to approve"
  approve_found call order o (some r) digest = approve_quoted call order o r digest

  unfoldable pub approve_order : Call → String → Order → String → Step Done
  unfolding approve_found approve_quoted
  approve_order call order o digest = approve_found call order o o.envelope digest
