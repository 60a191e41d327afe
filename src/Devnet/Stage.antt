-- ===== src/Devnet/Stage.antt =====
-- packages/payments/src/devnet-machine.ts: stagePreparedAttempt, which keeps a signed payment before it
-- is submitted.
use agentready_commerce.Prelude.{
  String, ◌∷◌, [], not, ◌&&◌, Option, none, some, Outcome, returned, thrown, ◌==◌, ◌<>◌,
  if◌then◌else◌, is_set, same_option,
}
use agentready_commerce.Settlement.Types.{
  pending, StoredAttempt, ResolveResult, created, existing, approval_differs, release_required,
  Store,
}
use agentready_commerce.Settlement.Store.{resolve_or_create}
use agentready_commerce.Settlement.Moves.{Move, no_update, transition}
use agentready_commerce.Devnet.Terms.{
  ToolSpendRequest, CanonicalRequirements, resource_url, build_canonical_requirements,
  canonical_tool_spend_request_digest,
}
use agentready_commerce.Devnet.Complete.{Platform, World}

pub record StageInput : Type 0 where
  pub spending_request : ToolSpendRequest
  pub payment_identifier : String
  pub encoded_payment : String
  pub approval_event_id : Option String

-- The answer: the operation's identifier and the digest of the request.
pub record Staged : Type 0 where
  pub operation_id : String
  pub request_digest : String

-- `seal` is the cipher of the store, `requirements_text` the JSON text of the terms.
module _ (p : Platform) (w : World) (seal : String → String)
    (requirements_text : CanonicalRequirements → String) where
  abbrev pub stage_move : StageInput → Move
  stage_move i = record {
    from = pending ∷ [];
    to = pending;
    update = record no_update {
      signed_payload_enc = some (some (seal i.encoded_payment));
      payload_digest = some (some (p.host.sha256 i.encoded_payment));
      caller_payment_id = some (some i.payment_identifier);
    };
    owner = none;
    fence_token = none;
    trigger = "prepare-stage";
    note = "pid=" <> i.payment_identifier;
  }

  unfoldable pub stage_row : Store → StageInput → String → StoredAttempt → Store × Outcome Staged
  stage_row s i digest r =
      let answer : Staged = record { operation_id = r.operation_id; request_digest = digest } in
      if not (r.request_digest == digest)
      then (s, thrown "Payment identifier is already reserved for a different spending request.")
      else if is_set r.payload_digest
          && not (same_option r.payload_digest (some (p.host.sha256 i.encoded_payment)))
      then (s, thrown "Payment identifier is already bound to a different signed payment payload.")
      else if is_set r.payload_digest
      then (s, returned answer)
      else ((transition (w.turn 2) (w.others 2 s) r.operation_id (stage_move i)).0, returned answer)

  unfoldable pub stage_resolved :
      StageInput → String → Store × ResolveResult → Store × Outcome Staged
  unfolding stage_row
  stage_resolved i digest (s, release_required r why) = (s, thrown ("Release required: " <> why))
  stage_resolved i digest (s, approval_differs r why) = (s, thrown ("Approval mismatch: " <> why))
  stage_resolved i digest (s, created r) = stage_row s i digest r
  stage_resolved i digest (s, existing r) = stage_row s i digest r

  unfoldable pub stage_prepared_attempt : Store → StageInput → Store × Outcome Staged
  unfolding stage_resolved
  stage_prepared_attempt s i =
      let digest = canonical_tool_spend_request_digest p.host i.spending_request in
      stage_resolved i digest (
        resolve_or_create p.host (w.turn 1) (w.others 1 s) (record {
          logical_order_id = i.spending_request.order_id;
          intent_version = i.spending_request.intent_version;
          request_digest = digest;
          resource = resource_url;
          approval_event_id = i.approval_event_id;
          caller_payment_id = i.payment_identifier;
          requirements_json =
              some (requirements_text (build_canonical_requirements p.host p.config digest));
        }))
