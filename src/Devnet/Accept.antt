-- ===== src/Devnet/Accept.antt =====
-- packages/payments/src/devnet-machine.ts: accept, from the header of a request to its answer.
pub mod Submits
use agentready_commerce.Prelude.{
  ℕ, String, ◌∷◌, [], ◌++◌, List, Bool, true, false, not, ◌||◌, ◌&&◌, Option, none, some, Outcome,
  returned, thrown, ◌==◌, ◌=?◌, ◌<>◌, if◌then◌else◌, is_set, truthy, get_or_else, same_option, any,
  is_empty, is_some,
}
use agentready_commerce.Settlement.Types.{
  AttemptStatus, pending, rejected, settling, awaiting_evidence, manual, StoredAttempt,
  ResolveInput, ResolveResult, created, existing, approval_differs, release_required, Store, Turn,
}
use agentready_commerce.Settlement.Store.{
  get_by_operation_id, find_by_payment_id, resolve_or_create,
}
use agentready_commerce.Settlement.Moves.{
  Move, Update, no_update, transition, claim_for_settle, revalidate_for_settle,
}
use agentready_commerce.Settlement.Release.{reason_if}
use agentready_commerce.Devnet.Terms.{
  DevnetConfig, ToolSpendRequest, Supplied, RawSettlement, AdaptedSettlement, CanonicalRequirements,
  resource_url, build_canonical_requirements, verify_canonical_requirements, adapt_settlement,
  canonical_tool_spend_request_digest,
}
use agentready_commerce.Devnet.Inspect.{string_value}
use agentready_commerce.Devnet.Complete.{
  Platform, World, Answer, error_answer, pending_answer, manual_answer, Holder, holder_move,
  complete_settlement,
}
use agentready_commerce.Devnet.Join.{
  Joined, fresh, answered, exhausted, join_stored_row, in_progress,
}
use agentready_commerce.Devnet.Settle.{
  SignedPayload, VerifyAnswer, Facilitator, Run, Request, Ending, raised, stuck, reply, worker,
  holder, rejoin_found, rejoin, step_to, verified_with,
}

module _ (p : Platform) (f : Facilitator) (w : World) (fuel : ℕ) where
  -- The first revalidation, before the facilitator is asked.
  unfoldable pub revalidated : Request → Holder → Store × Option StoredAttempt → Run
  unfolding verified_with rejoin
  revalidated q h (s, none) = rejoin p f w fuel 8 s h.operation_id in_progress
  revalidated q h (s, some valid) = verified_with p f w fuel s q h (f.verify q.payload)

  -- The blockhash of the signed transaction is kept while the lease is held.
  unfoldable pub staged : Store → Holder → StoredAttempt → Option String → Store
  unfolding step_to
  staged s h claimed hash =
      if is_set claimed.blockhash || not (is_set hash)
      then s
      else (step_to p f w fuel 4 s h settling (record no_update { blockhash = some hash })
          "claim-blockhash").0

  unfoldable pub claimed_by : Request → String → Store × Option StoredAttempt → Run
  unfolding rejoin_found step_to staged revalidated
  claimed_by q id (s, none) =
      let seen = w.others 8 s in
      rejoin_found p f w fuel (error_answer 500 "internal_error") in_progress seen
        (get_by_operation_id seen id)
  claimed_by q id (s, some claimed) =
      let h = holder p f w fuel q id claimed in
      let kept = staged s h claimed (f.blockhash_of q.header) in
      if is_set claimed.payload_digest
        && not (same_option claimed.payload_digest (some (p.host.sha256 q.header)))
      then reply (step_to p f w fuel 4 s h pending no_update "claim-digest-abandon").0
          (error_answer 409 "payment_ownership_conflict")
      else revalidated q h (
          revalidate_for_settle (w.turn 5) (w.others 5 kept) id (worker w)
            (get_or_else claimed.fence_token "") p.lease_ttl)

  unfoldable pub joined : Request → StoredAttempt → Store × Joined → Run
  unfolding claimed_by
  joined q r (s, answered a) = reply s a
  joined q r (s, exhausted) = record { store = s; ending = stuck; submitted = false }
  joined q r (s, fresh) = claimed_by q r.operation_id (
      claim_for_settle (w.turn 3) (w.others 3 s) r.operation_id (worker w) p.lease_ttl
        (some q.header) (some (p.host.sha256 q.header)))

  unfoldable pub on_attempt : Store → Request → StoredAttempt → Run
  unfolding joined
  on_attempt s q r =
      if not (r.request_digest == q.digest)
      then reply s (error_answer 409 "idempotency_conflict")
      else if is_set r.payload_digest
          && not (same_option r.payload_digest (some (p.host.sha256 q.header)))
      then reply s (error_answer 409 "payment_ownership_conflict")
      else joined q r (join_stored_row p w fuel s r)

  unfoldable pub resolved : Request → Store × ResolveResult → Run
  unfolding on_attempt
  resolved q (s, release_required r why) = reply s (error_answer 409 "release_required")
  resolved q (s, approval_differs r why) = reply s (error_answer 409 "approval_mismatch")
  resolved q (s, created r) = on_attempt s q r
  resolved q (s, existing r) = on_attempt s q r

  abbrev pub attempt_input : Request → ToolSpendRequest → Option String → ResolveInput
  attempt_input q spending approval = record {
    logical_order_id = spending.order_id;
    intent_version = spending.intent_version;
    request_digest = q.digest;
    resource = resource_url;
    approval_event_id = approval;
    caller_payment_id = q.payment;
    requirements_json =
        some (f.requirements_text (build_canonical_requirements p.host p.config q.digest));
  }

  unfoldable pub resolve_request : Store → Request → ToolSpendRequest → Option String → Run
  unfolding resolved
  resolve_request s q spending approval =
      let seen = w.others 1 s in
      if any (λ r. not (r.request_digest == q.digest)) (find_by_payment_id seen q.payment)
      then reply seen (error_answer 409 "idempotency_conflict")
      else resolved q (
          resolve_or_create p.host (w.turn 2) (w.others 2 seen) (attempt_input q spending approval))

  unfoldable pub identified :
      Store → Request → ToolSpendRequest → Option String → Option String → Run
  unfolding resolve_request
  identified s q spending approval id =
      if not (is_set id)
      then reply s (error_answer 400 "payment_identifier_required")
      else resolve_request s (record q { payment = get_or_else id "" }) spending approval

  unfoldable pub on_terms :
      Store → Request → ToolSpendRequest → Option String → Supplied → Outcome (List String) → Run
  unfolding identified
  on_terms s q spending approval supplied (thrown e) = record {
    store = s;
    ending = raised e;
    submitted = false;
  }
  on_terms s q spending approval supplied (returned errors) =
      let all =
        errors
        ++ reason_if (not (is_some f.fee_payer) || not (same_option supplied.fee_payer f.fee_payer))
            "feePayer" in
      if not (is_empty all)
      then reply s (error_answer 402 "payment_rejected")
      else identified s q spending approval q.payload.payment_identifier

  -- The request, before its payment identifier is read.
  abbrev pub request : String → String → SignedPayload → Supplied → Request
  request header digest payload supplied = record {
    header = header;
    payload = payload;
    payment = "";
    digest = digest;
    fee_payer = get_or_else supplied.fee_payer "";
  }

  unfoldable pub on_accepted :
      Store
      → String
      → String
      → ToolSpendRequest
      → Option String
      → SignedPayload
      → Option Supplied
      → Run
  unfolding on_terms
  on_accepted s header digest spending approval payload none =
      reply s (error_answer 400 "missing_accepted_requirements")
  on_accepted s header digest spending approval payload (some supplied) =
      if not (digest == canonical_tool_spend_request_digest p.host spending)
      then reply s (error_answer 400 "request_digest_mismatch")
      else on_terms s (request header digest payload supplied) spending approval supplied (
          verify_canonical_requirements p.big_int supplied
            (build_canonical_requirements p.host p.config digest))

  unfoldable pub on_payload :
      Store → String → String → ToolSpendRequest → Option String → Option SignedPayload → Run
  unfolding on_accepted
  on_payload s header digest spending approval none =
      reply s (error_answer 400 "malformed_payment_signature")
  on_payload s header digest spending approval (some payload) =
      on_accepted s header digest spending approval payload payload.accepted

  unfoldable pub accept : Store → String → String → ToolSpendRequest → Option String → Run
  unfolding on_payload
  accept s header digest spending approval =
      if not p.enabled
      then reply s (error_answer 503 "settlement_unavailable")
      else if not (truthy header)
      then reply s (error_answer 402 "payment_required")
      else on_payload s header digest spending approval (f.parse header)
