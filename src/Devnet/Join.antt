-- ===== src/Devnet/Join.antt =====
-- packages/payments/src/devnet-machine.ts: joinStoredRow, the answer for an attempt that is there
-- already. It calls itself when another caller moves the attempt meanwhile: on fuel.
use agentready_commerce.Prelude.{
  ℕ, zero, suc, String, ◌∷◌, [], Bool, true, false, not, ◌||◌, ◌&&◌, Option, none, some, ◌<>◌,
  if◌then◌else◌, is_set, get_or_else,
}
use agentready_commerce.Settlement.Types.{
  AttemptStatus, pending, rejected, settling, awaiting_evidence, settled, mismatch, manual,
  released, same_status, StoredAttempt, Store,
}
use agentready_commerce.Settlement.Store.{get_by_operation_id}
use agentready_commerce.Settlement.Moves.{no_update, transition, claim_row_for_takeover, leased}
use agentready_commerce.Devnet.Inspect.{Verification, verified}
use agentready_commerce.Devnet.Terms.{
  AdaptedSettlement, build_canonical_requirements, solana_devnet,
}
use agentready_commerce.Devnet.Complete.{
  Platform, World, Answer, error_answer, pending_answer, manual_answer, paid_answer, Holder,
  holder_move, is_missing, is_mismatch, claimed_transfer, inspected, complete_settlement,
}

-- `fresh`: a pending attempt, which may be claimed.
pub data Joined : Type 0 where
  fresh : Joined
  answered : Answer → Joined
  exhausted : Joined

unfoldable pub known_payer : Platform → StoredAttempt → String
known_payer p r = if is_set r.payer then get_or_else r.payer "" else p.payer_in r.evidence_json

-- The settlement that the transaction of the row stands for.
unfoldable pub reconciled : Platform → StoredAttempt → AdaptedSettlement
unfolding known_payer build_canonical_requirements
reconciled p r = record {
  success = true;
  transaction_hash = get_or_else r.tx_hash "";
  payer = known_payer p r;
  payee = p.config.payee_public_key;
  network = solana_devnet;
  asset = p.config.devnet_usdc_mint;
  amount = (build_canonical_requirements p.host p.config r.request_digest).amount;
  facilitator_url = p.config.facilitator_url;
  payment_identifier = get_or_else r.caller_payment_id "";
}

unfoldable pub is_verified : Verification → Bool
is_verified verified = true
is_verified i = false

unfoldable pub done : Store × Answer → Store × Joined
done (s, a) = (s, answered a)

-- With the ownership under which the transaction is inspected and its result written.
unfoldable pub reconcile : Platform → World → Store → StoredAttempt → Holder → Store × Joined
unfolding is_verified done complete_settlement reconciled is_missing is_mismatch
reconcile p w s r h =
    let adapted = reconciled p r in
    let i = inspected p r.request_digest adapted.transaction_hash (claimed_transfer adapted) in
    if not (is_set h.owner) || not (is_set h.fence_token)
    then (s, answered (pending_answer "settlement_ambiguous"))
    else if is_verified i.memo && is_verified i.transfer_state
    then done
        (complete_settlement p w s h adapted "reconciled" (p.fee_payer_in r.evidence_json) (some i))
    else if is_missing i.memo || is_mismatch i.transfer_state
    then (
      (transition (w.turn 203) (w.others 203 s) r.operation_id
          (holder_move h (awaiting_evidence ∷ []) mismatch no_update "join-inspect-mismatch" "")).0,
      answered (manual_answer 502 "settlement_transaction_mismatch"),
    )
    else (s, answered (pending_answer "settlement_ambiguous"))

abbrev pub holder_of : StoredAttempt → StoredAttempt → Holder
holder_of r lease = record {
  operation_id = r.operation_id;
  owner = lease.lease_owner;
  fence_token = lease.fence_token;
  request_digest = r.request_digest;
}

unfoldable pub not_waiting : StoredAttempt → Bool
not_waiting r = not (same_status r.status awaiting_evidence)

unfoldable pub take_over :
    Platform → World → Store → StoredAttempt → String → Store × Option StoredAttempt
take_over p w s r prefix =
    claim_row_for_takeover (w.turn 201) (w.others 201 s) r.operation_id
      (prefix <> (w.turn 201).uuid 1) p.lease_ttl

abbrev pub in_progress : Answer
in_progress = pending_answer "settlement_in_progress"

-- `again` is the call of joinStoredRow for the row as it is now.
abbrev pub Again : Type 0
Again = Store → StoredAttempt → Store × Joined

unfoldable pub moved_on : Again → Store → Option StoredAttempt → Store × Joined
unfolding not_waiting
moved_on again s none = (s, answered in_progress)
moved_on again s (some current) =
    if not_waiting current then again s current else (s, answered in_progress)

unfoldable pub awaited :
    Platform → World → Again → StoredAttempt → Store × Option StoredAttempt → Store × Joined
unfolding moved_on reconcile
awaited p w again r (s, none) =
    let seen = w.others 202 s in moved_on again seen (get_by_operation_id seen r.operation_id)
awaited p w again r (s, some taken) = reconcile p w s r (holder_of r taken)

unfoldable pub reopen_slot :
    World → Again → StoredAttempt → Store × Option StoredAttempt → Store × Joined
reopen_slot w again r (s, none) =
    let seen = w.others 202 s in
    again seen (get_or_else (get_by_operation_id seen r.operation_id) r)
reopen_slot w again r (s, some taken) = (
  (transition (w.turn 203) (w.others 203 s) taken.operation_id
      (holder_move (holder_of taken taken) (settling ∷ []) pending no_update "join-takeover" "")).0,
  fresh,
)

unfoldable pub join_by :
    Platform → World → Again → Store → StoredAttempt → AttemptStatus → Store × Joined
unfolding awaited reopen_slot take_over reconcile
join_by p w again s r settled = (s, answered (paid_answer true r.evidence_json))
join_by p w again s r rejected = (s, answered (error_answer 402 "payment_verification_failed"))
join_by p w again s r manual = (s, answered (manual_answer 202 "settlement_ambiguous"))
join_by p w again s r mismatch = (s, answered (manual_answer 502 "settlement_transaction_mismatch"))
join_by p w again s r released = (s, answered (error_answer 409 "release_consumed"))
join_by p w again s r pending = (s, fresh)
join_by p w again s r awaiting_evidence =
    if not (is_set r.tx_hash)
    then (s, answered (pending_answer "settlement_ambiguous"))
    else if leased (w.turn 200).now r.lease_expires_at
    then reconcile p w s r (holder_of r r)
    else awaited p w again r (take_over p w s r "reconcile-")
join_by p w again s r settling =
    if leased (w.turn 200).now r.lease_expires_at
    then (s, answered in_progress)
    else reopen_slot w again r (take_over p w s r "takeover-")

unfoldable pub join_stored_row : Platform → World → ℕ → Store → StoredAttempt → Store × Joined
unfolding join_by
join_stored_row p w zero s r = (s, exhausted)
join_stored_row p w (suc fuel) s r = join_by p w (join_stored_row p w fuel) s r r.status
