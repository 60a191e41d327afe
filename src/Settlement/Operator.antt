-- ===== src/Settlement/Operator.antt =====
-- packages/payments/src/operator.ts: the commands of the operator, and the settlement that the
-- operator persists. What other callers do to the store while a call waits is the parameter `others`,
-- by the number of the await.
pub mod Laws
pub mod Live
pub mod Arguments
use Prim.Native.String.{slice, count}
use agentready_commerce.Prelude.{
  ℕ, String, ◌∷◌, [], ◌++◌, List, Bool, true, false, not, ◌&&◌, ◌||◌, Option, none, some, Host,
  ◌==◌, ◌=?◌, ◌<>◌, ltb, same_option, if◌then◌else◌, truthy, is_set, is_empty, get_or_else, first,
}
use agentready_commerce.Settlement.Types.{
  AttemptStatus, settled, settling, awaiting_evidence, status_name, same_status, includes_status,
  in_flight, StoredAttempt, Store, Turn,
}
use agentready_commerce.Settlement.Store.{get_by_operation_id}
use agentready_commerce.Settlement.Moves.{
  Move, Update, no_update, transition, claim_row_for_takeover,
}
use agentready_commerce.Settlement.Release.{reason_if}

-- The end of a parse or a check: a value, or the error.
pub data Parsed (A : Type 0) : Type 0 where
  ok : A → Parsed A
  failed : String → Parsed A

pub record ReleaseArgs : Type 0 where
  pub operation_id : String
  pub operator_id : String
  pub new_approval_event_id : String
  pub blockhash : Option String
  pub transfer_verification : String
  pub note : String

-- `get(flag)`: what follows the first occurrence of the flag.
unfoldable pub flag_value : List String → String → Option String
flag_value [] flag = none
flag_value (x ∷ xs) flag = let rest = flag_value xs flag in if x == flag then first xs else rest

unfoldable pub flag_text : List String → String → String
unfolding flag_value
flag_text argv flag = get_or_else (flag_value argv flag) ""

unfoldable pub parse_release_args : List String → Parsed ReleaseArgs
unfolding flag_text
parse_release_args argv =
    let operation = flag_text argv "--operation" in
    let operator = flag_text argv "--operator" in
    let approval = flag_text argv "--new-approval" in
    let transfer = flag_text argv "--transfer" in
    let note = flag_text argv "--note" in
    if not (truthy operation)
    then failed "--operation <operation-id> is required"
    else if not (truthy operator)
    then failed "--operator <operator-id> is required"
    else if not (truthy approval)
    then failed "--new-approval <appr_...> is required"
    else if not (truthy transfer)
    then failed "--transfer <verification-state> is required"
    else if not (transfer == "mismatch") && not (transfer == "unavailable")
    then failed "--transfer must be mismatch or unavailable; verified transfers must be reconciled"
    else if not (truthy note)
    then failed "--note <text> is required"
    else ok (record {
      operation_id = operation;
      operator_id = operator;
      new_approval_event_id = approval;
      blockhash = flag_value argv "--blockhash";
      transfer_verification = transfer;
      note = note;
    })

-- A flag that is empty counts as none.
unfoldable pub resolve_release_blockhash : Option String → Option String → Parsed String
resolve_release_blockhash row flag =
    if is_set flag
    then (if not (is_set row)
        then failed
            "attempt has no staged blockhash; resolve via incident track, release is refused"
        else if not (same_option flag row)
        then failed "flagged blockhash does not match the attempt's staged blockhash"
        else ok (get_or_else flag ""))
    else (if not (is_set row)
        then failed
            "attempt has no staged blockhash; resolve via incident track, release is refused"
        else ok (get_or_else row ""))

pub record ReconcileSettledArgs : Type 0 where
  pub operation_id : String
  pub operator_id : String
  pub tx_hash : String
  pub checked_slot : ℕ
  pub note : String

unfoldable pub slot_args :
    String → String → String → String → Option ℕ → Parsed ReconcileSettledArgs
slot_args operation operator tx note none =
    failed "--slot must be the integer chain slot of the finality inspection"
slot_args operation operator tx note (some slot) =
    if not (truthy note)
    then failed "--note <text> is required"
    else ok (record {
      operation_id = operation;
      operator_id = operator;
      tx_hash = tx;
      checked_slot = slot;
      note = note;
    })

-- `slot_of` is `Number` where that gives an integer from 0.
unfoldable pub parse_reconcile_settled_args :
    (String → Option ℕ) → List String → Parsed ReconcileSettledArgs
unfolding flag_text slot_args
parse_reconcile_settled_args slot_of argv =
    let operation = flag_text argv "--operation" in
    let operator = flag_text argv "--operator" in
    let tx = flag_text argv "--tx" in
    let slot = flag_text argv "--slot" in
    if not (truthy operation)
    then failed "--operation <operation-id> is required"
    else if not (truthy operator)
    then failed "--operator <operator-id> is required"
    else if not (truthy tx)
    then failed "--tx <finalized-transaction-signature> is required"
    else if not (truthy slot)
    then failed "--slot <checked-slot> is required"
    else slot_args operation operator tx (flag_text argv "--note") (slot_of slot)

-- The evidence as JSON text, with the three of its fields that are compared, where they are texts.
pub record Evidence : Type 0 where
  pub json : String
  pub transaction_hash : Option String
  pub request_digest : Option String
  pub payment_identifier : Option String

pub record PersistInput : Type 0 where
  pub operation_id : String
  pub operator_id : String
  pub tx_hash : String
  pub checked_slot : ℕ
  pub note : String
  pub evidence : Evidence

-- The reasons against a reconciliation. A signature is in base 58: its length is its characters.
unfoldable pub reconcile_reasons : PersistInput → List String
reconcile_reasons i =
    reason_if (not (truthy i.operator_id)) "operator identity is required"
    ++ reason_if (not (truthy i.tx_hash) || ltb (count i.tx_hash) 32)
        "a finalized transaction signature is required"
    ++ reason_if (not (truthy i.note)) "operator note is required"

pub data PersistResult : Type 0 where
  persisted : StoredAttempt → Bool → PersistResult
  unpersisted : List String → PersistResult

-- A field of the evidence that is a text and is not the one wanted.
unfoldable pub contradicts : Option String → Option String → Bool
contradicts none wanted = false
contradicts (some x) wanted = not (same_option (some x) wanted)

-- The refusals that read the row.
unfoldable pub row_refusal : PersistInput → StoredAttempt → Option String
unfolding contradicts
row_refusal i r =
    if not (includes_status in_flight r.status)
    then some (
        "reconcile requires status settling/awaiting_evidence (current: "
        <> status_name r.status
        <> ")")
    else if is_set r.tx_hash && not (same_option r.tx_hash (some i.tx_hash))
    then some "a different transaction signature is already bound to this attempt"
    else if not (is_set r.payer)
    then some "attempt has no verified payer"
    else if contradicts i.evidence.transaction_hash (some i.tx_hash)
    then some "evidence transaction signature does not match the cited signature"
    else if contradicts i.evidence.request_digest (some r.request_digest)
    then some "evidence request digest does not match the attempt"
    else if contradicts i.evidence.payment_identifier r.caller_payment_id
    then some "evidence payment identifier does not match the attempt"
    else none

unfoldable pub settling_move : Host → PersistInput → StoredAttempt → Move
settling_move host i claimed = record {
  from = in_flight;
  to = settled;
  update = record no_update {
    tx_hash = some (some i.tx_hash);
    evidence_json = some (some i.evidence.json);
  };
  owner = claimed.lease_owner;
  fence_token = claimed.fence_token;
  trigger = "operator-reconcile";
  note =
      i.operator_id
      <> ": "
      <> i.note
      <> " (tx="
      <> slice i.tx_hash 0 8
      <> "..., slot="
      <> host.show i.checked_slot
      <> ")";
}

-- After the transition: its row, or the row that another caller has settled meanwhile.
unfoldable pub persist_moved :
    PersistInput → Store × Option StoredAttempt → Option StoredAttempt → Store × PersistResult
persist_moved i (s, some r) current = (s, persisted r false)
persist_moved i (s, none) none =
    (s, unpersisted ("reconcile transition refused (lease lost or status changed)" ∷ []))
persist_moved i (s, none) (some r) =
    if same_status r.status settled && same_option r.tx_hash (some i.tx_hash)
    then (s, persisted r true)
    else (s, unpersisted ("reconcile transition refused (lease lost or status changed)" ∷ []))

unfoldable pub persist_claimed :
    Host
    → Turn
    → (ℕ → Store → Store)
    → PersistInput
    → String
    → Store × Option StoredAttempt
    → Store × PersistResult
unfolding persist_moved settling_move
persist_claimed host turn others i id (s, none) =
    (s, unpersisted ("could not claim the attempt (lease still active or status changed)" ∷ []))
persist_claimed host turn others i id (s, some claimed) =
    let moved = transition turn (others 1 s) id (settling_move host i claimed) in
    let seen = others 2 moved.0 in persist_moved i (seen, moved.1) (get_by_operation_id seen id)

unfoldable pub persist_open :
    Host
    → Turn
    → (ℕ → Store → Store)
    → Store
    → PersistInput
    → StoredAttempt
    → Option String
    → Store × PersistResult
unfolding persist_claimed
persist_open host turn others s i r (some why) = (s, unpersisted (why ∷ []))
persist_open host turn others s i r none =
    persist_claimed host turn others i r.operation_id
      (claim_row_for_takeover turn (others 0 s) r.operation_id ("operator-" <> i.operator_id) 60000)

unfoldable pub persist_found :
    Host
    → Turn
    → (ℕ → Store → Store)
    → Store
    → PersistInput
    → Option StoredAttempt
    → Store × PersistResult
unfolding persist_open row_refusal
persist_found host turn others s i none = (s, unpersisted ("unknown operation" ∷ []))
persist_found host turn others s i (some r) =
    if same_status r.status settled
    then (if same_option r.tx_hash (some i.tx_hash) then (s, persisted r true) else (
      s,
      unpersisted ("attempt is already settled with a different transaction signature" ∷ []),
    ))
    else persist_open host turn others s i r (row_refusal i r)

unfoldable pub persist_reconciled_settlement :
    Host → Turn → (ℕ → Store → Store) → Store → PersistInput → Store × PersistResult
unfolding reconcile_reasons persist_found
persist_reconciled_settlement host turn others s i =
    let reasons =
      reconcile_reasons i
      ++ reason_if (not (truthy i.operation_id)) "operation identity is required" in
    if not (is_empty reasons)
    then (s, unpersisted reasons)
    else persist_found host turn others s i (get_by_operation_id s i.operation_id)
