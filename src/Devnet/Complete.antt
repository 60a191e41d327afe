-- ===== src/Devnet/Complete.antt =====
-- packages/payments/src/devnet-machine.ts: the answers of the resource, and completeSettlement. The
-- store here does not throw, so the branches for a store that is down are not there.
pub mod Proven
use agentready_commerce.Prelude.{
  ℕ, String, ◌∷◌, [], List, Bool, true, false, not, ◌||◌, Option, none, some, Host, ◌<>◌,
  if◌then◌else◌, get_or_else,
}
use agentready_commerce.Settlement.Types.{
  AttemptStatus, awaiting_evidence, manual, settled, same_status, in_flight, StoredAttempt, Store,
  Turn,
}
use agentready_commerce.Settlement.Store.{get_by_operation_id}
use agentready_commerce.Settlement.Moves.{Move, Update, no_update, transition}
use agentready_commerce.Devnet.Inspect.{
  Verification, verified, missing, mismatch, unavailable, Transfer, Transaction, Inspection,
  inspect_transaction,
}
use agentready_commerce.Devnet.Terms.{DevnetConfig, AdaptedSettlement, memo_for_envelope}

-- The evidence of a settlement, with the fields that are not constant or copied from the settlement.
pub record Evidence : Type 0 where
  pub settlement : AdaptedSettlement
  pub fee_payer : String
  pub settlement_result : String
  pub request_digest : String
  pub timestamp : ℕ
  pub inspection : Inspection

-- What the resource takes from its surroundings: the configuration, the RPC node, and the JSON text
-- of an evidence with the two fields that are read out of one again.
pub record Platform : Type 0 where
  pub host : Host
  pub config : DevnetConfig
  pub enabled : Bool
  pub lease_ttl : ℕ
  pub big_int : String → Option ℕ
  pub fetch_transaction : String → Option Transaction
  pub evidence_text : Evidence → String
  pub payer_in : Option String → String
  pub fee_payer_in : Option String → String

-- The clock and identifiers at each step of a call, and what other callers do to the store before it.
pub record World : Type 0 where
  pub turn : ℕ → Turn
  pub others : ℕ → Store → Store

-- An answer, without its prose, the quoted terms and the scored resource.
pub record Answer : Type 0 where
  pub status : ℕ
  pub error : Option String
  pub reconciliation_state : Option String
  pub retryable : Option Bool
  pub transaction_hash : Option String
  pub settlement_evidence : Option String
  pub replayed : Bool

abbrev pub error_answer : ℕ → String → Answer
error_answer status error = record {
  status = status;
  error = some error;
  reconciliation_state = none;
  retryable = none;
  transaction_hash = none;
  settlement_evidence = none;
  replayed = false;
}

abbrev pub pending_answer : String → Answer
pending_answer error = record (error_answer 202 error) {
  reconciliation_state = some "pending";
  retryable = some true;
}

abbrev pub manual_answer : ℕ → String → Answer
manual_answer status error = record (error_answer status error) {
  reconciliation_state = some "manual_reconciliation_required";
  retryable = some false;
}

abbrev pub paid_answer : Bool → Option String → Answer
paid_answer replay evidence = record {
  status = 200;
  error = none;
  reconciliation_state = none;
  retryable = none;
  transaction_hash = none;
  settlement_evidence = evidence;
  replayed = replay;
}

unfoldable pub is_unavailable : Verification → Bool
is_unavailable unavailable = true
is_unavailable verified = false
is_unavailable missing = false
is_unavailable mismatch = false

unfoldable pub is_missing : Verification → Bool
is_missing missing = true
is_missing verified = false
is_missing mismatch = false
is_missing unavailable = false

unfoldable pub is_mismatch : Verification → Bool
is_mismatch mismatch = true
is_mismatch verified = false
is_mismatch missing = false
is_mismatch unavailable = false

-- Who completes which attempt.
pub record Holder : Type 0 where
  pub operation_id : String
  pub owner : Option String
  pub fence_token : Option String
  pub request_digest : String

abbrev pub holder_move :
    Holder → List AttemptStatus → AttemptStatus → Update → String → String → Move
holder_move h from to update trigger note = record {
  from = from;
  to = to;
  update = update;
  owner = h.owner;
  fence_token = h.fence_token;
  trigger = trigger;
  note = note;
}

unfoldable pub fail_awaiting : World → ℕ → Store → Holder → AdaptedSettlement → Store × Answer
fail_awaiting w n s h adapted = (
  (transition (w.turn n) (w.others n s) h.operation_id (
      holder_move h in_flight awaiting_evidence
        (record no_update { tx_hash = some (some adapted.transaction_hash) }) "complete-settlement"
        "")).0,
  record (pending_answer "settlement_ambiguous") {
    transaction_hash = some adapted.transaction_hash;
  },
)

unfoldable pub fail_manual : World → ℕ → Store → Holder → AdaptedSettlement → Store × Answer
fail_manual w n s h adapted = (
  (transition (w.turn n) (w.others n s) h.operation_id (
      holder_move h in_flight manual
        (record no_update { tx_hash = some (some adapted.transaction_hash) }) "complete-settlement"
        "")).0,
  manual_answer 502 "settlement_transaction_mismatch",
)

-- A lost race: the winner's settlement, or a later reconciliation.
unfoldable pub converge :
    World → Store → Holder → AdaptedSettlement → Option StoredAttempt → Store × Answer
unfolding fail_awaiting
converge w s h adapted none = fail_awaiting w 102 s h adapted
converge w s h adapted (some r) =
    if same_status r.status settled
    then (s, paid_answer true r.evidence_json)
    else fail_awaiting w 102 s h adapted

unfoldable pub settled_by :
    World → Holder → AdaptedSettlement → String → Store × Option StoredAttempt → Store × Answer
unfolding converge
settled_by w h adapted evidence (s, some r) = (s, paid_answer false (some evidence))
settled_by w h adapted evidence (s, none) =
    let seen = w.others 101 s in converge w seen h adapted (get_by_operation_id seen h.operation_id)

unfoldable pub settle_move : Holder → AdaptedSettlement → String → Move
settle_move h adapted evidence =
    holder_move h in_flight settled
      (record no_update {
        tx_hash = some (some adapted.transaction_hash);
        evidence_json = some (some evidence);
      })
      "complete-settlement" "settlementResult"

unfoldable pub complete_inspected :
    Platform
    → World
    → Store
    → Holder
    → AdaptedSettlement
    → String
    → String
    → Inspection
    → Store × Answer
unfolding fail_awaiting fail_manual is_unavailable is_missing is_mismatch settled_by settle_move
complete_inspected p w s h adapted result fee_payer i =
    let evidence = p.evidence_text (record {
      settlement = adapted;
      fee_payer = fee_payer;
      settlement_result = result;
      request_digest = h.request_digest;
      timestamp = (w.turn 100).now;
      inspection = i;
    }) in
    if is_unavailable i.memo || is_unavailable i.transfer_state
    then fail_awaiting w 100 s h adapted
    else if is_missing i.memo || is_mismatch i.transfer_state
    then fail_manual w 100 s h adapted
    else settled_by w h adapted evidence
        (transition (w.turn 100) (w.others 100 s) h.operation_id (settle_move h adapted evidence))

-- The transfer that a settlement claims.
abbrev pub claimed_transfer : AdaptedSettlement → Transfer
claimed_transfer adapted = record {
  mint = adapted.asset;
  amount = adapted.amount;
  recipient = adapted.payee;
  payer = adapted.payer;
}

unfoldable pub inspected : Platform → String → String → Transfer → Inspection
inspected p digest hash expected =
    inspect_transaction (p.fetch_transaction hash) (memo_for_envelope digest) expected

unfoldable pub complete_settlement :
    Platform
    → World
    → Store
    → Holder
    → AdaptedSettlement
    → String
    → String
    → Option Inspection
    → Store × Answer
unfolding complete_inspected inspected
complete_settlement p w s h adapted result fee_payer initial =
    complete_inspected p w s h adapted result fee_payer (
      get_or_else initial
        (inspected p h.request_digest adapted.transaction_hash (claimed_transfer adapted)))
