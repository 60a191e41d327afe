-- ===== src/Devnet/Complete/Proven.antt =====
-- packages/payments/src/devnet-machine.ts: what an answer of completeSettlement rests on.
use agentready_commerce.Prelude.{String, true, false, ◌||◌, some, get, ◌≡◌}
use agentready_commerce.Settlement.Types.{settled, same_status, StoredAttempt, Store, Turn}
use agentready_commerce.Settlement.Moves.{Edit, move_row}
use agentready_commerce.Devnet.Inspect.{Transaction, Inspection}
use agentready_commerce.Devnet.Inspect.Exact.{Confirms}
use agentready_commerce.Devnet.Terms.{AdaptedSettlement, memo_for_envelope}
use agentready_commerce.Devnet.Complete.{
  Platform, Answer, Holder, is_unavailable, is_missing, is_mismatch, settle_move, claimed_transfer,
}

-- An inspection that stands in the way of no settlement.
abbrev Clear : Inspection → Type 0
Clear i =
    ((is_unavailable i.memo || is_unavailable i.transfer_state) ≡ false)
    × ((is_missing i.memo || is_mismatch i.transfer_state) ≡ false)

-- The transaction of the settlement is on chain and confirms it.
abbrev pub OnChain : Platform → Holder → AdaptedSettlement → Type 0
OnChain p h adapted =
    (tx : Transaction) × ((p.fetch_transaction adapted.transaction_hash ≡ some tx)
      × Confirms tx (memo_for_envelope h.request_digest) (claimed_transfer adapted))

-- The attempt is settled with the transaction, under the evidence that was answered.
abbrev pub Kept : Store → Holder → AdaptedSettlement → Answer → Type 0
Kept s h adapted a =
    (q : StoredAttempt) × ((get s.attempts h.operation_id ≡ some q)
      × ((same_status q.status settled ≡ true)
          × ((q.tx_hash ≡ some adapted.transaction_hash)
              × (q.evidence_json ≡ a.settlement_evidence))))

abbrev Fresh : Type 0 → Answer → Type 0
Fresh Q a = a.status ≡ 200 → a.replayed ≡ false → Q

abbrev step : Turn → Holder → AdaptedSettlement → String → StoredAttempt → Edit
step turn h adapted evidence = move_row turn h.operation_id (settle_move h adapted evidence)
