-- ===== src/Examples/Settlement.antt =====
-- The theorems on the settlement store at one order's attempts.
use agentready_commerce.Prelude.{
  ℕ, String, ◌≡◌, refl, ◌≤◌, true, false, none, some, Option, List, [], ◌∷◌, ◌++◌, ◌==◌, not,
  truthy, arith, is_empty, get, length, All,
}
use agentready_commerce.Settlement.Types.{
  AttemptStatus, pending, settling, awaiting_evidence, settled, manual, StoredAttempt, ResolveInput,
  ReleaseEvidence, Store, Turn, empty_store, is_resolved, created, existing,
}
use agentready_commerce.Settlement.Store.{
  resolve_or_create, new_attempt, active_in, paid_under, get_by_operation_id,
}
use agentready_commerce.Settlement.Moves.{
  Move, no_update, claim_for_settle, claimed_row, claim_row_for_takeover, taken_row, transition,
  revalidate_for_settle, claim_for_reconcile, leased,
}
use agentready_commerce.Settlement.Release.{release_attempt}
use agentready_commerce.Settlement.Ops.{
  Operation, resolving, claiming, moving, releasing, run_all, count,
}
use agentready_commerce.Settlement.Active.{run_all-active_in, run_all-paid_under}
use agentready_commerce.Settlement.Final.{run_all-resolved}
use agentready_commerce.Settlement.Claims.{
  TakenBy, claim_for_settle-once, claim_row_for_takeover-fences, claim_for_reconcile-bound,
}
use agentready_commerce.Settlement.Replay.{resolve_or_create-again}
use agentready_commerce.Settlement.Released.{Releases, release_attempt-Releases}
use agentready_commerce.Settlement.Operator.{
  PersistInput, persisted, persist_reconciled_settlement, reconcile_reasons, row_refusal,
  ReleaseArgs, ok, parse_release_args,
}
use agentready_commerce.Settlement.Operator.Laws.{
  SettledWith, persist_reconciled_settlement-SettledWith,
}
use agentready_commerce.Settlement.Operator.Live.{persist_reconciled_settlement-settles}
use agentready_commerce.Settlement.Operator.Arguments.{
  release_argv, parse_release_args-release_argv,
}
use agentready_commerce.Examples.Data.{host}

abbrev pub turn : Turn
turn = record { now = 1000; uuid = λ n. "aa-bb" }

abbrev later : Turn
later = record { now = 5000; uuid = λ n. "cc-dd" }

abbrev pub request : ResolveInput
request = record {
  logical_order_id = "o1";
  intent_version = 1;
  request_digest = "d1";
  resource = "fit-score";
  approval_event_id = none;
  caller_payment_id = "pay1";
  requirements_json = none;
}

abbrev id : String
id = "o1|n|d1|fit-score|sauth_aabb"

abbrev fresh : StoredAttempt
fresh = new_attempt turn request id "sauth_aabb"

abbrev opened_store : Store
opened_store = record { attempts = (id, fresh) ∷ []; history = [] }

-- A worker's lease of 100 ms, and its failure.
abbrev flying : StoredAttempt
flying = record (claimed_row turn "worker" 100 none none fresh) { payer = some "payer" }

abbrev in_air : Store
in_air = record { attempts = (id, flying) ∷ []; history = [] }

abbrev failing : Move
failing = record {
  from = settling ∷ [];
  to = manual;
  update = no_update;
  owner = some "worker";
  fence_token = some "aa-bb";
  trigger = "settle-malformed";
  note = "";
}

abbrev evidence : ReleaseEvidence
evidence = record {
  operator_id = "ops";
  new_approval_event_id = "appr_2";
  note = "expired";
  blockhash = "bh";
  blockhash_valid = false;
  checked_slot = 7;
  transfer_verification = "unavailable";
}

abbrev calls : List (Turn × Operation)
calls =
    (turn, resolving request)
    ∷ (turn, claiming id "worker" 100 none none)
    ∷ (turn, moving id failing)
    ∷ (later, releasing id evidence)
    ∷ []

run_all-active_in_example : count (active_in "o1" 1) (run_all host empty_store calls).attempts ≤ 1
unfolding is_resolved count
run_all-active_in_example =
    run_all-active_in host empty_store calls "o1" 1 (tt, (tt, ((refl, tt), (tt, tt)))) (omega arith)

run_all-paid_under_example : count (paid_under "pay1") (run_all host empty_store calls).attempts ≤ 1
unfolding count
run_all-paid_under_example =
    run_all-paid_under host empty_store calls "pay1" (tt, (tt, (refl, (tt, tt)))) (omega arith)

abbrev settled_row : StoredAttempt
settled_row = record flying { status = settled; tx_hash = some "tx" }

abbrev settled_store : Store
settled_store = record { attempts = (id, settled_row) ∷ []; history = [] }

run_all-resolved_example : get (run_all host settled_store calls).attempts id ≡ some settled_row
unfolding is_resolved get
run_all-resolved_example =
    run_all-resolved id settled_row refl host settled_store calls (tt, (tt, ((refl, tt), (tt, tt))))
      refl

claim_for_settle-once_example :
    claim_for_settle later
      (claim_for_settle turn opened_store id "worker" 100 none none).0
      id
      "other"
      100
      none
      none
    ≡ ((claim_for_settle turn opened_store id "worker" 100 none none).0, none)
unfolding claim_for_settle get agentready_commerce.Settlement.Types.same_status new_attempt
claim_for_settle-once_example =
    claim_for_settle-once turn later opened_store id "worker" "other" 100 100 none none none none
      (claimed_row turn "worker" 100 none none fresh) refl

claim_row_for_takeover-fences_example :
    (transition later (claim_row_for_takeover later in_air id "other" 100).0 id failing
      ≡ ((claim_row_for_takeover later in_air id "other" 100).0, none))
    × (revalidate_for_settle later
          (claim_row_for_takeover later in_air id "other" 100).0
          id
          "worker"
          "aa-bb"
          100
        ≡ ((claim_row_for_takeover later in_air id "other" 100).0, none))
unfolding claim_row_for_takeover get agentready_commerce.Settlement.Types.includes_status
    claimed_row
claim_row_for_takeover-fences_example =
    claim_row_for_takeover-fences later later in_air id "other" "worker" "aa-bb" 100 100 failing
      (taken_row later 0 "other" 100 flying) refl refl refl

claim_for_reconcile-bound_example :
    (length (claim_for_reconcile later in_air "sweeper" 100 1).1 ≤ 1)
    × All (TakenBy "sweeper") (claim_for_reconcile later in_air "sweeper" 100 1).1
claim_for_reconcile-bound_example = claim_for_reconcile-bound later "sweeper" 100 1 in_air

resolve_or_create-again_example :
    resolve_or_create host later (resolve_or_create host turn empty_store request).0 request
    ≡ ((resolve_or_create host turn empty_store request).0, existing fresh)
unfolding resolve_or_create agentready_commerce.Prelude.values get
    agentready_commerce.Settlement.Store.build_operation_id
resolve_or_create-again_example =
    resolve_or_create-again host turn later empty_store request fresh refl

abbrev stuck : Store
stuck = record {
  attempts = (id, record flying { status = manual; blockhash = some "bh" }) ∷ [];
  history = [];
}

release_attempt-Releases_example :
    Releases later stuck id evidence (release_attempt later stuck id evidence)
release_attempt-Releases_example = release_attempt-Releases later stuck id evidence

abbrev command : PersistInput
command = record {
  operation_id = id;
  operator_id = "ops";
  tx_hash = "0123456789012345678901234567890123456789";
  checked_slot = 7;
  note = "finalized";
  evidence = record {
    json = "{}";
    transaction_hash = none;
    request_digest = some "d1";
    payment_identifier = some "pay1";
  };
}

persist_reconciled_settlement-SettledWith_example :
    SettledWith command (persist_reconciled_settlement host later (λ n s. s) in_air command).1
persist_reconciled_settlement-SettledWith_example =
    persist_reconciled_settlement-SettledWith host later (λ n s. s) command in_air

persist_reconciled_settlement-settles_example :
    (q : StoredAttempt) × ((persist_reconciled_settlement host later (λ n s. s) in_air command).1
      ≡ persisted q false)
unfolding reconcile_reasons get claimed_row new_attempt row_refusal
    agentready_commerce.Settlement.Types.includes_status leased
persist_reconciled_settlement-settles_example =
    persist_reconciled_settlement-settles host later command in_air flying refl refl refl refl refl

abbrev arguments : ReleaseArgs
arguments = record {
  operation_id = "op1";
  operator_id = "ops";
  new_approval_event_id = "appr_2";
  blockhash = some "bh";
  transfer_verification = "unavailable";
  note = "expired";
}

parse_release_args-release_argv_example : parse_release_args (release_argv arguments) ≡ ok arguments
parse_release_args-release_argv_example =
    parse_release_args-release_argv arguments
      (refl, (refl, (refl, (refl, (refl, (refl, (refl, tt)))))))
      (refl, (refl, (refl, (refl, (refl, (refl, (refl, tt)))))))
      (refl, (refl, (refl, (refl, (refl, (refl, (refl, tt)))))))
      (refl, (refl, (refl, (refl, (refl, (refl, (refl, tt)))))))
      (refl, (refl, (refl, (refl, (refl, (refl, (refl, tt))))))) refl
