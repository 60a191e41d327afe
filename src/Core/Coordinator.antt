-- ===== src/Core/Coordinator.antt =====
-- packages/core/src/coordinator.ts and hashing.ts, over any store of operations.
pub mod Once
use agentready_commerce.Prelude.{ℕ, String, Option, none, some, ◌==◌, if◌then◌else◌, Host}
use agentready_commerce.Domain.Canonical.{Fields, field, text, object, canonical_text}
use agentready_commerce.Core.Types.{
  OperationType, type_name, OperationPhase, pending, completed, failed, rejected, OperationOutcome,
  success, failure, refusal, OperationRecord, IdempotencyResult, new, replay, conflict,
}
use agentready_commerce.Core.Store.{OperationStore}

-- canonicalRequestHash: the type stands in the same object as the request's fields.
unfoldable pub canonical_request_hash : Host → OperationType → Fields → String
canonical_request_hash host type request =
    host.sha256
      (canonical_text host (object (field "operationType" (text (type_name type)) request)))

abbrev pub final_phase : OperationOutcome → OperationPhase
final_phase success = completed
final_phase failure = failed
final_phase refusal = rejected

-- `if (x !== undefined) record.f = x`.
abbrev pub updated : {A : Type 0} → Option A → Option A → Option A
updated none old = old
updated (some x) old = some x

-- What a caller reports of a finished operation.
pub record Report (P : Type 0) : Type 0 where
  pub outcome : OperationOutcome
  pub result_ref : Option String
  pub error_ref : Option String
  pub result_payload : Option P

module _ {P : Type 0} where
  abbrev pub opened : String → OperationType → String → String → ℕ → OperationRecord P
  opened id type hash aggregate now = record {
    operation_id = id;
    aggregate_identity = aggregate;
    operation_type = type;
    request_hash = hash;
    phase = pending;
    outcome = none;
    result_ref = none;
    error_ref = none;
    result_payload = none;
    created_at = now;
    updated_at = now;
  }

  abbrev pub closed : OperationRecord P → Report P → ℕ → OperationRecord P
  closed r report now = record r {
    phase = final_phase report.outcome;
    outcome = some report.outcome;
    result_ref = updated report.result_ref r.result_ref;
    error_ref = updated report.error_ref r.error_ref;
    result_payload = updated report.result_payload r.result_payload;
    updated_at = now;
  }

module _ {P : Type 0} (store : OperationStore P) where
  open store use {State, fetch, put, cleared}

  begin_found :
      State
      → Option (OperationRecord P)
      → String
      → OperationType
      → String
      → String
      → ℕ
      → State × IdempotencyResult P
  begin_found s none id type hash aggregate now =
      let r = opened id type hash aggregate now in (put s id r, new r)
  begin_found s (some r) id type hash aggregate now =
      if r.request_hash == hash then (s, replay r) else (s, conflict r hash)

  -- The hash of the request is an argument; `canonical_request_hash` computes it.
  unfoldable pub begin :
      State → String → OperationType → String → String → ℕ → State × IdempotencyResult P
  unfolding begin_found
  begin s id type hash aggregate now = begin_found s (fetch s id) id type hash aggregate now

  transition_found : State → Option (OperationRecord P) → String → OperationPhase → ℕ → Option State
  transition_found s none id phase now = none
  transition_found s (some r) id phase now =
      some (put s id (record r { phase = phase; updated_at = now }))

  -- `none` is the throw "Operation … not found", of `complete` too.
  unfoldable pub transition : State → String → OperationPhase → ℕ → Option State
  unfolding transition_found
  transition s id phase now = transition_found s (fetch s id) id phase now

  complete_found : State → Option (OperationRecord P) → String → Report P → ℕ → Option State
  complete_found s none id report now = none
  complete_found s (some r) id report now = some (put s id (closed r report now))

  unfoldable pub complete : State → String → Report P → ℕ → Option State
  unfolding complete_found
  complete s id report now = complete_found s (fetch s id) id report now

  unfoldable pub lookup : State → String → Option (OperationRecord P)
  lookup s id = fetch s id

  unfoldable pub clear : State → State
  clear s = cleared s
