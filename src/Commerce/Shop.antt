-- ===== src/Commerce/Shop.antt =====
-- apps/web/lib/services.ts, createServices: the tables of the service, and the way in which each
-- operation on an order goes through the coordinator, looks the session up, and stores what came
-- of it. A promise queue (withSessionLock) runs the quotes, approvals, initiations and Agent Pay calls
-- of one order one after another. verifyPayment, fulfil, compensate, tamper and the webhook are not in
-- that queue: what other calls do at the await of verifyPayment and compensate is an argument of their
-- definitions, and nothing in the service as a whole.
pub mod Replay
use agentready_commerce.Prelude.{
  ℕ, String, Bool, true, false, not, ◌&&◌, Option, none, some, List, [], ◌∷◌, ◌++◌, ◌<>◌,
  get_or_else, if◌then◌else◌, truthy, Map, get, set, Host, Call, Outcome, returned, thrown,
}
use agentready_commerce.Domain.Order.{OrderState, draft}
use agentready_commerce.Domain.Types.{PurchaseMandate}
use agentready_commerce.Domain.Canonical.{Fields, field, end, text, boolean}
use agentready_commerce.Core.Types.{
  OperationType, approval_grant, payment_initiate, payment_verify, x402_order_prepare,
  x402_order_confirm, fulfilment_complete, compensation_refund, OperationPhase, completed, failed,
  rejected, pending, in_progress, OperationRecord, IdempotencyResult, new, replay, conflict,
  failure,
}
use agentready_commerce.Core.Store.{OperationStore}
use agentready_commerce.Core.Coordinator.{Report, canonical_request_hash, begin, complete}
use agentready_commerce.Payments.Types.{PaymentAdapter}
use agentready_commerce.Commerce.Session.{Session}
use agentready_commerce.Commerce.Step.{LogInput, Reply, Done, Order, Step, error_reply}

-- The tables. `sessions` and `envelopes` are one table here, by order id: an envelope is set and
-- deleted only where its session is there.
pub record Shop (S : Type 0) : Type 0 where
  pub orders : Map Order
  pub mandates : Map PurchaseMandate
  pub webhook_dedup : Map ℕ
  pub operations : S
  pub log : List LogInput

-- How an operation answers an id that has been used.
pub record Kind : Type 0 where
  pub type : OperationType
  -- A stored failure is answered again.
  pub repeats_failures : Bool
  -- A completed record without a payload lets the operation run again.
  pub reruns : Bool
  -- An operation in progress is answered with the state DRAFT, not with the session's.
  pub at_draft : Bool
  pub conflict_codes : Option (List String)
  pub pending_codes : Option (List String)

abbrev pub approve_kind : Kind
approve_kind = record {
  type = approval_grant;
  repeats_failures = true;
  reruns = true;
  at_draft = false;
  conflict_codes = none;
  pending_codes = none;
}

abbrev pub payment_kind : Kind
payment_kind = record {
  type = payment_initiate;
  repeats_failures = true;
  reruns = true;
  at_draft = false;
  conflict_codes = some ("operation_conflict" ∷ []);
  pending_codes = some ("operation_pending" ∷ []);
}

abbrev pub verify_kind : Kind
verify_kind = record {
  type = payment_verify;
  repeats_failures = true;
  reruns = false;
  at_draft = true;
  conflict_codes = none;
  pending_codes = none;
}

-- prepareX402OrderPayment and confirmX402OrderPayment.
abbrev pub agent_pay_kind : OperationType → Kind
agent_pay_kind type = record {
  type = type;
  repeats_failures = false;
  reruns = true;
  at_draft = false;
  conflict_codes = none;
  pending_codes = none;
}

-- fulfil and compensate.
abbrev pub delivery_kind : OperationType → Kind
delivery_kind type = record {
  type = type;
  repeats_failures = true;
  reruns = false;
  at_draft = false;
  conflict_codes = none;
  pending_codes = none;
}

abbrev pub conflict_reply : Kind → String → Reply
conflict_reply kind id =
    record (error_reply draft
      ("Operation ID conflict: " <> id <> " was already used with a different request")) {
        reason_codes = kind.conflict_codes;
      }

abbrev state_of : Option Order → OrderState
state_of none = draft
state_of (some o) = o.session.state

-- What a replay is answered with; `none` lets the operation run.
abbrev pub replay_reply : Kind → OperationPhase → Option Reply → Reply → Option Reply
replay_reply kind completed (some r) waiting = some r
replay_reply kind completed none waiting = if kind.reruns then none else some waiting
replay_reply kind failed (some r) waiting = if kind.repeats_failures then some r else some waiting
replay_reply kind rejected (some r) waiting = if kind.repeats_failures then some r else some waiting
replay_reply kind failed none waiting = some waiting
replay_reply kind rejected none waiting = some waiting
replay_reply kind pending o waiting = some waiting
replay_reply kind in_progress o waiting = some waiting

unfoldable pub note_all : ℕ → Map ℕ → List String → Map ℕ
note_all now m [] = m
note_all now m (e ∷ es) = note_all now (set m e now) es

abbrev report_of : Done → Report Reply
report_of d = record {
  outcome = d.outcome;
  result_ref = d.result_ref;
  error_ref = d.error_ref;
  result_payload = some d.reply;
}

-- What a step has changed, whatever its end.
unfoldable pub stored : {S A : Type 0} → Call → String → Shop S → Step A → Shop S
unfolding note_all
stored call order shop st = record shop {
  orders = set shop.orders order st.order;
  webhook_dedup = note_all call.now shop.webhook_dedup st.noted;
  log = shop.log ++ st.log;
}

module _ (store : OperationStore Reply) where
  open store use {State}

  abbrev waiting_reply : Kind → Shop State → String → Reply
  waiting_reply kind shop order =
      record (error_reply (if kind.at_draft then draft else state_of (get shop.orders order))
        "Operation in progress") { reason_codes = kind.pending_codes }

  completed_with : Shop State → Reply → Option State → Outcome Reply × Shop State
  completed_with shop r none = (thrown "Operation not found", shop)
  completed_with shop r (some ops) = (returned r, record shop { operations = ops })

  -- `if (operationId) coordinator.complete(...)`, then the answer.
  reported : Call → String → Done → Shop State → Outcome Reply × Shop State
  unfolding completed_with
  reported call id d shop =
      let done =
        completed_with shop d.reply (complete store shop.operations id (report_of d) call.now) in
      if truthy id then done else (returned d.reply, shop)

  ended : Call → String → Outcome Done → Shop State → Outcome Reply × Shop State
  unfolding reported
  ended call id (thrown why) shop = (thrown why, shop)
  ended call id (returned d) shop = reported call id d shop

  abbrev unknown_session : Done
  unknown_session = record {
    reply = error_reply draft "Unknown session";
    outcome = failure;
    result_ref = none;
    error_ref = some "Unknown session";
  }

  perform :
      Call
      → String
      → String
      → (Order → Step Done)
      → Shop State
      → Option Order
      → Outcome Reply × Shop State
  unfolding ended stored reported
  perform call id order handler shop none = reported call id unknown_session shop
  perform call id order handler shop (some o) =
      let st = handler o in ended call id st.result (stored call order shop st)

  unfoldable pub performed :
      Call → String → String → (Order → Step Done) → Shop State → Outcome Reply × Shop State
  unfolding perform
  performed call id order handler shop = perform call id order handler shop (get shop.orders order)

  answered :
      Call
      → String
      → String
      → (Order → Step Done)
      → Shop State
      → Option Reply
      → Outcome Reply × Shop State
  unfolding performed
  answered call id order handler shop none = performed call id order handler shop
  answered call id order handler shop (some r) = (returned r, shop)

  begun :
      Kind
      → Call
      → String
      → String
      → (Order → Step Done)
      → Shop State
      → State × IdempotencyResult Reply
      → Outcome Reply × Shop State
  unfolding answered performed
  begun kind call id order handler shop (ops, new r) =
      performed call id order handler (record shop { operations = ops })
  begun kind call id order handler shop (ops, replay r) =
      answered call id order handler shop
        (replay_reply kind r.phase r.result_payload (waiting_reply kind shop order))
  begun kind call id order handler shop (ops, conflict r h) =
      (returned (conflict_reply kind id), shop)

  -- An operation on an order; an empty id stands for no operation id.
  unfoldable pub run_operation :
      Kind
      → Call
      → String
      → String
      → String
      → (Order → Step Done)
      → Shop State
      → Outcome Reply × Shop State
  unfolding begun performed
  run_operation kind call id hash order handler shop =
      let fresh =
        begun kind call id order handler shop
          (begin store shop.operations id kind.type hash order call.now) in
      let bare = performed call id order handler shop in if truthy id then fresh else bare
