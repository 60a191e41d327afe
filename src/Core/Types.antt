-- ===== src/Core/Types.antt =====
-- packages/core/src/types.ts. The payload of a result is `unknown` in the source: a parameter here.
use agentready_commerce.Prelude.{ℕ, String, Option}

-- OPERATION_TYPES.
pub data OperationType : Type 0 where
  session_create conversation_respond quote_build approval_grant payment_initiate : OperationType
  payment_verify x402_order_prepare x402_order_confirm : OperationType
  fulfilment_complete compensation_refund : OperationType

abbrev pub type_name : OperationType → String
type_name session_create = "session.create"
type_name conversation_respond = "conversation.respond"
type_name quote_build = "quote.build"
type_name approval_grant = "approval.grant"
type_name payment_initiate = "payment.initiate"
type_name payment_verify = "payment.verify"
type_name x402_order_prepare = "x402_order.prepare"
type_name x402_order_confirm = "x402_order.confirm"
type_name fulfilment_complete = "fulfilment.complete"
type_name compensation_refund = "compensation.refund"

-- OPERATION_PHASES.
pub data OperationPhase : Type 0 where
  pending in_progress completed failed rejected : OperationPhase

pub data OperationOutcome : Type 0 where
  success failure refusal : OperationOutcome

pub record OperationRecord (P : Type 0) : Type 0 where
  pub operation_id : String
  pub aggregate_identity : String
  pub operation_type : OperationType
  pub request_hash : String
  pub phase : OperationPhase
  pub outcome : Option OperationOutcome
  pub result_ref : Option String
  pub error_ref : Option String
  pub result_payload : Option P
  pub created_at : ℕ
  pub updated_at : ℕ

pub data IdempotencyResult (P : Type 0) : Type 0 where
  new : OperationRecord P → IdempotencyResult P
  replay : OperationRecord P → IdempotencyResult P
  conflict : OperationRecord P → String → IdempotencyResult P
