-- ===== src/Payments/Types.antt =====
-- packages/payments/src/types.ts. `signature` is the only optional input that a caller here leaves
-- out; `webhookPayload` is read by no adapter and is not there.
use agentready_commerce.Prelude.{ℕ, String, Bool, Option, Call, Outcome}
use agentready_commerce.Domain.Types.{CommerceEnvelope}

-- Without `checkoutPayload`, which the browser alone reads.
pub record PaymentAttempt : Type 0 where
  pub attempt_id : String
  pub logical_order_id : String
  pub rail : String
  pub external_order_id : Option String
  pub status : String
  pub created_at : ℕ
  pub amount_minor : ℕ
  pub currency : String

pub record VerificationInput : Type 0 where
  pub logical_order_id : String
  pub envelope_hash : String
  pub rail : String
  pub external_order_id : String
  pub external_payment_id : String
  pub expected_amount_minor : Option ℕ
  pub signature : Option String

pub record VerificationResult : Type 0 where
  pub verified : Bool
  pub rail : String
  pub external_order_id : String
  pub external_payment_id : String
  pub amount_minor : ℕ
  pub currency : String
  pub status : String
  pub reason : Option String

pub record CompensationInput : Type 0 where
  pub logical_order_id : String
  pub envelope_hash : String
  pub rail : String
  pub external_payment_id : String
  pub amount_minor : ℕ
  pub reason : String

pub record CompensationResult : Type 0 where
  pub compensated : Bool
  pub rail : String
  pub refund_id : Option String
  pub reason : Option String

pub record PaymentAdapter : Type 0 where
  pub rail : String
  pub is_mock : Bool
  pub initiate : Call → CommerceEnvelope → Outcome PaymentAttempt
  pub verify : VerificationInput → Outcome VerificationResult
  pub compensate : CompensationInput → Outcome CompensationResult
