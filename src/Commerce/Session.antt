-- ===== src/Commerce/Session.antt =====
-- apps/web/lib/services.ts, intent.ts and dialogue.ts: the state that is Kept for an order. The two
-- fields on machine spends (`machineSpendAttempt`, `machineSpend`) are not there: no operation
-- modelled here reads or writes them.
use agentready_commerce.Prelude.{ℕ, String, Bool, Option, none, some, List, Host}
use agentready_commerce.Domain.Order.{OrderState}
use agentready_commerce.Domain.Types.{CommerceEnvelope}
use agentready_commerce.Domain.Canonical.{
  Json, undefined, text, number, boolean, object, end, field, optional_text, canonical_text,
}
use agentready_commerce.Catalog.Evaluate.{RankingResult}
use agentready_commerce.Payments.Types.{VerificationResult}

pub record ParsedIntent : Type 0 where
  pub size : Option String
  pub colour : Option String
  pub use_case : Option String
  pub max_amount_minor : Option ℕ
  pub must_be_returnable : Option Bool
  pub deliver_by : Option ℕ
  pub distance_km : Option ℕ
  pub fit : Option String
  pub cushioning : Option String

pub record DialogueMemory : Type 0 where
  pub intent_version : ℕ
  pub recommendation_version : ℕ
  pub recommendation_intent_version : Option ℕ
  pub recommendation_action_token : Option String
  pub requirements : List String
  pub preferences : List String
  pub unresolved : List String
  pub shown_product_ids : List String
  pub compared_product_ids : List String
  pub selected_product_id : Option String
  pub quote_product_id : Option String
  pub quote_valid : Bool
  pub quote_intent_version : Option ℕ
  pub quote_recommendation_version : Option ℕ
  pub quote_action_token : Option String
  pub recent_actions : List String
  pub evidence : List String

pub record RecommendationBinding : Type 0 where
  pub intent_version : ℕ
  pub recommendation_version : ℕ
  pub recommendation_action_token : String

pub data X402OrderPaymentStatus : Type 0 where
  awaiting settled : X402OrderPaymentStatus

-- The statuses "pending" and "verified" are `awaiting` and `settled`.
pub record X402OrderPayment : Type 0 where
  pub payment_identifier : String
  pub request_digest : String
  pub envelope_digest : String
  pub network : String
  pub asset : String
  pub amount_minor : ℕ
  pub currency : String
  pub recipient : String
  pub mock_tx_hash : Option String
  pub status : X402OrderPaymentStatus

pub record Compensation : Type 0 where
  pub refund_id : Option String
  pub reason : Option String
  pub ok : Bool

pub record HeldWebhook : Type 0 where
  pub event_id : String
  pub payment_id : String
  pub order_id : String

pub record Session : Type 0 where
  pub logical_order_id : String
  pub customer_id : String
  pub created_at : ℕ
  pub state : OrderState
  pub message : String
  pub intent : ParsedIntent
  pub last_ranking : Option RankingResult
  pub approval_event_id : Option String
  pub approved_digest : Option String
  pub external_order_id : Option String
  pub external_payment_id : Option String
  pub verification : Option VerificationResult
  pub compensation : Option Compensation
  pub x402_order_payment : Option X402OrderPayment
  pub held_webhook : Option HeldWebhook
  pub dialogue : DialogueMemory

pub record EnvelopeRecord : Type 0 where
  pub envelope : CommerceEnvelope
  pub digest : String
  pub signature : String
  pub issued_at : ℕ
  pub recommendation : RecommendationBinding
  pub intent_digest : String

abbrev pub optional_number : Option ℕ → Json
optional_number none = undefined
optional_number (some n) = number n

abbrev pub optional_boolean : Option Bool → Json
optional_boolean none = undefined
optional_boolean (some b) = boolean b

module _ (host : Host) where
  abbrev optional_instant : Option ℕ → Json
  optional_instant none = undefined
  optional_instant (some n) = text (host.iso n)

  abbrev intent_json : ParsedIntent → Json
  intent_json i = object (
      field "size" (optional_text i.size) (
        field "colour" (optional_text i.colour) (
          field "useCase" (optional_text i.use_case) (
            field "maxAmountMinor" (optional_number i.max_amount_minor) (
              field "mustBeReturnable" (optional_boolean i.must_be_returnable) (
                field "deliverBy" (optional_instant i.deliver_by) (
                  field "distanceKm" (optional_number i.distance_km) (
                    field "fit" (optional_text i.fit)
                      (field "cushioning" (optional_text i.cushioning) end)))))))))

  -- intentDigest.
  unfoldable pub intent_digest : ParsedIntent → String
  intent_digest i = canonical_text host (intent_json i)
