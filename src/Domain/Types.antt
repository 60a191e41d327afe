-- ===== src/Domain/Types.antt =====
-- packages/domain/src/types.ts: the mandate and the commerce envelope. Instants stand for the ISO
-- texts of `toISOString`, whose order is that of the instants; amounts are in minor units. A rail
-- or a currency is a text, since the services cast the texts of requests to them.
use agentready_commerce.Prelude.{ℕ, String, Bool, Option, List}

pub record PurchaseMandate : Type 0 where
  pub mandate_id : String
  pub customer_id : String
  pub allowed_merchant_ids : List String
  pub allowed_product_ids : Option (List String)
  pub allowed_rails : List String
  pub max_amount_minor : ℕ
  pub auto_approve_below_minor : Option ℕ
  pub expires_at : ℕ
  pub human_confirmation_required : Bool

pub record EnvelopeItem : Type 0 where
  pub product_id : String
  pub sku : String
  pub variant : List (String × String)
  pub quantity : ℕ
  pub unit_amount_minor : ℕ

-- `version` is always 1 and is written by `envelope_json`.
pub record CommerceEnvelope : Type 0 where
  pub logical_order_id : String
  pub merchant_id : String
  pub quote_id : String
  pub customer_id : String
  pub buyer_agent_id : Option String
  pub items : List EnvelopeItem
  pub subtotal_minor : ℕ
  pub tax_minor : ℕ
  pub shipping_minor : ℕ
  pub total_minor : ℕ
  pub currency : String
  pub inventory_hold_id : String
  pub return_policy_digest : String
  pub shipping_destination_digest : String
  pub mandate_id : String
  pub approval_event_id : Option String
  pub issued_at : ℕ
  pub expires_at : ℕ
  pub nonce : String
