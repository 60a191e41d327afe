-- ===== src/Catalog.antt =====
-- packages/catalog/src/catalog.ts: products, the catalogue, shipping.
pub mod Seed
pub mod Evaluate
pub mod Ranking
use agentready_commerce.Prelude.{ℕ, ◌+◌, ◌*◌, String, Bool, List}

pub record CatalogVariant : Type 0 where
  pub sku : String
  pub size : String
  pub in_stock : ℕ

-- `rating` is Kept in tenths, and `description` and `image` are not there: the browser alone reads
-- them.
pub record CatalogProduct : Type 0 where
  pub product_id : String
  pub name : String
  pub brand : String
  pub category : String
  pub use_case : String
  pub fit : String
  pub cushioning : String
  pub colour : List String
  pub price_minor : ℕ
  pub currency : String
  pub typical_distance_km : ℕ
  pub returnable : Bool
  pub delivery_lead_days : ℕ
  pub rating_tenths : ℕ
  pub variants : List CatalogVariant

pub record ReturnPolicy : Type 0 where
  pub policy_id : String
  pub returnable : Bool
  pub window_days : ℕ
  pub condition : String

pub record ShippingEstimate : Type 0 where
  pub lead_days : ℕ
  pub deliver_by : ℕ
  pub fee_minor : ℕ

pub record Catalog : Type 0 where
  pub merchant_id : String
  pub merchant_name : String
  pub products : List CatalogProduct
  pub return_policy : ReturnPolicy

abbrev pub variant : String → String → ℕ → CatalogVariant
variant sku size in_stock = record { sku = sku; size = size; in_stock = in_stock }

-- A day in milliseconds: `setDate` moves the date by whole days of the server's zone, which has no
-- summer time.
abbrev pub day_ms : ℕ
day_ms = 86400000

unfoldable pub estimate_shipping : ℕ → ℕ → ShippingEstimate
estimate_shipping lead_days from = record {
  lead_days = lead_days;
  deliver_by = from + lead_days * day_ms;
  fee_minor = 4900;
}
