-- ===== src/Devnet/Terms.antt =====
-- packages/payments/src/x402.ts: the terms of a machine payment, and what the facilitator answers.
pub mod Meets
use agentready_commerce.Prelude.{
  ℕ, String, ◌++◌, List, Bool, true, false, not, Option, none, some, Host, Outcome, returned,
  thrown, ◌>>=◌, ◌=?◌, ◌<>◌, ltb, if◌then◌else◌, is_set, get_or_else,
}
use agentready_commerce.Settlement.Release.{reason_if}

-- The configuration of the resource that the handlers read.
pub record DevnetConfig : Type 0 where
  pub payee_public_key : String
  pub devnet_usdc_mint : String
  pub payer_public_key : String
  pub facilitator_url : String
  pub amount_minor : ℕ

abbrev pub solana_devnet : String
solana_devnet = "solana:EtWTRABZaYq6iMfeYKouRu166VU2xqa1"

abbrev pub resource_url : String
resource_url = "/api/resources/premium-fit-score"

unfoldable pub memo_for_envelope : String → String
memo_for_envelope hash = "agentcart:v1:" <> hash

unfoldable pub is_memo_valid : Option String → String → Bool
is_memo_valid memo expected = memo =? expected

pub record ToolSpendRequest : Type 0 where
  pub order_id : String
  pub intent_version : ℕ
  pub resource : String
  pub amount_minor : ℕ
  pub network : String
  pub asset : String
  pub payee : String
  pub purpose : String

unfoldable pub build_devnet_tool_spend_request : DevnetConfig → String → ℕ → ToolSpendRequest
build_devnet_tool_spend_request config order version = record {
  order_id = order;
  intent_version = version;
  resource = resource_url;
  amount_minor = config.amount_minor;
  network = solana_devnet;
  asset = config.devnet_usdc_mint;
  payee = config.payee_public_key;
  purpose = "fit_scoring";
}

-- `JSON.stringify` of an object with these keys in this order.
unfoldable pub canonical_tool_spend_request_digest : Host → ToolSpendRequest → String
canonical_tool_spend_request_digest host r = host.sha256 (
    "{\"orderId\":"
    <> host.quote r.order_id
    <> ",\"intentVersion\":"
    <> host.show r.intent_version
    <> ",\"resource\":"
    <> host.quote r.resource
    <> ",\"amountMinor\":"
    <> host.show r.amount_minor
    <> ",\"network\":"
    <> host.quote r.network
    <> ",\"asset\":"
    <> host.quote r.asset
    <> ",\"payee\":"
    <> host.quote r.payee
    <> ",\"purpose\":"
    <> host.quote r.purpose
    <> "}")

pub record CanonicalRequirements : Type 0 where
  pub scheme : String
  pub network : String
  pub asset : String
  pub amount : String
  pub pay_to : String
  pub max_timeout_seconds : ℕ
  pub memo : String

unfoldable pub build_canonical_requirements : Host → DevnetConfig → String → CanonicalRequirements
unfolding memo_for_envelope
build_canonical_requirements host config digest = record {
  scheme = "exact";
  network = solana_devnet;
  asset = config.devnet_usdc_mint;
  amount = host.show config.amount_minor;
  pay_to = config.payee_public_key;
  max_timeout_seconds = 300;
  memo = memo_for_envelope digest;
}

-- The requirements that a signed payload accepted.
pub record Supplied : Type 0 where
  pub scheme : Option String
  pub network : Option String
  pub asset : Option String
  pub amount : Option String
  pub pay_to : Option String
  pub memo : Option String
  pub fee_payer : Option String

unfoldable pub underpaid : Option ℕ → Option ℕ → Outcome (List String)
underpaid none c = thrown "SyntaxError"
underpaid (some s) none = thrown "SyntaxError"
underpaid (some s) (some c) = returned (reason_if (ltb s c) "underpayment")

-- `big_int` is `BigInt` of a text, which throws where that is no number. An amount that is missing is
-- not compared. The texts of the errors are shortened to their kind.
unfoldable pub verify_canonical_requirements :
    (String → Option ℕ) → Supplied → CanonicalRequirements → Outcome (List String)
unfolding underpaid
verify_canonical_requirements big_int s c =
    let errors =
      reason_if (not (s.scheme =? c.scheme)) "scheme"
      ++ reason_if (not (s.network =? c.network)) "wrong network"
      ++ reason_if (not (s.asset =? c.asset)) "wrong asset"
      ++ reason_if (not (s.pay_to =? c.pay_to)) "wrong payee"
      ++ reason_if (not (s.memo =? c.memo)) "memo mismatch" in
    compare_amount errors s.amount
  where
    compare_amount : List String → Option String → Outcome (List String)
    compare_amount errors none = returned errors
    compare_amount errors (some a) =
        underpaid (big_int a) (big_int c.amount) >>= λ short. returned (errors ++ short)

pub record AdaptedSettlement : Type 0 where
  pub success : Bool
  pub transaction_hash : String
  pub payer : String
  pub payee : String
  pub network : String
  pub asset : String
  pub amount : String
  pub facilitator_url : String
  pub payment_identifier : String

-- What the facilitator answered to a settlement.
pub record RawSettlement : Type 0 where
  pub success : Bool
  pub transaction : Option String
  pub network : Option String
  pub payer : Option String
  pub amount : Option String

-- `raw.amount || overrides.amount`.
unfoldable pub either_text : Option String → Option String → Option String
either_text a b = if is_set a then a else b

unfoldable pub adapted_with :
    Bool
    → String
    → String
    → String
    → RawSettlement
    → DevnetConfig
    → String
    → Option String
    → Outcome AdaptedSettlement
adapted_with success transaction payer network raw config payment amount =
    if not (is_set amount)
    then thrown
        "Settlement did not provide an amount and no verified canonical amount was available."
    else returned (record {
      success = success;
      transaction_hash = transaction;
      payer = payer;
      payee = config.payee_public_key;
      network = network;
      asset = config.devnet_usdc_mint;
      amount = get_or_else amount "";
      facilitator_url = config.facilitator_url;
      payment_identifier = payment;
    })

unfoldable pub adapt_settlement :
    RawSettlement → DevnetConfig → String → Option String → Outcome AdaptedSettlement
unfolding either_text adapted_with
adapt_settlement raw config payment amount =
    if not raw.success
    then adapted_with false (get_or_else raw.transaction "") (get_or_else raw.payer "")
        (get_or_else raw.network "") raw config payment (either_text raw.amount amount)
    else if not (is_set raw.transaction)
    then thrown "Settlement returned success but no transaction signature was provided."
    else if not (is_set raw.payer)
    then thrown "Settlement returned success but no payer was provided."
    else adapted_with true (get_or_else raw.transaction "") (get_or_else raw.payer "")
        (get_or_else raw.network solana_devnet) raw config payment (either_text raw.amount amount)
