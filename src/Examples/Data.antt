-- ===== src/Examples/Data.antt =====
-- The data of the examples: one order for a pair of shoes, and a host whose digests keep their text.
use agentready_commerce.Prelude.{true, none, some, [], ◌∷◌, ◌<>◌, Host, Call, returned, thrown}
use agentready_commerce.Domain.Order.{awaiting_approval}
use agentready_commerce.Domain.Types.{PurchaseMandate, EnvelopeItem, CommerceEnvelope}
use agentready_commerce.Domain.Canonical.{envelope_digest}
use agentready_commerce.Catalog.Evaluate.{RankingResult}
use agentready_commerce.Payments.Types.{VerificationResult, PaymentAttempt, PaymentAdapter}
use agentready_commerce.Payments.Adapters.{razorpay_rail}
use agentready_commerce.Commerce.Session.{
  ParsedIntent, DialogueMemory, RecommendationBinding, Session, EnvelopeRecord, intent_digest,
}
use agentready_commerce.Commerce.Step.{Order}

abbrev pub host : Host
host = record {
  sha256 = λ s. s;
  hmac = λ k s. k <> s;
  quote = λ s. s;
  show = λ n. "n";
  iso = λ n. "t";
  price = λ n. "p";
  whole_rupees = λ n. "p";
  fixed_rupees = λ n. "p";
  number_of = λ s. 0;
}

abbrev pub call : Call
call = record { now = 1000; new_id = λ prefix. prefix <> "_1" }

abbrev pub mandate : PurchaseMandate
mandate = record {
  mandate_id = "m1";
  customer_id = "c1";
  allowed_merchant_ids = "merchant" ∷ [];
  allowed_product_ids = some ("shoe" ∷ []);
  allowed_rails = razorpay_rail ∷ [];
  max_amount_minor = 600000;
  auto_approve_below_minor = none;
  expires_at = 9000;
  human_confirmation_required = true;
}

abbrev pub item : EnvelopeItem
item = record {
  product_id = "shoe";
  sku = "shoe-9";
  variant = ("size", "UK 9") ∷ [];
  quantity = 1;
  unit_amount_minor = 499900;
}

abbrev pub envelope : CommerceEnvelope
envelope = record {
  logical_order_id = "o1";
  merchant_id = "merchant";
  quote_id = "q1";
  customer_id = "c1";
  buyer_agent_id = none;
  items = item ∷ [];
  subtotal_minor = 499900;
  tax_minor = 0;
  shipping_minor = 4900;
  total_minor = 504800;
  currency = "INR";
  inventory_hold_id = "h1";
  return_policy_digest = "r";
  shipping_destination_digest = "d";
  mandate_id = "m1";
  approval_event_id = none;
  issued_at = 500;
  expires_at = 2000;
  nonce = "n1";
}

abbrev pub intent : ParsedIntent
intent = record {
  size = some "UK 9";
  colour = none;
  use_case = some "road";
  max_amount_minor = some 600000;
  must_be_returnable = none;
  deliver_by = none;
  distance_km = none;
  fit = none;
  cushioning = none;
}

abbrev pub binding : RecommendationBinding
binding = record {
  intent_version = 1;
  recommendation_version = 1;
  recommendation_action_token = "rec";
}

abbrev pub entry : EnvelopeRecord
entry = record {
  envelope = envelope;
  digest = envelope_digest host envelope;
  signature = "s";
  issued_at = 500;
  recommendation = binding;
  intent_digest = intent_digest host intent;
}

abbrev pub dialogue : DialogueMemory
dialogue = record {
  intent_version = 1;
  recommendation_version = 1;
  recommendation_intent_version = some 1;
  recommendation_action_token = some "rec";
  requirements = [];
  preferences = [];
  unresolved = [];
  shown_product_ids = [];
  compared_product_ids = [];
  selected_product_id = none;
  quote_product_id = some "shoe";
  quote_valid = true;
  quote_intent_version = some 1;
  quote_recommendation_version = some 1;
  quote_action_token = some "rec";
  recent_actions = [];
  evidence = [];
}

abbrev ranking : RankingResult
ranking = record { matches = []; missing = []; ranked = true }

abbrev pub session : Session
session = record {
  logical_order_id = "o1";
  customer_id = "c1";
  created_at = 100;
  state = awaiting_approval;
  message = "";
  intent = intent;
  last_ranking = some ranking;
  approval_event_id = none;
  approved_digest = none;
  external_order_id = none;
  external_payment_id = none;
  verification = none;
  compensation = none;
  x402_order_payment = none;
  held_webhook = none;
  dialogue = dialogue;
}

-- A quote that waits for its approval.
abbrev pub quoted : Order
quoted = record { session = session; envelope = some entry }

-- What a rail reports of the payment.
abbrev pub report : VerificationResult
report = record {
  verified = true;
  rail = razorpay_rail;
  external_order_id = "order_1";
  external_payment_id = "pay_1";
  amount_minor = 504800;
  currency = "INR";
  status = "captured";
  reason = none;
}

abbrev pub attempt : PaymentAttempt
attempt = record {
  attempt_id = "att_1";
  logical_order_id = "o1";
  rail = razorpay_rail;
  external_order_id = some "order_1";
  status = "created";
  created_at = 1000;
  amount_minor = 504800;
  currency = "INR";
}

abbrev pub adapter : PaymentAdapter
adapter = record {
  rail = razorpay_rail;
  is_mock = true;
  initiate = λ c e. returned attempt;
  verify = λ i. returned report;
  compensate = λ i. thrown "not available";
}
