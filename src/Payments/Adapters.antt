-- ===== src/Payments/Adapters.antt =====
-- packages/payments/src/razorpay.ts, mock-razorpay.ts and registry.ts.
use agentready_commerce.Prelude.{
  ℕ, String, Bool, true, false, not, ◌&&◌, ◌||◌, Option, none, some, List, ◌==◌, ◌<>◌, Host, Call,
  Outcome, returned, thrown, ◌>>=◌, if◌then◌else◌, get_or_else, is_set, truthy, find_first,
}
use agentready_commerce.Domain.Types.{CommerceEnvelope}
use agentready_commerce.Domain.Canonical.{envelope_digest}
use agentready_commerce.Payments.Types.{
  PaymentAttempt, VerificationInput, VerificationResult, CompensationInput, CompensationResult,
  PaymentAdapter,
}

abbrev pub razorpay_rail : String
razorpay_rail = "razorpay_checkout"

-- An order, a payment and a refund of the Razorpay service.
pub record RemoteOrder : Type 0 where
  pub id : String
  pub amount : ℕ
  pub currency : String

pub record RemotePayment : Type 0 where
  pub id : String
  pub order_id : Option String
  pub amount : ℕ
  pub currency : String
  pub status : String

pub record OrderRequest : Type 0 where
  pub amount : ℕ
  pub currency : String
  pub receipt : String
  pub logical_order_id : String
  pub quote_id : String
  pub envelope_hash : String

pub record RefundRequest : Type 0 where
  pub amount : ℕ
  pub logical_order_id : String
  pub reason : String

-- What the private `request` method answers for the three paths: a body, or the error it throws.
pub record RazorpayApi : Type 0 where
  pub create_order : OrderRequest → Outcome RemoteOrder
  pub payment : String → Outcome RemotePayment
  pub refund : String → RefundRequest → Outcome String

pub record Simulation : Type 0 where
  pub status : Option String
  pub amount_minor : Option ℕ
  pub currency : Option String
  pub order_id : Option String

pub record MockRazorpayConfig : Type 0 where
  pub key_id : String
  pub key_secret : String
  pub fail_initiate : Bool
  pub simulate_payment : Option Simulation

pub record RazorpayConfig : Type 0 where
  pub key_id : String
  pub key_secret : String

abbrev no_simulation : Simulation
no_simulation = record { status = none; amount_minor = none; currency = none; order_id = none }

-- The mock that the registry builds.
abbrev pub default_mock : Option String → Option String → MockRazorpayConfig
default_mock key_id key_secret = record {
  key_id = get_or_else key_id "rzp_test_mock";
  key_secret = get_or_else key_secret "mock_secret";
  fail_initiate = false;
  simulate_payment = none;
}

-- The answer to a bad signature, of both adapters.
abbrev pub unverified : VerificationInput → String → VerificationResult
unverified i why = record {
  verified = false;
  rail = razorpay_rail;
  external_order_id = i.external_order_id;
  external_payment_id = i.external_payment_id;
  amount_minor = 0;
  currency = "INR";
  status = "failed";
  reason = some why;
}

module _ (host : Host) where
  -- razorpaySignature.
  unfoldable pub razorpay_signature : String → String → String
  razorpay_signature secret payload = host.hmac secret payload

  unfoldable pub verify_razorpay_payment_signature : String → String → String → String → Bool
  unfolding razorpay_signature
  verify_razorpay_payment_signature secret order payment signature =
      razorpay_signature secret (order <> "|" <> payment) == signature

  unfoldable pub verify_razorpay_webhook_signature : String → String → String → Bool
  unfolding razorpay_signature
  verify_razorpay_webhook_signature secret body signature =
      razorpay_signature secret body == signature

  mock_signature_ok : MockRazorpayConfig → VerificationInput → Option String → Bool
  unfolding razorpay_signature
  mock_signature_ok c i none = false
  mock_signature_ok c i (some s) =
      razorpay_signature c.key_secret (i.external_order_id <> "|" <> i.external_payment_id) == s

  abbrev simulated : Simulation → VerificationInput → VerificationResult
  simulated sim i = record {
    verified = true;
    rail = razorpay_rail;
    external_order_id = get_or_else sim.order_id i.external_order_id;
    external_payment_id = i.external_payment_id;
    amount_minor = get_or_else sim.amount_minor (get_or_else i.expected_amount_minor 0);
    currency = get_or_else sim.currency "INR";
    status = get_or_else sim.status "captured";
    reason = none;
  }

  unfoldable pub mock_initiate :
      MockRazorpayConfig → Call → CommerceEnvelope → Outcome PaymentAttempt
  mock_initiate c call e =
      if c.fail_initiate
      then thrown "MOCK Razorpay: order creation failed (simulated outage)"
      else returned (record {
        attempt_id = call.new_id "att";
        logical_order_id = e.logical_order_id;
        rail = razorpay_rail;
        external_order_id = some ("order_MOCK_" <> e.logical_order_id);
        status = "created";
        created_at = call.now;
        amount_minor = e.total_minor;
        currency = e.currency;
      })

  unfoldable pub mock_verify : MockRazorpayConfig → VerificationInput → VerificationResult
  unfolding mock_signature_ok
  mock_verify c i =
      if mock_signature_ok c i i.signature
      then simulated (get_or_else c.simulate_payment no_simulation) i
      else unverified i "Invalid signature (mock)"

  unfoldable pub mock_compensate : CompensationInput → CompensationResult
  mock_compensate i = record {
    compensated = true;
    rail = razorpay_rail;
    refund_id = some ("rfnd_MOCK_" <> i.external_payment_id);
    reason = some ("MOCK refund for " <> i.reason);
  }

  -- MockRazorpayAdapter.
  abbrev pub mock_adapter : MockRazorpayConfig → PaymentAdapter
  mock_adapter c = record {
    rail = razorpay_rail;
    is_mock = true;
    initiate = mock_initiate c;
    verify = λ i. returned (mock_verify c i);
    compensate = λ i. returned (mock_compensate i);
  }

  module _ (api : RazorpayApi) where
    unfoldable pub remote_initiate : Call → CommerceEnvelope → Outcome PaymentAttempt
    remote_initiate call e = do
      order ← api.create_order (record {
        amount = e.total_minor;
        currency = e.currency;
        receipt = "logical_" <> e.logical_order_id;
        logical_order_id = e.logical_order_id;
        quote_id = e.quote_id;
        envelope_hash = envelope_digest host e;
      })
      returned (record {
        attempt_id = call.new_id "att";
        logical_order_id = e.logical_order_id;
        rail = razorpay_rail;
        external_order_id = some order.id;
        status = "created";
        created_at = call.now;
        amount_minor = order.amount;
        currency = order.currency;
      })

    abbrev pub of_payment : VerificationInput → RemotePayment → VerificationResult
    of_payment i p =
        let captured = p.status == "captured" || p.status == "authorized" in
        record {
          verified = captured;
          rail = razorpay_rail;
          external_order_id = get_or_else p.order_id i.external_order_id;
          external_payment_id = p.id;
          amount_minor = p.amount;
          currency = p.currency;
          status = p.status;
          reason = if captured then none else some ("Razorpay payment status: " <> p.status);
        }

    remote_verify_signed :
        RazorpayConfig → VerificationInput → Option String → Outcome VerificationResult
    remote_verify_signed c i none = returned (unverified i "Missing signature")
    remote_verify_signed c i (some s) =
        if not (truthy s)
        then returned (unverified i "Missing signature")
        else if verify_razorpay_payment_signature c.key_secret i.external_order_id
            i.external_payment_id s
        then (api.payment i.external_payment_id >>= λ p. returned (of_payment i p))
        else returned (unverified i "Invalid Razorpay signature")

    unfoldable pub remote_verify : RazorpayConfig → VerificationInput → Outcome VerificationResult
    unfolding remote_verify_signed verify_razorpay_payment_signature
    remote_verify c i = remote_verify_signed c i i.signature

    unfoldable pub remote_compensate : CompensationInput → Outcome CompensationResult
    remote_compensate i = do
      id ← api.refund i.external_payment_id (record {
        amount = i.amount_minor;
        logical_order_id = i.logical_order_id;
        reason = i.reason;
      })
      returned
          (record { compensated = true; rail = razorpay_rail; refund_id = some id; reason = none })

    -- RazorpayAdapter.
    abbrev pub razorpay_adapter : RazorpayConfig → PaymentAdapter
    razorpay_adapter c = record {
      rail = razorpay_rail;
      is_mock = false;
      initiate = remote_initiate;
      verify = remote_verify c;
      compensate = remote_compensate;
    }

    -- createAdapterRegistry: one adapter, the real one only with a key id and a secret.
    unfoldable pub registry_adapter : Option String → Option String → Bool → PaymentAdapter
    registry_adapter key_id key_secret force_mock =
        if not force_mock && (is_set key_id && is_set key_secret)
        then razorpay_adapter
            (record { key_id = get_or_else key_id ""; key_secret = get_or_else key_secret "" })
        else mock_adapter (default_mock key_id key_secret)

-- `registry.get(rail)` and `registry.isMock(rail)`.
unfoldable pub registry_get : List PaymentAdapter → String → Option PaymentAdapter
registry_get adapters rail = find_first (λ a. a.rail == rail) adapters

abbrev mock_flag : Option PaymentAdapter → Bool
mock_flag none = true
mock_flag (some a) = a.is_mock

unfoldable pub registry_is_mock : List PaymentAdapter → String → Bool
unfolding registry_get
registry_is_mock adapters rail = mock_flag (registry_get adapters rail)
