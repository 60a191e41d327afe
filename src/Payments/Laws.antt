-- ===== src/Payments/Laws.antt =====
-- packages/payments/src/razorpay.ts and mock-razorpay.ts: what a positive verification proves.
use agentready_commerce.Prelude.{
  String, ◌≡◌, refl, subst, ◌⊎◌, inl, inr, Bool, true, false, not, ◌||◌, ◌&&◌, Option, none, some,
  arith, ◌==◌, ◌<>◌, Host, Outcome, returned, thrown, eq_iff, get_or_else, is_set, Bool-cases,
  Option-cases,
}
use agentready_commerce.Payments.Types.{VerificationInput, VerificationResult}
use agentready_commerce.Payments.Adapters.{
  RazorpayApi, RazorpayConfig, RemotePayment, MockRazorpayConfig, razorpay_signature, of_payment,
  mock_verify, remote_verify, registry_adapter, default_mock,
}

module _ (host : Host) where
  -- The signature that the holder of the secret gives for an order and a payment.
  abbrev pub Signed : String → VerificationInput → Type 0
  Signed secret i =
      i.signature
      ≡ some (razorpay_signature host secret (i.external_order_id <> "|" <> i.external_payment_id))

  abbrev message : VerificationInput → String
  message i = i.external_order_id <> "|" <> i.external_payment_id

  mock_verify-Signed :
      (c : MockRazorpayConfig) (i : VerificationInput)
      → (mock_verify host c i).verified ≡ true
      → Signed c.key_secret i
  unfolding mock_verify
  mock_verify-Signed c i h = elim (Option-cases i.signature) [
    | inl missing ↦ cc (rw (missing, mock_verify) at h)
    | inr (s, given) ↦
        ground (arith, rw (given, mock_verify) at h, eq_iff (host.hmac c.key_secret (message i)) s)
  ]

  module _ (api : RazorpayApi) where
    -- What the real adapter has learnt of a payment that it calls verified.
    abbrev pub Fetched : VerificationInput → VerificationResult → Type 0
    Fetched i r =
        (p : RemotePayment) × (api.payment i.external_payment_id ≡ returned p)
        × (r.amount_minor ≡ p.amount)
        × (r.currency ≡ p.currency)
        × (r.status ≡ p.status)
        × ((p.status ≡ "captured") ⊎ (p.status ≡ "authorized"))

    remote_verify-Fetched :
        (c : RazorpayConfig) (i : VerificationInput) (r : VerificationResult)
        → remote_verify host api c i ≡ returned r
        → r.verified ≡ true
        → Signed c.key_secret i × Fetched i r
    unfolding remote_verify
    remote_verify-Fetched c i r e h = elim (Option-cases i.signature) [
      | inl missing ↦ cc (rw (missing, remote_verify) at e)
      | inr (s, given) ↦ fetched s given (api.payment i.external_payment_id) refl
    ]
      where
        captured_or_authorized :
            (s : String)
            → (s == "captured" || s == "authorized") ≡ true
            → (s ≡ "captured") ⊎ (s ≡ "authorized")
        captured_or_authorized s x = ground (arith, eq_iff s "captured", eq_iff s "authorized")

        fetched :
            (s : String)
            → i.signature ≡ some s
            → (o : Outcome RemotePayment) → api.payment i.external_payment_id ≡ o
            → Signed c.key_secret i × Fetched i r
        fetched s given (thrown m) answer = ground (
          arith,
          rw (given, remote_verify) at e,
          answer,
          eq_iff (host.hmac c.key_secret (message i)) s,
        )
        fetched s given (returned p) answer =
            let good = rw (given, remote_verify) at e in
            let sign = eq_iff (host.hmac c.key_secret (message i)) s in
            let known : r ≡ of_payment host api i p = ground (arith, good, answer, sign) in
            (
              ground (arith, good, answer, sign),
              (
                p,
                answer,
                rw known,
                rw known,
                rw known,
                captured_or_authorized p.status (rw known at h),
              ),
            )

    -- Whichever adapter the configuration gives, a payment that it reports as verified carries the
    -- signature that the configured secret (`mock_secret` if there is none) gives for that order and
    -- payment; and with a key, a secret and no forced mock, the service reported that payment as
    -- captured or authorized, with the amount, the currency and the status of the result.
    pub registry_adapter-verify :
        (key_id key_secret : Option String) (force_mock : Bool) (i : VerificationInput)
        (r : VerificationResult)
        → (registry_adapter host api key_id key_secret force_mock).verify i ≡ returned r
        → r.verified ≡ true
        → Signed (get_or_else key_secret "mock_secret") i
          × (force_mock ≡ false → is_set key_id ≡ true → is_set key_secret ≡ true → Fetched i r)
    unfolding registry_adapter
    registry_adapter-verify key_id key_secret force_mock i r e h =
        elim (Bool-cases (not force_mock && (is_set key_id && is_set key_secret))) [
          | inl real ↦
              let (signed, fetched) = remote_verify-Fetched _ i r (rw real at e) h in
              (
                subst (λ s. Signed s i) (same_secret key_secret (ground arith)) signed,
                λ _ _ _. fetched,
              )
          | inr mock ↦
              let c = default_mock key_id key_secret in
              let known : mock_verify host c i ≡ r = returned_inj (rw mock at e) in
              (mock_verify-Signed c i (rw known h), λ f k s. ground arith)
        ]
      where
        same_secret :
            (o : Option String) → is_set o ≡ true → get_or_else o "" ≡ get_or_else o "mock_secret"
        same_secret none p = cc
        same_secret (some s) p = refl

        returned_inj : {A : Type 0} {a b : A} → returned a ≡ returned b → a ≡ b
        returned_inj p = cc
