-- ===== src/Commerce/Verify/Binding.antt =====
-- apps/web/lib/services.ts, verifyPayment: the check that a payment is the approved one.
use agentready_commerce.Prelude.{
  String, ◌≡◌, refl, Bool, true, false, some, List, [], ◌++◌, eqb_iff, eq_iff, =?_iff, Host,
}
use agentready_commerce.Payments.Types.{VerificationResult}
use agentready_commerce.Commerce.Session.{Session, EnvelopeRecord}
use agentready_commerce.Commerce.Verify.{failure_unless, binding_failures}

-- The payment that the adapter reports is the one that was approved: the session's order, the
-- envelope's amount and currency, and captured.
pub record Bound (s : Session) (r : EnvelopeRecord) (v : VerificationResult) : Type 0 where
  pub order_id : s.external_order_id ≡ some v.external_order_id
  pub amount : v.amount_minor ≡ r.envelope.total_minor
  pub currency : v.currency ≡ r.envelope.currency
  pub captured : v.status ≡ "captured"

pub failure_unless-nil :
    (b : Bool) (why : String) (rest : List String)
    → failure_unless b why ++ rest ≡ []
    → (b ≡ true) × (rest ≡ [])
failure_unless-nil true why rest h = (refl, h)
failure_unless-nil false why rest h = cc

pub failure_unless-nil_last : (b : Bool) (why : String) → failure_unless b why ≡ [] → b ≡ true
failure_unless-nil_last true why h = refl
failure_unless-nil_last false why h = cc

module _ (host : Host) where
  pub binding_failures-Bound :
      (s : Session) (r : EnvelopeRecord) (v : VerificationResult)
      → binding_failures host s r v ≡ []
      → Bound s r v
  unfolding binding_failures
  binding_failures-Bound s r v h =
      let (a, h1) = failure_unless-nil _ _ _ h in
      let (b, h2) = failure_unless-nil _ _ _ h1 in
      let (c, h3) = failure_unless-nil _ _ _ h2 in
      record {
        order_id = (=?_iff _ _).0 a;
        amount = (eqb_iff _ _).0 b;
        currency = (eq_iff _ _).0 c;
        captured = (eq_iff _ _).0 (failure_unless-nil_last _ _ h3);
      }
