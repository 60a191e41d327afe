-- ===== src/Domain/Policy.antt =====
-- packages/domain/src/policy.ts: the check before a payment, and the material changes between two
-- envelopes.
pub mod Laws
use agentready_commerce.Prelude.{
  ℕ, String, Bool, true, false, not, ◌&&◌, ◌||◌, Option, none, some, List, [], ◌∷◌, ◌++◌, map, ltb,
  leb, eqb, ◌==◌, includes, is_set, truthy, if◌then◌else◌, Host, keep,
}
use agentready_commerce.Domain.Types.{PurchaseMandate, EnvelopeItem, CommerceEnvelope}
use agentready_commerce.Domain.Canonical.{envelope_digest}

pub data Decision : Type 0 where
  allowed blocked review : Decision

-- PolicyVerdict, without its `details` prose.
pub record PolicyVerdict : Type 0 where
  pub allow : Bool
  pub decision : Decision
  pub reason_codes : List String

pub record CheckEnvelopeInput : Type 0 where
  pub envelope : CommerceEnvelope
  pub mandate : Option PurchaseMandate
  pub expected_digest : String
  pub rail : Option String
  pub approved : Bool
  pub allow_auto_approve : Bool
  pub now : ℕ

-- `codes.push(code)` under a test.
abbrev pub code_if : Bool → String → List String
code_if true code = code ∷ []
code_if false code = []

-- `new Set(xs)`, in the order of the first occurrences.
unfoldable pub distinct_from : List String → List String → List String
distinct_from seen [] = []
distinct_from seen (x ∷ xs) =
    let next = distinct_from (x ∷ seen) xs in
    let rest = distinct_from seen xs in if includes seen x then rest else x ∷ next

abbrev pub item_ids : List EnvelopeItem → List String
item_ids items = map (λ i. i.product_id) items

unfoldable pub product_codes_of : List String → List String → List String
product_codes_of allowed_ids [] = []
product_codes_of allowed_ids (p ∷ ps) =
    code_if (not (includes allowed_ids p)) "mandate_product_not_allowed"
    ++ product_codes_of allowed_ids ps

unfoldable pub product_codes : Option (List String) → List EnvelopeItem → List String
unfolding distinct_from product_codes_of
product_codes none items = []
product_codes (some allowed_ids) items =
    product_codes_of allowed_ids (distinct_from [] (item_ids items))

-- `rail && !mandate.allowedRails.includes(rail)`.
unfoldable pub rail_refused : Option String → List String → Bool
rail_refused none rails = false
rail_refused (some r) rails = truthy r && not (includes rails r)

-- `(mandate.autoApproveBelowMinor ?? -1) >= envelope.totalMinor`.
unfoldable pub auto_approvable : Option ℕ → ℕ → Bool
auto_approvable none total = false
auto_approvable (some below) total = leb total below

-- `approved || (allowAutoApprove && ...)`.
unfoldable pub is_approved : CheckEnvelopeInput → PurchaseMandate → Bool
unfolding auto_approvable
is_approved i m =
    i.approved
    || (i.allow_auto_approve && auto_approvable m.auto_approve_below_minor i.envelope.total_minor)

-- The codes that are pushed once the digest and the mandate are there.
unfoldable pub mandate_codes : CheckEnvelopeInput → PurchaseMandate → List String
unfolding product_codes rail_refused is_approved
mandate_codes i m =
    code_if (not (includes m.allowed_merchant_ids i.envelope.merchant_id))
      "mandate_merchant_not_allowed"
    ++ (product_codes m.allowed_product_ids i.envelope.items
        ++ (code_if (rail_refused i.rail m.allowed_rails) "mandate_rail_not_allowed"
            ++ (code_if (ltb m.max_amount_minor i.envelope.total_minor) "mandate_amount_exceeded"
                ++ (code_if (ltb m.expires_at i.now) "mandate_expired"
                    ++ (code_if (ltb i.envelope.expires_at i.now) "envelope_expired"
                        ++ (code_if (not (is_approved i m)) "envelope_not_approved"
                            ++ code_if (m.human_confirmation_required && not i.approved)
                                "mandate_human_confirmation_required"))))))

abbrev pub verdict_of : List String → PolicyVerdict
verdict_of [] = record { allow = true; decision = allowed; reason_codes = "ok" ∷ [] }
verdict_of (c ∷ cs) = record {
  allow = false;
  decision = if includes (c ∷ cs) "mandate_amount_exceeded" then review else blocked;
  reason_codes = c ∷ cs;
}

abbrev pub blocked_by : String → PolicyVerdict
blocked_by code = record { allow = false; decision = blocked; reason_codes = code ∷ [] }

unfoldable pub mandate_verdict : CheckEnvelopeInput → Option PurchaseMandate → PolicyVerdict
unfolding mandate_codes
mandate_verdict i none = blocked_by "mandate_not_found"
mandate_verdict i (some m) = verdict_of (mandate_codes i m)

module _ (host : Host) where
  unfoldable pub check_envelope_for_payment : CheckEnvelopeInput → PolicyVerdict
  unfolding mandate_verdict
  check_envelope_for_payment i =
      if envelope_digest host i.envelope == i.expected_digest
      then mandate_verdict i i.mandate
      else blocked_by "envelope_tampered"
