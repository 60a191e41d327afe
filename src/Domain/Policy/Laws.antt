-- ===== src/Domain/Policy/Laws.antt =====
-- packages/domain/src/policy.ts: exactly when a payment is allowed.
use agentready_commerce.Prelude.{
  ℕ, String, ◌≤◌, ◌≡◌, refl, sym, subst, ◌↔◌, ◌⊎◌, inl, inr, Bool, true, false, not, ◌&&◌, Option,
  none, some, List, [], ◌∷◌, ◌++◌, arith, ap, ltb, ◌==◌, eq_iff, includes, Host, All, Bool-cases,
}
use agentready_commerce.Domain.Types.{PurchaseMandate, EnvelopeItem}
use agentready_commerce.Domain.Canonical.{envelope_digest}
use agentready_commerce.Domain.Policy.{
  CheckEnvelopeInput, code_if, distinct_from, item_ids, product_codes_of, product_codes,
  rail_refused, is_approved, mandate_codes, verdict_of, mandate_verdict, check_envelope_for_payment,
}

append-eq-nil {ℓ} : {A : Type ℓ} (xs ys : List A) → (xs ++ ys ≡ []) ↔ ((xs ≡ []) × (ys ≡ []))
append-eq-nil [] ys = (λ h. (refl, h), λ h. h.1)
append-eq-nil (x ∷ xs) ys = (λ h. cc, λ h. cc (h.0))

code_if-eq-nil : (b : Bool) (c : String) → (code_if b c ≡ []) ↔ (b ≡ false)
code_if-eq-nil true c = (λ h. cc, λ h. cc)
code_if-eq-nil false c = (λ h. refl, λ h. refl)

-- A text stands in a list.
abbrev pub Among : String → List String → Type 0
Among x [] = ⊥
Among x (y ∷ ys) = (y ≡ x) ⊎ Among x ys

pub includes_iff : (xs : List String) (x : String) → (includes xs x ≡ true) ↔ Among x xs
includes_iff [] x = (λ h. cc, λ h. absurd h)
includes_iff (y ∷ ys) x = (
  λ h. ground (arith, eq_iff y x, (includes_iff ys x).0),
  λ h. ground (arith, eq_iff y x, (includes_iff ys x).1),
)

-- The products that a mandate names cover the items.
abbrev pub Covers : List String → List String → Type 0
Covers ids = All (λ p. Among p ids)

product_codes_of-distinct :
    (ids seen ps : List String)
    → ((y : String) → includes seen y ≡ true → Among y ids)
    → (product_codes_of ids (distinct_from seen ps) ≡ []) ↔ Covers ids ps
unfolding product_codes_of distinct_from
product_codes_of-distinct ids seen [] known = (λ h. tt, λ h. refl)
product_codes_of-distinct ids seen (p ∷ ps) known = elim (Bool-cases (includes seen p)) [
  | inl old ↦
      let rest = product_codes_of-distinct ids seen ps known in
      rw old (λ h. (known p old, rest.0 h), λ h. rest.1 h.1)
  | inr new ↦ elim (Bool-cases (includes ids p)) [
    | inl good ↦
        let here : Among p ids = (includes_iff ids p).0 good in
        let rest = product_codes_of-distinct ids (p ∷ seen) ps (λ y h. elim (Bool-cases (p == y)) [
          | inl e ↦ subst (λ z. Among z ids) ((eq_iff p y).0 e) here
          | inr e ↦ known y (ground arith)
        ]) in
        rw (new, good) (λ h. (here, rest.0 h), λ h. rest.1 h.1)
    | inr bad ↦ rw (new, bad) (λ h. cc, λ h. cc ((includes_iff ids p).1 h.0))
  ]
]

abbrev pub ProductsCovered : Option (List String) → List EnvelopeItem → Type 0
ProductsCovered none items = Unit
ProductsCovered (some ids) items = Covers ids (item_ids items)

product_codes_iff :
    (allowed_ids : Option (List String)) (items : List EnvelopeItem)
    → (product_codes allowed_ids items ≡ []) ↔ ProductsCovered allowed_ids items
unfolding product_codes
product_codes_iff none items = (λ h. tt, λ h. refl)
product_codes_iff (some ids) items = product_codes_of-distinct ids [] (item_ids items) (λ y h. cc)

-- A rail is named and not the empty text only if the mandate has it.
abbrev pub RailCovered : Option String → List String → Type 0
RailCovered none rails = Unit
RailCovered (some r) rails = (r ≡ "") ⊎ Among r rails

rail_refused_iff :
    (rail : Option String) (rails : List String)
    → (rail_refused rail rails ≡ false) ↔ RailCovered rail rails
unfolding rail_refused
rail_refused_iff none rails = (λ h. tt, λ h. refl)
rail_refused_iff (some r) rails = (
  λ h. ground (arith, eq_iff r "", (includes_iff rails r).0),
  λ h. ground (arith, eq_iff r "", (includes_iff rails r).1),
)

abbrev pub WithinAutoApproval : Option ℕ → ℕ → Type 0
WithinAutoApproval none total = ⊥
WithinAutoApproval (some below) total = total ≤ below

-- An approval by the customer, or by the mandate's own limit where the caller allows that.
abbrev pub Authorised : CheckEnvelopeInput → PurchaseMandate → Type 0
Authorised i m =
    (i.approved ≡ true)
    ⊎ ((i.allow_auto_approve ≡ true)
        × WithinAutoApproval m.auto_approve_below_minor i.envelope.total_minor)

is_approved_iff :
    (i : CheckEnvelopeInput) (m : PurchaseMandate) → (is_approved i m ≡ true) ↔ Authorised i m
unfolding is_approved
is_approved_iff i m = (λ h. ground arith, λ h. ground arith)

-- What a mandate asks of a payment, said without the code's list of reasons.
pub record Meets (i : CheckEnvelopeInput) (m : PurchaseMandate) : Type 0 where
  pub merchant : Among i.envelope.merchant_id m.allowed_merchant_ids
  pub products : ProductsCovered m.allowed_product_ids i.envelope.items
  pub rail : RailCovered i.rail m.allowed_rails
  pub amount : i.envelope.total_minor ≤ m.max_amount_minor
  pub mandate_live : i.now ≤ m.expires_at
  pub envelope_live : i.now ≤ i.envelope.expires_at
  pub authorised : Authorised i m
  pub confirmed : m.human_confirmation_required ≡ true → i.approved ≡ true

ltb-false_iff : (a b : ℕ) → (ltb a b ≡ false) ↔ (b ≤ a)
ltb-false_iff a b = (λ h. ground arith, λ h. ground arith)

not-false : (b : Bool) → not b ≡ false → b ≡ true
not-false true h = refl
not-false false h = cc

mandate_codes-Meets :
    (i : CheckEnvelopeInput) (m : PurchaseMandate) → mandate_codes i m ≡ [] → Meets i m
unfolding mandate_codes
mandate_codes-Meets i m h =
    let (c1, h1) = (append-eq-nil _ _).0 h in
    let (c2, h2) = (append-eq-nil _ _).0 h1 in
    let (c3, h3) = (append-eq-nil _ _).0 h2 in
    let (c4, h4) = (append-eq-nil _ _).0 h3 in
    let (c5, h5) = (append-eq-nil _ _).0 h4 in
    let (c6, h6) = (append-eq-nil _ _).0 h5 in
    let (c7, c8) = (append-eq-nil _ _).0 h6 in
    record {
      merchant = (includes_iff _ _).0 (not-false _ ((code_if-eq-nil _ _).0 c1));
      products = (product_codes_iff _ _).0 c2;
      rail = (rail_refused_iff _ _).0 ((code_if-eq-nil _ _).0 c3);
      amount = (ltb-false_iff _ _).0 ((code_if-eq-nil _ _).0 c4);
      mandate_live = (ltb-false_iff _ _).0 ((code_if-eq-nil _ _).0 c5);
      envelope_live = (ltb-false_iff _ _).0 ((code_if-eq-nil _ _).0 c6);
      authorised = (is_approved_iff i m).0 (not-false _ ((code_if-eq-nil _ _).0 c7));
      confirmed = confirmed_of m.human_confirmation_required i.approved ((code_if-eq-nil _ _).0 c8);
    }
  where
    confirmed_of : (a b : Bool) → a && not b ≡ false → a ≡ true → b ≡ true
    confirmed_of a b e f = ground arith

Meets-mandate_codes :
    (i : CheckEnvelopeInput) (m : PurchaseMandate) → Meets i m → mandate_codes i m ≡ []
unfolding mandate_codes
Meets-mandate_codes i m h = both (code _ _ (ap not ((includes_iff _ _).1 h.merchant))) (
    both ((product_codes_iff _ _).1 h.products) (
      both (code _ _ ((rail_refused_iff _ _).1 h.rail)) (
        both (code _ _ ((ltb-false_iff _ _).1 h.amount)) (
          both (code _ _ ((ltb-false_iff _ _).1 h.mandate_live)) (
            both (code _ _ ((ltb-false_iff _ _).1 h.envelope_live)) (
              both (code _ _ (ap not ((is_approved_iff i m).1 h.authorised)))
                (code _ _ (unconfirmed m.human_confirmation_required i.approved h.confirmed))))))))
  where
    both : {xs ys : List String} → xs ≡ [] → ys ≡ [] → xs ++ ys ≡ []
    both p q = (append-eq-nil _ _).1 (p, q)

    code : (b : Bool) (c : String) → b ≡ false → code_if b c ≡ []
    code b c = (code_if-eq-nil b c).1

    unconfirmed : (a b : Bool) → (a ≡ true → b ≡ true) → a && not b ≡ false
    unconfirmed a b f = ground arith

verdict_of_iff : (codes : List String) → ((verdict_of codes).allow ≡ true) ↔ (codes ≡ [])
verdict_of_iff [] = (λ h. refl, λ h. refl)
verdict_of_iff (c ∷ cs) = (λ h. cc, λ h. cc)

-- What allows a payment: the envelope is the one that the digest was taken of, and there is a
-- mandate whose terms the payment meets.
abbrev pub Payable : Host → CheckEnvelopeInput → Type 0
Payable host i =
    (m : PurchaseMandate) × (envelope_digest host i.envelope ≡ i.expected_digest)
    × (i.mandate ≡ some m)
    × Meets i m

mandate_verdict_iff :
    (i : CheckEnvelopeInput) (o : Option PurchaseMandate)
    → ((mandate_verdict i o).allow ≡ true) ↔ ((m : PurchaseMandate) × (o ≡ some m) × Meets i m)
unfolding mandate_verdict
mandate_verdict_iff i none = (λ h. cc, λ h. cc (h.1))
mandate_verdict_iff i (some m) = (
  λ h. (m, refl, mandate_codes-Meets i m ((verdict_of_iff _).0 h)),
  λ h.
      let same : m ≡ h.0 = cc (h.1) in
      (verdict_of_iff _).1 (Meets-mandate_codes i m (subst (Meets i) (sym same) h.2)),
)

-- The policy allows a payment exactly when the envelope has the expected digest, a mandate is
-- there, and the mandate's merchants, products, rails, amount and expiry, the envelope's expiry and
-- the approval are all in order.
pub check_envelope_for_payment-Payable :
    (host : Host) (i : CheckEnvelopeInput)
    → ((check_envelope_for_payment host i).allow ≡ true) ↔ Payable host i
unfolding check_envelope_for_payment
check_envelope_for_payment-Payable host i =
    elim (Bool-cases (envelope_digest host i.envelope == i.expected_digest)) [
      | inl same ↦
          let intact = (eq_iff _ _).0 same in
          rw same (
            λ h. let (m, e, ok) = (mandate_verdict_iff i i.mandate).0 h in (m, intact, e, ok),
            λ h. (mandate_verdict_iff i i.mandate).1 (h.0, h.2, h.3),
          )
      | inr other ↦ rw other (λ h. cc, λ h. cc (other, (eq_iff _ _).1 h.1))
    ]
