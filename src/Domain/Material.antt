-- ===== src/Domain/Material.antt =====
-- packages/domain/src/policy.ts: the material changes between an approved envelope and a candidate.
use agentready_commerce.Prelude.{
  String, ◌≡◌, refl, ◌↔◌, Bool, true, false, not, List, [], ◌∷◌, ◌++◌, map, eqb, eqb_iff, ◌==◌,
  eq_iff, ◌<>◌, Host, is_empty,
}
use agentready_commerce.Domain.Types.{EnvelopeItem, CommerceEnvelope}
use agentready_commerce.Domain.Canonical.{join}

pub record MaterialChange : Type 0 where
  pub field : String
  pub before : String
  pub after : String

-- A change is pushed unless the two sides are the same.
abbrev pub change_unless : Bool → String → String → String → List MaterialChange
change_unless true f a b = []
change_unless false f a b = record { field = f; before = a; after = b } ∷ []

module _ (host : Host) where
  abbrev entry_text : String × String → String
  entry_text (k, v) = host.quote k <> ":" <> host.quote v

  abbrev item_text : EnvelopeItem → String
  item_text i =
      "{"
      <> join "," (
          (host.quote "productId" <> ":" <> host.quote i.product_id)
          ∷ (host.quote "sku" <> ":" <> host.quote i.sku)
          ∷ (host.quote "variant" <> ":{" <> join "," (map entry_text i.variant) <> "}")
          ∷ (host.quote "quantity" <> ":" <> host.show i.quantity)
          ∷ (host.quote "unitAmountMinor" <> ":" <> host.show i.unit_amount_minor)
          ∷ [])
      <> "}"

  -- `JSON.stringify` of the items, whose keys stand in the order of the type's fields.
  unfoldable pub items_text : List EnvelopeItem → String
  items_text items = "[" <> join "," (map item_text items) <> "]"

  unfoldable pub material_changes : CommerceEnvelope → CommerceEnvelope → List MaterialChange
  material_changes a c =
      change_unless (a.merchant_id == c.merchant_id) "merchantId" a.merchant_id c.merchant_id
      ++ (change_unless (a.currency == c.currency) "currency" a.currency c.currency
          ++ (change_unless (eqb a.total_minor c.total_minor) "totalMinor" (host.show a.total_minor)
                (host.show c.total_minor)
              ++ (change_unless (eqb a.subtotal_minor c.subtotal_minor) "subtotalMinor"
                    (host.show a.subtotal_minor) (host.show c.subtotal_minor)
                  ++ (change_unless (eqb a.shipping_minor c.shipping_minor) "shippingMinor"
                        (host.show a.shipping_minor) (host.show c.shipping_minor)
                      ++ (change_unless (eqb a.tax_minor c.tax_minor) "taxMinor"
                            (host.show a.tax_minor) (host.show c.tax_minor)
                          ++ (change_unless (a.return_policy_digest == c.return_policy_digest)
                                "returnPolicyDigest" a.return_policy_digest c.return_policy_digest
                              ++ (change_unless
                                    (a.shipping_destination_digest == c.shipping_destination_digest)
                                    "shippingDestinationDigest" a.shipping_destination_digest
                                    c.shipping_destination_digest
                                  ++ (change_unless (eqb a.expires_at c.expires_at) "expiresAt"
                                        (host.iso a.expires_at) (host.iso c.expires_at)
                                      ++ (change_unless (a.mandate_id == c.mandate_id) "mandateId"
                                            a.mandate_id c.mandate_id
                                          ++ change_unless
                                              (items_text a.items == items_text c.items) "items"
                                              (items_text a.items) (items_text c.items))))))))))

  unfoldable pub requires_reapproval : CommerceEnvelope → CommerceEnvelope → Bool
  unfolding material_changes
  requires_reapproval a c = not (is_empty (material_changes a c))

  -- The terms that an approval binds.
  pub record SameTerms (a c : CommerceEnvelope) : Type 0 where
    pub merchant : a.merchant_id ≡ c.merchant_id
    pub currency : a.currency ≡ c.currency
    pub total : a.total_minor ≡ c.total_minor
    pub subtotal : a.subtotal_minor ≡ c.subtotal_minor
    pub shipping : a.shipping_minor ≡ c.shipping_minor
    pub tax : a.tax_minor ≡ c.tax_minor
    pub returns : a.return_policy_digest ≡ c.return_policy_digest
    pub destination : a.shipping_destination_digest ≡ c.shipping_destination_digest
    pub expiry : a.expires_at ≡ c.expires_at
    pub mandate : a.mandate_id ≡ c.mandate_id
    pub items : items_text a.items ≡ items_text c.items

  -- Reading the list of changes from its end: no change comes from the head, and none from the rest.
  no_change :
      (b : Bool) (f x y : String) (rest : List MaterialChange)
      → not (is_empty (change_unless b f x y ++ rest)) ≡ false
      → (b ≡ true) × (not (is_empty rest) ≡ false)
  no_change true f x y rest h = (refl, h)
  no_change false f x y rest h = cc

  unchanged :
      (b : Bool) (f x y : String) (rest : List MaterialChange)
      → b ≡ true
      → not (is_empty rest) ≡ false
      → not (is_empty (change_unless b f x y ++ rest)) ≡ false
  unchanged b f x y rest e h = rw e h

  last_change :
      (b : Bool) (f x y : String) → (not (is_empty (change_unless b f x y)) ≡ false) ↔ (b ≡ true)
  last_change true f x y = (λ h. refl, λ h. refl)
  last_change false f x y = (λ h. cc, λ h. cc)

  reapproval-SameTerms : (a c : CommerceEnvelope) → requires_reapproval a c ≡ false → SameTerms a c
  unfolding requires_reapproval
  reapproval-SameTerms a c h =
      let (c1, h1) = no_change _ _ _ _ _ h in
      let (c2, h2) = no_change _ _ _ _ _ h1 in
      let (c3, h3) = no_change _ _ _ _ _ h2 in
      let (c4, h4) = no_change _ _ _ _ _ h3 in
      let (c5, h5) = no_change _ _ _ _ _ h4 in
      let (c6, h6) = no_change _ _ _ _ _ h5 in
      let (c7, h7) = no_change _ _ _ _ _ h6 in
      let (c8, h8) = no_change _ _ _ _ _ h7 in
      let (c9, h9) = no_change _ _ _ _ _ h8 in
      let (c10, h10) = no_change _ _ _ _ _ h9 in
      record {
        merchant = (eq_iff _ _).0 c1;
        currency = (eq_iff _ _).0 c2;
        total = (eqb_iff _ _).0 c3;
        subtotal = (eqb_iff _ _).0 c4;
        shipping = (eqb_iff _ _).0 c5;
        tax = (eqb_iff _ _).0 c6;
        returns = (eq_iff _ _).0 c7;
        destination = (eq_iff _ _).0 c8;
        expiry = (eqb_iff _ _).0 c9;
        mandate = (eq_iff _ _).0 c10;
        items = (eq_iff _ _).0 ((last_change _ _ _ _).0 h10);
      }

  SameTerms-reapproval : (a c : CommerceEnvelope) → SameTerms a c → requires_reapproval a c ≡ false
  unfolding requires_reapproval
  SameTerms-reapproval a c h = unchanged _ _ _ _ _ ((eq_iff _ _).1 h.merchant) (
      unchanged _ _ _ _ _ ((eq_iff _ _).1 h.currency) (
        unchanged _ _ _ _ _ ((eqb_iff _ _).1 h.total) (
          unchanged _ _ _ _ _ ((eqb_iff _ _).1 h.subtotal) (
            unchanged _ _ _ _ _ ((eqb_iff _ _).1 h.shipping) (
              unchanged _ _ _ _ _ ((eqb_iff _ _).1 h.tax) (
                unchanged _ _ _ _ _ ((eq_iff _ _).1 h.returns) (
                  unchanged _ _ _ _ _ ((eq_iff _ _).1 h.destination) (
                    unchanged _ _ _ _ _ ((eqb_iff _ _).1 h.expiry) (
                      unchanged _ _ _ _ _ ((eq_iff _ _).1 h.mandate)
                        ((last_change _ _ _ _).1 ((eq_iff _ _).1 h.items)))))))))))

  -- A candidate needs a new approval exactly when one of the bound terms differs: merchant,
  -- currency, the four amounts, return policy, destination, expiry, mandate, or the items' text.
  pub requires_reapproval-SameTerms :
      (a c : CommerceEnvelope) → (requires_reapproval a c ≡ false) ↔ SameTerms a c
  requires_reapproval-SameTerms a c = (reapproval-SameTerms a c, SameTerms-reapproval a c)
