-- ===== src/Domain/Canonical.antt =====
-- packages/domain/src/canonical.ts: canonical JSON, the envelope's digest and its signature.
use Prim.Native.Nat.{Ordering}
use Prim.Native.String.{compare}
use agentready_commerce.Prelude.{
  ℕ, String, Bool, true, false, Option, none, some, List, [], ◌∷◌, map, if◌then◌else◌, ◌<>◌, ◌==◌,
  Host, get_or_else,
}
use agentready_commerce.Domain.Types.{EnvelopeItem, CommerceEnvelope}

-- A JavaScript value that may be canonicalised; numbers are the whole ones that the program uses.
mutual
  pub data Json : Type 0 where
    undefined null : Json
    text : String → Json
    number : ℕ → Json
    boolean : Bool → Json
    array : Elements → Json
    object : Fields → Json

  pub data Elements : Type 0 where
    nil : Elements
    cons : Json → Elements → Elements

  pub data Fields : Type 0 where
    end : Fields
    field : String → Json → Fields → Fields

-- `<=` of the default sort, on the ASCII keys of the program.
abbrev pub text_leb : String → String → Bool
text_leb a b = elim (compare a b) [ Ordering.gt ↦ false | _ ↦ true ]

-- `sort()` by the key.
unfoldable pub insert_key : String → String → List (String × String) → List (String × String)
insert_key k v [] = (k, v) ∷ []
insert_key k v ((j, w) ∷ r) =
    let rest = insert_key k v r in if text_leb k j then (k, v) ∷ (j, w) ∷ r else (j, w) ∷ rest

unfoldable pub sort_keys : List (String × String) → List (String × String)
unfolding insert_key
sort_keys [] = []
sort_keys ((k, v) ∷ r) = insert_key k v (sort_keys r)

-- `join(",")`.
unfoldable pub join : String → List String → String
join sep [] = ""
join sep (s ∷ []) = s
join sep (s ∷ t ∷ r) = s <> sep <> join sep (t ∷ r)

-- A value that throws spoils the whole.
abbrev both : Option String → Option (List String) → Option (List String)
both none r = none
both (some a) none = none
both (some a) (some r) = some (a ∷ r)

abbrev entry :
    String → Option String → Option (List (String × String)) → Option (List (String × String))
entry k none r = none
entry k (some v) none = none
entry k (some v) (some r) = some ((k, v) ∷ r)

abbrev pub wrap_array : Option (List String) → Option String
wrap_array none = none
wrap_array (some xs) = some ("[" <> join "," xs <> "]")

module _ (host : Host) where
  abbrev pub render_pair : String × String → String
  render_pair (k, v) = host.quote k <> ":" <> v

  abbrev pub wrap_object : Option (List (String × String)) → Option String
  wrap_object none = none
  wrap_object (some kvs) = some ("{" <> join "," (map render_pair (sort_keys kvs)) <> "}")

  abbrev boolean_text : Bool → String
  boolean_text true = "true"
  boolean_text false = "false"

  -- canonicalStringify; `none` is its throw, which only an `undefined` array element or an
  -- `undefined` value itself can cause here.
  unfoldable mutual
    pub canonical : Json → Option String
    canonical undefined = none
    canonical null = some "null"
    canonical (text s) = some (host.quote s)
    canonical (number n) = some (host.show n)
    canonical (boolean b) = some (boolean_text b)
    canonical (array xs) = wrap_array (canonical_elements xs)
    canonical (object fs) = wrap_object (canonical_fields fs)

    pub canonical_elements : Elements → Option (List String)
    canonical_elements nil = some []
    canonical_elements (cons x xs) = both (canonical x) (canonical_elements xs)

    -- The fields that are not `undefined`, in the order of the object.
    pub canonical_fields : Fields → Option (List (String × String))
    canonical_fields end = some []
    canonical_fields (field k undefined fs) = canonical_fields fs
    canonical_fields (field k v fs) = entry k (canonical v) (canonical_fields fs)

  -- canonicalize.
  abbrev pub canonicalize : Json → Option String
  canonicalize j = canonical j

  -- The canonical text that a digest is taken of; the values digested here never throw.
  abbrev pub canonical_text : Json → String
  canonical_text j = get_or_else (canonical j) ""

abbrev pub optional_text : Option String → Json
optional_text none = undefined
optional_text (some s) = text s

abbrev pub variant_json : List (String × String) → Fields
variant_json [] = end
variant_json ((k, v) ∷ r) = field k (text v) (variant_json r)

abbrev pub item_json : EnvelopeItem → Json
item_json i = object (
    field "productId" (text i.product_id) (
      field "sku" (text i.sku) (
        field "variant" (object (variant_json i.variant)) (
          field "quantity" (number i.quantity)
            (field "unitAmountMinor" (number i.unit_amount_minor) end)))))

abbrev pub items_json : List EnvelopeItem → Elements
items_json [] = nil
items_json (i ∷ is) = cons (item_json i) (items_json is)

module _ (host : Host) where
  abbrev pub envelope_json : CommerceEnvelope → Json
  envelope_json e = object (
      field "version" (number 1) (
        field "logicalOrderId" (text e.logical_order_id) (
          field "merchantId" (text e.merchant_id) (
            field "quoteId" (text e.quote_id) (
              field "customerId" (text e.customer_id) (
                field "buyerAgentId" (optional_text e.buyer_agent_id)
                  (field "items" (array (items_json e.items)) (envelope_amounts e))))))))
    where
      envelope_terms : CommerceEnvelope → Fields
      envelope_terms e = field "inventoryHoldId" (text e.inventory_hold_id) (
          field "returnPolicyDigest" (text e.return_policy_digest) (
            field "shippingDestinationDigest" (text e.shipping_destination_digest) (
              field "mandateId" (text e.mandate_id) (
                field "approvalEventId" (optional_text e.approval_event_id) (
                  field "issuedAt" (text (host.iso e.issued_at)) (
                    field "expiresAt" (text (host.iso e.expires_at))
                      (field "nonce" (text e.nonce) end)))))))

      envelope_amounts : CommerceEnvelope → Fields
      envelope_amounts e = field "subtotalMinor" (number e.subtotal_minor) (
          field "taxMinor" (number e.tax_minor) (
            field "shippingMinor" (number e.shipping_minor) (
              field "totalMinor" (number e.total_minor)
                (field "currency" (text e.currency) (envelope_terms e)))))

  unfoldable pub envelope_digest : CommerceEnvelope → String
  envelope_digest e = host.sha256 (canonical_text host (envelope_json e))

  unfoldable pub sign_envelope : CommerceEnvelope → String → String
  unfolding envelope_digest
  sign_envelope e secret = host.hmac secret (envelope_digest e)

  unfoldable pub verify_envelope_signature : CommerceEnvelope → String → String → Bool
  unfolding sign_envelope
  verify_envelope_signature e secret signature = sign_envelope e secret == signature
