-- ===== src/Catalog/Evaluate.antt =====
-- packages/catalog/src/ranking.ts: what a request asks for, the eligibility of a product, its score.
use Prim.Native.Nat.{min}
use agentready_commerce.Prelude.{
  ℕ, ◌+◌, ◌*◌, ◌-◌, ◌/◌, String, Bool, true, false, not, ◌&&◌, ◌||◌, Option, none, some, List, [],
  ◌∷◌, ◌++◌, ltb, leb, ◌==◌, ◌=?◌, ◌<>◌, is_set, truthy, includes, any, if◌then◌else◌, get_or_else,
  Host, Map, get, set,
}
use agentready_commerce.Catalog.{CatalogVariant, CatalogProduct, estimate_shipping}

-- packages/domain/src/types.ts: HardConstraints, SoftPreference and PurchaseIntent.
pub record HardConstraints : Type 0 where
  pub max_amount_minor : ℕ
  pub currency : String
  pub size : Option String
  pub colour : Option String
  pub use_case : Option String
  pub must_be_returnable : Option Bool
  pub deliver_by : Option ℕ

pub record SoftPreference : Type 0 where
  pub name : String
  pub value : String
  pub weight : ℕ

pub record PurchaseIntent : Type 0 where
  pub merchant_id : String
  pub category : String
  pub hard_constraints : HardConstraints
  pub soft_preferences : List SoftPreference

pub record MissingConstraint : Type 0 where
  pub name : String
  pub label : String
  pub options : List String

abbrev missing_if : Bool → MissingConstraint → List MissingConstraint
missing_if true m = m ∷ []
missing_if false m = []

unfoldable pub missing_hard_constraints : PurchaseIntent → List MissingConstraint
missing_hard_constraints intent =
    missing_if (not (is_set intent.hard_constraints.size))
      (record { name = "size"; label = "Shoe size (e.g. UK 9)"; options = [] })
    ++ missing_if (not (is_set intent.hard_constraints.use_case)) (record {
      name = "useCase";
      label = "Primary use (road, trail, gym, casual)";
      options = "road" ∷ "trail" ∷ "gym" ∷ "casual" ∷ [];
    })

pub data RecommendationRole : Type 0 where
  best_overall cheaper_alternative tradeoff_choice unassigned : RecommendationRole

pub record EligibilityEvidence : Type 0 where
  pub within_budget : Bool
  pub size_available : Bool
  pub in_stock : Bool
  pub returnable : Bool
  pub delivery_met : Bool
  pub rejection_reasons : List String

-- Without the two lists of matched requirements and preferences, which are prose for the reply.
pub record ProductMatch : Type 0 where
  pub product : CatalogProduct
  pub score : ℕ
  pub score_normalized : ℕ
  pub role : RecommendationRole
  pub role_justification : String
  pub compromises : List String
  pub eligibility : EligibilityEvidence
  pub colour_matched : Bool

pub record RankingResult : Type 0 where
  pub matches : List ProductMatch
  pub missing : List MissingConstraint
  pub ranked : Bool

-- `if (test) list.push(text)`.
abbrev pub push_if : Bool → String → List String
push_if true s = s ∷ []
push_if false s = []

abbrev pub has_size : Option String → CatalogVariant → Bool
has_size none v = false
has_size (some s) v = v.size == s

abbrev pub has_stock : Option String → CatalogVariant → Bool
has_stock size v = has_size size v && ltb 0 v.in_stock

-- `!c.colour || product.colour.includes(c.colour)`.
abbrev pub colour_fits : Option String → List String → Bool
colour_fits none colours = true
colour_fits (some c) colours = not (truthy c) || includes colours c

abbrev pub returnable_fits : Option Bool → Bool → Bool
returnable_fits none returnable = true
returnable_fits (some b) returnable = not b || returnable

-- `!c.deliverBy || delivery.deliverBy <= c.deliverBy`.
abbrev pub deadline_fits : Option ℕ → ℕ → Bool
deadline_fits none at = true
deadline_fits (some deadline) at = leb at deadline

-- `!wanted || product.x === wanted`.
abbrev pub preference_fits : Option String → String → Bool
preference_fits none x = true
preference_fits (some wanted) x = not (truthy wanted) || x == wanted

-- `new Map(softPreferences)`: a later value of a name replaces an earlier one.
unfoldable pub soft_map : List SoftPreference → Map String → Map String
soft_map [] m = m
soft_map (p ∷ ps) m = soft_map ps (set m p.name p.value)

-- `Math.abs(a - b)`.
abbrev distance_between : ℕ → ℕ → ℕ
distance_between a b = if leb a b then b - a else a - b

abbrev pub points : Bool → ℕ → ℕ
points true n = n
points false n = 0

-- `Math.min(100, Math.max(0, Math.round((rawScore / 101) * 100)))`.
unfoldable pub normalized : ℕ → ℕ
normalized raw = min 100 ((200 * raw + 101) / 202)

module _ (host : Host) where
  abbrev pub fmt_price : ℕ → String
  fmt_price minor = "₹" <> host.price minor

  unfoldable pub eligibility_of : CatalogProduct → HardConstraints → ℕ → EligibilityEvidence
  unfolding estimate_shipping
  eligibility_of p c now =
      let size = get_or_else c.size "" in
      let available = is_set c.size && any (has_size c.size) p.variants in
      let stocked = is_set c.size && any (has_stock c.size) p.variants in
      let affordable = leb p.price_minor c.max_amount_minor in
      let back = returnable_fits c.must_be_returnable p.returnable in
      let timely =
        deadline_fits c.deliver_by (estimate_shipping p.delivery_lead_days now).deliver_by in
      record {
        within_budget = affordable;
        size_available = available;
        in_stock = stocked;
        returnable = back;
        delivery_met = timely;
        rejection_reasons =
            push_if (not affordable) (
              "₹"
              <> fmt_price p.price_minor
              <> " exceeds budget of ₹"
              <> fmt_price c.max_amount_minor)
            ++ (push_if (not available) ("Size " <> size <> " not available")
                ++ (push_if (not stocked) ("Out of stock in " <> size)
                    ++ (push_if (not back) "Not returnable (required)"
                        ++ push_if (not timely) (
                            "Delivery after deadline ("
                            <> host.show p.delivery_lead_days
                            <> " days)"))));
      }

  -- `Number(soft.get("distance") ?? "0")`.
  abbrev pub wanted_distance : Map String → ℕ
  wanted_distance soft = host.number_of (get_or_else (get soft "distance") "0")

  -- SCORE_WEIGHTS: the sum of what each criterion gives. `Math.round(28 * 0.43)` is 12, and
  -- `Math.round((rating / 5) * 10)` of a rating in tenths is `(2 * tenths + 5) / 10`.
  unfoldable pub raw_score : CatalogProduct → HardConstraints → Map String → EligibilityEvidence → ℕ
  raw_score p c soft e =
      let distance = wanted_distance soft in
      (if c.use_case =? p.use_case then 28 else 12)
      + points (preference_fits (get soft "fit") p.fit) 14
      + points (preference_fits (get soft "cushioning") p.cushioning) 14
      + points (ltb 0 distance && leb (distance_between p.typical_distance_km distance) 2) 10
      + points (colour_fits c.colour p.colour) 5
      + points e.within_budget 8
      + points e.delivery_met 7
      + points e.returnable 5
      + (2 * p.rating_tenths + 5) / 10

  unfoldable pub compromises_of :
      CatalogProduct → HardConstraints → Map String → EligibilityEvidence → List String
  compromises_of p c soft e =
      let distance = wanted_distance soft in
      let too_far =
        ltb 0 distance
        && (not (leb (distance_between p.typical_distance_km distance) 2)
            && ltb p.typical_distance_km distance) in
      push_if (not (c.use_case =? p.use_case))
        ("Not purpose-built for " <> get_or_else c.use_case "")
      ++ (push_if (not (preference_fits (get soft "fit") p.fit))
            ("Fit is " <> p.fit <> ", not " <> get_or_else (get soft "fit") "")
          ++ (push_if (not (preference_fits (get soft "cushioning") p.cushioning)) (
                "Cushioning is "
                <> p.cushioning
                <> ", not "
                <> get_or_else (get soft "cushioning") "")
              ++ (push_if too_far (
                    "Optimised for "
                    <> host.show p.typical_distance_km
                    <> "K, shorter than ~"
                    <> host.show distance
                    <> "K")
                  ++ (push_if (not (colour_fits c.colour p.colour))
                        ("No " <> get_or_else c.colour "" <> " colourway")
                      ++ push_if (not e.delivery_met) (
                          "Ships in "
                          <> host.show p.delivery_lead_days
                          <> " days, after deadline")))))

  unfoldable pub evaluate : HardConstraints → Map String → ℕ → CatalogProduct → ProductMatch
  unfolding eligibility_of raw_score normalized compromises_of
  evaluate c soft now p =
      let e = eligibility_of p c now in
      let raw = raw_score p c soft e in
      record {
        product = p;
        score = raw;
        score_normalized = normalized raw;
        role = unassigned;
        role_justification = "";
        compromises = compromises_of p c soft e;
        eligibility = e;
        colour_matched = colour_fits c.colour p.colour;
      }
