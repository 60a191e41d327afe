-- ===== src/Commerce/Select.antt =====
-- apps/web/lib/services.ts: the check of a selection against the current recommendation.
use agentready_commerce.Prelude.{
  ℕ, String, Bool, true, false, not, ◌&&◌, ◌||◌, Option, none, some, List, [], ◌∷◌, ltb, eqb, ◌==◌,
  ◌=?◌, ◌<>◌, is_set, truthy, includes, any, find_first, if◌then◌else◌, get_or_else, is_empty, Host,
  Call,
}
use agentready_commerce.Catalog.{CatalogVariant, CatalogProduct, estimate_shipping}
use agentready_commerce.Catalog.Seed.{shoe_catalog}
use agentready_commerce.Catalog.Evaluate.{ProductMatch, RankingResult}
use agentready_commerce.Commerce.Session.{RecommendationBinding, Session}
use agentready_commerce.Commerce.Recommend.{same_recommendation_binding, recommendation_binding}

abbrev pub no_ranking : RankingResult
no_ranking = record { matches = []; missing = []; ranked = false }

-- `session.lastRanking!`.
abbrev pub ranking_of : Session → RankingResult
ranking_of s = get_or_else s.last_ranking no_ranking

pub data SelectionValidation : Type 0 where
  selected : CatalogProduct → CatalogVariant → SelectionValidation
  unselected : String → List String → SelectionValidation

abbrev pub is_product : String → CatalogProduct → Bool
is_product id p = p.product_id == id

abbrev pub find_variant : Option String → List CatalogVariant → Option CatalogVariant
find_variant size variants = if is_set size then find_first (λ v. size =? v.size) variants else none

abbrev pub eligible_match : Option ProductMatch → Bool
eligible_match none = false
eligible_match (some m) =
    is_empty m.eligibility.rejection_reasons
    && (m.eligibility.within_budget
        && (m.eligibility.size_available
            && (m.eligibility.in_stock
                && (m.eligibility.returnable && m.eligibility.delivery_met))))

abbrev pub late : Option ℕ → ℕ → Bool
late none at = false
late (some deadline) at = ltb deadline at

abbrev pub unwanted_colour : Option String → List String → Bool
unwanted_colour none colours = false
unwanted_colour (some c) colours = truthy c && not (includes colours c)

-- The checks on a product that the catalogue has and a variant of the size, in their order.
unfoldable pub validate_variant :
    Call → Session → CatalogProduct → Option CatalogVariant → SelectionValidation
validate_variant call s p none =
    unselected
      (p.name
        <> " is not available in "
        <> get_or_else s.intent.size ""
        <> ". I refreshed your options.")
      ("size_unavailable" ∷ [])
validate_variant call s p (some v) =
    if eqb v.in_stock 0
    then unselected
        (p.name
          <> " in "
          <> get_or_else s.intent.size ""
          <> " is out of stock. I refreshed your options.")
        ("out_of_stock" ∷ [])
    else if not (any (λ m. is_product p.product_id m.product) (ranking_of s).matches)
        || not (includes s.dialogue.shown_product_ids p.product_id)
    then unselected
        (p.name <> " is not in your current eligible recommendations. I refreshed your options.")
        ("not_current_recommendation" ∷ [])
    else if not (
        eligible_match (find_first (λ m. is_product p.product_id m.product) (ranking_of s).matches))
    then unselected
        (p.name <> " no longer satisfies your current requirements. I refreshed your options.")
        ("eligibility_failed" ∷ [])
    else if unwanted_colour s.intent.colour p.colour
    then unselected (p.name <> " does not match your requested colour. I refreshed your options.")
        ("colour_constraint_failed" ∷ [])
    else if get_or_else s.intent.must_be_returnable false && not p.returnable
    then unselected (p.name <> " is not returnable as required. I refreshed your options.")
        ("returnability_constraint_failed" ∷ [])
    else if late s.intent.deliver_by (estimate_shipping p.delivery_lead_days call.now).deliver_by
    then unselected (p.name <> " cannot meet your delivery deadline. I refreshed your options.")
        ("delivery_constraint_failed" ∷ [])
    else if not (p.category == "running_shoes") || not (p.currency == "INR")
    then unselected (p.name <> " is not a valid RunVista product. I refreshed your options.")
        ("catalog_identity_failed" ∷ [])
    else selected p v

abbrev pub binding_matches : Option RecommendationBinding → Session → Bool
binding_matches none s = true
binding_matches (some b) s = same_recommendation_binding b (recommendation_binding s)

module _ (host : Host) where
  abbrev budget_label : ℕ → String
  budget_label minor = "₹" <> host.price minor

  unfoldable pub validate_product :
      Call → Session → String → Bool → Option CatalogProduct → SelectionValidation
  unfolding validate_variant
  validate_product call s id binding_matches none =
      unselected ("Unknown product: " <> id <> ". I refreshed your options.")
        ("unknown_product" ∷ [])
  validate_product call s id binding_matches (some p) =
      let budget = get_or_else s.intent.max_amount_minor 1000000 in
      if ltb budget p.price_minor
      then unselected
          (p.name
            <> " no longer fits your "
            <> budget_label budget
            <> " budget. I refreshed your options.")
          ("budget_exceeded" ∷ (if binding_matches then [] else "stale_recommendation" ∷ []))
      else if not binding_matches
      then unselected (p.name <> " is from an older recommendation. I refreshed your options.")
          ("stale_recommendation" ∷ "recommendation_version_mismatch" ∷ [])
      else if not (is_set s.intent.size)
      then unselected "Choose a size before selecting a shoe. I refreshed your options."
          ("size_required" ∷ [])
      else validate_variant call s p (find_variant s.intent.size p.variants)

  -- validateCurrentSelection, on the session that `current_recommendation` gives.
  unfoldable pub validate_current_selection :
      Call → Session → String → Option RecommendationBinding → SelectionValidation
  unfolding validate_product
  validate_current_selection call s id supplied =
      validate_product call s id (binding_matches supplied s)
        (find_first (is_product id) shoe_catalog.products)
