-- ===== src/Catalog/Ranking.antt =====
-- packages/catalog/src/ranking.ts: the order of the eligible products, the first three, their roles.
pub mod TopThree
use agentready_commerce.Prelude.{
  ℕ, ◌-◌, String, Bool, true, false, not, ◌&&◌, List, [], ◌∷◌, map, ltb, leb, ◌<>◌, keep, take,
  is_empty, if◌then◌else◌, Host,
}
use agentready_commerce.Catalog.{CatalogProduct, Catalog}
use agentready_commerce.Catalog.Evaluate.{
  PurchaseIntent, MissingConstraint, missing_hard_constraints, RecommendationRole, best_overall,
  cheaper_alternative, tradeoff_choice, unassigned, ProductMatch, RankingResult, soft_map, evaluate,
  fmt_price,
}

abbrev pub is_eligible : ProductMatch → Bool
is_eligible m = is_empty m.eligibility.rejection_reasons

-- `sort((a, b) => b.scoreNormalized - a.scoreNormalized)`, which is stable: an earlier match goes
-- before the later ones of the same score.
unfoldable pub insert_match : ProductMatch → List ProductMatch → List ProductMatch
insert_match m [] = m ∷ []
insert_match m (n ∷ ns) =
    let rest = insert_match m ns in
    if leb n.score_normalized m.score_normalized then m ∷ n ∷ ns else n ∷ rest

unfoldable pub sort_matches : List ProductMatch → List ProductMatch
unfolding insert_match
sort_matches [] = []
sort_matches (m ∷ ms) = insert_match m (sort_matches ms)

abbrev pub is_unassigned : RecommendationRole → Bool
is_unassigned unassigned = true
is_unassigned _ = false

abbrev first_or : List String → String → String
first_or [] d = d
first_or (x ∷ xs) d = x

-- The first match that has no role yet and a compromise.
unfoldable pub mark_tradeoff : List ProductMatch → List ProductMatch
mark_tradeoff [] = []
mark_tradeoff (m ∷ ms) =
    let rest = mark_tradeoff ms in
    if is_unassigned m.role && not (is_empty m.compromises)
    then record m {
      role = tradeoff_choice;
      role_justification = first_or m.compromises "Different trade-off profile";
    }
      ∷ ms
    else m ∷ rest

module _ (host : Host) where
  -- The first match that is strictly cheaper than the best one.
  unfoldable pub mark_cheaper : CatalogProduct → List ProductMatch → List ProductMatch
  mark_cheaper best [] = []
  mark_cheaper best (m ∷ ms) =
      let rest = mark_cheaper best ms in
      if ltb m.product.price_minor best.price_minor && is_unassigned m.role
      then record m {
        role = cheaper_alternative;
        role_justification =
            fmt_price host (best.price_minor - m.product.price_minor)
            <> " less than "
            <> best.name
            <> " while meeting all requirements";
      }
        ∷ ms
      else m ∷ rest

  unfoldable pub assign_roles : List ProductMatch → List ProductMatch
  unfolding mark_cheaper mark_tradeoff
  assign_roles [] = []
  assign_roles (best ∷ others) =
      record best {
        role = best_overall;
        role_justification = "Highest preference match score across all criteria";
      }
      ∷ mark_tradeoff (mark_cheaper best.product others)

  unfoldable pub rank_found : List MissingConstraint → PurchaseIntent → Catalog → ℕ → RankingResult
  unfolding evaluate sort_matches assign_roles soft_map
  rank_found (m ∷ ms) intent catalog now = record { matches = []; missing = m ∷ ms; ranked = false }
  rank_found [] intent catalog now =
      let all =
        map (evaluate host intent.hard_constraints (soft_map intent.soft_preferences []) now)
          catalog.products in
      record {
        matches = assign_roles (take 3 (sort_matches (keep is_eligible all)));
        missing = [];
        ranked = true;
      }

  unfoldable pub rank_products : PurchaseIntent → Catalog → ℕ → RankingResult
  unfolding rank_found missing_hard_constraints
  rank_products intent catalog now = rank_found (missing_hard_constraints intent) intent catalog now
