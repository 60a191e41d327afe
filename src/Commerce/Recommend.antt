-- ===== src/Commerce/Recommend.antt =====
-- apps/web/lib/services.ts: the current recommendation and its binding.
use agentready_commerce.Prelude.{
  ℕ, ◌+◌, String, Bool, false, ◌&&◌, Option, none, some, List, [], ◌∷◌, map, ltb, eqb, ◌==◌, is_set,
  is_some, if◌then◌else◌, get_or_else, Host, Call,
}
use agentready_commerce.Catalog.Seed.{shoe_catalog}
use agentready_commerce.Catalog.Evaluate.{PurchaseIntent, RankingResult}
use agentready_commerce.Catalog.Ranking.{rank_products}
use agentready_commerce.Commerce.Session.{
  RecommendationBinding, Session, EnvelopeRecord, intent_digest,
}
use agentready_commerce.Commerce.Dialogue.{sync_memory}

abbrev pub same_version : Option ℕ → ℕ → Bool
same_version none v = false
same_version (some w) v = eqb w v

-- isCurrentRecommendation.
unfoldable pub is_current_recommendation : Session → Bool
is_current_recommendation s =
    is_some s.last_ranking
    && (ltb 0 s.dialogue.recommendation_version
        && (same_version s.dialogue.recommendation_intent_version s.dialogue.intent_version
            && is_set s.dialogue.recommendation_action_token))

-- recommendationBinding, which its callers ask for with a current recommendation only.
abbrev pub recommendation_binding : Session → RecommendationBinding
recommendation_binding s = record {
  intent_version = s.dialogue.intent_version;
  recommendation_version = s.dialogue.recommendation_version;
  recommendation_action_token = get_or_else s.dialogue.recommendation_action_token "";
}

unfoldable pub same_recommendation_binding : RecommendationBinding → RecommendationBinding → Bool
same_recommendation_binding a b =
    eqb a.intent_version b.intent_version
    && (eqb a.recommendation_version b.recommendation_version
        && a.recommendation_action_token == b.recommendation_action_token)

abbrev pub shown_ids : RankingResult → List String
shown_ids ranking = map (λ m. m.product.product_id) ranking.matches

abbrev pub missing_names : RankingResult → List String
missing_names ranking = map (λ m. m.name) ranking.missing

module _ (host : Host) where
  -- `session.dialogue.quoteValid && isCurrentRecommendation(session) && ...`: the negation of the
  -- guard that approval, both rails and the confirmation share.
  unfoldable pub quote_active : Session → EnvelopeRecord → Bool
  quote_active s r =
      s.dialogue.quote_valid
      && (is_current_recommendation s
          && (same_recommendation_binding r.recommendation (recommendation_binding s)
              && r.intent_digest == intent_digest host s.intent))

  -- buildPurchaseIntent.
  unfoldable pub build_purchase_intent : Session → PurchaseIntent
  build_purchase_intent s = record {
    merchant_id = shoe_catalog.merchant_id;
    category = "running_shoes";
    hard_constraints = record {
      max_amount_minor = get_or_else s.intent.max_amount_minor 1000000;
      currency = "INR";
      size = s.intent.size;
      colour = s.intent.colour;
      use_case = s.intent.use_case;
      must_be_returnable = s.intent.must_be_returnable;
      deliver_by = s.intent.deliver_by;
    };
    soft_preferences =
        record {
          name = "distance";
          value = host.show (get_or_else s.intent.distance_km 0);
          weight = 1;
        }
        ∷ record { name = "fit"; value = get_or_else s.intent.fit ""; weight = 1 }
        ∷ record { name = "cushioning"; value = get_or_else s.intent.cushioning ""; weight = 1 }
        ∷ [];
  }

  -- recordRecommendation.
  unfoldable pub record_recommendation : Call → Session → RankingResult → Session
  record_recommendation call s ranking = record s {
    last_ranking = some ranking;
    dialogue = record s.dialogue {
      recommendation_version = s.dialogue.recommendation_version + 1;
      recommendation_intent_version = some s.dialogue.intent_version;
      recommendation_action_token = some (call.new_id "rec");
    };
  }

  -- The new ranking of `currentRecommendation`, recorded and remembered.
  abbrev refreshed : Call → Session → Session
  refreshed call s =
      let ranking = rank_products host (build_purchase_intent s) shoe_catalog call.now in
      let t = record_recommendation call s ranking in
      record t {
        dialogue =
            sync_memory host t.dialogue t.intent (shown_ids ranking) (missing_names ranking)
              "refresh" "";
      }

  -- currentRecommendation: the session after it; its ranking and its binding are then current.
  unfoldable pub current_recommendation : Call → Session → Session
  current_recommendation call s = if is_current_recommendation s then s else refreshed call s
