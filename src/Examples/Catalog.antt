-- ===== src/Examples/Catalog.antt =====
-- The theorem on the ranking at the demonstration catalogue.
use agentready_commerce.Prelude.{refl, true, none, some, []}
use agentready_commerce.Catalog.Seed.{shoe_catalog}
use agentready_commerce.Catalog.Evaluate.{PurchaseIntent, missing_hard_constraints}
use agentready_commerce.Catalog.Ranking.{rank_products}
use agentready_commerce.Catalog.Ranking.TopThree.{eligible, TopThree, rank_products-TopThree}
use agentready_commerce.Examples.Data.{host}

abbrev wish : PurchaseIntent
wish = record {
  merchant_id = shoe_catalog.merchant_id;
  category = "running_shoes";
  hard_constraints = record {
    max_amount_minor = 600000;
    currency = "INR";
    size = some "UK 9";
    colour = none;
    use_case = some "road";
    must_be_returnable = some true;
    deliver_by = none;
  };
  soft_preferences = [];
}

rank_products-TopThree_example :
    TopThree host
      (eligible host wish shoe_catalog 0)
      (rank_products host wish shoe_catalog 0).matches
unfolding missing_hard_constraints
rank_products-TopThree_example = rank_products-TopThree host wish shoe_catalog 0 refl
