-- ===== src/Catalog/Seed.antt =====
-- packages/catalog/src/catalog.ts: SHOE_CATALOG, the products that the demo merchant sells.
use agentready_commerce.Prelude.{true, [], ◌∷◌}
use agentready_commerce.Catalog.{CatalogProduct, Catalog, variant}

abbrev pub streak_4 : CatalogProduct
streak_4 = record {
  product_id = "p_streak_4";
  name = "RunVista Streak 4";
  brand = "RunVista";
  category = "running_shoes";
  use_case = "road";
  fit = "standard";
  cushioning = "balanced";
  colour = "black" ∷ [];
  price_minor = 429900;
  currency = "INR";
  typical_distance_km = 10;
  returnable = true;
  delivery_lead_days = 3;
  rating_tenths = 46;
  variants = variant "STRK4-BLK-9" "UK 9" 6 ∷ variant "STRK4-BLK-10" "UK 10" 2 ∷ [];
}

abbrev pub vista_max : CatalogProduct
vista_max = record {
  product_id = "p_vista_max";
  name = "RunVista Max Cushion";
  brand = "RunVista";
  category = "running_shoes";
  use_case = "road";
  fit = "wide";
  cushioning = "max";
  colour = "black" ∷ "grey" ∷ [];
  price_minor = 489900;
  currency = "INR";
  typical_distance_km = 12;
  returnable = true;
  delivery_lead_days = 3;
  rating_tenths = 47;
  variants = variant "VMAX-BLK-9" "UK 9" 4 ∷ variant "VMAX-BLK-10" "UK 10" 0 ∷ [];
}

abbrev pub stride_lite : CatalogProduct
stride_lite = record {
  product_id = "p_stride_lite";
  name = "RunVista Stride Lite";
  brand = "RunVista";
  category = "running_shoes";
  use_case = "road";
  fit = "narrow";
  cushioning = "minimal";
  colour = "black" ∷ "navy" ∷ [];
  price_minor = 349900;
  currency = "INR";
  typical_distance_km = 8;
  returnable = true;
  delivery_lead_days = 5;
  rating_tenths = 43;
  variants = variant "STRL-BLK-9" "UK 9" 9 ∷ variant "STRL-BLK-10" "UK 10" 5 ∷ [];
}

abbrev pub trail_rock : CatalogProduct
trail_rock = record {
  product_id = "p_trail_rock";
  name = "RunVista Trail Rock";
  brand = "RunVista";
  category = "running_shoes";
  use_case = "trail";
  fit = "standard";
  cushioning = "balanced";
  colour = "black" ∷ [];
  price_minor = 459900;
  currency = "INR";
  typical_distance_km = 10;
  returnable = true;
  delivery_lead_days = 4;
  rating_tenths = 45;
  variants = variant "TRLK-BLK-9" "UK 9" 3 ∷ variant "TRLK-BLK-10" "UK 10" 7 ∷ [];
}

abbrev pub gym_pace : CatalogProduct
gym_pace = record {
  product_id = "p_gym_pace";
  name = "RunVista Gym Pace";
  brand = "RunVista";
  category = "running_shoes";
  use_case = "gym";
  fit = "standard";
  cushioning = "balanced";
  colour = "black" ∷ [];
  price_minor = 379900;
  currency = "INR";
  typical_distance_km = 5;
  returnable = true;
  delivery_lead_days = 3;
  rating_tenths = 44;
  variants = variant "GYMP-BLK-9" "UK 9" 5 ∷ variant "GYMP-BLK-10" "UK 10" 8 ∷ [];
}

abbrev pub casual_day : CatalogProduct
casual_day = record {
  product_id = "p_casual_day";
  name = "RunVista Everyday";
  brand = "RunVista";
  category = "running_shoes";
  use_case = "casual";
  fit = "wide";
  cushioning = "balanced";
  colour = "black" ∷ "white" ∷ [];
  price_minor = 299900;
  currency = "INR";
  typical_distance_km = 3;
  returnable = true;
  delivery_lead_days = 2;
  rating_tenths = 42;
  variants = variant "CASE-BLK-9" "UK 9" 10 ∷ variant "CASE-BLK-10" "UK 10" 4 ∷ [];
}

abbrev pub shoe_catalog : Catalog
shoe_catalog = record {
  merchant_id = "merchant_runvista";
  merchant_name = "RunVista Sports";
  products = streak_4 ∷ vista_max ∷ stride_lite ∷ trail_rock ∷ gym_pace ∷ casual_day ∷ [];
  return_policy = record {
    policy_id = "rp_runvista_std";
    returnable = true;
    window_days = 14;
    condition = "Unworn, in original box";
  };
}
