-- ===== src/Catalog/Ranking/TopThree.antt =====
-- packages/catalog/src/ranking.ts: the recommendation is the three best of the eligible products.
use agentready_commerce.Prelude.{
  ℕ, zero, suc, ◌≤◌, ◌<◌, ◌≡◌, refl, ap, ◌∙◌, inl, inr, not, ◌&&◌, List, [], ◌∷◌, ◌++◌, map, arith,
  ltb, leb, subst, sym, keep, take, drop, take-append-drop, length, length-take-le, is_empty, Host,
  All, All-imp, Bool-cases,
}
use mathlib.Core.List.{Perm}
use mathlib.Core.List.Perm
use agentready_commerce.Catalog.{CatalogProduct, Catalog}
use agentready_commerce.Catalog.Evaluate.{
  PurchaseIntent, unassigned, ProductMatch, soft_map, evaluate, missing_hard_constraints,
}
use agentready_commerce.Catalog.Ranking.{
  is_eligible, is_unassigned, insert_match, sort_matches, mark_tradeoff, mark_cheaper, assign_roles,
  rank_found, rank_products,
}

-- No match of the list scores above this one.
abbrev pub Tops : ProductMatch → List ProductMatch → Type 0
Tops m = All (λ n. n.score_normalized ≤ m.score_normalized)

abbrev pub Descends : List ProductMatch → Type 0
Descends [] = Unit
Descends (m ∷ ms) = Tops m ms × Descends ms

-- A match without its role.
abbrev pub bare : ProductMatch → ProductMatch
bare m = record m { role = unassigned; role_justification = "" }

insert_match-All :
    (P : ProductMatch → Type 0) (m : ProductMatch) (ns : List ProductMatch)
    → P m
    → All P ns
    → All P (insert_match m ns)
unfolding insert_match
insert_match-All P m [] p h = (p, tt)
insert_match-All P m (n ∷ ns) p h = elim (Bool-cases (leb n.score_normalized m.score_normalized)) [
  | inl above ↦ simp above (p, h)
  | inr below ↦ simp below (h.0, insert_match-All P m ns p h.1)
]

insert_match-Descends :
    (m : ProductMatch) (ns : List ProductMatch) → Descends ns → Descends (insert_match m ns)
unfolding insert_match
insert_match-Descends m [] d = (tt, tt)
insert_match-Descends m (n ∷ ns) d = elim (Bool-cases (leb n.score_normalized m.score_normalized)) [
  | inl above ↦
      let le : n.score_normalized ≤ m.score_normalized = ground arith in
      simp above ((le, All-imp _ _ ns (λ x h. omega (arith, h, le)) d.0), d)
  | inr below ↦
      let le : m.score_normalized ≤ n.score_normalized = ground arith in
      simp below (insert_match-All _ m ns le d.0, insert_match-Descends m ns d.1)
]

insert_match-Perm : (m : ProductMatch) (ns : List ProductMatch) → Perm (insert_match m ns) (m ∷ ns)
unfolding insert_match
insert_match-Perm m [] = Perm.refl _
insert_match-Perm m (n ∷ ns) = elim (Bool-cases (leb n.score_normalized m.score_normalized)) [
  | inl above ↦ simp above (Perm.refl _)
  | inr below ↦ simp below (Perm.trans (Perm.cons _ (insert_match-Perm m ns)) (Perm.swap _ _ _))
]

sort_matches-Perm : (ms : List ProductMatch) → Perm (sort_matches ms) ms
unfolding sort_matches
sort_matches-Perm [] = Perm.refl []
sort_matches-Perm (m ∷ ms) =
    Perm.trans (insert_match-Perm m (sort_matches ms)) (Perm.cons _ (sort_matches-Perm ms))

sort_matches-Descends : (ms : List ProductMatch) → Descends (sort_matches ms)
unfolding sort_matches
sort_matches-Descends [] = tt
sort_matches-Descends (m ∷ ms) =
    insert_match-Descends m (sort_matches ms) (sort_matches-Descends ms)

take-Descends : (n : ℕ) (ms : List ProductMatch) → Descends ms → Descends (take n ms)
take-Descends zero ms d = tt
take-Descends (suc n) [] d = tt
take-Descends (suc n) (m ∷ ms) d = (All-take _ n ms d.0, take-Descends n ms d.1)
  where
    All-take :
        (P : ProductMatch → Type 0) (n : ℕ) (ms : List ProductMatch) → All P ms → All P (take n ms)
    All-take P zero ms h = tt
    All-take P (suc n) [] h = tt
    All-take P (suc n) (m ∷ ms) h = (h.0, All-take P n ms h.1)

All-drop :
    (P : ProductMatch → Type 0) (n : ℕ) (ms : List ProductMatch) → All P ms → All P (drop n ms)
All-drop P zero ms h = h
All-drop P (suc n) [] h = tt
All-drop P (suc n) (m ∷ ms) h = All-drop P n ms h.1

take-Tops :
    (n : ℕ) (ms : List ProductMatch) → Descends ms → All (λ m. Tops m (drop n ms)) (take n ms)
take-Tops zero ms d = tt
take-Tops (suc n) [] d = tt
take-Tops (suc n) (m ∷ ms) d = (All-drop _ n ms d.0, take-Tops n ms d.1)

none_below : (n : ℕ) → n < 0 → ⊥
none_below n h = omega arith

drop-short : (n : ℕ) (ms : List ProductMatch) → length (take n ms) < n → drop n ms ≡ []
drop-short zero ms h = absurd (none_below (length (take 0 ms)) h)
drop-short (suc n) [] h = refl
drop-short (suc n) (m ∷ ms) h = drop-short n ms (omega arith)

mark_tradeoff-bare : (ms : List ProductMatch) → map bare (mark_tradeoff ms) ≡ map bare ms
unfolding mark_tradeoff
mark_tradeoff-bare [] = refl
mark_tradeoff-bare (m ∷ ms) =
    elim (Bool-cases (is_unassigned m.role && not (is_empty m.compromises))) [
      | inl here ↦ simp here refl
      | inr later ↦ simp later (ap (λ r. bare m ∷ r) (mark_tradeoff-bare ms))
    ]

module _ (host : Host) where
  mark_cheaper-bare :
      (best : CatalogProduct) (ms : List ProductMatch)
      → map bare (mark_cheaper host best ms) ≡ map bare ms
  unfolding mark_cheaper
  mark_cheaper-bare best [] = refl
  mark_cheaper-bare best (m ∷ ms) =
      elim (Bool-cases (ltb m.product.price_minor best.price_minor && is_unassigned m.role)) [
        | inl here ↦ simp here refl
        | inr later ↦ simp later (ap (λ r. bare m ∷ r) (mark_cheaper-bare best ms))
      ]

  assign_roles-bare : (ms : List ProductMatch) → map bare (assign_roles host ms) ≡ map bare ms
  unfolding assign_roles
  assign_roles-bare [] = refl
  assign_roles-bare (m ∷ ms) =
      ap (λ r. bare m ∷ r)
        (mark_tradeoff-bare (mark_cheaper host m.product ms) ∙ mark_cheaper-bare m.product ms)

  -- The products of a catalogue that there is no reason to reject, each with its score.
  abbrev pub eligible : PurchaseIntent → Catalog → ℕ → List ProductMatch
  eligible intent catalog now = keep is_eligible (
      map (evaluate host intent.hard_constraints (soft_map intent.soft_preferences []) now)
        catalog.products)

  -- The offered matches are, but for their roles, the at most three best of the found ones, in
  -- descending order of score; fewer than three are all there are.
  pub record TopThree (found offered : List ProductMatch) : Type 0 where
    pub chosen : List ProductMatch
    pub rest : List ProductMatch
    pub all : Perm (chosen ++ rest) found
    pub offered_as : map bare offered ≡ map bare chosen
    pub few : length chosen ≤ 3
    pub filled : length chosen < 3 → rest ≡ []
    pub descending : Descends chosen
    pub best : All (λ m. Tops m rest) chosen

  assign_roles-TopThree :
      (found : List ProductMatch) → TopThree found (assign_roles host (take 3 (sort_matches found)))
  assign_roles-TopThree found =
      let sorted = sort_matches found in
      let order = sort_matches-Descends found in
      record {
        chosen = take 3 sorted;
        rest = drop 3 sorted;
        all = subst (λ l. Perm l found) (sym (take-append-drop 3 sorted)) (sort_matches-Perm found);
        offered_as = assign_roles-bare (take 3 sorted);
        few = length-take-le 3 sorted;
        filled = drop-short 3 sorted;
        descending = take-Descends 3 sorted order;
        best = take-Tops 3 sorted order;
      }

  -- Where the intent misses no required constraint, the ranking offers the at most three best scored
  -- products of those in the catalogue that evaluate gives no reason to reject (the use and the colour
  -- are scored only, and give none), best first: each of these is offered or scores at most what each
  -- offered one does, and fewer than three are offered only if there are no others.
  pub rank_products-TopThree :
      (intent : PurchaseIntent) (catalog : Catalog) (now : ℕ)
      → missing_hard_constraints intent ≡ []
      → TopThree (eligible intent catalog now) (rank_products host intent catalog now).matches
  unfolding rank_products rank_found
  rank_products-TopThree intent catalog now complete =
      rw complete (assign_roles-TopThree (eligible intent catalog now))
