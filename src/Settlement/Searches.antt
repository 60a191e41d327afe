-- ===== src/Settlement/Searches.antt =====
-- What the searches of the settlement store's rows find: `find`, and the first of the sorted `filter`.
use agentready_commerce.Prelude.{
  ◌∷◌, [], List, Bool, true, false, none, some, ◌≡◌, refl, sym, subst, ◌∙◌, ◌⊎◌, inl, inr,
  Bool-cases, arith, keep, find_first, first, sort_by, length, length-sort_by, All, All-sort_by,
  All-imp, suc,
}

module _ {A : Type 0} where
  abbrev pub In : A → List A → Type 0
  In x [] = ⊥
  In x (y ∷ ys) = (x ≡ y) ⊎ In x ys

  pub all-In : (xs : List A) → All (λ x. In x xs) xs
  all-In [] = tt
  all-In (x ∷ xs) = (inl refl, All-imp _ _ xs (λ y h. inr h) (all-In xs))

  pub both : (P Q : A → Type 0) (xs : List A) → All P xs → All Q xs → All (λ x. P x × Q x) xs
  both P Q [] h k = tt
  both P Q (x ∷ xs) (h, hs) (k, ks) = ((h, k), both P Q xs hs ks)

  kept :
      (p : A → Bool) (Q : A → Type 0) (xs : List A)
      → All Q xs
      → All (λ x. (p x ≡ true) × Q x) (keep p xs)
  kept p Q [] h = tt
  kept p Q (x ∷ xs) (h, hs) = elim (Bool-cases (p x)) [
    | inl e ↦ rw e ((e, h), kept p Q xs hs)
    | inr e ↦ rw e (kept p Q xs hs)
  ]

  first_all : (P : A → Type 0) (xs : List A) (x : A) → All P xs → first xs ≡ some x → P x
  first_all P [] x h e = absurd (cc)
  first_all P (y ∷ ys) x (h, hs) e = subst P (inside e) h
    where
      inside : {a b : A} → some a ≡ some b → a ≡ b
      inside p = cc

  pub found_kept :
      (before : A → A → Bool) (p : A → Bool) (xs : List A) (x : A)
      → first (sort_by before (keep p xs)) ≡ some x
      → (p x ≡ true) × In x xs
  found_kept before p xs x e =
      first_all _ _ x (All-sort_by _ before (keep p xs) (kept p _ xs (all-In xs))) e

  pub found_first :
      (p : A → Bool) (xs : List A) (x : A) → find_first p xs ≡ some x → (p x ≡ true) × In x xs
  found_first p [] x e = absurd (cc)
  found_first p (y ∷ ys) x e = elim (Bool-cases (p y)) [
    | inl h ↦ subst (λ z. (p z ≡ true) × In z (y ∷ ys)) (inside (simp h at e)) (h, inl refl)
    | inr h ↦ let r = found_first p ys x (simp h at e) in (r.0, inr r.1)
  ]
    where
      inside : {a b : A} → some a ≡ some b → a ≡ b
      inside q = cc

  none_kept : (p : A → Bool) (xs : List A) → length (keep p xs) ≡ 0 → All (λ x. p x ≡ false) xs
  none_kept p [] h = tt
  none_kept p (x ∷ xs) h = elim (Bool-cases (p x)) [
    | inl e ↦ absurd (more (simp e at h))
    | inr e ↦ (e, none_kept p xs (simp e at h))
  ]
    where
      more : suc (length (keep p xs)) ≡ 0 → ⊥
      more k = omega (arith, k)

  pub none_sorted :
      (before : A → A → Bool) (p : A → Bool) (xs : List A)
      → first (sort_by before (keep p xs)) ≡ none
      → All (λ x. p x ≡ false) xs
  none_sorted before p xs e = none_kept p xs (sym (length-sort_by before (keep p xs)) ∙ empty _ e)
    where
      empty : (ys : List A) → first ys ≡ none → length ys ≡ 0
      empty [] h = refl
      empty (y ∷ ys) h = absurd (cc)

  pub none_first : (p : A → Bool) (xs : List A) → find_first p xs ≡ none → All (λ x. p x ≡ false) xs
  none_first p [] e = tt
  none_first p (x ∷ xs) e = elim (Bool-cases (p x)) [
    | inl h ↦ absurd (there (simp h at e))
    | inr h ↦ (h, none_first p xs (simp h at e))
  ]
    where
      there : some x ≡ none → ⊥
      there k = cc
