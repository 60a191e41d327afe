-- ===== src/Settlement/Counting.antt =====
-- packages/payments/src/x402-settlement-store.ts: what resolveOrCreate and an edit of a row
-- leave of the number of rows that pass a test.
use agentready_commerce.Prelude.{
  ◌≤◌, String, ◌∷◌, [], List, Bool, true, false, not, Option, none, some, get, values, Host, ◌≡◌,
  refl, sym, subst, inl, inr, if◌then◌else◌, keep, length, ◌||◌, is_set, same_option, Bool-cases,
  Option-cases, arith, first, sort_by, length-sort_by,
}
use agentready_commerce.Settlement.Types.{
  StoredAttempt, ResolveInput, Store, Turn, Movement, ResolveResult, release_required,
}
use agentready_commerce.Settlement.Store.{
  resolve_by, authorise, open_attempt, open_by, new_attempt, prior_attempt, or_search, rows,
  active_in, find_active_attempt, find_by_payment_id, paid_under, last_released,
  release_required_detail,
}
use agentready_commerce.Settlement.Moves.{Edit, edit, edit_by, on_row}
use agentready_commerce.Settlement.Ops.{
  count, count-set, count-set-false, count-set_old, length-keep-values,
}
use agentready_commerce.Settlement.Laws.{Each}

abbrev pub Tame : (StoredAttempt → Bool) → StoredAttempt → StoredAttempt → Type 0
Tame p r q = p q ≡ true → p r ≡ true

count-edit_by :
    (p : StoredAttempt → Bool) (s : Store) (id : String) (r : StoredAttempt) (e : Edit)
    → get s.attempts id ≡ some r
    → ((q : StoredAttempt) (log : List Movement) → e ≡ some (q, log) → Tame p r q)
    → count p (edit_by s id e).0.attempts ≤ count p s.attempts
unfolding edit_by
count-edit_by p s id r none there h = omega arith
count-edit_by p s id r (some (q, log)) there h =
    count-set_old p s.attempts id q r there (h q log refl)

pub count-edit :
    (p : StoredAttempt → Bool) (s : Store) (id : String) (f : StoredAttempt → Edit)
    → Each (Tame p) f
    → count p (edit s id f).0.attempts ≤ count p s.attempts
unfolding edit on_row edit_by
count-edit p s id f h = elim (Option-cases (get s.attempts id)) [
  | inl missing ↦ rw missing (omega arith)
  | inr (r, there) ↦
      subst (λ o. count p (edit_by s id (on_row o f)).0.attempts ≤ count p s.attempts) (sym there)
        (count-edit_by p s id r (f r) there (λ q log e. h r q log e))
]

-- A test that no row passes where a new row does.
abbrev pub Free : (StoredAttempt → Bool) → ResolveInput → Store → Type 0
Free p i s =
    (turn : Turn) (id revision : String)
    → p (new_attempt turn i id revision) ≡ true
    → count p s.attempts ≡ 0

module _ (p : StoredAttempt → Bool) (host : Host) (turn : Turn) (s : Store) (i : ResolveInput)
    (few : count p s.attempts ≤ 1) where
  count-open_by :
      (id revision : String) (o : Option StoredAttempt)
      → Free p i s
      → count p (open_by turn s i id revision o).0.attempts ≤ 1
  unfolding open_by
  count-open_by id revision (some r) h = few
  count-open_by id revision none h =
      let row = new_attempt turn i id revision in
      elim (Bool-cases (p row)) [
        | inl e ↦ omega (arith, count-set p s.attempts id row, h turn id revision e)
        | inr e ↦ omega (arith, count-set-false p s.attempts id row e, few)
      ]

  count-authorise :
      (o : Option StoredAttempt) → Free p i s → count p (authorise host turn s i o).0.attempts ≤ 1
  unfolding authorise open_attempt
  count-authorise none h = count-open_by _ _ _ h
  count-authorise (some r) h =
      either
        (not (is_set i.approval_event_id)
          || not (same_option i.approval_event_id r.released_to_approval))
        _ (count-open_by _ _ _ h)
    where
      either :
          (b : Bool) (x : Store × ResolveResult)
          → count p x.0.attempts ≤ 1
          → count p (if b then (s, release_required r release_required_detail) else x).0.attempts
            ≤ 1
      either true x k = few
      either false x k = k

  pub count-resolve_by :
      (o : Option StoredAttempt)
      → (o ≡ none → Free p i s)
      → count p (resolve_by host turn s i o).0.attempts ≤ 1
  unfolding resolve_by
  count-resolve_by (some r) h = few
  count-resolve_by none h = count-authorise (last_released s i) (h refl)

or_search-none : (a b : Option StoredAttempt) → or_search a b ≡ none → (a ≡ none) × (b ≡ none)
unfolding or_search
or_search-none none b e = (refl, e)
or_search-none (some r) b e = absurd (cc)

first-none : {A : Type 0} (xs : List A) → first xs ≡ none → length xs ≡ 0
first-none [] e = refl
first-none (x ∷ xs) e = absurd (cc)

sorted_none :
    (before : StoredAttempt → StoredAttempt → Bool) (p : StoredAttempt → Bool) (s : Store)
    → first (sort_by before (keep p (rows s))) ≡ none
    → count p s.attempts ≡ 0
unfolding rows
sorted_none before p s e = omega (
  arith,
  first-none _ e,
  length-sort_by before (keep p (values s.attempts)),
  length-keep-values p s.attempts,
)

-- Neither search of the earlier attempts found a row.
pub prior_none :
    (s : Store) (i : ResolveInput)
    → prior_attempt s i ≡ none
    → (count (active_in i.logical_order_id i.intent_version) s.attempts ≡ 0)
      × (count (paid_under i.caller_payment_id) s.attempts ≡ 0)
unfolding prior_attempt find_active_attempt find_by_payment_id
prior_none s i e =
    let by_payment = or_search-none _ _ (or_search-none _ _ e).1 in
    let by_intent = or_search-none _ _ by_payment.1 in
    (sorted_none _ _ s by_intent.0, sorted_none _ _ s by_payment.0)
