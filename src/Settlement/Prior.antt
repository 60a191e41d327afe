-- ===== src/Settlement/Prior.antt =====
-- packages/payments/src/x402-settlement-store.ts: the attempts that resolveOrCreate looks for.
use agentready_commerce.Prelude.{
  Bool, true, false, not, ◌&&◌, Option, none, some, ◌≡◌, refl, sym, subst, ◌∙◌, ◌⊎◌, ◌↔◌, inl, inr,
  arith, find_first, first, All, All-imp, eq_iff, =?_iff, eqb_iff,
}
use agentready_commerce.Settlement.Types.{
  AttemptStatus, pending, settling, awaiting_evidence, settled, manual, rejected, mismatch,
  released, same_status, status_name, includes_status, is_resolved, StoredAttempt, ResolveInput,
  Store,
}
use agentready_commerce.Settlement.Searches.{
  In, both, found_kept, found_first, none_sorted, none_first,
}
use agentready_commerce.Settlement.Store.{
  same_request, paid_under, of_intent, active_in, settled_as, find_by_payment_id,
  find_active_attempt, find_settled_attempt, or_search, prior_attempt, rows,
}

-- A status that is not settled, rejected, mismatched or released.
abbrev pub Unresolved : AttemptStatus → Type 0
Unresolved s = (s ≡ pending) ⊎ (s ≡ settling) ⊎ (s ≡ awaiting_evidence) ⊎ (s ≡ manual)

abbrev pub OfIntent : ResolveInput → StoredAttempt → Type 0
OfIntent i r = (r.logical_order_id ≡ i.logical_order_id) × (r.intent_version ≡ i.intent_version)

-- An attempt under the payment identifier, an unresolved one of the intent, or one that settled the
-- very request for the resource.
abbrev pub Related : ResolveInput → StoredAttempt → Type 0
Related i r =
    (r.caller_payment_id ≡ some i.caller_payment_id)
    ⊎ (OfIntent i r × Unresolved r.status)
    ⊎ (OfIntent i r
        × ((r.status ≡ settled)
            × ((r.request_digest ≡ i.request_digest) × (r.resource ≡ i.resource))))

of_intent_iff :
    (i : ResolveInput) (r : StoredAttempt)
    → (of_intent i.logical_order_id i.intent_version r ≡ true) ↔ OfIntent i r
unfolding of_intent
of_intent_iff i r =
    ground (
      arith,
      eq_iff r.logical_order_id i.logical_order_id,
      eqb_iff r.intent_version i.intent_version,
    )

Unresolved-of : (s : AttemptStatus) → not (is_resolved s) ≡ true → Unresolved s
unfolding is_resolved includes_status same_status status_name
Unresolved-of pending h = inl refl
Unresolved-of rejected h = absurd (cc)
Unresolved-of settling h = inr (inl refl)
Unresolved-of awaiting_evidence h = inr (inr (inl refl))
Unresolved-of settled h = absurd (cc)
Unresolved-of mismatch h = absurd (cc)
Unresolved-of manual h = inr (inr (inr refl))
Unresolved-of released h = absurd (cc)

Unresolved-iff : (s : AttemptStatus) → (not (is_resolved s) ≡ true) ↔ Unresolved s
unfolding is_resolved includes_status same_status status_name
Unresolved-iff s = (Unresolved-of s, backward)
  where
    at : (t : AttemptStatus) → not (is_resolved t) ≡ true → s ≡ t → not (is_resolved s) ≡ true
    at t h e = subst (λ u. not (is_resolved u) ≡ true) (sym e) h

    backward : Unresolved s → not (is_resolved s) ≡ true
    backward (inl e) = at pending refl e
    backward (inr (inl e)) = at settling refl e
    backward (inr (inr (inl e))) = at awaiting_evidence refl e
    backward (inr (inr (inr e))) = at manual refl e

settled_of : (s : AttemptStatus) → same_status s settled ≡ true → s ≡ settled
unfolding same_status status_name
settled_of pending h = absurd (cc)
settled_of rejected h = absurd (cc)
settled_of settling h = absurd (cc)
settled_of awaiting_evidence h = absurd (cc)
settled_of settled h = refl
settled_of mismatch h = absurd (cc)
settled_of manual h = absurd (cc)
settled_of released h = absurd (cc)

settled_iff : (s : AttemptStatus) → (same_status s settled ≡ true) ↔ (s ≡ settled)
unfolding same_status status_name
settled_iff s = (settled_of s, λ e. subst (λ u. same_status u settled ≡ true) (sym e) refl)

and_iff : (a b : Bool) → (a && b ≡ true) ↔ ((a ≡ true) × (b ≡ true))
and_iff a b = ground arith

pub same_request_paid :
    (i : ResolveInput) (r : StoredAttempt)
    → same_request i.request_digest i.caller_payment_id r ≡ true
    → r.caller_payment_id ≡ some i.caller_payment_id
unfolding same_request
same_request_paid i r h = (=?_iff r.caller_payment_id i.caller_payment_id).0 ((and_iff _ _).0 h).1

paid_under_iff :
    (i : ResolveInput) (r : StoredAttempt)
    → (paid_under i.caller_payment_id r ≡ true) ↔ (r.caller_payment_id ≡ some i.caller_payment_id)
unfolding paid_under
paid_under_iff i r = =?_iff r.caller_payment_id i.caller_payment_id

active_iff :
    (i : ResolveInput) (r : StoredAttempt)
    → (active_in i.logical_order_id i.intent_version r ≡ true)
      ↔ (OfIntent i r × Unresolved r.status)
unfolding active_in
active_iff i r = ground (
  arith,
  and_iff (of_intent i.logical_order_id i.intent_version r) (not (is_resolved r.status)),
  of_intent_iff i r,
  Unresolved-iff r.status,
)

settled_as_iff :
    (i : ResolveInput) (r : StoredAttempt)
    → (settled_as i.logical_order_id i.intent_version i.request_digest i.resource r ≡ true) ↔ (
        OfIntent i r
        × ((r.status ≡ settled)
            × ((r.request_digest ≡ i.request_digest) × (r.resource ≡ i.resource))))
unfolding settled_as
settled_as_iff i r = ground (
  arith,
  of_intent_iff i r,
  settled_iff r.status,
  eq_iff r.request_digest i.request_digest,
  eq_iff r.resource i.resource,
)

or_cases :
    (a b : Option StoredAttempt) {r : StoredAttempt}
    → or_search a b ≡ some r
    → (a ≡ some r) ⊎ ((a ≡ none) × (b ≡ some r))
unfolding or_search
or_cases none b h = inr (refl, h)
or_cases (some a) b h = inl h

or_none : (a b : Option StoredAttempt) → or_search a b ≡ none → (a ≡ none) × (b ≡ none)
unfolding or_search
or_none none b h = (refl, h)
or_none (some a) b h = absurd (cc)

denies : {P : Type 0} (b : Bool) → (b ≡ true) ↔ P → b ≡ false → ¬ P
denies b d e p = clash (sym e ∙ d.1 p)
  where
    clash : false ≡ true → ⊥
    clash k = cc

unrelated :
    (i : ResolveInput) (r : StoredAttempt)
    → (paid_under i.caller_payment_id r ≡ false)
      × ((active_in i.logical_order_id i.intent_version r ≡ false)
          × (settled_as i.logical_order_id i.intent_version i.request_digest i.resource r ≡ false))
    → ¬ (Related i r)
unrelated i r (a, (b, c)) (inl h) = denies _ (paid_under_iff i r) a h
unrelated i r (a, (b, c)) (inr (inl h)) = denies _ (active_iff i r) b h
unrelated i r (a, (b, c)) (inr (inr h)) = denies _ (settled_as_iff i r) c h

-- A prior attempt is one of the store that has to do with the request.
pub prior_attempt-Related :
    (s : Store) (i : ResolveInput) (r : StoredAttempt)
    → prior_attempt s i ≡ some r
    → Related i r × In r (rows s)
unfolding prior_attempt find_by_payment_id find_active_attempt find_settled_attempt or_search
prior_attempt-Related s i r h =
    elim (or_cases (find_first (same_request i.request_digest i.caller_payment_id) (rows s)) _ h) [
      | inl a ↦ let f = found_first _ (rows s) r a in (inl (same_request_paid i r f.0), f.1)
      | inr (a, h) ↦ elim (or_cases (first (find_by_payment_id s i.caller_payment_id)) _ h) [
        | inl b ↦ let f = found_kept _ _ (rows s) r b in (inl ((paid_under_iff i r).0 f.0), f.1)
        | inr (b, h) ↦
            elim (or_cases (find_active_attempt s i.logical_order_id i.intent_version) _ h) [
              | inl c ↦
                  let f = found_kept _ _ (rows s) r c in (inr (inl ((active_iff i r).0 f.0)), f.1)
              | inr (c, h) ↦
                  let f = found_first _ (rows s) r h in
                  (inr (inr ((settled_as_iff i r).0 f.0)), f.1)
            ]
      ]
    ]

-- Without a prior attempt no row of the store has to do with the request.
pub prior_attempt-none :
    (s : Store) (i : ResolveInput) → prior_attempt s i ≡ none → All (λ r. ¬ (Related i r)) (rows s)
unfolding prior_attempt find_by_payment_id find_active_attempt find_settled_attempt
prior_attempt-none s i h =
    let (a, h1) = or_none _ _ h in
    let (b, h2) = or_none _ _ h1 in
    let (c, d) = or_none _ _ h2 in
    All-imp _ _ (rows s) (unrelated i) (
      both _ _ (rows s) (none_sorted _ _ (rows s) b)
        (both _ _ (rows s) (none_sorted _ _ (rows s) c) (none_first _ (rows s) d)))
