-- ===== src/Settlement/Replay.antt =====
-- packages/payments/src/x402-settlement-store.ts: a repeated resolveOrCreate joins its own attempt.
use Prim.Native.String.{◌++◌ as append, compare}
use text.Mathlib.TextLemmas.{append_assoc}
use text.Mathlib.TextPositions.{slice-append_left}
use text.Mathlib.Text.{starts_with, is_eq}
use agentready_commerce.Prelude.{
  String, ◌∷◌, [], Bool, true, false, not, Option, none, some, Map, get, set, values, Host, ◌≡◌,
  refl, sym, subst, ◌==◌, ==_refl, eq_of_==, inl, inr, if◌then◌else◌, Bool-cases, arith, find_first,
  List, All, get_or_else, ◌<>◌,
}
use agentready_commerce.Settlement.Types.{
  StoredAttempt, ResolveInput, created, existing, Store, Turn, approval_mismatch, without_hyphens,
}
use agentready_commerce.Settlement.Prior.{Related, same_request_paid}
use agentready_commerce.Settlement.Resolve.{Authorised, Resolved, resolve_or_create-Resolved}
use agentready_commerce.Settlement.Store.{
  last_released, resolve_or_create, resolve_by, new_attempt, prior_attempt, or_search,
  mint_spend_auth_revision, join, same_request, rows,
}

-- The revision of a spend without an approval asks for none.
minted_unbound : (s : String) → starts_with ("sauth_" <> s) "appr_" ≡ false
minted_unbound s =
    subst (λ t. starts_with t "appr_" ≡ false) (sym (append_assoc "sauth" "_" s))
      (subst (λ t. is_eq (compare t "appr_") ≡ false)
        (sym (slice-append_left "sauth" (append "_" s))) refl)

-- An approval that a new attempt is bound to is the one that opened it.
bound_itself : (revision : String) → approval_mismatch revision (some revision) ≡ false
unfolding approval_mismatch
bound_itself revision = elim (Bool-cases (revision == "")) [
  | inl e ↦ subst (λ r. approval_mismatch r (some r) ≡ false) (sym (eq_of_== revision "" e)) refl
  | inr e ↦ simp (e, ==_refl revision) (either (starts_with revision "appr_"))
]
  where
    either : (b : Bool) → (if not b then false else false) ≡ false
    either true = refl
    either false = refl

opened_matches :
    (turn : Turn) (o : Option String)
    → approval_mismatch (get_or_else o (mint_spend_auth_revision turn)) o ≡ false
unfolding approval_mismatch mint_spend_auth_revision
opened_matches turn none = simp (minted_unbound (without_hyphens (turn.uuid 0))) refl
opened_matches turn (some a) = bound_itself a

Authorised-matches :
    (turn : Turn) (i : ResolveInput) (o : Option StoredAttempt) (revision : String)
    → Authorised turn i o revision
    → approval_mismatch revision i.approval_event_id ≡ false
Authorised-matches turn i none revision h =
    subst (λ r. approval_mismatch r i.approval_event_id ≡ false) (sym h)
      (opened_matches turn i.approval_event_id)
Authorised-matches turn i (some q) revision h =
    subst (λ o. approval_mismatch revision o ≡ false) (sym h.0) (bound_itself revision)

-- A search of the entries that found nothing finds a new one.
find_first-set :
    (p : StoredAttempt → Bool) (m : Map StoredAttempt) (k : String) (x : StoredAttempt)
    → get m k ≡ none
    → find_first p (values m) ≡ none
    → p x ≡ true
    → find_first p (values (set m k x)) ≡ some x
unfolding get set values
find_first-set p [] k x missing none_passes h = simp h refl
find_first-set p ((j, w) ∷ m) k x missing none_passes h = elim (Bool-cases (j == k)) [
  | inl e ↦ absurd (there e missing)
  | inr e ↦ elim (Bool-cases (p w)) [
    | inl f ↦ absurd (passed f none_passes)
    | inr f ↦ simp (e, f) (find_first-set p m k x (later e missing) (fails f none_passes) h)
  ]
]
  where
    there : (j == k) ≡ true → (if j == k then some w else get m k) ≡ none → ⊥
    there e f = ground (arith, e, f)

    later : (j == k) ≡ false → (if j == k then some w else get m k) ≡ none → get m k ≡ none
    later e f = ground (arith, e, f)

    passed : p w ≡ true → (if p w then some w else find_first p (values m)) ≡ none → ⊥
    passed e f = ground (arith, e, f)

    fails :
        p w ≡ false
        → (if p w then some w else find_first p (values m)) ≡ none
        → find_first p (values m) ≡ none
    fails e f = ground (arith, e, f)

new_request :
    (turn : Turn) (i : ResolveInput) (id revision : String)
    → same_request i.request_digest i.caller_payment_id (new_attempt turn i id revision) ≡ true
unfolding same_request new_attempt
new_request turn i id revision = rw (==_refl i.request_digest, ==_refl i.caller_payment_id) refl

-- The earlier attempt of a store whose first search finds one.
prior_found :
    (s : Store) (i : ResolveInput) (r : StoredAttempt)
    → find_first (same_request i.request_digest i.caller_payment_id) (values s.attempts) ≡ some r
    → prior_attempt s i ≡ some r
unfolding prior_attempt or_search rows
prior_found s i r e = simp e refl

-- No row that has nothing to do with the request is for it.
unrelated_missed :
    (i : ResolveInput) (xs : List StoredAttempt)
    → All (λ r. ¬ (Related i r)) xs
    → find_first (same_request i.request_digest i.caller_payment_id) xs ≡ none
unrelated_missed i [] h = refl
unrelated_missed i (x ∷ xs) (h, hs) =
    elim (Bool-cases (same_request i.request_digest i.caller_payment_id x)) [
      | inl e ↦ absurd (h (inl (same_request_paid i x e)))
      | inr e ↦ simp e (unrelated_missed i xs hs)
    ]

rejoined :
    (host : Host) (turn later : Turn) (s after : Store) (i : ResolveInput) (r : StoredAttempt)
    → Resolved host turn s i (after, created r)
    → resolve_or_create host later after i ≡ (after, existing r)
unfolding resolve_or_create resolve_by join rows
rejoined host turn later s after i r ((new, may), (missing, (made, stored))) =
    simp (found, Authorised-matches turn i (last_released s i) r.auth_revision may) refl
  where
    found : prior_attempt after i ≡ some r
    found = prior_found after i r (
        subst
          (λ m. find_first (same_request i.request_digest i.caller_payment_id) (values m) ≡ some r)
          (sym stored)
          (find_first-set _ s.attempts r.operation_id r missing (unrelated_missed i (rows s) new) (
            subst (λ x. same_request i.request_digest i.caller_payment_id x ≡ true) (sym made)
              (new_request turn i r.operation_id r.auth_revision))))

-- A request that created an attempt and is repeated, at any later time, is answered with that very
-- attempt and changes nothing.
pub resolve_or_create-again :
    (host : Host) (turn later : Turn) (s : Store) (i : ResolveInput) (r : StoredAttempt)
    → (resolve_or_create host turn s i).1 ≡ created r
    → resolve_or_create host later (resolve_or_create host turn s i).0 i
      ≡ ((resolve_or_create host turn s i).0, existing r)
resolve_or_create-again host turn later s i r e =
    rejoined host turn later s (resolve_or_create host turn s i).0 i r (
      subst (λ x. Resolved host turn s i ((resolve_or_create host turn s i).0, x)) e
        (resolve_or_create-Resolved host turn s i))
