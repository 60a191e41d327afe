-- ===== src/Settlement/Resolve.antt =====
-- packages/payments/src/x402-settlement-store.ts: what an answer of resolveOrCreate says.
use agentready_commerce.Prelude.{
  String, true, false, Option, none, some, get, set, Host, ◌≡◌, refl, sym, subst, ◌∙◌, ap, eq_of_==,
  inl, inr, Bool-cases, same_option, is_set, get_or_else, All, ◌⊎◌,
}
use agentready_commerce.Settlement.Types.{
  StoredAttempt, ResolveInput, ResolveResult, created, existing, approval_differs, release_required,
  Store, Turn, approval_mismatch,
}
use agentready_commerce.Settlement.Searches.{In}
use agentready_commerce.Settlement.Prior.{Related, prior_attempt-Related, prior_attempt-none}
use agentready_commerce.Settlement.Store.{
  rows, build_operation_id, resolve_or_create, resolve_by, authorise, open_attempt, open_by,
  new_attempt, prior_attempt, last_released, mint_spend_auth_revision, join,
}

-- The text of two options that are the same.
same_option_eq : (a b : Option String) → same_option a b ≡ true → a ≡ b
same_option_eq none none h = refl
same_option_eq none (some b) h = absurd (cc)
same_option_eq (some a) none h = absurd (cc)
same_option_eq (some a) (some b) h = ap some (eq_of_== a b h)

-- An authorization revision that a new attempt may carry, after the release found.
abbrev pub Authorised : Turn → ResolveInput → Option StoredAttempt → String → Type 0
Authorised turn i none revision =
    revision ≡ get_or_else i.approval_event_id (mint_spend_auth_revision turn)
Authorised turn i (some q) revision =
    (i.approval_event_id ≡ some revision) × (some revision ≡ q.released_to_approval)

-- An attempt of the store that has to do with the request, or, where none has, the one that is there
-- under the identifier of the new attempt.
abbrev pub Joined : Host → Store → ResolveInput → StoredAttempt → Type 0
Joined host s i r =
    ((Related i r × In r (rows s))
      × (approval_mismatch r.auth_revision i.approval_event_id ≡ false))
    ⊎ (All (λ q. ¬ (Related i q)) (rows s)
        × ((revision : String) × (get s.attempts (build_operation_id host i revision) ≡ some r)))

-- What an answer says of the store before and after.
abbrev pub Resolved : Host → Turn → Store → ResolveInput → Store × ResolveResult → Type 0
Resolved host turn s i (after, created r) =
    (All (λ q. ¬ (Related i q)) (rows s) × Authorised turn i (last_released s i) r.auth_revision)
    × ((get s.attempts r.operation_id ≡ none)
        × ((r ≡ new_attempt turn i r.operation_id r.auth_revision)
            × (after.attempts ≡ set s.attempts r.operation_id r)))
Resolved host turn s i (after, existing r) = (after ≡ s) × Joined host s i r
Resolved host turn s i (after, approval_differs r why) =
    ((after ≡ s) × (Related i r × In r (rows s)))
    × (approval_mismatch r.auth_revision i.approval_event_id ≡ true)
Resolved host turn s i (after, release_required r why) =
    ((after ≡ s) × (last_released s i ≡ some r))
    × (same_option i.approval_event_id r.released_to_approval ≡ true
        → is_set i.approval_event_id ≡ false)

module _ (host : Host) (turn : Turn) (s : Store) (i : ResolveInput) where
  open_by-Resolved :
      (id revision : String) (o : Option StoredAttempt)
      → id ≡ build_operation_id host i revision
      → prior_attempt s i ≡ none
      → Authorised turn i (last_released s i) revision
      → get s.attempts id ≡ o
      → Resolved host turn s i (open_by turn s i id revision o)
  unfolding open_by new_attempt
  open_by-Resolved id revision (some r) own new may there =
      (refl, inr (prior_attempt-none s i new, (revision, ap (get s.attempts) (sym own) ∙ there)))
  open_by-Resolved id revision none own new may missing =
      ((prior_attempt-none s i new, may), (missing, (refl, refl)))

  authorise-Resolved :
      (o : Option StoredAttempt)
      → prior_attempt s i ≡ none
      → last_released s i ≡ o
      → Resolved host turn s i (authorise host turn s i o)
  unfolding authorise open_attempt
  authorise-Resolved none new last =
      open_by-Resolved _ _ _ refl new
        (subst
          (λ o.
            Authorised turn i o (get_or_else i.approval_event_id (mint_spend_auth_revision turn)))
          (sym last) refl)
        refl
  authorise-Resolved (some q) new last = elim (Bool-cases (is_set i.approval_event_id)) [
    | inl given ↦ elim (Bool-cases (same_option i.approval_event_id q.released_to_approval)) [
      | inl cited ↦
          simp (given, cited)
            (open_by-Resolved _ _ _ refl new
              (subst (λ o. Authorised turn i o (get_or_else i.approval_event_id "")) (sym last)
                (
                  sym (there i.approval_event_id given),
                  there i.approval_event_id given ∙ same_option_eq _ _ cited,
                ))
              refl)
      | inr other ↦ simp (given, other) ((refl, last), λ same. absurd (cc))
    ]
    | inr unset ↦ simp unset ((refl, last), λ same. refl)
  ]
    where
      there : (o : Option String) → is_set o ≡ true → some (get_or_else o "") ≡ o
      there none h = absurd (cc)
      there (some x) h = refl

  join-Resolved :
      (r : StoredAttempt) → Related i r × In r (rows s) → Resolved host turn s i (s, join i r)
  unfolding join
  join-Resolved r there =
      elim (Bool-cases (approval_mismatch r.auth_revision i.approval_event_id)) [
        | inl e ↦ simp e ((refl, there), refl)
        | inr e ↦ simp e (refl, inl (there, refl))
      ]

  resolve_by-Resolved :
      (o : Option StoredAttempt)
      → prior_attempt s i ≡ o
      → Resolved host turn s i (resolve_by host turn s i o)
  unfolding resolve_by
  resolve_by-Resolved (some r) found = join-Resolved r (prior_attempt-Related s i r found)
  resolve_by-Resolved none new = authorise-Resolved (last_released s i) new refl

  pub resolve_or_create-Resolved : Resolved host turn s i (resolve_or_create host turn s i)
  unfolding resolve_or_create
  resolve_or_create-Resolved = resolve_by-Resolved (prior_attempt s i) refl
