-- ===== src/Settlement/Final.antt =====
-- packages/payments/src/x402-settlement-store.ts: a resolved attempt is never changed again.
use agentready_commerce.Prelude.{
  ℕ, String, ◌∷◌, [], List, Bool, true, false, not, ◌||◌, Option, none, some, Map, get, set,
  get-set, Host, ◌≡◌, refl, sym, subst, ◌∙◌, ◌==◌, eq_of_==, inl, inr, if◌then◌else◌, length, All,
  Bool-cases, is_empty, is_set, same_option, sort_by, map, leb,
}
use agentready_commerce.Settlement.Types.{
  manual, same_status, includes_status, is_resolved, status_name, StoredAttempt, ReleaseEvidence,
  ResolveInput, ResolveResult, release_required, Store, Turn,
}
use agentready_commerce.Settlement.Store.{
  resolve_or_create, resolve_by, authorise, open_attempt, open_by, new_attempt, prior_attempt,
  last_released, rows, earlier_touched, build_operation_id, release_required_detail,
}
use agentready_commerce.Settlement.Moves.{
  Edit, edit, edit_by, on_row, take_row, claim_rows, claimed_with, claim_for_settle,
  revalidate_for_settle, transition, claim_row_for_takeover, claim_for_reconcile,
}
use agentready_commerce.Settlement.Release.{
  release_attempt, release_found, release_reasons, released_row,
}
use agentready_commerce.Settlement.Ops.{
  Operation, resolving, claiming, revalidating, moving, taking_over, reconciling, releasing, run,
  run_all,
}
use agentready_commerce.Settlement.Laws.{
  Each, claim_row-Continues, revalidate_row-Continues, take_row-Continues, move_row-Intent,
  is_resolved-same_status,
}
use agentready_commerce.Settlement.Active.{Orderly}

Open : StoredAttempt → StoredAttempt → Type 0
Open r q = is_resolved r.status ≡ false

module _ (id : String) (r : StoredAttempt) (resolved : is_resolved r.status ≡ true) where
  abbrev Held : Store → Type 0
  Held s = get s.attempts id ≡ some r

  -- An entry under another key, or under a key that had none, leaves the row.
  Held-set :
      (m : Map StoredAttempt) (k : String) (x : StoredAttempt)
      → (k == id ≡ true → ⊥)
      → get m id ≡ some r
      → get (set m k x) id ≡ some r
  Held-set m k x apart there = elim (Bool-cases (k == id)) [
    | inl e ↦ absurd (apart e)
    | inr e ↦ rw (get-set m k x id, e) there
  ]

  same_entry :
      (m : Map StoredAttempt) (k : String) (o : Option StoredAttempt)
      → (k == id) ≡ true
      → get m k ≡ o
      → get m id ≡ some r
      → some r ≡ o
  same_entry m k o same there held = sym held ∙ subst (λ i. get m i ≡ o) (eq_of_== k id same) there

  not_open : (q : StoredAttempt) → is_resolved q.status ≡ false → some r ≡ some q → ⊥
  not_open q h e = cc

  Held-edit_by :
      (s : Store) (k : String) (o : Option StoredAttempt) (f : StoredAttempt → Edit)
      → Each Open f
      → get s.attempts k ≡ o
      → Held s
      → Held (edit_by s k (on_row o f)).0
  unfolding edit_by on_row Open
  Held-edit_by s k none f h there held = held
  Held-edit_by s k (some q) f h there held = by (f q) refl
    where
      by : (e : Edit) → f q ≡ e → Held (edit_by s k e).0
      by none e = held
      by (some (x, log)) e =
          Held-set s.attempts k x
            (λ same. not_open q (h q x log e) (same_entry s.attempts k (some q) same there held))
            held

  Held-edit :
      (s : Store) (k : String) (f : StoredAttempt → Edit)
      → Each Open f
      → Held s
      → Held (edit s k f).0
  unfolding edit
  Held-edit s k f h held = Held-edit_by s k (get s.attempts k) f h refl held

  Held-claim_rows :
      (turn : Turn) (owner : String) (ttl limit : ℕ) (ids : List String) (s : Store)
      (claimed : List StoredAttempt)
      → Held s
      → Held (claim_rows turn owner ttl limit ids s claimed).0
  unfolding claim_rows Open
  Held-claim_rows turn owner ttl limit [] s claimed held = held
  Held-claim_rows turn owner ttl limit (k ∷ ids) s claimed held =
      let step = edit s k (take_row turn (length claimed) owner ttl) in
      let once =
        Held-edit s k (take_row turn (length claimed) owner ttl)
          (λ r q log e. (take_row-Continues turn (length claimed) owner ttl r q log e).0.0) held in
      let rest =
        Held-claim_rows turn owner ttl limit ids step.0 (claimed_with claimed step.1) once in
      elim (Bool-cases (leb limit (length claimed))) [ inl e ↦ rw e held | inr e ↦ rw e rest ]

  Held-open_attempt :
      (host : Host) (turn : Turn) (s : Store) (i : ResolveInput) (revision : String)
      → Held s
      → Held (open_attempt host turn s i revision).0
  unfolding open_attempt open_by
  Held-open_attempt host turn s i revision held =
      by (build_operation_id host i revision) (get s.attempts (build_operation_id host i revision))
        refl
    where
      clash : some r ≡ none → ⊥
      clash e = cc

      by :
          (k : String) (o : Option StoredAttempt)
          → get s.attempts k ≡ o
          → Held (open_by turn s i k revision o).0
      by k (some q) there = held
      by k none missing =
          Held-set s.attempts k (new_attempt turn i k revision)
            (λ same. clash (same_entry s.attempts k none same missing held)) held

  Held-resolve_or_create :
      (host : Host) (turn : Turn) (s : Store) (i : ResolveInput)
      → Held s
      → Held (resolve_or_create host turn s i).0
  unfolding resolve_or_create resolve_by authorise
  Held-resolve_or_create host turn s i held = by (prior_attempt s i)
    where
      either :
          (b : Bool) (q : StoredAttempt) (x : Store × ResolveResult)
          → Held x.0
          → Held (if b then (s, release_required q release_required_detail) else x).0
      either true q x h = held
      either false q x h = h

      again : (o : Option StoredAttempt) → Held (authorise host turn s i o).0
      again none = Held-open_attempt host turn s i _ held
      again (some q) =
          either
            (not (is_set i.approval_event_id)
              || not (same_option i.approval_event_id q.released_to_approval))
            q _ (Held-open_attempt host turn s i _ held)

      by : (o : Option StoredAttempt) → Held (resolve_by host turn s i o).0
      by (some q) = held
      by none = again (last_released s i)

  Held-release_found :
      (turn : Turn) (s : Store) (k : String) (e : ReleaseEvidence) (o : Option StoredAttempt)
      → get s.attempts k ≡ o
      → Held s
      → Held (release_found turn s k e o).0
  unfolding release_found is_resolved includes_status same_status status_name
  Held-release_found turn s k e none there held = held
  Held-release_found turn s k e (some q) there held =
      elim (Bool-cases (same_status q.status manual)) [
        | inl h ↦ elim (Bool-cases (is_set q.blockhash)) [
          | inl b ↦ elim (Bool-cases (same_option q.blockhash (some e.blockhash))) [
            | inl c ↦ simp (h, b, c) (Held-set s.attempts k (released_row turn e q) (apart h) held)
            | inr c ↦ simp (h, b, c) held
          ]
          | inr b ↦ simp (h, b) held
        ]
        | inr h ↦ simp h held
      ]
    where
      apart : same_status q.status manual ≡ true → k == id ≡ true → ⊥
      apart h same =
          not_open q (is_resolved-same_status q.status manual h)
            (same_entry s.attempts k (some q) same there held)

  Held-release_attempt :
      (turn : Turn) (s : Store) (k : String) (e : ReleaseEvidence)
      → Held s
      → Held (release_attempt turn s k e).0
  unfolding release_attempt
  Held-release_attempt turn s k e held = elim (Bool-cases (is_empty (release_reasons e))) [
    | inl h ↦ simp h (Held-release_found turn s k e (get s.attempts k) refl held)
    | inr h ↦ simp h held
  ]

  Held-run :
      (host : Host) (turn : Turn) (s : Store) (op : Operation)
      → Orderly op
      → Held s
      → Held (run host turn s op)
  unfolding run claim_for_settle revalidate_for_settle transition claim_row_for_takeover
      claim_for_reconcile Open
  Held-run host turn s (resolving i) h held = Held-resolve_or_create host turn s i held
  Held-run host turn s (claiming k owner ttl sealed digest) h held =
      Held-edit s k _
        (λ q x log e. (claim_row-Continues turn owner ttl sealed digest q x log e).0.0) held
  Held-run host turn s (revalidating k owner fence ttl) h held =
      Held-edit s k _ (λ q x log e. (revalidate_row-Continues turn owner fence ttl q x log e).0.0)
        held
  Held-run host turn s (moving k m) h held =
      Held-edit s k _ (λ q x log e. (move_row-Intent turn k m h q x log e).0) held
  Held-run host turn s (taking_over k owner ttl) h held =
      Held-edit s k _ (λ q x log e. (take_row-Continues turn 0 owner ttl q x log e).0.0) held
  Held-run host turn s (reconciling owner ttl limit) h held =
      Held-claim_rows turn owner ttl limit
        (map (λ x. x.operation_id) (sort_by earlier_touched (rows s))) s [] held
  Held-run host turn s (releasing k e) h held = Held-release_attempt turn s k e held

  -- An attempt that is settled, rejected, a mismatch or released stays as it is, in every field, over
  -- any series of calls in which transitions leave unresolved states only.
  pub run_all-resolved :
      (host : Host) (s : Store) (ops : List (Turn × Operation))
      → All (λ o. Orderly o.1) ops
      → get s.attempts id ≡ some r
      → get (run_all host s ops).attempts id ≡ some r
  unfolding run_all
  run_all-resolved host s [] hs held = held
  run_all-resolved host s ((turn, op) ∷ ops) (h, hs) held =
      run_all-resolved host (run host turn s op) ops hs (Held-run host turn s op h held)
