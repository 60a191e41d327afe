-- ===== src/Settlement/Runs.antt =====
-- packages/payments/src/x402-settlement-store.ts: what a series of calls leaves of the number of rows
-- that pass a test.
use agentready_commerce.Prelude.{
  ℕ, ◌≤◌, String, ◌∷◌, [], List, Bool, Option, none, some, get, Host, ◌≡◌, refl, inl, inr, length,
  All, Bool-cases, arith, is_empty, is_set, same_option, sort_by, map, leb,
}
use agentready_commerce.Settlement.Types.{
  manual, same_status, includes_status, is_resolved, status_name, StoredAttempt, ReleaseEvidence,
  ResolveInput, Store, Turn,
}
use agentready_commerce.Settlement.Store.{resolve_or_create, prior_attempt, rows, earlier_touched}
use agentready_commerce.Settlement.Moves.{
  edit, move_row, claim_row, revalidate_row, take_row, claim_rows, claimed_with, claim_for_settle,
  revalidate_for_settle, transition, claim_row_for_takeover, claim_for_reconcile,
}
use agentready_commerce.Settlement.Release.{
  release_attempt, release_found, release_reasons, released_row,
}
use agentready_commerce.Settlement.Ops.{
  Operation, resolving, claiming, revalidating, moving, taking_over, reconciling, releasing, run,
  run_all, count, count-set_old,
}
use agentready_commerce.Settlement.Laws.{
  Each, Continues, claim_row-Continues, revalidate_row-Continues, take_row-Continues,
  is_resolved-same_status,
}
use agentready_commerce.Settlement.Counting.{Tame, Free, count-edit, count-resolve_by}

module _ (p : StoredAttempt → Bool)
    (continuous : (r q : StoredAttempt) → Continues r q → Tame p r q) where
  count-claim_rows :
      (turn : Turn) (owner : String) (ttl limit : ℕ) (ids : List String) (s : Store)
      (claimed : List StoredAttempt)
      → count p (claim_rows turn owner ttl limit ids s claimed).0.attempts ≤ count p s.attempts
  unfolding claim_rows
  count-claim_rows turn owner ttl limit [] s claimed = omega arith
  count-claim_rows turn owner ttl limit (id ∷ ids) s claimed =
      let step = edit s id (take_row turn (length claimed) owner ttl) in
      let once = count-edit p s id (take_row turn (length claimed) owner ttl) (λ r q log e.
        continuous r q (take_row-Continues turn (length claimed) owner ttl r q log e)) in
      let rest = count-claim_rows turn owner ttl limit ids step.0 (claimed_with claimed step.1) in
      elim (Bool-cases (leb limit (length claimed))) [
        | inl e ↦ rw e (omega arith)
        | inr e ↦ rw e (omega (arith, once, rest))
      ]

  count-release_found :
      (turn : Turn) (s : Store) (id : String) (e : ReleaseEvidence) (o : Option StoredAttempt)
      → get s.attempts id ≡ o
      → count p (release_found turn s id e o).0.attempts ≤ count p s.attempts
  unfolding release_found released_row is_resolved includes_status same_status status_name
  count-release_found turn s id e none there = omega arith
  count-release_found turn s id e (some r) there = elim (Bool-cases (same_status r.status manual)) [
    | inl h ↦ elim (Bool-cases (is_set r.blockhash)) [
      | inl k ↦ elim (Bool-cases (same_option r.blockhash (some e.blockhash))) [
        | inl l ↦
            simp (h, k, l)
              (count-set_old p s.attempts id (released_row turn e r) r there (
                continuous r (released_row turn e r)
                  ((is_resolved-same_status r.status manual h, (refl, refl)), refl)))
        | inr l ↦ simp (h, k, l) (omega arith)
      ]
      | inr k ↦ simp (h, k) (omega arith)
    ]
    | inr h ↦ simp h (omega arith)
  ]

  count-release_attempt :
      (turn : Turn) (s : Store) (id : String) (e : ReleaseEvidence)
      → count p (release_attempt turn s id e).0.attempts ≤ count p s.attempts
  unfolding release_attempt
  count-release_attempt turn s id e = elim (Bool-cases (is_empty (release_reasons e))) [
    | inl h ↦ simp h (count-release_found turn s id e (get s.attempts id) refl)
    | inr h ↦ simp h (omega arith)
  ]

  -- The transitions of an operation, and their condition for the count.
  abbrev pub Permits : Operation → Type 0
  Permits (moving id m) = (turn : Turn) → Each (Tame p) (move_row turn id m)
  Permits (resolving i) = Unit
  Permits (claiming id owner ttl sealed digest) = Unit
  Permits (revalidating id owner fence ttl) = Unit
  Permits (taking_over id owner ttl) = Unit
  Permits (reconciling owner ttl limit) = Unit
  Permits (releasing id e) = Unit

  module _ (free : (s : Store) (i : ResolveInput) → prior_attempt s i ≡ none → Free p i s) where
    count-run :
        (host : Host) (turn : Turn) (s : Store) (op : Operation)
        → Permits op
        → count p s.attempts ≤ 1
        → count p (run host turn s op).attempts ≤ 1
    unfolding run resolve_or_create claim_for_settle revalidate_for_settle transition
        claim_row_for_takeover claim_for_reconcile
    count-run host turn s (resolving i) h few =
        count-resolve_by p host turn s i few (prior_attempt s i) (free s i)
    count-run host turn s (claiming id owner ttl sealed digest) h few = omega (
      arith,
      few,
      count-edit p s id (claim_row turn owner ttl sealed digest) (λ r q log e.
          continuous r q (claim_row-Continues turn owner ttl sealed digest r q log e)),
    )
    count-run host turn s (revalidating id owner fence ttl) h few = omega (
      arith,
      few,
      count-edit p s id (revalidate_row turn owner fence ttl)
          (λ r q log e. continuous r q (revalidate_row-Continues turn owner fence ttl r q log e)),
    )
    count-run host turn s (moving id m) h few =
        omega (arith, few, count-edit p s id (move_row turn id m) (h turn))
    count-run host turn s (taking_over id owner ttl) h few = omega (
      arith,
      few,
      count-edit p s id (take_row turn 0 owner ttl)
          (λ r q log e. continuous r q (take_row-Continues turn 0 owner ttl r q log e)),
    )
    count-run host turn s (reconciling owner ttl limit) h few = omega (
      arith,
      few,
      count-claim_rows turn owner ttl limit
          (map (λ r. r.operation_id) (sort_by earlier_touched (rows s))) s [],
    )
    count-run host turn s (releasing id e) h few =
        omega (arith, few, count-release_attempt turn s id e)

    pub count-run_all :
        (host : Host) (s : Store) (ops : List (Turn × Operation))
        → All (λ o. Permits o.1) ops
        → count p s.attempts ≤ 1
        → count p (run_all host s ops).attempts ≤ 1
    unfolding run_all
    count-run_all host s [] hs few = few
    count-run_all host s ((turn, op) ∷ ops) (h, hs) few =
        count-run_all host (run host turn s op) ops hs (count-run host turn s op h few)
