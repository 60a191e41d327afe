-- ===== src/Settlement/Active.antt =====
-- packages/payments/src/x402-settlement-store.ts: over any series of calls an intent has at most one
-- unresolved attempt, and a payment identifier is bound to at most one attempt.
use agentready_commerce.Prelude.{
  ℕ, ◌≤◌, String, List, not, none, Host, ◌≡◌, refl, sym, subst, All, eq_of_==, eqb_iff, and_left,
  and_right, All-imp, ap,
}
use agentready_commerce.Settlement.Types.{is_resolved, StoredAttempt, ResolveInput, Store, Turn}
use agentready_commerce.Settlement.Store.{
  new_attempt, prior_attempt, active_in, of_intent, paid_under,
}
use agentready_commerce.Settlement.Moves.{Move, moved_row}
use agentready_commerce.Settlement.Ops.{
  Operation, resolving, claiming, revalidating, moving, taking_over, reconciling, releasing,
  run_all, count,
}
use agentready_commerce.Settlement.Laws.{
  Intent, Continues, FromOpen, move_row-Intent, move_row-some,
}
use agentready_commerce.Settlement.Counting.{Tame, Free, prior_none}
use agentready_commerce.Settlement.Runs.{Permits, count-run_all}

-- Transitions are out of unresolved states only, as those of the callers are.
abbrev pub Orderly : Operation → Type 0
Orderly (moving id m) = FromOpen m
Orderly (resolving i) = Unit
Orderly (claiming id owner ttl sealed digest) = Unit
Orderly (revalidating id owner fence ttl) = Unit
Orderly (taking_over id owner ttl) = Unit
Orderly (reconciling owner ttl limit) = Unit
Orderly (releasing id e) = Unit

-- Transitions leave the payment identifier of a row.
abbrev pub Bound : Operation → Type 0
Bound (moving id m) = m.update.caller_payment_id ≡ none
Bound (resolving i) = Unit
Bound (claiming id owner ttl sealed digest) = Unit
Bound (revalidating id owner fence ttl) = Unit
Bound (taking_over id owner ttl) = Unit
Bound (reconciling owner ttl limit) = Unit
Bound (releasing id e) = Unit

of_intent_same :
    (order : String) (version : ℕ) (r q : StoredAttempt)
    → q.logical_order_id ≡ r.logical_order_id
    → q.intent_version ≡ r.intent_version
    → of_intent order version q ≡ of_intent order version r
unfolding of_intent
of_intent_same order version r q a b = simp (a, b) refl

Intent-active :
    (order : String) (version : ℕ) (r q : StoredAttempt)
    → Intent r q
    → Tame (active_in order version) r q
unfolding active_in
Intent-active order version r q (h, (a, b)) e =
    simp
      (
        sym (of_intent_same order version r q a b),
        and_left (of_intent order version q) (not (is_resolved q.status)) e,
        h,
      )
      refl

Free-active :
    (order : String) (version : ℕ) (s : Store) (i : ResolveInput)
    → prior_attempt s i ≡ none
    → Free (active_in order version) i s
unfolding active_in of_intent new_attempt
Free-active order version s i e turn id revision h =
    let there = and_left _ _ h in
    let o = eq_of_== _ _ (and_left _ _ there) in
    let v = (eqb_iff i.intent_version version).0 (and_right _ _ there) in
    subst (λ o. count (active_in o version) s.attempts ≡ 0) o
      (subst (λ v. count (active_in i.logical_order_id v) s.attempts ≡ 0) v (prior_none s i e).0)

permitted_active :
    (order : String) (version : ℕ) (op : Operation)
    → Orderly op
    → Permits (active_in order version) (λ r q c. Intent-active order version r q c.0) op
permitted_active order version (moving id m) h =
    λ turn r q log e. Intent-active order version r q (move_row-Intent turn id m h r q log e)
permitted_active order version (resolving i) h = tt
permitted_active order version (claiming id owner ttl sealed digest) h = tt
permitted_active order version (revalidating id owner fence ttl) h = tt
permitted_active order version (taking_over id owner ttl) h = tt
permitted_active order version (reconciling owner ttl limit) h = tt
permitted_active order version (releasing id e) h = tt

-- Over any series of calls, in which transitions leave unresolved states only, an order has at most
-- one unresolved attempt for a version of its intent, if it had at most one before.
pub run_all-active_in :
    (host : Host) (s : Store) (ops : List (Turn × Operation)) (order : String) (version : ℕ)
    → All (λ o. Orderly o.1) ops
    → count (active_in order version) s.attempts ≤ 1
    → count (active_in order version) (run_all host s ops).attempts ≤ 1
run_all-active_in host s ops order version hs few =
    count-run_all (active_in order version) (λ r q c. Intent-active order version r q c.0)
      (Free-active order version) host s ops
      (All-imp _ _ ops (λ o. permitted_active order version o.1) hs) few

Continues-paid :
    (payment : String) (r q : StoredAttempt) → Continues r q → Tame (paid_under payment) r q
unfolding paid_under
Continues-paid payment r q (h, c) e = simp (sym c) e

Free-paid :
    (payment : String) (s : Store) (i : ResolveInput)
    → prior_attempt s i ≡ none
    → Free (paid_under payment) i s
unfolding paid_under new_attempt
Free-paid payment s i e turn id revision h =
    subst (λ p. count (paid_under p) s.attempts ≡ 0) (eq_of_== _ _ h) (prior_none s i e).1

moved_paid :
    (turn : Turn) (m : Move) (r : StoredAttempt)
    → m.update.caller_payment_id ≡ none
    → (moved_row turn m r).caller_payment_id ≡ r.caller_payment_id
unfolding moved_row
moved_paid turn m r h = simp h refl

permitted_paid :
    (payment : String) (op : Operation)
    → Bound op
    → Permits (paid_under payment) (Continues-paid payment) op
unfolding paid_under
permitted_paid payment (moving id m) h = λ turn r q log e f.
    simp
      (
        sym (moved_paid turn m r h),
        ap (λ x. x.caller_payment_id) (move_row-some turn id m r q log e).1.1,
      )
      f
permitted_paid payment (resolving i) h = tt
permitted_paid payment (claiming id owner ttl sealed digest) h = tt
permitted_paid payment (revalidating id owner fence ttl) h = tt
permitted_paid payment (taking_over id owner ttl) h = tt
permitted_paid payment (reconciling owner ttl limit) h = tt
permitted_paid payment (releasing id e) h = tt

-- Over any series of calls, in which no transition rebinds a payment identifier, a payment identifier
-- is bound to at most one attempt, if it was before.
pub run_all-paid_under :
    (host : Host) (s : Store) (ops : List (Turn × Operation)) (payment : String)
    → All (λ o. Bound o.1) ops
    → count (paid_under payment) s.attempts ≤ 1
    → count (paid_under payment) (run_all host s ops).attempts ≤ 1
run_all-paid_under host s ops payment hs few =
    count-run_all (paid_under payment) (Continues-paid payment) (Free-paid payment) host s ops
      (All-imp _ _ ops (λ o. permitted_paid payment o.1) hs) few
