-- ===== src/Settlement/Ops.antt =====
-- packages/payments/src/x402-settlement-store.ts: series of calls of the store's operations, and
-- what an edit of one row leaves of a count of rows.
use agentready_commerce.Prelude.{
  ℕ, suc, ◌≤◌, String, ◌∷◌, [], List, Bool, true, false, Option, some, Map, get, set, values, Host,
  ◌≡◌, refl, keep, length, arith, if◌then◌else◌,
}
use agentready_commerce.Settlement.Types.{StoredAttempt, ReleaseEvidence, ResolveInput, Store, Turn}
use agentready_commerce.Settlement.Store.{resolve_or_create}
use agentready_commerce.Settlement.Moves.{
  Move, claim_for_settle, revalidate_for_settle, transition, claim_row_for_takeover,
  claim_for_reconcile,
}
use agentready_commerce.Settlement.Release.{release_attempt}

pub data Operation : Type 0 where
  resolving : ResolveInput → Operation
  claiming : String → String → ℕ → Option String → Option String → Operation
  revalidating : String → String → String → ℕ → Operation
  moving : String → Move → Operation
  taking_over : String → String → ℕ → Operation
  reconciling : String → ℕ → ℕ → Operation
  releasing : String → ReleaseEvidence → Operation

unfoldable pub run : Host → Turn → Store → Operation → Store
run host turn s (resolving i) = (resolve_or_create host turn s i).0
run host turn s (claiming id owner ttl sealed digest) =
    (claim_for_settle turn s id owner ttl sealed digest).0
run host turn s (revalidating id owner fence ttl) =
    (revalidate_for_settle turn s id owner fence ttl).0
run host turn s (moving id m) = (transition turn s id m).0
run host turn s (taking_over id owner ttl) = (claim_row_for_takeover turn s id owner ttl).0
run host turn s (reconciling owner ttl limit) = (claim_for_reconcile turn s owner ttl limit).0
run host turn s (releasing id e) = (release_attempt turn s id e).0

unfoldable pub run_all : Host → Store → List (Turn × Operation) → Store
unfolding run
run_all host s [] = s
run_all host s ((turn, op) ∷ ops) = run_all host (run host turn s op) ops

-- How many rows pass a test.
unfoldable pub count : (StoredAttempt → Bool) → Map StoredAttempt → ℕ
count p [] = 0
count p ((j, w) ∷ m) = let rest = count p m in if p w then suc rest else rest

module _ (p : StoredAttempt → Bool) where
  pub length-keep-values : (m : Map StoredAttempt) → length (keep p (values m)) ≡ count p m
  unfolding count values
  length-keep-values [] = refl
  length-keep-values ((j, w) ∷ m) = ground (arith, length-keep-values m)

  pub count-set :
      (m : Map StoredAttempt) (k : String) (x : StoredAttempt)
      → count p (set m k x) ≤ suc (count p m)
  unfolding count set
  count-set [] k x = ground arith
  count-set ((j, w) ∷ m) k x = ground (arith, count-set m k x)

  pub count-set-false :
      (m : Map StoredAttempt) (k : String) (x : StoredAttempt)
      → p x ≡ false
      → count p (set m k x) ≤ count p m
  unfolding count set
  count-set-false [] k x h = ground (arith, h)
  count-set-false ((j, w) ∷ m) k x h = ground (arith, h, count-set-false m k x h)

  -- A row in place of one that passes whenever it does adds nothing.
  pub count-set_old :
      (m : Map StoredAttempt) (k : String) (x y : StoredAttempt)
      → get m k ≡ some y
      → (p x ≡ true → p y ≡ true)
      → count p (set m k x) ≤ count p m
  unfolding count set get
  count-set_old [] k x y e h = ground (arith, e)
  count-set_old ((j, w) ∷ m) k x y e h = ground (arith, e, h, count-set_old m k x y)
