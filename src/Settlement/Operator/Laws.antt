-- ===== src/Settlement/Operator/Laws.antt =====
-- packages/payments/src/operator.ts: what the persistence of a settlement promises, and the round
-- trip of the command line.
use agentready_commerce.Prelude.{
  ℕ, String, ◌∷◌, [], ◌++◌, List, true, false, not, ◌&&◌, Option, none, some, Host, ◌≡◌, refl,
  subst, inl, inr, if◌then◌else◌, Bool-cases, same_option, ==_refl, truthy, is_empty, and_left,
  and_right,
}
use agentready_commerce.Settlement.Types.{
  settled, same_status, status_name, StoredAttempt, Store, Turn,
}
use agentready_commerce.Settlement.Store.{get_by_operation_id}
use agentready_commerce.Settlement.Moves.{transition, move_row, moved_row}
use agentready_commerce.Settlement.Laws.{move_row-some}
use agentready_commerce.Settlement.Release.{reason_if}
use agentready_commerce.Settlement.Claims.{edit-Edited}
use agentready_commerce.Settlement.Operator.{
  PersistInput, PersistResult, persisted, unpersisted, settling_move, persist_moved,
  persist_claimed, persist_open, persist_found, persist_reconciled_settlement, reconcile_reasons,
  row_refusal,
}

-- A positive answer of the persistence.
abbrev pub SettledWith : PersistInput → PersistResult → Type 0
SettledWith i (unpersisted why) = is_empty why ≡ false
SettledWith i (persisted r again) =
    (same_status r.status settled ≡ true) × (same_option r.tx_hash (some i.tx_hash) ≡ true)

moved_settled :
    (host : Host) (turn : Turn) (i : PersistInput) (claimed r : StoredAttempt)
    → SettledWith i (persisted (moved_row turn (settling_move host i claimed) r) false)
unfolding moved_row settling_move same_status status_name
moved_settled host turn i claimed r = (refl, ==_refl i.tx_hash)

moved-SettledWith :
    (host : Host) (turn : Turn) (i : PersistInput) (claimed : StoredAttempt) (s : Store)
    (id : String) (q : StoredAttempt)
    → (transition turn s id (settling_move host i claimed)).1 ≡ some q
    → SettledWith i (persisted q false)
unfolding transition
moved-SettledWith host turn i claimed s id q e =
    let m = settling_move host i claimed in
    let h = edit-Edited s id (move_row turn id m) q e in
    subst (λ x. SettledWith i (persisted x false))
      (move_row-some turn id m h.1.0 q h.1.1.0 h.1.1.1).1.1
      (moved_settled host turn i claimed h.1.0)

persist_moved-SettledWith :
    (i : PersistInput) (s : Store) (o current : Option StoredAttempt)
    → ((q : StoredAttempt) → o ≡ some q → SettledWith i (persisted q false))
    → SettledWith i (persist_moved i (s, o) current).1
unfolding persist_moved
persist_moved-SettledWith i s (some q) current h = h q refl
persist_moved-SettledWith i s none none h = refl
persist_moved-SettledWith i s none (some r) h =
    elim (Bool-cases (same_status r.status settled && same_option r.tx_hash (some i.tx_hash))) [
      | inl e ↦ rw e (and_left _ _ e, and_right _ _ e)
      | inr e ↦ rw e refl
    ]

module _ (host : Host) (turn : Turn) (others : ℕ → Store → Store) (i : PersistInput) where
  persist_claimed-SettledWith :
      (id : String) (c : Store × Option StoredAttempt)
      → SettledWith i (persist_claimed host turn others i id c).1
  unfolding persist_claimed
  persist_claimed-SettledWith id (s, none) = refl
  persist_claimed-SettledWith id (s, some claimed) =
      persist_moved-SettledWith i _ _ _
        (λ q e. moved-SettledWith host turn i claimed (others 1 s) id q e)

  persist_found-SettledWith :
      (s : Store) (o : Option StoredAttempt)
      → SettledWith i (persist_found host turn others s i o).1
  unfolding persist_found persist_open
  persist_found-SettledWith s none = refl
  persist_found-SettledWith s (some r) = elim (Bool-cases (same_status r.status settled)) [
    | inl e ↦ elim (Bool-cases (same_option r.tx_hash (some i.tx_hash))) [
      | inl f ↦ simp (e, f) (refl, refl)
      | inr f ↦ simp (e, f) refl
    ]
    | inr e ↦ simp e (refused_or (row_refusal i r))
  ]
    where
      refused_or : (o : Option String) → SettledWith i (persist_open host turn others s i r o).1
      refused_or (some why) = refl
      refused_or none = persist_claimed-SettledWith r.operation_id _

  -- Whatever other callers do between the steps of the operator's reconciliation, an attempt that it
  -- answers is settled with exactly the transaction signature that the operator cited, and every
  -- other answer gives reasons.
  pub persist_reconciled_settlement-SettledWith :
      (s : Store) → SettledWith i (persist_reconciled_settlement host turn others s i).1
  unfolding persist_reconciled_settlement
  persist_reconciled_settlement-SettledWith s = refused_or (
      reconcile_reasons i
      ++ reason_if (not (truthy i.operation_id)) "operation identity is required")
    where
      refused_or :
          (reasons : List String)
          → SettledWith i
              (if not (is_empty reasons)
                then (s, unpersisted reasons)
                else persist_found host turn others s i (get_by_operation_id s i.operation_id)).1
      refused_or [] = persist_found-SettledWith s (get_by_operation_id s i.operation_id)
      refused_or (x ∷ xs) = refl
