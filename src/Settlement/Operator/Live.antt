-- ===== src/Settlement/Operator/Live.antt =====
-- packages/payments/src/operator.ts: a reconciliation whose conditions are met does settle.
use agentready_commerce.Prelude.{
  ℕ, String, ◌∷◌, [], ◌++◌, List, Bool, true, false, not, Option, none, some, get, set,
  get-set_self, Host, ◌≡◌, refl, sym, subst, ◌∙◌, inl, inr, if◌then◌else◌, Bool-cases, ==_refl,
  is_empty, ◌<>◌, truthy,
}
use agentready_commerce.Settlement.Types.{
  AttemptStatus, settled, same_status, includes_status, status_name, in_flight, is_resolved,
  StoredAttempt, Store, Turn, Movement,
}
use agentready_commerce.Settlement.Store.{get_by_operation_id}
use agentready_commerce.Settlement.Moves.{
  Move, Edit, edit, edit_by, on_row, transition, move_row, moved_row, claim_row_for_takeover,
  take_row, taken_row, leased, differs,
}
use agentready_commerce.Settlement.Laws.{in_flight-open, is_resolved-same_status}
use agentready_commerce.Settlement.Release.{reason_if}
use agentready_commerce.Settlement.Operator.{
  PersistInput, persisted, settling_move, persist_moved, persist_claimed, persist_open,
  persist_found, persist_reconciled_settlement, reconcile_reasons, row_refusal,
}

-- An edit that the row that is there allows.
edit_allowed :
    (s : Store) (id : String) (f : StoredAttempt → Edit) (r q : StoredAttempt) (log : List Movement)
    → get s.attempts id ≡ some r
    → f r ≡ some (q, log)
    → edit s id f ≡ (record { attempts = set s.attempts id q; history = s.history ++ log }, some q)
unfolding edit edit_by on_row
edit_allowed s id f r q log there h = simp (there, h) refl

taken :
    (turn : Turn) (draw : ℕ) (owner : String) (ttl : ℕ) (r : StoredAttempt)
    → includes_status in_flight r.status ≡ true
    → leased turn.now r.lease_expires_at ≡ false
    → take_row turn draw owner ttl r ≡ some (taken_row turn draw owner ttl r, [])
unfolding take_row
taken turn draw owner ttl r h k = simp (h, k) refl

differs_refl : (o : Option String) → differs o o ≡ false
unfolding differs
differs_refl none = refl
differs_refl (some s) = rw (==_refl s) refl

abbrev entry : String → Move → StoredAttempt → List Movement
entry id m r =
    record {
      operation_id = id;
      from = status_name r.status;
      to = status_name m.to;
      trigger = m.trigger;
      note = m.note;
    }
    ∷ []

-- The holder of an attempt in flight settles it.
held_moves :
    (host : Host) (turn : Turn) (id : String) (i : PersistInput) (r : StoredAttempt)
    → includes_status in_flight r.status ≡ true
    → move_row turn id (settling_move host i r) r
      ≡ some (moved_row turn (settling_move host i r) r, entry id (settling_move host i r) r)
unfolding move_row settling_move
held_moves host turn id i r h =
    simp (h, differs_refl r.lease_owner, differs_refl r.fence_token) refl

refusal_in_flight :
    (i : PersistInput) (r : StoredAttempt)
    → row_refusal i r ≡ none
    → includes_status in_flight r.status ≡ true
unfolding row_refusal
refusal_in_flight i r e = elim (Bool-cases (includes_status in_flight r.status)) [
  | inl h ↦ h
  | inr h ↦ absurd (stopped _ _ _ h e)
]
  where
    stopped :
        (b : Bool) (why : String) (o : Option String)
        → b ≡ false
        → (if not b then some why else o) ≡ none
        → ⊥
    stopped true why o f g = cc
    stopped false why o f g = cc

not_settled :
    (s : AttemptStatus) → includes_status in_flight s ≡ true → same_status s settled ≡ false
unfolding is_resolved includes_status same_status status_name
not_settled s h = elim (Bool-cases (same_status s settled)) [
  | inl e ↦ absurd (clash (sym (in_flight-open s h) ∙ is_resolved-same_status s settled e))
  | inr e ↦ e
]
  where
    clash : false ≡ true → ⊥
    clash e = cc

module _ (host : Host) (turn : Turn) (i : PersistInput) (s : Store) (r : StoredAttempt)
    (there : get s.attempts r.operation_id ≡ some r)
    (flying : includes_status in_flight r.status ≡ true)
    (free : leased turn.now r.lease_expires_at ≡ false) where
  claim_settles :
      (q : StoredAttempt) × ((persist_open host turn (λ n x. x) s i r none).1 ≡ persisted q false)
  unfolding persist_open persist_claimed persist_moved claim_row_for_takeover transition taken_row
  claim_settles =
      let owner = "operator-" <> i.operator_id in
      let q = taken_row turn 0 owner 60000 r in
      (
        moved_row turn (settling_move host i q) q,
        simp
            (
              edit_allowed s r.operation_id (take_row turn 0 owner 60000) r q [] there
                  (taken turn 0 owner 60000 r flying free),
              edit_allowed
                  (record { attempts = set s.attempts r.operation_id q; history = s.history ++ [] })
                  r.operation_id (move_row turn r.operation_id (settling_move host i q)) q
                  (moved_row turn (settling_move host i q) q)
                  (entry r.operation_id (settling_move host i q) q)
                  (get-set_self s.attempts r.operation_id q)
                  (held_moves host turn r.operation_id i q flying),
            )
            refl,
      )

-- If the evidence is complete, the attempt is there under its own id with nothing that speaks against
-- the settlement, and nobody holds a lease of it, then a reconciliation that no other caller
-- interrupts does settle it.
pub persist_reconciled_settlement-settles :
    (host : Host) (turn : Turn) (i : PersistInput) (s : Store) (r : StoredAttempt)
    → is_empty (
        reconcile_reasons i
        ++ reason_if (not (truthy i.operation_id)) "operation identity is required")
      ≡ true
    → get s.attempts i.operation_id ≡ some r
    → r.operation_id ≡ i.operation_id
    → row_refusal i r ≡ none
    → leased turn.now r.lease_expires_at ≡ false
    → (q : StoredAttempt) × ((persist_reconciled_settlement host turn (λ n x. x) s i).1
        ≡ persisted q false)
unfolding persist_reconciled_settlement persist_found get_by_operation_id
persist_reconciled_settlement-settles host turn i s r complete there own allowed free =
    let flying = refusal_in_flight i r allowed in
    let done =
      claim_settles host turn i s r (subst (λ k. get s.attempts k ≡ some r) (sym own) there) flying
        free in
    (done.0, simp (complete, there, not_settled r.status flying, allowed) done.1)
