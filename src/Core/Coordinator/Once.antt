-- ===== src/Core/Coordinator/Once.antt =====
-- packages/core/src/coordinator.ts: an operation is new once, and is replayed ever after.
use agentready_commerce.Prelude.{
  ℕ, zero, ◌+◌, ◌≤◌, String, ◌≡◌, refl, subst, ◌⊎◌, inl, inr, Bool, true, false, Option, none, some,
  List, [], ◌∷◌, arith, ◌==◌, ==_refl, ==_false, if◌then◌else◌, is_some, Bool-cases, Option-cases,
}
use agentready_commerce.Core.Types.{
  OperationType, OperationPhase, OperationRecord, IdempotencyResult, new, replay, conflict,
}
use agentready_commerce.Core.Store.{OperationStore}
use agentready_commerce.Core.Coordinator.{
  Report, opened, closed, updated, final_phase, begin, transition, complete,
}

-- A call of the coordinator. The hash is that of the request.
pub data Command (P : Type 0) : Type 0 where
  begins : String → OperationType → String → String → Command P
  transitions : String → OperationPhase → Command P
  completes : String → Report P → Command P

module _ {P : Type 0} (store : OperationStore P) where
  open store use {State, fetch, put, fetch-put}

  -- A call that throws leaves the store as it was.
  abbrev after : State → Option State → State
  after s none = s
  after s (some t) = t

  abbrev is_new : IdempotencyResult P → ℕ
  is_new (new r) = 1
  is_new (replay r) = 0
  is_new (conflict r h) = 0

  -- The store after a call at a time, and whether it opened the operation `k`.
  pub step : String → State → ℕ × Command P → State × ℕ
  unfolding begin transition complete
  step k s (now, begins id type hash aggregate) =
      let (t, result) = begin store s id type hash aggregate now in
      (t, if id == k then is_new result else 0)
  step k s (now, transitions id phase) = (after s (transition store s id phase now), 0)
  step k s (now, completes id report) = (after s (complete store s id report now), 0)

  -- How often a series of calls opens the operation `k`.
  pub openings : String → State → List (ℕ × Command P) → ℕ
  openings k s [] = 0
  openings k s (c ∷ cs) = (step k s c).1 + openings k (step k s c).0 cs

  present-put :
      (s : State) (id k : String) (r : OperationRecord P)
      → is_some (fetch s k) ≡ true
      → is_some (fetch (put s id r) k) ≡ true
  present-put s id k r h =
      rw (fetch-put s id r k)
        (elim (Bool-cases (id == k)) [ inl same ↦ rw same | inr other ↦ rw other h ])

  zero_either : (b : Bool) → (if b then zero else zero) ≡ 0
  zero_either b = ground arith

  step-present :
      (k : String) (s : State) (c : ℕ × Command P)
      → is_some (fetch s k) ≡ true
      → (is_some (fetch (step k s c).0 k) ≡ true) × ((step k s c).1 ≡ 0)
  unfolding step
  step-present k s (now, begins id type hash aggregate) h = elim (Option-cases (fetch s id)) [
    | inl missing ↦
        let other : (id == k) ≡ false =
          ==_false id k (λ e. cc (subst (λ j. fetch s j ≡ none) e missing)) in
        rw (missing, begin) (present-put s id k (opened id type hash aggregate now) h, rw other)
    | inr (r, found) ↦ elim (Bool-cases (r.request_hash == hash)) [
      | inl same ↦ rw (found, begin) (rw same (h, zero_either (id == k)))
      | inr differs ↦ rw (found, begin) (rw differs (h, zero_either (id == k)))
    ]
  ]
  step-present k s (now, transitions id phase) h = elim (Option-cases (fetch s id)) [
    | inl missing ↦ rw (missing, transition) (h, refl)
    | inr (r, found) ↦ rw (found, transition) (present-put s id k _ h, refl)
  ]
  step-present k s (now, completes id report) h = elim (Option-cases (fetch s id)) [
    | inl missing ↦ rw (missing, complete) (h, refl)
    | inr (r, found) ↦ rw (found, complete) (present-put s id k _ h, refl)
  ]

  openings_present :
      (k : String) (s : State) (cs : List (ℕ × Command P))
      → is_some (fetch s k) ≡ true
      → openings k s cs ≡ 0
  unfolding openings
  openings_present k s [] h = refl
  openings_present k s (c ∷ cs) h =
      let (still, none_new) = step-present k s c h in
      omega (arith, openings_present k (step k s c).0 cs still)

  step_cases :
      (k : String) (s : State) (c : ℕ × Command P)
      → ((step k s c).1 ≡ 0) ⊎ (((step k s c).1 ≡ 1) × (is_some (fetch (step k s c).0 k) ≡ true))
  unfolding step
  step_cases k s (now, begins id type hash aggregate) = elim (Bool-cases (id == k)) [
    | inr other ↦ rw other (inl refl)
    | inl same ↦ elim (Option-cases (fetch s id)) [
      | inl missing ↦
          rw (same, missing, begin)
            (inr (refl, rw (fetch-put s id (opened id type hash aggregate now) k, same)))
      | inr (r, found) ↦ elim (Bool-cases (r.request_hash == hash)) [
        | inl old ↦ rw (same, found, begin) (rw old (inl refl))
        | inr differs ↦ rw (same, found, begin) (rw differs (inl refl))
      ]
    ]
  ]
  step_cases k s (now, transitions id phase) = inl refl
  step_cases k s (now, completes id report) = inl refl

  -- Over any series of calls of begin, transition and complete, without a clear of the coordinator
  -- between them, an operation id is reported as new at most once.
  pub openings-le-one : (k : String) (s : State) (cs : List (ℕ × Command P)) → openings k s cs ≤ 1
  unfolding openings
  openings-le-one k s [] = omega arith
  openings-le-one k s (c ∷ cs) = elim (step_cases k s c) [
    | inl old ↦ omega (arith, openings-le-one k (step k s c).0 cs)
    | inr (opened_now, here) ↦ omega (arith, openings_present k (step k s c).0 cs here)
  ]

  pub begin_missing :
      (s : State) (id : String) (type : OperationType) (hash aggregate : String) (now : ℕ)
      → fetch s id ≡ none
      → begin store s id type hash aggregate now
        ≡ (let r = opened id type hash aggregate now in (put s id r, new r))
  unfolding begin
  begin_missing s id type hash aggregate now missing = rw (missing, begin)

  pub begin_present :
      (s : State) (id : String) (type : OperationType) (hash aggregate : String) (now : ℕ)
      (r : OperationRecord P)
      → fetch s id ≡ some r
      → begin store s id type hash aggregate now
        ≡ (if r.request_hash == hash then (s, replay r) else (s, conflict r hash))
  unfolding begin
  begin_present s id type hash aggregate now r found = rw (found, begin)

  pub complete_present :
      (s : State) (id : String) (report : Report P) (now : ℕ) (r : OperationRecord P)
      → fetch s id ≡ some r
      → complete store s id report now ≡ some (put s id (closed r report now))
  unfolding complete
  complete_present s id report now r found = rw (found, complete)

  fetch-put_self : (s : State) (k : String) (r : OperationRecord P) → fetch (put s k r) k ≡ some r
  fetch-put_self s k r = rw (fetch-put s k r k, ==_refl k)

  -- A finished operation is replayed: after `begin` opens an operation and `complete` reports on it,
  -- a later `begin` of that id with the same request hash changes nothing and replays the record,
  -- which carries the reported outcome, its phase and the reported payload; with any other request
  -- hash it changes nothing and is a conflict.
  pub begin-complete :
      (s : State) (id : String) (type : OperationType) (hash aggregate : String)
      (now done_at later : ℕ) (report : Report P) (again : OperationType)
      (hash' aggregate' : String)
      → fetch s id ≡ none
      → (r : OperationRecord P) × (s' : State) × (complete store
            (begin store s id type hash aggregate now).0
            id
            report
            done_at
          ≡ some s')
        × (begin store s' id again hash' aggregate' later
            ≡ (if hash == hash' then (s', replay r) else (s', conflict r hash')))
        × (r.phase ≡ final_phase report.outcome)
        × (r.outcome ≡ some report.outcome)
        × (r.result_payload ≡ report.result_payload)
  begin-complete s id type hash aggregate now done_at later report again hash' aggregate' missing =
      let r = opened {P = P} id type hash aggregate now in
      let s₁ = put s id r in
      let r' = closed r report done_at in
      let s₂ = put s₁ id r' in
      (
        r',
        s₂,
        rw (begin_missing s id type hash aggregate now missing)
            (complete_present s₁ id report done_at r (fetch-put_self s id r)),
        begin_present s₂ id again hash' aggregate' later r' (fetch-put_self s₁ id r'),
        refl,
        refl,
        updated_none report.result_payload,
      )
    where
      updated_none : (o : Option P) → updated o none ≡ o
      updated_none none = refl
      updated_none (some x) = refl
