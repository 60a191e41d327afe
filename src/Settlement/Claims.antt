-- ===== src/Settlement/Claims.antt =====
-- packages/payments/src/x402-settlement-store.ts: who holds an attempt. A claim has one winner, a
-- takeover shuts out the holder before it, and a reconciliation claims no more than its limit.
use agentready_commerce.Prelude.{
  guard_some, stop_some, ℕ, ◌≤◌, ◌+◌, String, ◌∷◌, [], List, Bool, true, false, ◌&&◌, Option, none,
  some, get, get-set_self, ◌≡◌, refl, sym, subst, ◌∙◌, ap, ◌==◌, inl, inr, length, length-append,
  All, All-append, Bool-cases, arith, same_option, sort_by, map, leb,
}
use agentready_commerce.Settlement.Types.{
  pending, settling, includes_status, in_flight, status_name, same_status, StoredAttempt, Store,
  Turn, Movement,
}
use agentready_commerce.Settlement.Store.{rows, earlier_touched}
use agentready_commerce.Settlement.Moves.{
  Edit, Move, edit, edit_by, on_row, claim_row, claimed_row, claim_for_settle, revalidate_row,
  revalidate_for_settle, move_row, transition, differs, take_row, taken_row, leased, claimed_with,
  claim_row_for_takeover, claim_rows, claim_for_reconcile,
}
use agentready_commerce.Settlement.Laws.{Each, some_row}

-- An edit that answered a row changed that row and stored the answer.
abbrev pub Edited : Store → String → (StoredAttempt → Edit) → StoredAttempt → Type 0
Edited s id f q =
    (get (edit s id f).0.attempts id ≡ some q)
    × ((r : StoredAttempt) × ((log : List Movement) × (f r ≡ some (q, log))))

pub edit-Edited :
    (s : Store) (id : String) (f : StoredAttempt → Edit) (q : StoredAttempt)
    → (edit s id f).1 ≡ some q
    → Edited s id f q
unfolding edit edit_by on_row
edit-Edited s id f q e = of_row (get s.attempts id) e
  where
    paired : Option StoredAttempt → List Movement → Edit
    paired none l = none
    paired (some y) l = some (y, l)

    of_edit :
        (r : StoredAttempt) (d : Edit)
        → f r ≡ d
        → (edit_by s id d).1 ≡ some q
        → (get (edit_by s id d).0.attempts id ≡ some q)
          × ((r : StoredAttempt) × ((log : List Movement) × (f r ≡ some (q, log))))
    of_edit r none h e = absurd (cc)
    of_edit r (some (x, log)) h e = (
      get-set_self s.attempts id x ∙ e,
      (r, (log, subst (λ o. f r ≡ o) (ap (λ o. paired o log) e) h)),
    )

    of_row :
        (o : Option StoredAttempt)
        → (edit_by s id (on_row o f)).1 ≡ some q
        → (get (edit_by s id (on_row o f)).0.attempts id ≡ some q)
          × ((r : StoredAttempt) × ((log : List Movement) × (f r ≡ some (q, log))))
    of_row none e = absurd (cc)
    of_row (some r) e = of_edit r (f r) refl e

-- An edit that refuses the row that is there does nothing.
edit_refused :
    (s : Store) (id : String) (f : StoredAttempt → Edit) (q : StoredAttempt)
    → get s.attempts id ≡ some q
    → f q ≡ none
    → edit s id f ≡ (s, none)
unfolding edit edit_by on_row
edit_refused s id f q there h = simp (there, h) refl

move_refused :
    (turn : Turn) (id : String) (m : Move) (q : StoredAttempt) (old token : String)
    → q.fence_token ≡ some token
    → (token == old) ≡ false
    → m.fence_token ≡ some old
    → move_row turn id m q ≡ none
unfolding move_row differs
move_refused turn id m q old token held other fenced =
    elim (Bool-cases (includes_status m.from q.status)) [
      | inl h ↦ elim (Bool-cases (differs m.owner q.lease_owner)) [
        | inl k ↦ simp (h, k) refl
        | inr k ↦ simp (h, k, stale) refl
      ]
      | inr h ↦ simp h refl
    ]
  where
    stale : differs m.fence_token q.fence_token ≡ true
    stale = simp (held, fenced, other) refl

extend_refused :
    (turn : Turn) (owner old : String) (ttl : ℕ) (q : StoredAttempt) (token : String)
    → q.fence_token ≡ some token
    → (token == old) ≡ false
    → revalidate_row turn owner old ttl q ≡ none
unfolding revalidate_row
extend_refused turn owner old ttl q token held other =
    rw
      (lost (same_status q.status settling) (same_option q.lease_owner (some owner))
        (same_option q.fence_token (some old)) stale)
      refl
  where
    stale : same_option q.fence_token (some old) ≡ false
    stale = simp (held, other) refl

    lost : (a b c : Bool) → c ≡ false → (a && b && c) ≡ false
    lost a b c h = ground (arith, h)

-- Once a claim of an attempt has succeeded, a second claim right after it is refused and changes
-- nothing, whoever makes it and whenever.
pub claim_for_settle-once :
    (turn later : Turn) (s : Store) (id owner other : String) (ttl span : ℕ)
    (sealed digest sealed2 digest2 : Option String) (q : StoredAttempt)
    → (claim_for_settle turn s id owner ttl sealed digest).1 ≡ some q
    → claim_for_settle later
        (claim_for_settle turn s id owner ttl sealed digest).0
        id
        other
        span
        sealed2
        digest2
      ≡ ((claim_for_settle turn s id owner ttl sealed digest).0, none)
unfolding claim_for_settle claim_row claimed_row same_status status_name
claim_for_settle-once turn later s id owner other ttl span sealed digest sealed2 digest2 q e =
    let h = edit-Edited s id (claim_row turn owner ttl sealed digest) q e in
    let r = h.1.0 in
    let g = guard_some (same_status r.status pending) _ (q, h.1.1.0) h.1.1.1 in
    let same = some_row (claimed_row turn owner ttl sealed digest r) q [] h.1.1.0 g.1 in
    edit_refused _ id _ q h.0
      (subst (λ x. claim_row later other span sealed2 digest2 x ≡ none) same refl)

-- After a takeover, a holder with another fence token can neither make a transition nor extend its
-- lease: both are refused and change nothing.
pub claim_row_for_takeover-fences :
    (turn later : Turn) (s : Store) (id owner holder old : String) (ttl span : ℕ) (m : Move)
    (q : StoredAttempt)
    → (claim_row_for_takeover turn s id owner ttl).1 ≡ some q
    → (turn.uuid 0 == old) ≡ false
    → m.fence_token ≡ some old
    → (transition later (claim_row_for_takeover turn s id owner ttl).0 id m
        ≡ ((claim_row_for_takeover turn s id owner ttl).0, none))
      × (revalidate_for_settle later
            (claim_row_for_takeover turn s id owner ttl).0
            id
            holder
            old
            span
          ≡ ((claim_row_for_takeover turn s id owner ttl).0, none))
unfolding claim_row_for_takeover transition revalidate_for_settle take_row taken_row
claim_row_for_takeover-fences turn later s id owner holder old ttl span m q e new_token fenced =
    let h = edit-Edited s id (take_row turn 0 owner ttl) q e in
    let r = h.1.0 in
    let g = guard_some (includes_status in_flight r.status) _ (q, h.1.1.0) h.1.1.1 in
    let l = stop_some (leased turn.now r.lease_expires_at) _ (q, h.1.1.0) g.1 in
    let same = some_row (taken_row turn 0 owner ttl r) q [] h.1.1.0 l.1 in
    let token = sym (ap (λ x. x.fence_token) same) in
    (
      edit_refused _ id _ q h.0
          (move_refused later id m q old (turn.uuid 0) token new_token fenced),
      edit_refused _ id _ q h.0
          (extend_refused later holder old span q (turn.uuid 0) token new_token),
    )

-- What a claim of a reconciliation leaves in a row.
abbrev pub TakenBy : String → StoredAttempt → Type 0
TakenBy owner q = (includes_status in_flight q.status ≡ true) × (q.lease_owner ≡ some owner)

taken_TakenBy :
    (turn : Turn) (draw : ℕ) (owner : String) (ttl : ℕ)
    → Each (λ r q. TakenBy owner q) (take_row turn draw owner ttl)
unfolding take_row taken_row
taken_TakenBy turn draw owner ttl r q log e =
    let g = guard_some (includes_status in_flight r.status) _ (q, log) e in
    let l = stop_some (leased turn.now r.lease_expires_at) _ (q, log) g.1 in
    subst (TakenBy owner) (some_row (taken_row turn draw owner ttl r) q [] log l.1) (g.0, refl)

module _ (turn : Turn) (owner : String) (ttl limit : ℕ) where
  claimed_more :
      (s : Store) (id : String) (claimed : List StoredAttempt) (o : Option StoredAttempt)
      → (edit s id (take_row turn (length claimed) owner ttl)).1 ≡ o
      → All (TakenBy owner) claimed
      → All (TakenBy owner) (claimed_with claimed o)
  unfolding claimed_with
  claimed_more s id claimed none e hs = hs
  claimed_more s id claimed (some q) e hs =
      let h = edit-Edited s id (take_row turn (length claimed) owner ttl) q e in
      All-append (TakenBy owner) claimed (q ∷ []) hs
        (taken_TakenBy turn (length claimed) owner ttl h.1.0 q h.1.1.0 h.1.1.1, tt)

  length-claimed_with :
      (claimed : List StoredAttempt) (o : Option StoredAttempt)
      → length (claimed_with claimed o) ≤ length claimed + 1
  unfolding claimed_with
  length-claimed_with claimed none = omega arith
  length-claimed_with claimed (some q) = omega (arith, length-append claimed (q ∷ []))

  claim_rows_lem :
      (ids : List String) (s : Store) (claimed : List StoredAttempt)
      → length claimed ≤ limit
      → All (TakenBy owner) claimed
      → (length (claim_rows turn owner ttl limit ids s claimed).1 ≤ limit)
        × All (TakenBy owner) (claim_rows turn owner ttl limit ids s claimed).1
  unfolding claim_rows
  claim_rows_lem [] s claimed few hs = (few, hs)
  claim_rows_lem (id ∷ ids) s claimed few hs =
      let step = edit s id (take_row turn (length claimed) owner ttl) in
      elim (Bool-cases (leb limit (length claimed))) [
        | inl e ↦ simp e (few, hs)
        | inr e ↦ simp e (
            claim_rows_lem ids step.0 (claimed_with claimed step.1) (room claimed step.1 e)
              (claimed_more s id claimed step.1 refl hs))
      ]
    where
      room :
          (claimed : List StoredAttempt) (o : Option StoredAttempt)
          → leb limit (length claimed) ≡ false
          → length (claimed_with claimed o) ≤ limit
      room claimed o e = ground (arith, length-claimed_with claimed o, e)

  -- A reconciliation claims at most `limit` attempts, each of which was in flight and is leased to
  -- the caller now.
  pub claim_for_reconcile-bound :
      (s : Store)
      → (length (claim_for_reconcile turn s owner ttl limit).1 ≤ limit)
        × All (TakenBy owner) (claim_for_reconcile turn s owner ttl limit).1
  unfolding claim_for_reconcile
  claim_for_reconcile-bound s =
      claim_rows_lem (map (λ r. r.operation_id) (sort_by earlier_touched (rows s))) s []
        (omega arith) tt
