-- ===== src/Settlement/Laws.antt =====
-- packages/payments/src/x402-settlement-store.ts: what each change of a row needs of the row and
-- keeps of it.
use agentready_commerce.Prelude.{
  guard_some, stop_some, ℕ, String, ◌∷◌, [], List, true, false, Option, none, some, refl, sym, ap,
  ◌∙◌, subst, eq_of_==, All, Bool-cases, inl, inr, same_option, arith, ◌||◌, ◌&&◌, ◌≡◌, and_left,
}
use agentready_commerce.Settlement.Types.{
  AttemptStatus, pending, settling, same_status, status_name, includes_status, is_resolved,
  in_flight, StoredAttempt, Movement, Turn,
}
use agentready_commerce.Settlement.Moves.{
  Edit, Move, claim_row, revalidate_row, take_row, move_row, moved_row, claimed_row, extended_row,
  taken_row, lapsed, leased, differs,
}

row_of : Edit → StoredAttempt → StoredAttempt
row_of none d = d
row_of (some (r, log)) d = r

pub some_row :
    (x y : StoredAttempt) (k l : List Movement) → ◌≡◌ {A = Edit} (some (x, k)) (some (y, l)) → x ≡ y
unfolding row_of
some_row x y k l e = ap (λ o. row_of o x) e

pub is_resolved-same_status :
    (s t : AttemptStatus) → same_status s t ≡ true → is_resolved s ≡ is_resolved t
unfolding same_status is_resolved includes_status
is_resolved-same_status s t e = rw (eq_of_== (status_name s) (status_name t) e)

pub includes_status-open :
    (ts : List AttemptStatus) (s : AttemptStatus)
    → All (λ t. is_resolved t ≡ false) ts
    → includes_status ts s ≡ true
    → is_resolved s ≡ false
unfolding includes_status
includes_status-open [] s hs e = absurd (cc)
includes_status-open (t ∷ ts) s (h, hs) e = elim (Bool-cases (same_status t s)) [
  | inl same ↦ sym (is_resolved-same_status t s same) ∙ h
  | inr other ↦ includes_status-open ts s hs (rest other e)
]
  where
    rest :
        same_status t s ≡ false
        → (same_status t s || includes_status ts s) ≡ true
        → includes_status ts s ≡ true
    rest f g = ground (arith, f, g)

-- An unresolved row, and one of the same intent and payment identifier after it.
abbrev pub Intent : StoredAttempt → StoredAttempt → Type 0
Intent r q =
    (is_resolved r.status ≡ false)
    × ((q.logical_order_id ≡ r.logical_order_id) × (q.intent_version ≡ r.intent_version))

abbrev pub Continues : StoredAttempt → StoredAttempt → Type 0
Continues r q = Intent r q × (q.caller_payment_id ≡ r.caller_payment_id)

abbrev pub Each : (StoredAttempt → StoredAttempt → Type 0) → (StoredAttempt → Edit) → Type 0
Each P f = (r q : StoredAttempt) (log : List Movement) → f r ≡ some (q, log) → P r q

abbrev Kept : (r q : StoredAttempt) → Type 0
Kept r q =
    (q.logical_order_id ≡ r.logical_order_id)
    × ((q.intent_version ≡ r.intent_version) × (q.caller_payment_id ≡ r.caller_payment_id))

continues : (r q : StoredAttempt) → is_resolved r.status ≡ false → Kept r q → Continues r q
continues r q h (a, (b, c)) = ((h, (a, b)), c)

pub claim_row-Continues :
    (turn : Turn) (owner : String) (ttl : ℕ) (sealed digest : Option String)
    → Each Continues (claim_row turn owner ttl sealed digest)
unfolding claim_row claimed_row is_resolved includes_status same_status status_name
claim_row-Continues turn owner ttl sealed digest r q log e =
    let g = guard_some (same_status r.status pending) _ (q, log) e in
    subst (Continues r) (some_row (claimed_row turn owner ttl sealed digest r) q [] log g.1) (
      continues r (claimed_row turn owner ttl sealed digest r)
        (is_resolved-same_status r.status pending g.0) (refl, (refl, refl)))

pub revalidate_row-Continues :
    (turn : Turn) (owner fence : String) (ttl : ℕ)
    → Each Continues (revalidate_row turn owner fence ttl)
unfolding revalidate_row extended_row is_resolved includes_status same_status status_name
revalidate_row-Continues turn owner fence ttl r q log e =
    let g =
      guard_some
        (same_status r.status settling
          && same_option r.lease_owner (some owner)
          && same_option r.fence_token (some fence))
        _ (q, log) e in
    let l = stop_some (lapsed turn.now r.lease_expires_at) _ (q, log) g.1 in
    subst (Continues r) (some_row (extended_row turn ttl r) q [] log l.1) (
      continues r (extended_row turn ttl r)
        (is_resolved-same_status r.status settling (and_left _ _ (and_left _ _ g.0)))
        (refl, (refl, refl)))

pub in_flight-open :
    (s : AttemptStatus) → includes_status in_flight s ≡ true → is_resolved s ≡ false
unfolding is_resolved includes_status same_status status_name
in_flight-open s e = includes_status-open in_flight s (refl, (refl, tt)) e

pub take_row-Continues :
    (turn : Turn) (draw : ℕ) (owner : String) (ttl : ℕ)
    → Each Continues (take_row turn draw owner ttl)
unfolding take_row taken_row
take_row-Continues turn draw owner ttl r q log e =
    let g = guard_some (includes_status in_flight r.status) _ (q, log) e in
    let l = stop_some (leased turn.now r.lease_expires_at) _ (q, log) g.1 in
    subst (Continues r) (some_row (taken_row turn draw owner ttl r) q [] log l.1) (
      continues r (taken_row turn draw owner ttl r) (in_flight-open r.status g.0)
        (refl, (refl, refl)))

-- A transition that goes through: its three guards held, and the row is the moved one.
pub move_row-some :
    (turn : Turn) (id : String) (m : Move) (r q : StoredAttempt) (log : List Movement)
    → move_row turn id m r ≡ some (q, log)
    → ((includes_status m.from r.status ≡ true) × (differs m.owner r.lease_owner ≡ false))
      × ((differs m.fence_token r.fence_token ≡ false) × (moved_row turn m r ≡ q))
unfolding move_row
move_row-some turn id m r q log e =
    let g = guard_some (includes_status m.from r.status) _ (q, log) e in
    let o = stop_some (differs m.owner r.lease_owner) _ (q, log) g.1 in
    let f = stop_some (differs m.fence_token r.fence_token) _ (q, log) o.1 in
    ((g.0, o.0), (f.0, some_row _ q _ log f.1))

-- A transition that the callers make: out of unresolved states only.
abbrev pub FromOpen : Move → Type 0
FromOpen m = All (λ t. is_resolved t ≡ false) m.from

pub move_row-Intent :
    (turn : Turn) (id : String) (m : Move) → FromOpen m → Each Intent (move_row turn id m)
unfolding moved_row
move_row-Intent turn id m h r q log e =
    let g = move_row-some turn id m r q log e in
    subst (Intent r) g.1.1 (includes_status-open m.from r.status h g.0.0, (refl, refl))
