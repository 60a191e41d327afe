-- ===== src/Settlement/Moves.antt =====
-- packages/payments/src/x402-settlement-store.ts: the leases of an attempt and its transitions. A
-- row is one object, which the map and the caller share: a change of it is an `edit` of its entry.
use agentready_commerce.Prelude.{
  ℕ, String, ◌∷◌, [], ◌++◌, List, Bool, false, not, ◌&&◌, ◌+◌, Option, none, some, get, set,
  same_option, ltb, leb, if◌then◌else◌, get_or_else, sort_by, length, map,
}
use agentready_commerce.Settlement.Types.{
  AttemptStatus, pending, settling, status_name, same_status, includes_status, in_flight,
  StoredAttempt, Movement, Store, Turn,
}
use agentready_commerce.Settlement.Store.{rows, earlier_touched}

-- The row after a change of it, with what the history gains.
abbrev pub Edit : Type 0
Edit = Option (StoredAttempt × List Movement)

unfoldable pub edit_by : Store → String → Edit → Store × Option StoredAttempt
edit_by s id none = (s, none)
edit_by s id (some (r, log)) =
    (record { attempts = set s.attempts id r; history = s.history ++ log }, some r)

unfoldable pub on_row : Option StoredAttempt → (StoredAttempt → Edit) → Edit
on_row none f = none
on_row (some r) f = f r

unfoldable pub edit : Store → String → (StoredAttempt → Edit) → Store × Option StoredAttempt
unfolding edit_by on_row
edit s id f = edit_by s id (on_row (get s.attempts id) f)

-- `a === null && b !== undefined` sets the field.
unfoldable pub fill : Option String → Option String → Option String
fill none b = b
fill (some a) b = some a

unfoldable pub claimed_row :
    Turn → String → ℕ → Option String → Option String → StoredAttempt → StoredAttempt
unfolding fill
claimed_row turn owner ttl sealed digest r = record r {
  status = settling;
  lease_owner = some owner;
  lease_expires_at = some (turn.now + ttl);
  fence_token = some (turn.uuid 0);
  signed_payload_enc = fill r.signed_payload_enc sealed;
  payload_digest = fill r.payload_digest digest;
  updated_at = turn.now;
}

unfoldable pub claim_row : Turn → String → ℕ → Option String → Option String → StoredAttempt → Edit
claim_row turn owner ttl sealed digest r =
    if not (same_status r.status pending)
    then none
    else some (claimed_row turn owner ttl sealed digest r, [])

unfoldable pub claim_for_settle :
    Turn
    → Store
    → String
    → String
    → ℕ
    → Option String
    → Option String
    → Store × Option StoredAttempt
unfolding edit claim_row
claim_for_settle turn s id owner ttl sealed digest =
    edit s id (claim_row turn owner ttl sealed digest)

-- `row.leaseExpiresAt && Date.parse(row.leaseExpiresAt) <= Date.now()`, and `>`.
unfoldable pub lapsed : ℕ → Option ℕ → Bool
lapsed now none = false
lapsed now (some t) = leb t now

unfoldable pub leased : ℕ → Option ℕ → Bool
leased now none = false
leased now (some t) = ltb now t

unfoldable pub extended_row : Turn → ℕ → StoredAttempt → StoredAttempt
extended_row turn ttl r = record r {
  lease_expires_at = some (turn.now + ttl);
  updated_at = turn.now;
}

unfoldable pub revalidate_row : Turn → String → String → ℕ → StoredAttempt → Edit
unfolding lapsed
revalidate_row turn owner fence ttl r =
    if not (
      same_status r.status settling
      && same_option r.lease_owner (some owner)
      && same_option r.fence_token (some fence))
    then none
    else if lapsed turn.now r.lease_expires_at
    then none
    else some (extended_row turn ttl r, [])

unfoldable pub revalidate_for_settle :
    Turn → Store → String → String → String → ℕ → Store × Option StoredAttempt
unfolding edit revalidate_row
revalidate_for_settle turn s id owner fence ttl = edit s id (revalidate_row turn owner fence ttl)

-- The fields that a transition may set; a field that is `undefined` there is `none` here.
pub record Update : Type 0 where
  pub tx_hash : Option (Option String)
  pub evidence_json : Option (Option String)
  pub signed_payload_enc : Option (Option String)
  pub payload_digest : Option (Option String)
  pub caller_payment_id : Option (Option String)
  pub payer : Option (Option String)
  pub blockhash : Option (Option String)
  pub requirements_json : Option String

abbrev pub no_update : Update
no_update = record {
  tx_hash = none;
  evidence_json = none;
  signed_payload_enc = none;
  payload_digest = none;
  caller_payment_id = none;
  payer = none;
  blockhash = none;
  requirements_json = none;
}

-- The arguments of a transition.
pub record Move : Type 0 where
  pub from : List AttemptStatus
  pub to : AttemptStatus
  pub update : Update
  pub owner : Option String
  pub fence_token : Option String
  pub trigger : String
  pub note : String

-- `wanted !== null && held !== wanted`.
unfoldable pub differs : Option String → Option String → Bool
differs none held = false
differs (some w) held = not (same_option held (some w))

unfoldable pub moved_row : Turn → Move → StoredAttempt → StoredAttempt
moved_row turn m r = record r {
  status = m.to;
  tx_hash = get_or_else m.update.tx_hash r.tx_hash;
  evidence_json = get_or_else m.update.evidence_json r.evidence_json;
  signed_payload_enc = get_or_else m.update.signed_payload_enc r.signed_payload_enc;
  payload_digest = get_or_else m.update.payload_digest r.payload_digest;
  caller_payment_id = get_or_else m.update.caller_payment_id r.caller_payment_id;
  blockhash = get_or_else m.update.blockhash r.blockhash;
  payer = get_or_else m.update.payer r.payer;
  requirements_json = get_or_else m.update.requirements_json r.requirements_json;
  updated_at = turn.now;
}

unfoldable pub move_row : Turn → String → Move → StoredAttempt → Edit
unfolding differs moved_row
move_row turn id m r =
    if not (includes_status m.from r.status)
    then none
    else if differs m.owner r.lease_owner
    then none
    else if differs m.fence_token r.fence_token
    then none
    else some (
      moved_row turn m r,
      record {
        operation_id = id;
        from = status_name r.status;
        to = status_name m.to;
        trigger = m.trigger;
        note = m.note;
      }
          ∷ [],
    )

unfoldable pub transition : Turn → Store → String → Move → Store × Option StoredAttempt
unfolding edit move_row
transition turn s id m = edit s id (move_row turn id m)

-- A lease of an attempt in flight whose last one has run out; the draw numbers the identifier.
unfoldable pub taken_row : Turn → ℕ → String → ℕ → StoredAttempt → StoredAttempt
taken_row turn draw owner ttl r = record r {
  lease_owner = some owner;
  lease_expires_at = some (turn.now + ttl);
  fence_token = some (turn.uuid draw);
  updated_at = turn.now;
}

unfoldable pub take_row : Turn → ℕ → String → ℕ → StoredAttempt → Edit
unfolding leased
take_row turn draw owner ttl r =
    if not (includes_status in_flight r.status)
    then none
    else if leased turn.now r.lease_expires_at
    then none
    else some (taken_row turn draw owner ttl r, [])

unfoldable pub claim_row_for_takeover :
    Turn → Store → String → String → ℕ → Store × Option StoredAttempt
unfolding edit take_row
claim_row_for_takeover turn s id owner ttl = edit s id (take_row turn 0 owner ttl)

unfoldable pub claimed_with : List StoredAttempt → Option StoredAttempt → List StoredAttempt
claimed_with claimed none = claimed
claimed_with claimed (some r) = claimed ++ r ∷ []

unfoldable pub claim_rows :
    Turn → String → ℕ → ℕ → List String → Store → List StoredAttempt → Store × List StoredAttempt
unfolding edit take_row claimed_with
claim_rows turn owner ttl limit [] s claimed = (s, claimed)
claim_rows turn owner ttl limit (id ∷ ids) s claimed =
    let step = edit s id (take_row turn (length claimed) owner ttl) in
    let rest = claim_rows turn owner ttl limit ids step.0 (claimed_with claimed step.1) in
    if leb limit (length claimed) then (s, claimed) else rest

unfoldable pub claim_for_reconcile : Turn → Store → String → ℕ → ℕ → Store × List StoredAttempt
unfolding claim_rows rows earlier_touched
claim_for_reconcile turn s owner ttl limit =
    claim_rows turn owner ttl limit (map (λ r. r.operation_id) (sort_by earlier_touched (rows s))) s
      []
