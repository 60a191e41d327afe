-- ===== src/Settlement/Store.antt =====
-- packages/payments/src/x402-settlement-store.ts: the queries of the in-memory store, and
-- resolveOrCreate.
use Prim.Native.String.{slice}
use agentready_commerce.Prelude.{
  ℕ, String, ◌∷◌, [], ◌++◌, List, Bool, not, ◌&&◌, ◌||◌, same_option, Option, none, some, get, set,
  values, Host, ◌==◌, ◌=?◌, ◌<>◌, eqb, ltb, if◌then◌else◌, is_set, get_or_else, keep, find_first,
  first, sort_by, take,
}
use agentready_commerce.Settlement.Types.{
  pending, settled, released, same_status, includes_status, is_resolved, in_flight, StoredAttempt,
  ResolveInput, ResolveResult, created, existing, approval_differs, release_required, Movement,
  Store, Turn, approval_mismatch, without_hyphens,
}

-- `(a, b) => a.createdAt < b.createdAt ? -1 : 1`, and the same on `updatedAt` and downwards.
unfoldable pub earlier_made : StoredAttempt → StoredAttempt → Bool
earlier_made a b = ltb a.created_at b.created_at

unfoldable pub earlier_touched : StoredAttempt → StoredAttempt → Bool
earlier_touched a b = ltb a.updated_at b.updated_at

unfoldable pub later_touched : StoredAttempt → StoredAttempt → Bool
later_touched a b = not (ltb a.updated_at b.updated_at)

unfoldable pub rows : Store → List StoredAttempt
rows s = values s.attempts

unfoldable pub same_request : String → String → StoredAttempt → Bool
same_request digest payment r = r.request_digest == digest && r.caller_payment_id =? payment

unfoldable pub paid_under : String → StoredAttempt → Bool
paid_under payment r = r.caller_payment_id =? payment

unfoldable pub of_intent : String → ℕ → StoredAttempt → Bool
of_intent order version r = r.logical_order_id == order && eqb r.intent_version version

unfoldable pub active_in : String → ℕ → StoredAttempt → Bool
unfolding of_intent
active_in order version r = of_intent order version r && not (is_resolved r.status)

unfoldable pub settled_as : String → ℕ → String → String → StoredAttempt → Bool
settled_as order version digest resource r =
    of_intent order version r
    && (r.request_digest == digest && r.resource == resource)
    && same_status r.status settled

unfoldable pub released_in : String → ℕ → StoredAttempt → Bool
released_in order version r = of_intent order version r && same_status r.status released

unfoldable pub find_by_digest_payment : Store → String → String → Option StoredAttempt
find_by_digest_payment s digest payment =
    first (sort_by earlier_made (keep (same_request digest payment) (rows s)))

unfoldable pub find_by_payment_id : Store → String → List StoredAttempt
find_by_payment_id s payment = sort_by earlier_made (keep (paid_under payment) (rows s))

unfoldable pub find_settled_attempt : Store → String → ℕ → String → String → Option StoredAttempt
find_settled_attempt s order version digest resource =
    find_first (settled_as order version digest resource) (rows s)

unfoldable pub find_active_attempt : Store → String → ℕ → Option StoredAttempt
find_active_attempt s order version =
    first (sort_by earlier_made (keep (active_in order version) (rows s)))

unfoldable pub get_by_operation_id : Store → String → Option StoredAttempt
get_by_operation_id s id = get s.attempts id

unfoldable pub sweep_candidates : Store → ℕ → List StoredAttempt
sweep_candidates s limit =
    take limit (sort_by earlier_touched (keep (λ r. includes_status in_flight r.status) (rows s)))

unfoldable pub build_operation_id : Host → ResolveInput → String → String
build_operation_id host i revision = host.sha256 (
    i.logical_order_id
    <> "|"
    <> host.show i.intent_version
    <> "|"
    <> i.request_digest
    <> "|"
    <> i.resource
    <> "|"
    <> revision)

unfoldable pub mint_spend_auth_revision : Turn → String
unfolding without_hyphens
mint_spend_auth_revision turn = "sauth_" <> without_hyphens (turn.uuid 0)

abbrev pub approval_mismatch_detail : String
approval_mismatch_detail =
    "Presented approval does not match this attempt's bound authorization revision."

abbrev pub release_required_detail : String
release_required_detail =
    "A prior attempt was operator-released. Present the cited new approval event id to open a fresh attempt."

-- An attempt that is there already is joined only under its own approval.
unfoldable pub join : ResolveInput → StoredAttempt → ResolveResult
join i r =
    if approval_mismatch r.auth_revision i.approval_event_id
    then approval_differs r approval_mismatch_detail
    else existing r

-- The early returns: the first of the four searches that finds a row.
unfoldable pub or_search : Option StoredAttempt → Option StoredAttempt → Option StoredAttempt
or_search none r = r
or_search (some r) s = some r

unfoldable pub prior_attempt : Store → ResolveInput → Option StoredAttempt
unfolding find_active_attempt find_by_payment_id find_settled_attempt or_search rows
prior_attempt s i =
    or_search (find_first (same_request i.request_digest i.caller_payment_id) (rows s)) (
      or_search (first (find_by_payment_id s i.caller_payment_id)) (
        or_search (find_active_attempt s i.logical_order_id i.intent_version)
          (find_settled_attempt s i.logical_order_id i.intent_version i.request_digest i.resource)))

-- The row that the operator released last.
unfoldable pub last_released : Store → ResolveInput → Option StoredAttempt
unfolding rows
last_released s i =
    first (sort_by later_touched (keep (released_in i.logical_order_id i.intent_version) (rows s)))

unfoldable pub new_attempt : Turn → ResolveInput → String → String → StoredAttempt
new_attempt turn i id revision = record {
  operation_id = id;
  logical_order_id = i.logical_order_id;
  intent_version = i.intent_version;
  request_digest = i.request_digest;
  resource = i.resource;
  auth_revision = revision;
  caller_payment_id = some i.caller_payment_id;
  signed_payload_enc = none;
  payload_digest = none;
  payer = none;
  blockhash = none;
  requirements_json = get_or_else i.requirements_json "{}";
  status = pending;
  tx_hash = none;
  evidence_json = none;
  release_evidence_json = none;
  lease_owner = none;
  lease_expires_at = none;
  fence_token = none;
  released_to_approval = none;
  released_by = none;
  created_at = turn.now;
  updated_at = turn.now;
}

unfoldable pub open_by :
    Turn → Store → ResolveInput → String → String → Option StoredAttempt → Store × ResolveResult
unfolding new_attempt
open_by turn s i id revision (some r) = (s, existing r)
open_by turn s i id revision none =
    let row = new_attempt turn i id revision in
    let entry : Movement = record {
      operation_id = id;
      from = "—";
      to = "pending";
      trigger = "accept-intake";
      note = "rev=" <> slice revision 0 12;
    } in
    (record { attempts = set s.attempts id row; history = s.history ++ entry ∷ [] }, created row)

unfoldable pub open_attempt : Host → Turn → Store → ResolveInput → String → Store × ResolveResult
unfolding open_by
open_attempt host turn s i revision =
    let id = build_operation_id host i revision in open_by turn s i id revision (get s.attempts id)

-- After a release only the approval that the release cites opens another attempt.
unfoldable pub authorise :
    Host → Turn → Store → ResolveInput → Option StoredAttempt → Store × ResolveResult
unfolding open_attempt mint_spend_auth_revision
authorise host turn s i none =
    open_attempt host turn s i (get_or_else i.approval_event_id (mint_spend_auth_revision turn))
authorise host turn s i (some r) =
    if not (is_set i.approval_event_id)
      || not (same_option i.approval_event_id r.released_to_approval)
    then (s, release_required r release_required_detail)
    else open_attempt host turn s i (get_or_else i.approval_event_id "")

unfoldable pub resolve_by :
    Host → Turn → Store → ResolveInput → Option StoredAttempt → Store × ResolveResult
unfolding authorise last_released join
resolve_by host turn s i (some r) = (s, join i r)
resolve_by host turn s i none = authorise host turn s i (last_released s i)

unfoldable pub resolve_or_create : Host → Turn → Store → ResolveInput → Store × ResolveResult
unfolding resolve_by prior_attempt
resolve_or_create host turn s i = resolve_by host turn s i (prior_attempt s i)
