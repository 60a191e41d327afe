-- ===== src/Settlement/Types.antt =====
-- packages/payments/src/x402-settlement-store.ts: the rows of the settlement store. Instants are
-- milliseconds: ISO texts of the years 0 to 9999 compare as their numbers. `unknown` is JSON text.
use Prim.Native.Char.{code}
use Prim.Native.String.{[] as nil, ◌∷◌ as cons}
use text.Mathlib.Text.{starts_with}
use agentready_commerce.Prelude.{
  ℕ, String, ◌∷◌, [], List, Bool, true, false, not, ◌||◌, Option, Map, ◌==◌, ◌=?◌, eqb,
  if◌then◌else◌, is_set,
}

pub data AttemptStatus : Type 0 where
  pending rejected settling awaiting_evidence settled mismatch manual released : AttemptStatus

unfoldable pub status_name : AttemptStatus → String
status_name pending = "pending"
status_name rejected = "rejected"
status_name settling = "settling"
status_name awaiting_evidence = "awaiting_evidence"
status_name settled = "settled"
status_name mismatch = "mismatch"
status_name manual = "manual"
status_name released = "released"

unfoldable pub same_status : AttemptStatus → AttemptStatus → Bool
unfolding status_name
same_status a b = status_name a == status_name b

-- `statuses.includes(status)`.
unfoldable pub includes_status : List AttemptStatus → AttemptStatus → Bool
unfolding same_status
includes_status [] s = false
includes_status (t ∷ ts) s = same_status t s || includes_status ts s

abbrev pub terminal_resolved : List AttemptStatus
terminal_resolved = settled ∷ rejected ∷ mismatch ∷ released ∷ []

unfoldable pub is_resolved : AttemptStatus → Bool
unfolding includes_status
is_resolved s = includes_status terminal_resolved s

abbrev pub in_flight : List AttemptStatus
in_flight = settling ∷ awaiting_evidence ∷ []

pub record ReleaseEvidence : Type 0 where
  pub operator_id : String
  pub new_approval_event_id : String
  pub note : String
  pub blockhash : String
  pub blockhash_valid : Bool
  pub checked_slot : ℕ
  pub transfer_verification : String

pub record StoredAttempt : Type 0 where
  pub operation_id : String
  pub logical_order_id : String
  pub intent_version : ℕ
  pub request_digest : String
  pub resource : String
  pub auth_revision : String
  pub caller_payment_id : Option String
  pub signed_payload_enc : Option String
  pub payload_digest : Option String
  pub payer : Option String
  pub blockhash : Option String
  pub requirements_json : String
  pub status : AttemptStatus
  pub tx_hash : Option String
  pub evidence_json : Option String
  pub release_evidence_json : Option ReleaseEvidence
  pub lease_owner : Option String
  pub lease_expires_at : Option ℕ
  pub fence_token : Option String
  pub released_to_approval : Option String
  pub released_by : Option String
  pub created_at : ℕ
  pub updated_at : ℕ

pub record ResolveInput : Type 0 where
  pub logical_order_id : String
  pub intent_version : ℕ
  pub request_digest : String
  pub resource : String
  pub approval_event_id : Option String
  pub caller_payment_id : String
  pub requirements_json : Option String

pub data ResolveResult : Type 0 where
  created : StoredAttempt → ResolveResult
  existing : StoredAttempt → ResolveResult
  approval_differs : StoredAttempt → String → ResolveResult
  release_required : StoredAttempt → String → ResolveResult

-- An entry of the history.
pub record Movement : Type 0 where
  pub operation_id : String
  pub from : String
  pub to : String
  pub trigger : String
  pub note : String

pub record Store : Type 0 where
  pub attempts : Map StoredAttempt
  pub history : List Movement

abbrev pub empty_store : Store
empty_store = record { attempts = []; history = [] }

-- What one call reads of the platform: the clock, and the identifiers that `randomUUID` gives.
pub record Turn : Type 0 where
  pub now : ℕ
  pub uuid : ℕ → String

unfoldable pub approval_mismatch : String → Option String → Bool
approval_mismatch revision presented =
    if not (starts_with revision "appr_")
    then false
    else (if not (is_set presented) then true else not (presented =? revision))

-- `uuid.replace(/-/g, "")`; 45 is the hyphen.
unfoldable pub without_hyphens : String → String
without_hyphens nil = nil
without_hyphens (cons c s) =
    let rest = without_hyphens s in if eqb (code c) 45 then rest else cons c rest
