-- ===== src/Sessions/Token.antt =====
-- apps/web/lib/session-token.ts: the sealed snapshot of a session. Compression and JSON are
-- parameters, one function each way.
pub mod Laws
use Prim.Native.String.{[] as nil, ◌∷◌ as cons}
use agentready_commerce.Prelude.{
  ℕ, String, ◌∷◌, [], List, Bool, true, false, not, Option, none, some, Host, ◌==◌, ◌<>◌, eqb, ltb,
  if◌then◌else◌, is_set, truthy,
}
use agentready_commerce.Domain.Types.{PurchaseMandate}
use agentready_commerce.Commerce.Session.{Session, EnvelopeRecord}
use agentready_commerce.Sessions.Audit.{AuditEvent}

pub record SessionSnapshot : Type 0 where
  pub version : ℕ
  pub issued_at : ℕ
  pub expires_at : ℕ
  pub session : Session
  pub envelope : Option EnvelopeRecord
  pub mandate : Option PurchaseMandate
  pub audit : List AuditEvent

abbrev pub session_snapshot_version : ℕ
session_snapshot_version = 1

abbrev pub session_snapshot_ttl_ms : ℕ
session_snapshot_ttl_ms = 86400000

-- `deflateSync` of the JSON text in base64url, and back; `none` where that throws or where a field
-- that is checked has another type.
pub record Codec : Type 0 where
  pub encode : SessionSnapshot → String
  pub decode : String → Option SessionSnapshot

unfoldable pub seal_snapshot : Host → Codec → SessionSnapshot → String → String
seal_snapshot host codec snapshot secret =
    let payload = codec.encode snapshot in payload <> "." <> host.hmac secret payload

-- What stands before and after the last "." of a text.
unfoldable pub at_dot : Bool → String → Option (String × String)
at_dot true s = some ("", s)
at_dot false s = none

unfoldable pub dot_behind : Bool → String → Option (String × String) → Option (String × String)
unfolding at_dot
dot_behind is_dot s none = at_dot is_dot s
dot_behind is_dot s (some r) = some r

unfoldable pub behind : Option (String × String) → (String → String) → Option (String × String)
behind none f = none
behind (some (a, b)) f = some (f a, b)

unfoldable pub last_dot : String → Option (String × String)
unfolding dot_behind behind
last_dot nil = none
last_dot (cons c s) = dot_behind (cons c nil == ".") s (behind (last_dot s) (λ a. cons c a))

unfoldable pub valid_snapshot : ℕ → Option SessionSnapshot → Option SessionSnapshot
valid_snapshot now none = none
valid_snapshot now (some x) =
    if not (eqb x.version session_snapshot_version)
    then none
    else if ltb x.expires_at now
    then none
    else some x

-- The comparison of signatures in constant time is that of the texts.
unfoldable pub open_parts :
    Host → Codec → String → ℕ → Option (String × String) → Option SessionSnapshot
unfolding valid_snapshot
open_parts host codec secret now none = none
open_parts host codec secret now (some (payload, signature)) =
    if not (truthy payload)
    then none
    else if not (signature == host.hmac secret payload)
    then none
    else valid_snapshot now (codec.decode payload)

unfoldable pub open_snapshot : Host → Codec → String → String → ℕ → Option SessionSnapshot
unfolding last_dot open_parts
open_snapshot host codec token secret now = open_parts host codec secret now (last_dot token)
