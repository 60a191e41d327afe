-- ===== src/Sessions/Cache.antt =====
-- apps/web/lib/services.ts: the tables of sessions, which are kept to a number, and the export and the
-- import of a session. The idempotency of createSession is that of the other operations.
pub mod Laws
use agentready_commerce.Prelude.{
  ℕ, ◌+◌, ◌∷◌, [], ◌++◌, String, List, Bool, true, false, not, ◌&&◌, ◌||◌, Option, none, some, Map,
  get, set, delete, has, Host, Call, ◌==◌, ◌<>◌, ltb, if◌then◌else◌, is_set, is_some, length,
  get_or_else, ◌=?◌,
}
use agentready_commerce.Domain.Order.{OrderState, draft}
use agentready_commerce.Domain.Types.{PurchaseMandate}
use agentready_commerce.Domain.Canonical.{envelope_digest}
use agentready_commerce.Commerce.Session.{Session, EnvelopeRecord, ParsedIntent}
use agentready_commerce.Commerce.Dialogue.{create_dialogue_memory}
use agentready_commerce.Payments.Adapters.{razorpay_rail}
use agentready_commerce.Sessions.Audit.{AuditEvent, append_event, has_event, timeline, log_event}
use agentready_commerce.Sessions.Token.{
  SessionSnapshot, Codec, seal_snapshot, open_snapshot, session_snapshot_version,
  session_snapshot_ttl_ms,
}

pub record Cache : Type 0 where
  pub sessions : Map Session
  pub envelopes : Map EnvelopeRecord
  pub mandates : Map PurchaseMandate
  pub events : List AuditEvent
  pub webhook_dedup : Map ℕ

abbrev pub max_cached_sessions : ℕ
max_cached_sessions = 500

-- Keys are unique: deleting the first of them leaves the rest.
unfoldable pub prune : Map Session → Map EnvelopeRecord → Map Session × Map EnvelopeRecord
prune [] envelopes = ([], envelopes)
prune ((k, v) ∷ m) envelopes =
    let rest = prune m (delete envelopes k) in
    if ltb max_cached_sessions (length ((k, v) ∷ m)) then rest else ((k, v) ∷ m, envelopes)

unfoldable pub prune_session_cache : Cache → Cache
unfolding prune
prune_session_cache c =
    let kept = prune c.sessions c.envelopes in record c { sessions = kept.0; envelopes = kept.1 }

unfoldable pub build_mandate : Call → String → String → PurchaseMandate
build_mandate call merchant customer = record {
  mandate_id = call.new_id "mdt";
  customer_id = customer;
  allowed_merchant_ids = merchant ∷ [];
  allowed_product_ids = none;
  allowed_rails = razorpay_rail ∷ "x402_solana" ∷ [];
  max_amount_minor = 1000000;
  auto_approve_below_minor = none;
  expires_at = call.now + 86400000;
  human_confirmation_required = true;
}

abbrev no_intent : ParsedIntent
no_intent = record {
  size = none;
  colour = none;
  use_case = none;
  max_amount_minor = none;
  must_be_returnable = none;
  deliver_by = none;
  distance_km = none;
  fit = none;
  cushioning = none;
}

unfoldable pub new_session : Call → String → Session
unfolding create_dialogue_memory
new_session call customer = record {
  logical_order_id = call.new_id "ord";
  customer_id = customer;
  created_at = call.now;
  state = draft;
  message = "";
  intent = no_intent;
  last_ranking = none;
  approval_event_id = none;
  approved_digest = none;
  external_order_id = none;
  external_payment_id = none;
  verification = none;
  compensation = none;
  x402_order_payment = none;
  held_webhook = none;
  dialogue = create_dialogue_memory;
}

unfoldable pub create_session : Call → String → Cache → Cache × Session
unfolding new_session build_mandate prune_session_cache log_event
create_session call merchant c =
    let session = new_session call "cust_demo_01" in
    let kept = prune_session_cache (record c {
      mandates = set c.mandates "cust_demo_01" (build_mandate call merchant "cust_demo_01");
      sessions = set c.sessions session.logical_order_id session;
    }) in
    (
      record kept {
        events =
            (log_event call kept.events (record {
              logical_order_id = session.logical_order_id;
              type = "session.created";
              actor = "system";
              occurred_at = none;
              summary = "Session created for cust_demo_01";
              external_event_id = none;
            })).0;
      },
      session,
    )

unfoldable pub snapshot_of : ℕ → Cache → String → Session → SessionSnapshot
unfolding timeline
snapshot_of now c order session = record {
  version = session_snapshot_version;
  issued_at = now;
  expires_at = now + session_snapshot_ttl_ms;
  session = session;
  envelope = get c.envelopes order;
  mandate = get c.mandates session.customer_id;
  audit = timeline c.events order;
}

unfoldable pub export_found :
    Host → Codec → String → ℕ → Cache → String → Option Session → Option String
unfolding snapshot_of seal_snapshot
export_found host codec secret now c order none = none
export_found host codec secret now c order (some session) =
    some (seal_snapshot host codec (snapshot_of now c order session) secret)

unfoldable pub export_session : Host → Codec → String → ℕ → Cache → String → Option String
unfolding export_found
export_session host codec secret now c order =
    export_found host codec secret now c order (get c.sessions order)

pub data ImportResult : Type 0 where
  imported : String → OrderState → ImportResult
  refused : String → ImportResult

unfoldable pub set_some : {A : Type 0} → Map A → String → Option A → Map A
set_some m k none = m
set_some m k (some a) = set m k a

unfoldable pub remember_webhook : Map ℕ → ℕ → Option String → Map ℕ
remember_webhook dedup at none = dedup
remember_webhook dedup at (some id) = if not (has dedup id) then set dedup id at else dedup

-- The events of the order, once each, with the webhook events that they name.
unfoldable pub merge_events : String → Cache → List AuditEvent → Cache
unfolding append_event has_event remember_webhook
merge_events order c [] = c
merge_events order c (e ∷ es) =
    let merged = record c {
      events = if not (has_event c.events e.event_id) then append_event c.events e else c.events;
      webhook_dedup = remember_webhook c.webhook_dedup e.occurred_at e.external_event_id;
    } in
    merge_events order (if not (e.logical_order_id == order) then c else merged) es

unfoldable pub envelope_broken : Host → Option EnvelopeRecord → Bool
envelope_broken host none = false
envelope_broken host (some r) = not (envelope_digest host r.envelope == r.digest)

unfoldable pub expects_other : Option String → String → Bool
expects_other none order = false
expects_other (some expected) order = truthy_other expected order
  where
    truthy_other : String → String → Bool
    truthy_other e o = if e == "" then false else not (o == e)

-- The tables with the snapshot's session in place of their own.
unfoldable pub restored : Cache → SessionSnapshot → Cache
unfolding set_some merge_events
restored c x =
    let order = x.session.logical_order_id in
    merge_events order
      (record c {
        sessions = set c.sessions order x.session;
        envelopes = set_some c.envelopes order x.envelope;
        mandates = set_some c.mandates x.session.customer_id x.mandate;
      })
      x.audit

unfoldable pub adopt : Cache → SessionSnapshot → Cache
unfolding restored prune_session_cache
adopt c x = prune_session_cache (restored c x)

unfoldable pub import_opened :
    Host → Cache → Option String → Option SessionSnapshot → Cache × ImportResult
unfolding expects_other envelope_broken adopt
import_opened host c expected none =
    (c, refused "Invalid or expired session token — start a new conversation.")
import_opened host c expected (some x) =
    if expects_other expected x.session.logical_order_id
    then (c, refused "Session token does not match this order — start a new conversation.")
    else if envelope_broken host x.envelope
    then (c, refused "Session snapshot failed integrity check — start a new conversation.")
    else (adopt c x, imported x.session.logical_order_id x.session.state)

unfoldable pub import_session :
    Host → Codec → String → ℕ → Cache → String → Option String → Cache × ImportResult
unfolding import_opened
import_session host codec secret now c token expected =
    import_opened host c expected (open_snapshot host codec token secret now)
