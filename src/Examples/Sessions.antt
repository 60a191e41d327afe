-- ===== src/Examples/Sessions.antt =====
-- The theorems on tokens and tables of sessions at one session.
use agentready_commerce.Prelude.{
  ℕ, String, List, keep, ◌==◌, ◌≡◌, refl, ◌≤◌, ◌-◌, none, some, [], ◌∷◌, length, drop,
}
use agentready_commerce.Sessions.Audit.{AuditEvent, Ordered, timeline, timeline-Ordered}
use agentready_commerce.Sessions.Token.{SessionSnapshot, Codec, seal_snapshot, open_snapshot}
use agentready_commerce.Sessions.Token.Laws.{open_snapshot-seal_snapshot}
use agentready_commerce.Sessions.Cache.{
  Cache, create_session, snapshot_of, prune_session_cache, max_cached_sessions, import_session,
}
use agentready_commerce.Sessions.Cache.Laws.{
  Imports, import_session-Imports, prune_session_cache-drop,
}
use agentready_commerce.Examples.Data.{host, call}

abbrev empty_cache : Cache
empty_cache = record {
  sessions = [];
  envelopes = [];
  mandates = [];
  events = [];
  webhook_dedup = [];
}

abbrev snapshot : SessionSnapshot
snapshot = snapshot_of 1000 empty_cache "ord_1" (create_session call "merchant" empty_cache).1

abbrev codec : Codec
codec = record { encode = λ x. "payload"; decode = λ s. some snapshot }

open_snapshot-seal_snapshot_example :
    open_snapshot host codec (seal_snapshot host codec snapshot "secret") "secret" 2000
    ≡ some snapshot
unfolding agentready_commerce.Sessions.Token.last_dot snapshot_of
open_snapshot-seal_snapshot_example =
    open_snapshot-seal_snapshot host codec "secret" 2000 snapshot refl refl refl refl refl

import_session-Imports_example :
    Imports host codec "secret" 2000 empty_cache "payload.secretpayload"
      (some "ord_1")
      (import_session host codec "secret" 2000 empty_cache "payload.secretpayload" (some "ord_1"))
import_session-Imports_example =
    import_session-Imports host codec "secret" 2000 empty_cache "payload.secretpayload"
      (some "ord_1")

abbrev one_session : Cache
one_session = (create_session call "merchant" empty_cache).0

prune_session_cache-drop_example :
    ((prune_session_cache one_session).sessions
      ≡ drop (length one_session.sessions - max_cached_sessions) one_session.sessions)
    × (length (prune_session_cache one_session).sessions ≤ max_cached_sessions)
prune_session_cache-drop_example = prune_session_cache-drop one_session

abbrev event : String → ℕ → AuditEvent
event id at = record {
  event_id = id;
  logical_order_id = "o1";
  type = "quote.built";
  actor = "merchant";
  occurred_at = at;
  summary = "";
  external_event_id = none;
}

abbrev logged : List AuditEvent
logged = event "b" 20 ∷ event "a" 10 ∷ []

timeline-Ordered_example :
    Ordered (timeline logged "o1")
    × (length (keep (λ e. e.event_id == "a") (timeline logged "o1"))
        ≡ length (keep (λ e. e.event_id == "a") (keep (λ e. e.logical_order_id == "o1") logged)))
timeline-Ordered_example = timeline-Ordered logged "o1" (λ e. e.event_id == "a")
