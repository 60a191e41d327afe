-- ===== src/Sessions/Cache/Laws.antt =====
-- apps/web/lib/services.ts: what the pruning and the import of sessions promise.
use agentready_commerce.Prelude.{
  ℕ, suc, ◌-◌, ◌≤◌, ◌∷◌, [], String, true, false, Option, none, some, Map, Host, ◌≡◌, refl, sym, ap,
  ◌∙◌, ltb, inl, inr, Bool-cases, arith, length, drop, delete,
}
use agentready_commerce.Commerce.Session.{Session, EnvelopeRecord}
use agentready_commerce.Sessions.Token.{SessionSnapshot, Codec, open_snapshot}
use agentready_commerce.Sessions.Token.Laws.{Opened, open_snapshot-Opened}
use agentready_commerce.Sessions.Cache.{
  Cache, prune, prune_session_cache, max_cached_sessions, ImportResult, imported, refused,
  import_opened, import_session, adopt, restored, envelope_broken, expects_other,
}

prune-drop :
    (m : Map Session) (envelopes : Map EnvelopeRecord)
    → ((prune m envelopes).0 ≡ drop (length m - max_cached_sessions) m)
      × (length (prune m envelopes).0 ≤ max_cached_sessions)
unfolding prune
prune-drop [] envelopes = (refl, omega arith)
prune-drop ((k, v) ∷ m) envelopes = elim (Bool-cases (ltb max_cached_sessions (suc (length m)))) [
  | inl e ↦
      let rest = prune-drop m (delete envelopes k) in
      simp e (rest.0 ∙ sym (ap (λ i. drop i ((k, v) ∷ m)) (one_more (length m) e)), rest.1)
  | inr e ↦ simp e (sym (ap (λ i. drop i ((k, v) ∷ m)) (none_more (length m) e)), few (length m) e)
]
  where
    one_more : (n : ℕ) → ltb 500 (suc n) ≡ true → suc n - 500 ≡ suc (n - 500)
    one_more n h = ground (arith, h)

    none_more : (n : ℕ) → ltb 500 (suc n) ≡ false → suc n - 500 ≡ 0
    none_more n h = ground (arith, h)

    few : (n : ℕ) → ltb 500 (suc n) ≡ false → suc n ≤ 500
    few n h = ground (arith, h)

-- Pruning keeps at most 500 sessions, and of the sessions that there are exactly the last ones.
pub prune_session_cache-drop :
    (c : Cache)
    → ((prune_session_cache c).sessions ≡ drop (length c.sessions - max_cached_sessions) c.sessions)
      × (length (prune_session_cache c).sessions ≤ max_cached_sessions)
unfolding prune_session_cache
prune_session_cache-drop c = prune-drop c.sessions c.envelopes

-- What an answer of an import says of the token and of the tables before and after.
abbrev pub Imports :
    Host → Codec → String → ℕ → Cache → String → Option String → Cache × ImportResult → Type 0
Imports host codec secret now c token expected (after, imported order state) =
    (x : SessionSnapshot) × ((Opened host codec token secret now x
        × ((order ≡ x.session.logical_order_id) × (state ≡ x.session.state)))
      × (((expects_other expected order ≡ false) × (envelope_broken host x.envelope ≡ false))
          × ((after ≡ adopt c x) × (length after.sessions ≤ max_cached_sessions))))
Imports host codec secret now c token expected (after, refused why) = after ≡ c

adopted : (c : Cache) (x : SessionSnapshot) → length (adopt c x).sessions ≤ max_cached_sessions
unfolding adopt
adopted c x = (prune_session_cache-drop (restored c x)).1

import_opened-Imports :
    (host : Host) (codec : Codec) (secret : String) (now : ℕ) (c : Cache) (token : String)
    (expected : Option String) (o : Option SessionSnapshot)
    → open_snapshot host codec token secret now ≡ o
    → Imports host codec secret now c token expected (import_opened host c expected o)
unfolding import_opened
import_opened-Imports host codec secret now c token expected none e = refl
import_opened-Imports host codec secret now c token expected (some x) e =
    elim (Bool-cases (expects_other expected x.session.logical_order_id)) [
      | inl a ↦ simp a refl
      | inr a ↦ elim (Bool-cases (envelope_broken host x.envelope)) [
        | inl b ↦ simp (a, b) refl
        | inr b ↦
            rw (a, b)
              (
                x,
                (
                  (open_snapshot-Opened host codec token secret now x e, (refl, refl)),
                  ((a, b), (refl, adopted c x)),
                ),
              )
      ]
    ]

-- An import succeeds only for a token that the server has signed and that has not expired, for the
-- order that is expected, with an envelope that still has its digest; the session is then adopted and
-- at most 500 sessions are kept. A refused import changes nothing.
pub import_session-Imports :
    (host : Host) (codec : Codec) (secret : String) (now : ℕ) (c : Cache) (token : String)
    (expected : Option String)
    → Imports host codec secret now c token expected
        (import_session host codec secret now c token expected)
unfolding import_session
import_session-Imports host codec secret now c token expected =
    import_opened-Imports host codec secret now c token expected
      (open_snapshot host codec token secret now) refl
