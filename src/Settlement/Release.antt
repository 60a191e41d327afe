-- ===== src/Settlement/Release.antt =====
-- packages/payments/src/x402-settlement-store.ts: the release of an attempt by an operator, and the
-- check of the configuration at boot.
use text.Mathlib.Text.{starts_with}
use agentready_commerce.Prelude.{
  String, ◌∷◌, [], ◌++◌, List, Bool, true, false, not, ◌&&◌, ◌||◌, Option, none, some, get, set,
  Outcome, returned, thrown, ◌>>=◌, same_option, ◌==◌, ◌<>◌, if◌then◌else◌, truthy, is_set,
  is_empty,
}
use agentready_commerce.Settlement.Types.{
  manual, released, status_name, same_status, ReleaseEvidence, StoredAttempt, Store, Turn,
}

abbrev pub reason_if : Bool → String → List String
reason_if true why = why ∷ []
reason_if false why = []

-- The reasons against a release; there are none where the source's `ok` is true. `checkedSlot` is a
-- natural number, so its test always passes.
unfoldable pub release_reasons : ReleaseEvidence → List String
release_reasons e =
    reason_if (not (truthy e.operator_id)) "operator identity is required"
    ++ reason_if
        (not (truthy e.new_approval_event_id) || not (starts_with e.new_approval_event_id "appr_"))
        "release must cite the new server-generated approval event id"
    ++ reason_if (not (truthy e.blockhash))
        "blockhash of the attempt's signed transaction is required"
    ++ reason_if e.blockhash_valid
        "canonical isBlockhashValid verdict must report expired (false); unproven expiry never releases"
    ++ reason_if
        (not (e.transfer_verification == "mismatch")
          && not (e.transfer_verification == "unavailable"))
        "chain shows a verified settlement for this attempt; release is wrong, reconcile instead"
    ++ reason_if (not (truthy e.note)) "operator note is required"

pub data ReleaseResult : Type 0 where
  done : StoredAttempt → ReleaseResult
  refused : List String → ReleaseResult

unfoldable pub released_row : Turn → ReleaseEvidence → StoredAttempt → StoredAttempt
released_row turn e r = record r {
  status = released;
  released_to_approval = some e.new_approval_event_id;
  released_by = some e.operator_id;
  release_evidence_json = some e;
  updated_at = turn.now;
}

unfoldable pub release_found :
    Turn → Store → String → ReleaseEvidence → Option StoredAttempt → Store × ReleaseResult
unfolding released_row
release_found turn s id e none =
    (s, refused ("release requires status=manual (current: unknown)" ∷ []))
release_found turn s id e (some r) =
    if not (same_status r.status manual)
    then (
      s,
      refused (("release requires status=manual (current: " <> status_name r.status <> ")") ∷ []),
    )
    else if not (is_set r.blockhash)
    then (
      s,
      refused (
          "no bound blockhash on this attempt; resolve via incident track, release is refused"
          ∷ []),
    )
    else if not (same_option r.blockhash (some e.blockhash))
    then (s, refused ("evidence blockhash does not match the attempt's staged blockhash" ∷ []))
    else (
      record {
        attempts = set s.attempts id (released_row turn e r);
        history =
            s.history
            ++ record {
              operation_id = id;
              from = "manual";
              to = "released";
              trigger = "operator-release";
              note = e.operator_id <> ": " <> e.note;
            }
              ∷ [];
      },
      done (released_row turn e r),
    )

unfoldable pub release_attempt : Turn → Store → String → ReleaseEvidence → Store × ReleaseResult
unfolding release_reasons release_found
release_attempt turn s id e =
    let reasons = release_reasons e in
    if not (is_empty reasons)
    then (s, refused reasons)
    else release_found turn s id e (get s.attempts id)

-- The configuration of the store; `process.env.NODE_ENV` is an argument of the check.
pub record StoreConfig : Type 0 where
  pub database_url : Option String
  pub enc_key_hex : Option String
  pub mode : String
  pub node_env : Option String
  pub settlement_enabled : Option Bool

pub data Backing : Type 0 where
  postgres memory : Backing

unfoldable pub is_disabled : Option Bool → Bool
is_disabled (some false) = true
is_disabled (some true) = false
is_disabled none = false

-- `parse_key` is parseEncryptionKey, which throws on what is not 32 bytes in hex.
unfoldable pub assert_store_allowed :
    {Key : Type 0} → (Option String → Outcome Key) → Option String → StoreConfig → Outcome Backing
unfolding is_disabled
assert_store_allowed parse_key env c =
    if is_disabled c.settlement_enabled
    then thrown "x402 settlement is disabled by operator kill-switch."
    else if c.mode == "devnet" || production_env
    then (if not (is_set c.database_url)
        then thrown "PostgreSQL DATABASE_URL is required for x402 devnet/production settlement."
        else parse_key c.enc_key_hex >>= λ key. returned postgres)
    else returned memory
  where
    production_env : Bool
    production_env = same_option (or_env c.node_env) (some "production")
      where
        or_env : Option String → Option String
        or_env none = env
        or_env (some x) = some x
