-- ===== src/Devnet/Settle.antt =====
-- packages/payments/src/devnet-machine.ts: accept, from the facilitator's verification to its settlement.
use agentready_commerce.Prelude.{
  ℕ, String, ◌∷◌, [], Bool, true, false, not, ◌&&◌, Option, none, some, Outcome, returned, thrown,
  ◌<>◌, if◌then◌else◌, is_set, get_or_else, same_option,
}
use agentready_commerce.Settlement.Types.{
  AttemptStatus, rejected, settling, awaiting_evidence, manual, StoredAttempt, Store,
}
use agentready_commerce.Settlement.Store.{get_by_operation_id}
use agentready_commerce.Settlement.Moves.{Update, no_update, transition, revalidate_for_settle}
use agentready_commerce.Devnet.Terms.{
  Supplied, RawSettlement, AdaptedSettlement, CanonicalRequirements, build_canonical_requirements,
  adapt_settlement,
}
use agentready_commerce.Devnet.Inspect.{string_value}
use agentready_commerce.Devnet.Complete.{
  Platform, World, Answer, error_answer, pending_answer, manual_answer, Holder, holder_move,
  complete_settlement,
}
use agentready_commerce.Devnet.Join.{
  Joined, fresh, answered, exhausted, join_stored_row, in_progress,
}

-- What a signed payload holds, and the facilitator's answers to it.
pub record SignedPayload : Type 0 where
  pub accepted : Option Supplied
  pub payment_identifier : Option String

pub record VerifyAnswer : Type 0 where
  pub is_valid : Bool
  pub payer : Option String

pub data SettleAnswer : Type 0 where
  failed : Option String → SettleAnswer
  malformed : SettleAnswer
  result : RawSettlement → SettleAnswer

-- The facilitator and its package, and the reading of headers.
pub record Facilitator : Type 0 where
  pub parse : String → Option SignedPayload
  pub fee_payer : Option String
  pub blockhash_of : String → Option String
  pub requirements_text : CanonicalRequirements → String
  pub verify : SignedPayload → VerifyAnswer
  pub settle : SignedPayload → SettleAnswer

pub data Ending : Type 0 where
  replied : Answer → Ending
  raised : String → Ending
  stuck : Ending

-- The end of a call, and whether it asked the facilitator to settle.
pub record Run : Type 0 where
  pub store : Store
  pub ending : Ending
  pub submitted : Bool

abbrev pub reply : Store → Answer → Run
reply s a = record { store = s; ending = replied a; submitted = false }

-- What the handler holds of its request once that is checked.
pub record Request : Type 0 where
  pub header : String
  pub payload : SignedPayload
  pub payment : String
  pub digest : String
  pub fee_payer : String

abbrev pub worker : World → String
worker w = "worker-" <> (w.turn 0).uuid 0

module _ (p : Platform) (f : Facilitator) (w : World) (fuel : ℕ) where
  -- A lost lease: the attempt as it is now, or the answers for none and for one that is free again.
  unfoldable pub rejoin_by : Answer → Store × Joined → Run
  rejoin_by free (s, fresh) = reply s free
  rejoin_by free (s, answered a) = reply s a
  rejoin_by free (s, exhausted) = record { store = s; ending = stuck; submitted = false }

  unfoldable pub rejoin_found : Answer → Answer → Store → Option StoredAttempt → Run
  unfolding rejoin_by
  rejoin_found gone free s none = reply s gone
  rejoin_found gone free s (some r) = rejoin_by free (join_stored_row p w fuel s r)

  unfoldable pub rejoin : ℕ → Store → String → Answer → Run
  unfolding rejoin_found
  rejoin n s id gone =
      let seen = w.others n s in rejoin_found gone in_progress seen (get_by_operation_id seen id)

  -- The claimed attempt with its fence.
  abbrev pub holder : Request → String → StoredAttempt → Holder
  holder q id claimed = record {
    operation_id = id;
    owner = some (worker w);
    fence_token = some (get_or_else claimed.fence_token "");
    request_digest = q.digest;
  }

  -- A transition of the holder out of `settling`.
  unfoldable pub step_to :
      ℕ → Store → Holder → AttemptStatus → Update → String → Store × Option StoredAttempt
  step_to n s h to update trigger =
      transition (w.turn n) (w.others n s) h.operation_id
        (holder_move h (settling ∷ []) to update trigger "")

  -- `{ txHash, payer }`, with `payer` where there is one.
  abbrev known : Option String → Option String → Update
  known tx payer = record no_update { tx_hash = wrap tx; payer = wrap payer }
    where
      wrap : Option String → Option (Option String)
      wrap none = none
      wrap (some x) = some (some x)

  -- With a signature the attempt waits for its evidence, and else for the operator. `told` is the
  -- signature in the answer.
  unfoldable pub ambiguous : Store → Holder → Option String → Option String → Update → String → Run
  unfolding step_to
  ambiguous s h tx told update trigger =
      if is_set tx
      then record {
        store = (step_to 9 s h awaiting_evidence update trigger).0;
        ending =
            replied (record (pending_answer "settlement_ambiguous") { transaction_hash = told });
        submitted = true;
      }
      else record {
        store = (step_to 9 s h manual update trigger).0;
        ending = replied (manual_answer 202 "settlement_ambiguous");
        submitted = true;
      }

  unfoldable pub completed : Store × Answer → Run
  completed (s, a) = record { store = s; ending = replied a; submitted = true }

  unfoldable pub adapted :
      Store → Request → Holder → Option String → Option String → Outcome AdaptedSettlement → Run
  unfolding ambiguous completed complete_settlement
  adapted s q h tx payer (thrown e) =
      ambiguous s h tx tx (known (some (get_or_else tx "")) payer) "settle-adapt-failed"
  adapted s q h tx payer (returned a) =
      if not a.success
      then ambiguous s h (some a.transaction_hash) none (known (some a.transaction_hash) payer)
          "settle-unsuccessful"
      else completed (complete_settlement p w s h a "settled" q.fee_payer none)

  -- The payer that verification named, or else the settlement.
  abbrev payer_of : Option String → Option String → Option String
  payer_of verified settled =
      some (if is_set verified then get_or_else verified "" else get_or_else settled "")

  unfoldable pub settled_with : Store → Request → Holder → Option String → SettleAnswer → Run
  unfolding ambiguous adapted step_to
  settled_with s q h payer (failed tx) =
      ambiguous s h tx tx (known tx payer) "settle-transport-failed"
  settled_with s q h payer malformed = record {
    store = (step_to 9 s h manual no_update "settle-malformed").0;
    ending = replied (manual_answer 202 "settlement_ambiguous");
    submitted = true;
  }
  settled_with s q h payer (result raw) =
      let canonical = build_canonical_requirements p.host p.config q.digest in
      let tx = string_value raw.transaction in
      if is_set payer && is_set raw.payer && not (same_option payer raw.payer)
      then record {
        store =
            (step_to 9 s h manual (known (some (get_or_else tx "")) (payer_of payer raw.payer))
              "settle-payer-mismatch").0;
        ending = replied (manual_answer 502 "settlement_transaction_mismatch");
        submitted = true;
      }
      else adapted s q h tx (payer_of payer raw.payer) (
          adapt_settlement
            (record {
              success = raw.success;
              transaction = tx;
              network = some (get_or_else (string_value raw.network) canonical.network);
              payer = payer_of payer raw.payer;
              amount = some (get_or_else (string_value raw.amount) canonical.amount);
            })
            p.config q.payment (some canonical.amount))

  -- The second revalidation, and the call that settles.
  unfoldable pub settle_revalidated :
      Request → Holder → Option String → Store × Option StoredAttempt → Run
  unfolding settled_with rejoin
  settle_revalidated q h payer (s, none) = rejoin 8 s h.operation_id in_progress
  settle_revalidated q h payer (s, some valid) = settled_with s q h payer (f.settle q.payload)

  unfoldable pub settle_owned : Store → Request → Holder → Option String → Run
  unfolding settle_revalidated
  settle_owned s q h payer = settle_revalidated q h payer (
      revalidate_for_settle (w.turn 7) (w.others 7 s) h.operation_id (worker w)
        (get_or_else h.fence_token "") p.lease_ttl)

  unfoldable pub payer_stored :
      Request → Holder → Option String → Store × Option StoredAttempt → Run
  unfolding settle_owned rejoin
  payer_stored q h payer (s, none) = rejoin 8 s h.operation_id in_progress
  payer_stored q h payer (s, some r) = settle_owned s q h payer

  unfoldable pub verified_with : Store → Request → Holder → VerifyAnswer → Run
  unfolding step_to payer_stored settle_owned
  verified_with s q h v =
      if not v.is_valid
      then reply (step_to 6 s h rejected no_update "verify-failed").0
          (error_answer 402 "payment_verification_failed")
      else if is_set v.payer
      then payer_stored q h v.payer (step_to 6 s h settling (known none v.payer) "verify-passed")
      else settle_owned s q h v.payer
