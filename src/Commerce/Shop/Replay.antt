-- ===== src/Commerce/Shop/Replay.antt =====
-- apps/web/lib/services.ts with packages/core/src/coordinator.ts: an operation id takes effect once.
use agentready_commerce.Prelude.{
  ℕ, String, ◌≡◌, refl, sym, subst, inl, inr, true, Option, none, some, ◌==◌, ==_refl, truthy,
  if◌then◌else◌, get, Call, Outcome, returned, thrown, Bool-cases,
}
use agentready_commerce.Core.Types.{OperationOutcome, success, failure, refusal, OperationRecord}
use agentready_commerce.Core.Store.{OperationStore}
use agentready_commerce.Core.Coordinator.{opened, closed}
use agentready_commerce.Core.Coordinator.Once.{begin_missing, begin_present, complete_present}
use agentready_commerce.Commerce.Step.{Reply, Done, Order, Step}
use agentready_commerce.Commerce.Step.Laws.{of_returned}
use agentready_commerce.Commerce.Shop.{
  Shop, Kind, conflict_reply, replay_reply, report_of, unknown_session, stored, completed_with,
  reported, ended, perform, performed, answered, begun, run_operation,
}

module _ (store : OperationStore Reply) where
  open store use {State, fetch, put, fetch-put}

  -- An id that stands in the store with the outcome, the payload and the hash of a finished run.
  pub record Finished (ops : State) (id hash : String) (r : Reply) : Type 0 where
    pub entry : OperationRecord Reply
    pub there : fetch ops id ≡ some entry
    pub hash_of : entry.request_hash ≡ hash
    pub payload : entry.result_payload ≡ some r
    pub answers :
        (kind : Kind) (waiting : Reply)
        → kind.repeats_failures ≡ true
        → replay_reply kind entry.phase (some r) waiting ≡ some r

  Finished-closed :
      (ops : State) (id hash : String) (e : OperationRecord Reply) (d : Done) (now : ℕ)
      → e.request_hash ≡ hash
      → Finished (put ops id (closed e (report_of d) now)) id hash d.reply
  Finished-closed ops id hash e d now h = record {
    entry = closed e (report_of d) now;
    there = rw (fetch-put ops id (closed e (report_of d) now) id, ==_refl id) refl;
    hash_of = h;
    payload = refl;
    answers = λ kind waiting again. phase_answers d.outcome kind waiting again;
  }
    where
      phase_answers :
          (o : OperationOutcome) (kind : Kind) (waiting : Reply)
          → kind.repeats_failures ≡ true
          → replay_reply kind
              (closed e (record (report_of d) { outcome = o }) now).phase
              (some d.reply)
              waiting
            ≡ some d.reply
      phase_answers success kind waiting again = refl
      phase_answers failure kind waiting again = rw again refl
      phase_answers refusal kind waiting again = rw again refl

  -- Whatever a run answers with is stored under its id.
  abbrev Stores : String → String → Outcome Reply × Shop State → Type 0
  Stores id hash p = (r : Reply) → p.0 ≡ returned r → Finished p.1.operations id hash r

  reported_present :
      (call : Call) (id : String) (d : Done) (shop : Shop State) (e : OperationRecord Reply)
      → truthy id ≡ true
      → fetch shop.operations id ≡ some e
      → reported store call id d shop ≡ (
        returned d.reply,
        record shop { operations = put shop.operations id (closed e (report_of d) call.now) },
      )
  unfolding reported completed_with
  reported_present call id d shop e named there =
      rw (named, complete_present store shop.operations id (report_of d) call.now e there) refl

  reported-Stores :
      (call : Call) (id hash : String) (d : Done) (shop : Shop State) (e : OperationRecord Reply)
      → truthy id ≡ true
      → fetch shop.operations id ≡ some e
      → e.request_hash ≡ hash
      → Stores id hash (reported store call id d shop)
  reported-Stores call id hash d shop e named there same =
      subst (Stores id hash) (sym (reported_present call id d shop e named there)) (λ r ended_well.
        subst (Finished (put shop.operations id (closed e (report_of d) call.now)) id hash)
          (sym (of_returned (λ x. x) ended_well))
          (Finished-closed shop.operations id hash e d call.now same))

  perform-Stores :
      (call : Call) (id hash order : String) (handler : Order → Step Done) (shop : Shop State)
      (found : Option Order) (e : OperationRecord Reply)
      → truthy id ≡ true
      → fetch shop.operations id ≡ some e
      → e.request_hash ≡ hash
      → Stores id hash (perform store call id order handler shop found)
  unfolding perform ended stored
  perform-Stores call id hash order handler shop none e named there same =
      reported-Stores call id hash (unknown_session store) shop e named there same
  perform-Stores call id hash order handler shop (some o) e named there same =
      ended_with (handler o).result
    where
      ended_with :
          (end : Outcome Done)
          → Stores id hash (ended store call id end (stored call order shop (handler o)))
      ended_with (thrown why) r h = cc
      ended_with (returned d) r h =
          reported-Stores call id hash d (stored call order shop (handler o)) e named there same r h

  -- A run under a new id.
  run_new :
      (kind : Kind) (call : Call) (id hash order : String) (handler : Order → Step Done)
      (shop : Shop State)
      → truthy id ≡ true
      → fetch shop.operations id ≡ none
      → run_operation store kind call id hash order handler shop
        ≡ perform store call id order handler
            (record shop {
              operations = put shop.operations id (opened id kind.type hash order call.now);
            })
            (get shop.orders order)
  unfolding run_operation begun performed
  run_new kind call id hash order handler shop named missing =
      rw (named, begin_missing store shop.operations id kind.type hash order call.now missing) refl

  run_Finished :
      (kind : Kind) (call : Call) (id old hash order : String) (handler : Order → Step Done)
      (shop : Shop State) (r : Reply)
      → truthy id ≡ true
      → kind.repeats_failures ≡ true
      → Finished shop.operations id old r
      → run_operation store kind call id hash order handler shop
        ≡ ((if old == hash then returned r else returned (conflict_reply kind id)), shop)
  unfolding run_operation begun answered
  run_Finished kind call id old hash order handler shop r named again f =
      let opening =
        begin_present store shop.operations id kind.type hash order call.now f.entry f.there in
      elim (Bool-cases (old == hash)) [
        | inl same ↦ rw (named, opening, f.hash_of, same, f.payload, f.answers kind _ again) refl
        | inr other ↦ rw (named, opening, f.hash_of, other) refl
      ]

  -- An operation id takes effect at most once. After a run of an operation under a new, non-empty id
  -- has come to an answer, a run of the same kind under that id, at any time, for any handler and
  -- order, changes no table: it gives the same answer if the hash of the request is the same, and
  -- the answer that reports a conflict if it is another. The kind is one that answers stored
  -- failures again (approve, initiatePayment, verifyPayment, fulfil and compensate).
  pub run_operation-once :
      (kind : Kind) (call : Call) (id hash order : String) (handler : Order → Step Done)
      (shop : Shop State) (r : Reply) (call' : Call) (hash' order' : String)
      (handler' : Order → Step Done)
      → truthy id ≡ true
      → kind.repeats_failures ≡ true
      → fetch shop.operations id ≡ none
      → (run_operation store kind call id hash order handler shop).0 ≡ returned r
      → run_operation store kind call' id hash' order' handler'
          (run_operation store kind call id hash order handler shop).1
        ≡ (
          (if hash == hash' then returned r else returned (conflict_reply kind id)),
          (run_operation store kind call id hash order handler shop).1,
        )
  run_operation-once kind call id hash order handler shop r call' hash' order' handler' named again
        missing ran =
      run_Finished kind call' id hash hash' order' handler'
        (run_operation store kind call id hash order handler shop).1 r named again
        (subst (Stores id hash) (sym (run_new kind call id hash order handler shop named missing))
          (perform-Stores call id hash order handler
            (record shop {
              operations = put shop.operations id (opened id kind.type hash order call.now);
            })
            (get shop.orders order) (opened id kind.type hash order call.now) named
            (rw
              (
                fetch-put shop.operations id (opened id kind.type hash order call.now) id,
                ==_refl id,
              )
              refl)
            refl)
          r ran)
