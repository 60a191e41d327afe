-- ===== src/Commerce/Step.antt =====
-- apps/web/lib/services.ts: what an operation does to one session. A handler mutates the session in
-- place and may throw on the way, and what it has changed by then stays: a step carries the session,
-- the audit entries written so far and the end of the call.
pub mod Laws
use agentready_commerce.Prelude.{
  String, Bool, false, Option, none, some, List, [], ◌∷◌, Outcome, returned, thrown,
}
use agentready_commerce.Domain.Order.{
  OrderState, StateTransitionResult, moved, refused, transition_state,
}
use agentready_commerce.Core.Types.{OperationOutcome, success, failure}
use agentready_commerce.Payments.Types.{PaymentAttempt}
use agentready_commerce.Commerce.Session.{Session, EnvelopeRecord, X402OrderPayment}

-- The input of `audit.log`, without the prose of its summary.
pub record LogInput : Type 0 where
  pub order : String
  pub type : String
  pub actor : String
  pub decision : Option String
  pub reason_codes : List String
  pub input_digest : Option String
  pub output_digest : Option String
  pub references : List (String × String)

-- The object that an operation answers with; a field that an operation's type lacks is `none`.
pub record Reply : Type 0 where
  pub ok : Bool
  pub state : OrderState
  pub error : Option String
  pub reason_codes : Option (List String)
  pub approval_event_id : Option String
  pub attempt : Option PaymentAttempt
  pub payment : Option X402OrderPayment
  pub refund_id : Option String

-- What the handler hands to `coordinator.complete` at its end.
pub record Done : Type 0 where
  pub reply : Reply
  pub outcome : OperationOutcome
  pub result_ref : Option String
  pub error_ref : Option String

-- What the service keeps under one order id: the session and the quoted envelope.
pub record Order : Type 0 where
  pub session : Session
  pub envelope : Option EnvelopeRecord

-- `noted` are the event ids that the step enters in the table of processed webhooks.
pub record Step (A : Type 0) : Type 0 where
  pub result : Outcome A
  pub order : Order
  pub log : List LogInput
  pub noted : List String

module _ {A : Type 0} where
  abbrev pub stop : Order → A → Step A
  stop o a = record { result = returned a; order = o; log = []; noted = [] }

  abbrev pub throw : Order → String → Step A
  throw o why = record { result = thrown why; order = o; log = []; noted = [] }

  -- `void audit.log(...)`, then the rest.
  abbrev pub emit : LogInput → Step A → Step A
  emit l k = record k { log = l ∷ k.log }

  -- `webhookDedup.set(eventId, ...)`, then the rest.
  abbrev pub note : String → Step A → Step A
  note id k = record k { noted = id ∷ k.noted }

  -- setState, then the rest with the session in its new state.
  abbrev pub enter_by : StateTransitionResult → Order → (Order → Step A) → Step A
  enter_by (moved from to) o k = k (record o { session = record o.session { state = to } })
  enter_by (refused from to why) o k = throw o why

  abbrev pub enter : Order → OrderState → (Order → Step A) → Step A
  enter o next k = enter_by (transition_state o.session.state next) o k

abbrev pub plain_reply : Bool → OrderState → Reply
plain_reply ok state = record {
  ok = ok;
  state = state;
  error = none;
  reason_codes = none;
  approval_event_id = none;
  attempt = none;
  payment = none;
  refund_id = none;
}

abbrev pub error_reply : OrderState → String → Reply
error_reply state e = record {
  ok = false;
  state = state;
  error = some e;
  reason_codes = none;
  approval_event_id = none;
  attempt = none;
  payment = none;
  refund_id = none;
}

-- `{ ok: false, state: session.state, error }`, completed as a failure with the same error.
abbrev pub fail_with : Order → String → Step Done
fail_with o e = stop o (record {
  reply = error_reply o.session.state e;
  outcome = failure;
  result_ref = none;
  error_ref = some e;
})

-- The same with reason codes.
abbrev pub fail_coded : Order → String → List String → Step Done
fail_coded o e codes = stop o (record {
  reply = record {
    ok = false;
    state = o.session.state;
    error = some e;
    reason_codes = some codes;
    approval_event_id = none;
    attempt = none;
    payment = none;
    refund_id = none;
  };
  outcome = failure;
  result_ref = none;
  error_ref = some e;
})

abbrev pub succeed : Order → Reply → Option String → Step Done
succeed o r ref =
    stop o (record { reply = r; outcome = success; result_ref = ref; error_ref = none })

abbrev pub block_log : String → String → String → String → Option String → LogInput
block_log order type actor code digest = record {
  order = order;
  type = type;
  actor = actor;
  decision = some "block";
  reason_codes = code ∷ [];
  input_digest = digest;
  output_digest = none;
  references = [];
}
