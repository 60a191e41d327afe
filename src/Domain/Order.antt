-- ===== src/Domain/Order.antt =====
-- packages/domain/src/types.ts: the states of an order and the table of its transitions.
pub mod Paths
use agentready_commerce.Prelude.{
  ℕ, String, ◌≡◌, refl, ◌⊎◌, ◌↔◌, inl, inr, Bool, true, false, ◌||◌, List, [], ◌∷◌, arith, eqb,
  if◌then◌else◌, ◌<>◌,
}

-- ORDER_STATES.
pub data OrderState : Type 0 where
  draft clarifying quoted awaiting_approval approved payment_pending paid_verified : OrderState
  fulfilment_pending fulfilled expired reapproval_required payment_failed : OrderState
  fulfilment_failed compensation_pending refunded manual_review : OrderState

-- The text that the program stores for a state.
abbrev pub state_name : OrderState → String
state_name draft = "DRAFT"
state_name clarifying = "CLARIFYING"
state_name quoted = "QUOTED"
state_name awaiting_approval = "AWAITING_APPROVAL"
state_name approved = "APPROVED"
state_name payment_pending = "PAYMENT_PENDING"
state_name paid_verified = "PAID_VERIFIED"
state_name fulfilment_pending = "FULFILMENT_PENDING"
state_name fulfilled = "FULFILLED"
state_name expired = "EXPIRED"
state_name reapproval_required = "REAPPROVAL_REQUIRED"
state_name payment_failed = "PAYMENT_FAILED"
state_name fulfilment_failed = "FULFILMENT_FAILED"
state_name compensation_pending = "COMPENSATION_PENDING"
state_name refunded = "REFUNDED"
state_name manual_review = "MANUAL_REVIEW"

-- The place of a state in ORDER_STATES, by which two states are compared.
abbrev pub state_index : OrderState → ℕ
state_index draft = 0
state_index clarifying = 1
state_index quoted = 2
state_index awaiting_approval = 3
state_index approved = 4
state_index payment_pending = 5
state_index paid_verified = 6
state_index fulfilment_pending = 7
state_index fulfilled = 8
state_index expired = 9
state_index reapproval_required = 10
state_index payment_failed = 11
state_index fulfilment_failed = 12
state_index compensation_pending = 13
state_index refunded = 14
state_index manual_review = 15

-- `===` on states.
abbrev pub same_state : OrderState → OrderState → Bool
same_state a b = eqb (state_index a) (state_index b)

-- `includes` on states.
abbrev pub includes_state : List OrderState → OrderState → Bool
includes_state [] s = false
includes_state (t ∷ ts) s = same_state t s || includes_state ts s

-- ALLOWED_TRANSITIONS.
abbrev pub allowed_transitions : OrderState → List OrderState
allowed_transitions draft = clarifying ∷ quoted ∷ expired ∷ []
allowed_transitions clarifying = clarifying ∷ quoted ∷ expired ∷ []
allowed_transitions quoted = awaiting_approval ∷ expired ∷ reapproval_required ∷ []
allowed_transitions awaiting_approval =
    approved ∷ expired ∷ reapproval_required ∷ clarifying ∷ quoted ∷ []
allowed_transitions approved = payment_pending ∷ expired ∷ reapproval_required ∷ []
allowed_transitions payment_pending =
    paid_verified ∷ payment_failed ∷ reapproval_required ∷ expired ∷ []
allowed_transitions paid_verified = fulfilment_pending ∷ fulfilment_failed ∷ []
allowed_transitions fulfilment_pending = fulfilled ∷ fulfilment_failed ∷ []
allowed_transitions fulfilled = []
allowed_transitions expired = []
allowed_transitions reapproval_required =
    awaiting_approval ∷ approved ∷ expired ∷ clarifying ∷ quoted ∷ []
allowed_transitions payment_failed = payment_pending ∷ expired ∷ []
allowed_transitions fulfilment_failed = compensation_pending ∷ []
allowed_transitions compensation_pending = refunded ∷ manual_review ∷ []
allowed_transitions refunded = []
allowed_transitions manual_review =
    refunded ∷ fulfilment_pending ∷ fulfilled ∷ compensation_pending ∷ []

-- StateTransitionResult.
pub data StateTransitionResult : Type 0 where
  moved : OrderState → OrderState → StateTransitionResult
  refused : OrderState → OrderState → String → StateTransitionResult

abbrev pub illegal : OrderState → OrderState → String
illegal from to = "Illegal transition " <> state_name from <> " -> " <> state_name to

unfoldable pub transition_state : OrderState → OrderState → StateTransitionResult
transition_state from to =
    if same_state from to
    then moved from to
    else if includes_state (allowed_transitions from) to
    then moved from to
    else refused from to (illegal from to)
