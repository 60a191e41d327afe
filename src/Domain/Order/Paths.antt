-- ===== src/Domain/Order/Paths.antt =====
-- packages/domain/src/types.ts: what the table of transitions allows over any series of requests.
use agentready_commerce.Prelude.{
  ◌≡◌, refl, ap, inl, inr, Bool, true, false, List, [], ◌∷◌, ◌++◌, arith, Bool-cases,
}
use agentready_commerce.Domain.Order.{
  OrderState, approved, payment_pending, paid_verified, fulfilment_pending, fulfilled,
  payment_failed, fulfilment_failed, compensation_pending, refunded, manual_review,
  StateTransitionResult, moved, refused, transition_state,
}

abbrev arrive : OrderState → StateTransitionResult → OrderState
arrive s (moved from to) = to
arrive s (refused from to why) = s

-- A request to move; a refused one leaves the state.
unfoldable pub move : OrderState → OrderState → OrderState
unfolding transition_state
move s t = arrive s (transition_state s t)

-- A series of requests.
unfoldable pub walk : OrderState → List OrderState → OrderState
walk s [] = s
walk s (t ∷ ts) = walk (move s t) ts

-- Some part of the requests, from the first on, leads to `g`.
abbrev pub Visits : OrderState → OrderState → List OrderState → Type 0
Visits s g ts =
    (before : List OrderState) × (after : List OrderState) × (ts ≡ before ++ after)
    × (walk s before ≡ g)

-- A region that can be entered at its gate only.
abbrev Gated : (OrderState → Bool) → OrderState → Type 0
Gated inside g = (s t : OrderState) → inside s ≡ false → inside (move s t) ≡ true → move s t ≡ g

Visits-gate :
    (inside : OrderState → Bool) (g : OrderState)
    → Gated inside g
    → (s : OrderState) (ts : List OrderState) → inside s ≡ false
    → inside (walk s ts) ≡ true
    → Visits s g ts
unfolding walk
Visits-gate inside g gated s [] out end = cc
Visits-gate inside g gated s (t ∷ ts) out end = elim (Bool-cases (inside (move s t))) [
  | inl entered ↦ (t ∷ [], ts, refl, gated s t out entered)
  | inr not_yet ↦
      let (before, after, split, at) = Visits-gate inside g gated (move s t) ts not_yet end in
      (t ∷ before, after, ap (λ r. t ∷ r) split, at)
]

-- The states of an order whose payment has been verified.
abbrev pub is_paid : OrderState → Bool
is_paid paid_verified = true
is_paid fulfilment_pending = true
is_paid fulfilled = true
is_paid fulfilment_failed = true
is_paid compensation_pending = true
is_paid refunded = true
is_paid manual_review = true
is_paid _ = false

abbrev is_started : OrderState → Bool
is_started payment_pending = true
is_started payment_failed = true
is_started s = is_paid s

abbrev pub is_agreed : OrderState → Bool
is_agreed approved = true
is_agreed s = is_started s

is_paid-Gated : Gated is_paid paid_verified
unfolding move
is_paid-Gated s t out entered = ground arith

is_started-Gated : Gated is_started payment_pending
unfolding move
is_started-Gated s t out entered = ground arith

is_agreed-Gated : Gated is_agreed approved
unfolding move
is_agreed-Gated s t out entered = ground arith

-- However its transitions are requested, an order that starts before its approval and ends paid,
-- fulfilled, failed at fulfilment, under compensation, refunded or in manual review was approved,
-- then pending payment, then verified as paid, in this order.
pub paid_was_approved :
    (s : OrderState) (ts : List OrderState)
    → is_agreed s ≡ false
    → is_paid (walk s ts) ≡ true
    → (to_paid : Visits s paid_verified ts) × (to_pending : Visits s payment_pending to_paid.0)
      × Visits s approved to_pending.0
paid_was_approved s ts new_order end =
    let to_paid = Visits-gate is_paid paid_verified is_paid-Gated s ts (earlier s new_order) end in
    let to_pending =
      Visits-gate is_started payment_pending is_started-Gated s to_paid.0 (unstarted s new_order)
        (ap is_started to_paid.3) in
    let to_approved =
      Visits-gate is_agreed approved is_agreed-Gated s to_pending.0 new_order
        (ap is_agreed to_pending.3) in
    (to_paid, to_pending, to_approved)
  where
    unstarted : (s : OrderState) → is_agreed s ≡ false → is_started s ≡ false
    unstarted s h = ground arith

    earlier : (s : OrderState) → is_agreed s ≡ false → is_paid s ≡ false
    earlier s h = ground arith

move-is_paid : (s t : OrderState) → is_paid s ≡ true → is_paid (move s t) ≡ true
unfolding move
move-is_paid s t h = ground arith

-- A paid order stays paid: no series of requests brings it back before the payment, or expires it.
pub walk-is_paid :
    (s : OrderState) (ts : List OrderState) → is_paid s ≡ true → is_paid (walk s ts) ≡ true
unfolding walk
walk-is_paid s [] h = h
walk-is_paid s (t ∷ ts) h = walk-is_paid (move s t) ts (move-is_paid s t h)
