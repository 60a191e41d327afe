-- ===== src/Commerce/Step/Laws.antt =====
-- apps/web/lib/services.ts: reasoning on the steps of a handler, branch by branch.
use agentready_commerce.Prelude.{
  String, ◌≡◌, refl, sym, subst, ◌⊎◌, inl, inr, Bool, true, false, if◌then◌else◌, Bool-cases,
  returned,
}
use agentready_commerce.Domain.Order.{
  OrderState, same_state, includes_state, allowed_transitions, illegal, moved, refused,
  transition_state,
}
use agentready_commerce.Commerce.Step.{Done, Order, Step, throw, enter, enter_by}

abbrev pub at : Order → OrderState → Order
at o next = record o { session = record o.session { state = next } }

pub transition_state-cases :
    (s t : OrderState)
    → (transition_state s t ≡ moved s t) ⊎ (transition_state s t ≡ refused s t (illegal s t))
unfolding transition_state
transition_state-cases s t = elim (Bool-cases (same_state s t)) [
  | inl same ↦ rw same (inl refl)
  | inr other ↦ elim (Bool-cases (includes_state (allowed_transitions s) t)) [
    | inl there ↦ rw (other, there) (inl refl)
    | inr missing ↦ rw (other, missing) (inr refl)
  ]
]

module _ {A : Type 0} where
  -- A property of `enter` holds if it holds once the state is entered and of the throw.
  pub enter_elim :
      (P : Step A → Type 0) (o : Order) (next : OrderState) (k : Order → Step A)
      → (transition_state o.session.state next ≡ moved o.session.state next → P (k (at o next)))
      → ((why : String) → P (throw o why))
      → P (enter o next k)
  enter_elim P o next k go stay = elim (transition_state-cases o.session.state next) [
    | inl go_on ↦ subst (λ r. P (enter_by r o k)) (sym go_on) (go go_on)
    | inr stopped ↦ subst (λ r. P (enter_by r o k)) (sym stopped) (stay _)
  ]

  -- A property of a branch holds if it holds of both sides.
  pub if_elim :
      (P : Step A → Type 0) (b : Bool) (x y : Step A)
      → (b ≡ true → P x)
      → (b ≡ false → P y)
      → P (if b then x else y)
  if_elim P true x y f g = f refl
  if_elim P false x y f g = g refl

-- What holds of the order and the reply whenever the step comes to a positive answer.
abbrev pub Grants : (Order → Done → Type 0) → Step Done → Type 0
Grants Q st = (d : Done) → st.result ≡ returned d → d.reply.ok ≡ true → Q st.order d

-- What a call returned, by a path between the ends of the call.
pub of_returned : {A B : Type 0} (f : A → B) {a b : A} → returned a ≡ returned b → f b ≡ f a
of_returned f p = cc

-- A negative answer is not a positive one.
pub denied : {r d : Done} → returned r ≡ returned d → r.reply.ok ≡ false → d.reply.ok ≡ true → ⊥
denied e negative ok = cc
