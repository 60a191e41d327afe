-- ===== src/Commerce/Life.antt =====
-- apps/web/lib/services.ts and webhook.ts: what any operation on an order keeps, and the life of an
-- order as a series of operations.
pub mod Rails
pub mod Claims
pub mod Delivery
pub mod Events
pub mod Approved
use agentready_commerce.Prelude.{
  ℕ, String, ◌≡◌, refl, sym, ap, subst, inl, inr, Bool, true, false, not, ◌&&◌, ◌||◌, Option, none,
  some, List, [], ◌∷◌, ◌++◌, arith, ltb, ◌==◌, ◌=?◌, is_set, if◌then◌else◌, Map, Host, Call,
  Outcome, returned, thrown, Bool-cases,
}
use agentready_commerce.Domain.Order.{
  OrderState, moved, approved, expired, payment_pending, payment_failed, same_state,
  transition_state,
}
use agentready_commerce.Domain.Order.Paths.{move, walk, is_agreed}
use agentready_commerce.Domain.Types.{PurchaseMandate}
use agentready_commerce.Domain.Policy.{check_envelope_for_payment}
use agentready_commerce.Payments.Types.{PaymentAttempt, PaymentAdapter}
use agentready_commerce.Payments.Adapters.{registry_get}
use agentready_commerce.Commerce.Session.{Session, EnvelopeRecord, X402OrderPayment}
use agentready_commerce.Commerce.Step.{Done, Order, Step, throw, enter}
use agentready_commerce.Commerce.Step.Laws.{at, enter_elim}
use agentready_commerce.Commerce.Pay.{is_settled}

-- An order that Agent Pay has settled has no order on the Razorpay rail.
abbrev pub SingleRail : Order → Type 0
SingleRail o =
    is_settled o.session.x402_order_payment ≡ true → is_set o.session.external_order_id ≡ false

-- The state follows the table of transitions, and the order stays on a single rail.
pub record Sound (o after : Order) : Type 0 where
  pub path : List OrderState
  pub walked : walk o.session.state path ≡ after.session.state
  pub single : SingleRail o → SingleRail after

pub Sound-refl : (o : Order) → Sound o o
unfolding walk
Sound-refl o = record { path = []; walked = refl; single = λ h. h }

walk-append : (s : OrderState) (us bs : List OrderState) → walk s (us ++ bs) ≡ walk (walk s us) bs
unfolding walk
walk-append s [] bs = refl
walk-append s (a ∷ us) bs = walk-append (move s a) us bs

pub Sound-trans : (a b c : Order) → Sound a b → Sound b c → Sound a c
Sound-trans a b c f g = record {
  path = f.path ++ g.path;
  walked = rw (walk-append a.session.state f.path g.path, f.walked) g.walked;
  single = λ h. g.single (f.single h);
}

-- A change of the session that leaves its state.
pub Sound-same :
    (o q : Order) → o.session.state ≡ q.session.state → (SingleRail o → SingleRail q) → Sound o q
unfolding walk
Sound-same o q same keep = record { path = []; walked = same; single = keep }

Sound-at :
    (q : Order) (next : OrderState)
    → transition_state q.session.state next ≡ moved q.session.state next
    → Sound q (at q next)
unfolding walk move
Sound-at q next go_on = record { path = next ∷ []; walked = rw go_on refl; single = λ h. h }

module _ {A : Type 0} where
  pub Sound-enter :
      (o q : Order) (next : OrderState) (k : Order → Step A)
      → Sound o q
      → (Sound o (at q next) → Sound o (k (at q next)).order)
      → Sound o (enter q next k).order
  Sound-enter o q next k before rest =
      enter_elim (λ st. Sound o st.order) q next k
        (λ go_on. rest (Sound-trans o q (at q next) before (Sound-at q next go_on))) (λ why. before)

  pub Sound-if :
      (o : Order) (b : Bool) (x y : Step A)
      → Sound o x.order
      → (b ≡ false → Sound o y.order)
      → Sound o (if b then x else y).order
  Sound-if o true x y f g = f
  Sound-if o false x y f g = g refl

-- Sound, and only an approval leads an order into an agreed state.
pub record Calm (o after : Order) : Type 0 where
  pub sound : Sound o after
  pub below : is_agreed o.session.state ≡ false → is_agreed after.session.state ≡ false

pub Calm-refl : (o : Order) → Calm o o
Calm-refl o = record { sound = Sound-refl o; below = λ h. h }

pub Calm-trans : (a b c : Order) → Calm a b → Calm b c → Calm a c
Calm-trans a b c f g = record {
  sound = Sound-trans a b c f.sound g.sound;
  below = λ h. g.below (f.below h);
}

pub Calm-same :
    (o q : Order) → o.session.state ≡ q.session.state → (SingleRail o → SingleRail q) → Calm o q
Calm-same o q same keep = record {
  sound = Sound-same o q same keep;
  below = λ h. subst (λ s. is_agreed s ≡ false) same h;
}

stays_below :
    (s next : OrderState)
    → same_state next approved ≡ false
    → transition_state s next ≡ moved s next
    → is_agreed s ≡ false
    → is_agreed next ≡ false
unfolding transition_state
stays_below s next other go_on h = ground (arith, other, go_on, h)

pub Calm-at :
    (q : Order) (next : OrderState)
    → same_state next approved ≡ false
    → transition_state q.session.state next ≡ moved q.session.state next
    → Calm q (at q next)
Calm-at q next other go_on = record {
  sound = Sound-at q next go_on;
  below = stays_below q.session.state next other go_on;
}

module _ {A : Type 0} where
  pub Calm-enter :
      (o q : Order) (next : OrderState) (k : Order → Step A)
      → same_state next approved ≡ false
      → Calm o q
      → (Calm o (at q next) → Calm o (k (at q next)).order)
      → Calm o (enter q next k).order
  Calm-enter o q next k other before rest =
      enter_elim (λ st. Calm o st.order) q next k
        (λ go_on. rest (
          Calm-trans o q (at q next) before (record {
            sound = Sound-at q next go_on;
            below = stays_below q.session.state next other go_on;
          })))
        (λ why. before)

  pub Calm-if :
      (o : Order) (b : Bool) (x y : Step A)
      → Calm o x.order
      → (b ≡ false → Calm o y.order)
      → Calm o (if b then x else y).order
  Calm-if o true x y f g = f
  Calm-if o false x y f g = g refl
