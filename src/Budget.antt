-- ===== src/Budget.antt =====
-- apps/web/lib/llm-budget.ts: the budget of calls to a language model. `Provider` is the state of the
-- wrapper around a provider; which of the three calls is made does not matter to the count.
use agentready_commerce.Prelude.{
  ℕ, ◌+◌, ◌-◌, ◌/◌, ◌≤◌, ◌∷◌, [], List, Bool, true, false, not, ◌≡◌, leb, if◌then◌else◌, Bool-cases,
  inl, inr, arith, refl, suc,
}

pub record Budget : Type 0 where
  pub enabled : Bool
  pub max_attempts : ℕ
  pub used : ℕ

-- The budget after `consume`, and whether the call may be made.
unfoldable pub consume : Budget → Budget × Bool
consume b =
    if not b.enabled
    then (b, true)
    else if leb b.max_attempts b.used
    then (b, false)
    else (record b { used = b.used + 1 }, true)

pub data Request : Type 0 where
  extract_soft_preferences explain_recommendation interpret : Request

-- What the caller gets: the inner provider's answer, or the fallback, which for `interpret` names the
-- budget as its reason.
pub data Reply (A : Type 0) : Type 0 where
  forwarded : A → Reply A
  nothing : Reply A
  budget_exhausted : Reply A

unfoldable pub fallback : {A : Type 0} → Request → Reply A
fallback extract_soft_preferences = nothing
fallback explain_recommendation = nothing
fallback interpret = budget_exhausted

unfoldable pub ask : {A : Type 0} → (Request → A) → Budget → Request → Budget × Reply A
unfolding consume fallback
ask inner b r = let step = consume b in (step.0, if step.1 then forwarded (inner r) else fallback r)

unfoldable pub attempts_remaining : Budget → ℕ
attempts_remaining b = b.max_attempts - b.used

pub record Runner : Type 0 where
  pub budget : Budget
  pub max_messages : ℕ
  pub messages : ℕ

unfoldable pub begin_message : Runner → Runner × Bool
begin_message r =
    if leb r.max_messages r.messages
    then (r, false)
    else (record r { messages = r.messages + 1 }, true)

-- A use of the runner: a message begins, or the provider is asked.
pub data Use : Type 0 where
  begins : Use
  asks : Request → Use

unfoldable pub use_once : {A : Type 0} → (Request → A) → Runner → Use → Runner
unfolding ask begin_message
use_once inner r begins = (begin_message r).0
use_once inner r (asks q) = record r { budget = (ask inner r.budget q).0 }

unfoldable pub use_all : {A : Type 0} → (Request → A) → Runner → List Use → Runner
unfolding use_once
use_all inner r [] = r
use_all inner r (u ∷ us) = use_all inner (use_once inner r u) us

-- The tokens of one input, with 4 characters for a token, rounded up.
unfoldable pub input_ceiling : ℕ → ℕ → ℕ
input_ceiling prompt max_user = (prompt + max_user + 3) / 4

-- Whether a reply is the inner provider's.
unfoldable pub is_forwarded : {A : Type 0} → Reply A → Bool
is_forwarded (forwarded a) = true
is_forwarded nothing = false
is_forwarded budget_exhausted = false

-- The requests that `ask` sends to the inner provider, in a series of uses.
unfoldable pub forwarded_calls : {A : Type 0} → (Request → A) → Runner → List Use → ℕ
unfolding begin_message ask is_forwarded
forwarded_calls inner r [] = 0
forwarded_calls inner r (begins ∷ us) = forwarded_calls inner (begin_message r).0 us
forwarded_calls inner r (asks q ∷ us) =
    let rest = forwarded_calls inner (record r { budget = (ask inner r.budget q).0 }) us in
    if is_forwarded (ask inner r.budget q).1 then suc rest else rest

abbrev pub Within : Runner → Type 0
Within r = (r.budget.used ≤ r.budget.max_attempts) × (r.messages ≤ r.max_messages)

either :
    (b : Bool) (x y : Runner × Bool)
    → (b ≡ true → Within x.0)
    → (b ≡ false → Within y.0)
    → Within (if b then x else y).0
either true x y h k = h refl
either false x y h k = k refl

charged :
    (b : Bool) (x y : Budget × Bool)
    → (b ≡ true → x.0.used ≤ x.0.max_attempts)
    → (b ≡ false → y.0.used ≤ y.0.max_attempts)
    → (if b then x else y).0.used ≤ (if b then x else y).0.max_attempts
charged true x y h k = h refl
charged false x y h k = k refl

module _ {A : Type 0} (inner : Request → A) where
  use_once-Within : (r : Runner) (u : Use) → Within r → Within (use_once inner r u)
  unfolding use_once begin_message ask consume
  use_once-Within r begins (h, k) =
      either (leb r.max_messages r.messages) (r, false)
        (record r { messages = r.messages + 1 }, true) (λ e. (h, k)) (λ e. (h, ground (arith, e)))
  use_once-Within r (asks q) (h, k) = (
    charged (not r.budget.enabled) (r.budget, true) _ (λ d. h)
        (λ d.
          charged (leb r.budget.max_attempts r.budget.used) (r.budget, false)
            (record r.budget { used = r.budget.used + 1 }, true) (λ e. h) (λ e. ground (arith, e))),
    k,
  )

  -- However messages and calls follow on each other, a runner counts at most its maximum of attempts
  -- and begins at most its maximum of messages, if it did so before.
  pub use_all-Within : (r : Runner) (us : List Use) → Within r → Within (use_all inner r us)
  unfolding use_all
  use_all-Within r [] h = h
  use_all-Within r (u ∷ us) h = use_all-Within (use_once inner r u) us (use_once-Within r u h)

kept_back : (A : Type 0) (q : Request) → is_forwarded {A = A} (fallback q) ≡ false
unfolding fallback is_forwarded
kept_back A extract_soft_preferences = refl
kept_back A explain_recommendation = refl
kept_back A interpret = refl

-- However messages and calls follow on each other, the wrapper of an enabled provider sends it at most
-- as many calls as its budget has left: to every other call it answers itself.
pub forwarded_calls-le :
    {A : Type 0} (inner : Request → A) (r : Runner) (us : List Use)
    → r.budget.enabled ≡ true
    → forwarded_calls inner r us ≤ attempts_remaining r.budget
unfolding forwarded_calls attempts_remaining ask begin_message consume is_forwarded
forwarded_calls-le inner r [] h = omega arith
forwarded_calls-le inner r (begins ∷ us) h = elim (Bool-cases (leb r.max_messages r.messages)) [
  | inl e ↦ simp e (forwarded_calls-le inner r us h)
  | inr e ↦ simp e (forwarded_calls-le inner (record r { messages = r.messages + 1 }) us h)
]
forwarded_calls-le {A = A} inner r (asks q ∷ us) h =
    elim (Bool-cases (leb r.budget.max_attempts r.budget.used)) [
      | inl e ↦ simp (h, e, kept_back A q) (forwarded_calls-le inner r us h)
      | inr e ↦
          simp (h, e)
            (ground (
              arith,
              e,
              forwarded_calls-le inner
                  (record r { budget = record r.budget { used = r.budget.used + 1 } }) us h,
            ))
    ]
