-- ===== src/Sessions/Audit.antt =====
-- packages/audit/src/ledger.ts: the ledger in memory. ISO instants are their numbers.
use agentready_commerce.Prelude.{
  ℕ, ◌≤◌, String, ◌∷◌, [], ◌++◌, List, Bool, Option, Call, ◌==◌, ltb, get_or_else, any, keep,
  sort_by, sort_onto, insert_by, Bool-cases, inl, inr, arith, All, length, ◌≡◌, refl, ◌+◌,
}

-- `external_event_id` is `externalReferences.eventId`, the one reference that is read again.
pub record AuditEvent : Type 0 where
  pub event_id : String
  pub logical_order_id : String
  pub type : String
  pub actor : String
  pub occurred_at : ℕ
  pub summary : String
  pub external_event_id : Option String

-- What `log` is given.
pub record AuditInput : Type 0 where
  pub logical_order_id : String
  pub type : String
  pub actor : String
  pub occurred_at : Option ℕ
  pub summary : String
  pub external_event_id : Option String

unfoldable pub append_event : List AuditEvent → AuditEvent → List AuditEvent
append_event events e = events ++ e ∷ []

unfoldable pub has_event : List AuditEvent → String → Bool
has_event events id = any (λ e. e.event_id == id) events

-- `a.occurredAt.localeCompare(b.occurredAt) < 0`.
unfoldable pub occurred_before : AuditEvent → AuditEvent → Bool
occurred_before a b = ltb a.occurred_at b.occurred_at

unfoldable pub timeline : List AuditEvent → String → List AuditEvent
unfolding occurred_before
timeline events order = sort_by occurred_before (keep (λ e. e.logical_order_id == order) events)

unfoldable pub all_events : List AuditEvent → List AuditEvent
unfolding occurred_before
all_events events = sort_by occurred_before events

unfoldable pub log_event : Call → List AuditEvent → AuditInput → List AuditEvent × AuditEvent
unfolding append_event
log_event call events i =
    let e : AuditEvent = record {
      event_id = call.new_id "evt";
      logical_order_id = i.logical_order_id;
      type = i.type;
      actor = i.actor;
      occurred_at = get_or_else i.occurred_at call.now;
      summary = i.summary;
      external_event_id = i.external_event_id;
    } in
    (append_event events e, e)

-- Each event occurred no later than those behind it.
abbrev pub Ordered : List AuditEvent → Type 0
Ordered [] = Unit
Ordered (e ∷ es) = All (λ x. e.occurred_at ≤ x.occurred_at) es × Ordered es

at_most :
    (n : ℕ) (e : AuditEvent) (es : List AuditEvent)
    → n ≤ e.occurred_at
    → All (λ x. n ≤ x.occurred_at) es
    → All (λ x. n ≤ x.occurred_at) (insert_by occurred_before e es)
at_most n e [] h hs = (h, tt)
at_most n e (x ∷ xs) h (k, hs) = elim (Bool-cases (occurred_before e x)) [
  | inl b ↦ simp b (h, (k, hs))
  | inr b ↦ simp b (k, at_most n e xs h hs)
]

later-All :
    (n m : ℕ) (es : List AuditEvent)
    → n ≤ m
    → All (λ x. m ≤ x.occurred_at) es
    → All (λ x. n ≤ x.occurred_at) es
later-All n m [] h hs = tt
later-All n m (x ∷ xs) h (k, hs) = (omega (arith, h, k), later-All n m xs h hs)

insert_by-Ordered :
    (e : AuditEvent) (es : List AuditEvent) → Ordered es → Ordered (insert_by occurred_before e es)
unfolding occurred_before
insert_by-Ordered e [] hs = (tt, tt)
insert_by-Ordered e (x ∷ xs) (h, hs) = elim (Bool-cases (ltb e.occurred_at x.occurred_at)) [
  | inl b ↦
      simp b (
        (ground (arith, b), later-All e.occurred_at x.occurred_at xs (ground (arith, b)) h),
        (h, hs),
      )
  | inr b ↦ simp b (at_most x.occurred_at e xs (ground (arith, b)) h, insert_by-Ordered e xs hs)
]

sort_onto-Ordered :
    (es xs : List AuditEvent) → Ordered es → Ordered (sort_onto occurred_before es xs)
sort_onto-Ordered es [] hs = hs
sort_onto-Ordered es (x ∷ xs) hs =
    sort_onto-Ordered (insert_by occurred_before x es) xs (insert_by-Ordered x es hs)

module _ (p : AuditEvent → Bool) where
  length-keep_insert :
      (e : AuditEvent) (es : List AuditEvent)
      → length (keep p (insert_by occurred_before e es)) ≡ length (keep p (e ∷ es))
  length-keep_insert e [] = refl
  length-keep_insert e (x ∷ xs) = ground (arith, length-keep_insert e xs)

  length-keep_sort :
      (es xs : List AuditEvent)
      → length (keep p (sort_onto occurred_before es xs)) ≡ length (keep p es) + length (keep p xs)
  length-keep_sort es [] = omega arith
  length-keep_sort es (x ∷ xs) =
      ground (arith, length-keep_sort (insert_by occurred_before x es) xs, length-keep_insert x es)

-- The timeline of an order has the events of the order, as many with any property as
-- were logged, and no event in it occurred later than one that comes behind it.
pub timeline-Ordered :
    (events : List AuditEvent) (order : String) (p : AuditEvent → Bool)
    → Ordered (timeline events order)
      × (length (keep p (timeline events order))
          ≡ length (keep p (keep (λ e. e.logical_order_id == order) events)))
unfolding timeline
timeline-Ordered events order p = (
  sort_onto-Ordered [] (keep (λ e. e.logical_order_id == order) events) tt,
  omega (arith, length-keep_sort p [] (keep (λ e. e.logical_order_id == order) events)),
)
