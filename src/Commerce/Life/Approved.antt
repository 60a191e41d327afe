-- ===== src/Commerce/Life/Approved.antt =====
-- apps/web/lib/services.ts and webhook.ts: an order that is paid was approved.
use agentready_commerce.Prelude.{
  String, ◌≡◌, sym, ap, ◌∙◌, ◌⊎◌, some, subst, inl, inr, Bool-cases, true, false, Host, Call, arith,
}
use agentready_commerce.Domain.Order.{OrderState, approved}
use agentready_commerce.Domain.Order.Paths.{is_paid, is_agreed}
use agentready_commerce.Commerce.Session.{EnvelopeRecord}
use agentready_commerce.Commerce.Recommend.{quote_active}
use agentready_commerce.Commerce.Step.{Order, Done}
use agentready_commerce.Commerce.Approve.{approve_order}
use agentready_commerce.Commerce.Approve.Laws.{Granted, Repeated, approve_order-Approves}
use agentready_commerce.Commerce.Approve.Gate.{approve_order-Gate}
use agentready_commerce.Commerce.Life.Events.{Life, unchanged, later, Approving, Happens-Calm}

clash : false ≡ true → ⊥
clash e = cc

module _ (host : Host) (secret : String) (order : String) where
  -- The approval that an order went through: the life up to it, its envelope and what it granted, and
  -- the life after it.
  pub record Approval (a b : Order) : Type 0 where
    pub before : Order
    pub came : Life host secret order a before
    pub unapproved : is_agreed before.session.state ≡ false
    pub call : Call
    pub digest : String
    pub answer : Done
    pub at_approved : (approve_order host call order before digest).order.session.state ≡ approved
    pub bound : EnvelopeRecord
    pub held : before.envelope ≡ some bound
    pub active : quote_active host before.session bound ≡ true
    pub granted :
        Granted host call before bound digest
          (approve_order host call order before digest).order
          answer
    pub went : Life host secret order (approve_order host call order before digest).order b

  Approval-now :
      (a m b : Order)
      → is_agreed a.session.state ≡ false
      → is_agreed m.session.state ≡ true
      → Approving host secret order a m
      → Life host secret order m b
      → Approval a b
  Approval-now a m b new_order agreed (call, (digest, same)) rest =
      let after : Order = (approve_order host call order a digest).order in
      let (there, (d, (returned_d, ok))) =
        approve_order-Gate host call order a new_order digest
          (subst (λ x. is_agreed x.session.state ≡ true) (sym same) agreed) in
      let (r, held, granted) = approve_order-Approves host call order a digest d returned_d ok in
      record {
        before = a;
        came = unchanged a;
        unapproved = new_order;
        call = call;
        digest = digest;
        answer = d;
        at_approved = there;
        bound = r;
        held = held;
        active = granted.0;
        granted = fresh after r d there granted.3;
        went = subst (λ x. Life host secret order x b) (sym same) rest;
      }
    where
      repeats : (after : Order) → after.session.state ≡ approved → ¬ (after ≡ a)
      repeats after there e =
          clash (sym new_order ∙ sym (ap (λ x. is_agreed x.session.state) e) ∙ ap is_agreed there)

      fresh :
          (after : Order) (r : EnvelopeRecord) (d : Done)
          → after.session.state ≡ approved
          → Granted host call a r digest after d ⊎ Repeated host call a digest after d
          → Granted host call a r digest after d
      fresh after r d there (inl g) = g
      fresh after r d there (inr g) = absurd (repeats after there g.0)

  Approval-in :
      (a b : Order)
      → Life host secret order a b
      → is_agreed a.session.state ≡ false
      → is_agreed b.session.state ≡ true
      → Approval a b
  Approval-in a b (unchanged o) new_order agreed = absurd (clash (sym new_order ∙ agreed))
  Approval-in a b (later {b = m} h rest) new_order agreed =
      elim (Bool-cases (is_agreed m.session.state)) [
        | inr still ↦
            let x = Approval-in m b rest still agreed in
            record {
              before = x.before;
              came = later h x.came;
              unapproved = x.unapproved;
              call = x.call;
              digest = x.digest;
              answer = x.answer;
              at_approved = x.at_approved;
              bound = x.bound;
              held = x.held;
              active = x.active;
              granted = x.granted;
              went = x.went;
            }
        | inl now ↦ elim (Happens-Calm host secret order a m h) [
          | inl c ↦ absurd (clash (sym (c.below new_order) ∙ now))
          | inr c ↦ Approval-now a m b new_order now c.1 rest
        ]
      ]

  -- However quotes, approvals, payments, verifications, webhooks, fulfilments, compensations and
  -- tamperings of an order follow on each other, each run to its end: an order that was not yet
  -- approved and is now paid or beyond went through an approval on the way, which was answered
  -- positively, for an active quote of the envelope that the order then had, under exactly that
  -- envelope's digest, and left the order APPROVED.
  pub Life-approved :
      (a b : Order)
      → Life host secret order a b
      → is_agreed a.session.state ≡ false
      → is_paid b.session.state ≡ true
      → Approval a b
  Life-approved a b life new_order paid =
      Approval-in a b life new_order (paid_agreed b.session.state paid)
    where
      paid_agreed : (s : OrderState) → is_paid s ≡ true → is_agreed s ≡ true
      paid_agreed s h = ground arith
