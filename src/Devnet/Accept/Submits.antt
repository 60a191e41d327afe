-- ===== src/Devnet/Accept/Submits.antt =====
-- packages/payments/src/devnet-machine.ts: what holds when accept asks the facilitator to settle.
use agentready_commerce.Prelude.{ℕ, String, true, false, not, some, ◌≡◌, ◌==◌, same_option, any}
use agentready_commerce.Settlement.Types.{Store}
use agentready_commerce.Settlement.Store.{find_by_payment_id}
use agentready_commerce.Devnet.Terms.{
  ToolSpendRequest, Supplied, build_canonical_requirements, canonical_tool_spend_request_digest,
}
use agentready_commerce.Devnet.Terms.Meets.{Meets}
use agentready_commerce.Devnet.Complete.{Platform, World}
use agentready_commerce.Devnet.Settle.{SignedPayload, Facilitator, Run, Request}

-- What a run that settles has.
record Submits (Q : Type 0) (r : Run) : Type 0 where
  because : r.submitted ≡ true → Q

module _ (p : Platform) (f : Facilitator) (w : World) (fuel : ℕ) where
  abbrev Valid : Request → Type 0
  Valid q = (f.verify q.payload).is_valid ≡ true

  -- No attempt under the payment identifier is for another request, when the call looks it up.
  abbrev pub Unbound : Store → String → String → Type 0
  Unbound s payment digest =
      any (λ r. not (r.request_digest == digest)) (find_by_payment_id (w.others 1 s) payment)
      ≡ false

  -- What a settlement needs of the payload, its terms and the facilitator.
  abbrev pub Agreed : Store → String → ToolSpendRequest → SignedPayload → Supplied → String → Type 0
  Agreed s digest spending payload supplied payment =
      ((digest ≡ canonical_tool_spend_request_digest p.host spending)
        × Meets p.big_int supplied (build_canonical_requirements p.host p.config digest))
      × ((same_option supplied.fee_payer f.fee_payer ≡ true)
          × ((payload.payment_identifier ≡ some payment)
              × (Unbound s payment digest × ((f.verify payload).is_valid ≡ true))))
