-- ===== src/Devnet/Inspect/Exact.antt =====
-- packages/payments/src/devnet-machine.ts: when inspectTransaction verifies a transaction.
use agentready_commerce.Prelude.{
  String, ◌∷◌, [], ◌++◌, List, Bool, true, false, not, ◌||◌, Option, none, some, ◌≡◌, refl, ap, inl,
  inr, eqb, if◌then◌else◌, keep, length, Bool-cases,
}
use agentready_commerce.Devnet.Inspect.{
  Verification, verified, missing, mismatch, unavailable, Transfer, Meta, Transaction, Instruction,
  Inspection, transfers, same_transfer, transfer_inspection, meta_inspection, inner_instructions,
}
use agentready_commerce.Devnet.Inspect.Meaning.{Carries, Moves}

abbrev pub all_instructions : Transaction → List Instruction
all_instructions tx = tx.instructions ++ inner_instructions tx.meta

-- The transaction completed, carries an instruction of the memo program with the memo, and its
-- instructions move tokens exactly once, as expected.
abbrev pub Confirms : Transaction → String → Transfer → Type 0
Confirms tx memo expected =
    Carries memo (all_instructions tx)
    × ((m : Meta) × ((tx.meta ≡ some m)
          × ((m.completed ≡ true) × Moves tx.account_keys m (all_instructions tx) (expected ∷ []))))

abbrev pub Both : Inspection → Type 0
Both i = (i.memo ≡ verified) × (i.transfer_state ≡ verified)

abbrev Single : Transfer → List Transfer → Type 0
Single expected found = (t : Transfer) × ((found ≡ t ∷ []) × (same_transfer expected t ≡ true))

is_mismatch : Verification → Bool
is_mismatch mismatch = true
is_mismatch verified = false
is_mismatch missing = false
is_mismatch unavailable = false

is_missing : Verification → Bool
is_missing missing = true
is_missing verified = false
is_missing mismatch = false
is_missing unavailable = false

single_kept :
    (memo : Verification) (expected : Transfer) (found : List Transfer)
    → (transfer_inspection memo expected found).memo ≡ memo
unfolding transfer_inspection
single_kept memo expected found =
    elim (Bool-cases
      (not (eqb (length found) 1) || not (eqb (length (keep (same_transfer expected) found)) 1))) [
        | inl h ↦ rw h refl
        | inr h ↦ rw h refl
      ]

pub memo_kept :
    (memo : Verification) (expected : Transfer) (tx : Transaction) (all : List Instruction)
    (o : Option Meta)
    → (meta_inspection memo expected tx all o).memo ≡ memo
unfolding meta_inspection transfer_inspection
memo_kept memo expected tx all none = refl
memo_kept memo expected tx all (some m) = elim (Bool-cases m.completed) [
  | inl h ↦ simp h (single_kept memo expected (transfers tx.account_keys m all))
  | inr h ↦ simp h refl
]

pub memo_found : (b : Bool) → (if b then verified else missing) ≡ verified → b ≡ true
unfolding is_missing
memo_found true e = refl
memo_found false e = absurd (clash (ap is_missing e))
  where
    clash : true ≡ false → ⊥
    clash f = cc
