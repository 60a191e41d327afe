-- ===== src/Machine/Once.antt =====
-- apps/web/lib/machine.ts: a signed payment that is sent again to the demonstration resource.
use agentready_commerce.Prelude.{
  ℕ, String, Option, none, some, has, ◌≡◌, refl, inl, inr, Bool-cases, get-set_self, is_empty,
  truthy,
}
use agentready_commerce.Machine.{
  MachineSpendConfig, Wire, SignedPayment, MachineState, MachineAnswer, payment_required,
  malformed_signature, payment_rejected, replayed, paid, machine_errors, charge, accept_signed,
  accept_payment,
}

-- The answer to the repetition of a request that was answered so.
unfoldable pub repeated : MachineAnswer → MachineAnswer
repeated payment_required = payment_required
repeated malformed_signature = malformed_signature
repeated (payment_rejected errors) = payment_rejected errors
repeated (replayed settlement resource) = replayed settlement resource
repeated (paid settlement resource) = replayed (some settlement) (some resource)

module _ (config : MachineSpendConfig) (wire : Wire) (now later : ℕ) where
  accept_signed-once :
      (m : MachineState) (hash : String) (o : Option SignedPayment)
      → accept_signed config wire later (accept_signed config wire now m hash o).0 hash o ≡ (
        (accept_signed config wire now m hash o).0,
        repeated (accept_signed config wire now m hash o).1,
      )
  unfolding accept_signed repeated charge has
  accept_signed-once m hash none = refl
  accept_signed-once m hash (some x) =
      elim (Bool-cases (is_empty (machine_errors config wire x hash))) [
        | inr e ↦ simp e refl
        | inl e ↦ elim (Bool-cases (has m.processed x.payment_identifier)) [
          | inl f ↦ simp (e, f) refl
          | inr f ↦
              simp
                (
                  e,
                  f,
                  get-set_self m.processed x.payment_identifier,
                  get-set_self m.cached x.payment_identifier,
                )
                refl
        ]
      ]

  -- Sending the same header for the same envelope again, at any later time, leaves the demonstration
  -- resource as the first answer left it, and the answer is the first one, except that a payment that
  -- was charged is answered as a replay with the settlement and the resource of the charge.
  pub accept_payment-once :
      (m : MachineState) (header hash : String)
      → accept_payment config wire later
          (accept_payment config wire now m header hash).0
          header
          hash
        ≡ (
          (accept_payment config wire now m header hash).0,
          repeated (accept_payment config wire now m header hash).1,
        )
  unfolding accept_payment repeated
  accept_payment-once m header hash = elim (Bool-cases (truthy header)) [
    | inl e ↦ simp e (accept_signed-once m hash (wire.read header))
    | inr e ↦ simp e refl
  ]
