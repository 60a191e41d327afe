-- ===== src/Examples/Machine.antt =====
-- apps/web/lib/machine.ts: the demonstration resource, run on one signed payment.
use agentready_commerce.Prelude.{
  ℕ, String, List, Bool, Option, none, some, ◌≡◌, refl, ◌==◌, if◌then◌else◌,
}
use agentready_commerce.Machine.{
  MachineSpendConfig, Wire, SignedPayment, MachineState, MachineAnswer, reset_machine, paid,
  machine_settlement, fit_score, accept_payment,
}
use agentready_commerce.Machine.Once.{repeated, accept_payment-once}

abbrev spend_config : MachineSpendConfig
spend_config = record {
  resource_name = "Fit scoring";
  payee_wallet = "payee";
  amount_minor = 10000;
  network = "devnet";
  agent_wallet = "agent";
}

abbrev signed : SignedPayment
signed = record {
  scheme = "exact";
  network = "devnet";
  payment_identifier = "pay1";
  payer = "agent";
  amount = "0.01";
  payee = some "payee";
  memo = some "agentcart:v1:h1";
}

-- One header is known, and one amount is too small.
abbrev one_header : Wire
one_header = record {
  sign = λ x. "header";
  read = λ s. if s == "header" then some signed else none;
  underpays = λ a minor. a == "0.001";
  format = λ minor. "0.01";
}

abbrev first_answer : MachineState × MachineAnswer
first_answer = accept_payment spend_config one_header 5 reset_machine "header" "h1"

first_is_charged :
    first_answer.1
    ≡ paid
        (machine_settlement spend_config one_header signed)
        (fit_score spend_config one_header 5 "agent")
unfolding accept_payment agentready_commerce.Devnet.Terms.is_memo_valid
    agentready_commerce.Devnet.Terms.memo_for_envelope agentready_commerce.Prelude.has
    agentready_commerce.Prelude.get
first_is_charged = refl

accept_payment-once_example :
    accept_payment spend_config one_header 9 first_answer.0 "header" "h1"
    ≡ (first_answer.0, repeated first_answer.1)
accept_payment-once_example =
    accept_payment-once spend_config one_header 5 9 reset_machine "header" "h1"
