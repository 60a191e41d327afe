-- ===== src/Machine.antt =====
-- apps/web/lib/machine.ts: the demonstration resource of the machine spend, DemoMachineResource, and
-- runMachineSpend. Headers are texts of records, through a codec that stands for JSON in base64url.
pub mod Once
use agentready_commerce.Prelude.{
  ℕ, String, ◌∷◌, [], ◌++◌, List, Bool, true, false, not, ◌&&◌, ◌||◌, Option, none, some, Map, get,
  set, has, ◌==◌, ◌=?◌, ◌<>◌, if◌then◌else◌, is_set, truthy, is_empty, get_or_else, ltb, is_some,
}
use agentready_commerce.Settlement.Release.{reason_if}
use agentready_commerce.Devnet.Terms.{memo_for_envelope, is_memo_valid}

pub record MachineSpendConfig : Type 0 where
  pub resource_name : String
  pub payee_wallet : String
  pub amount_minor : ℕ
  pub network : String
  pub agent_wallet : String

-- `paymentPayload`, with what the handler reads of it.
pub record SignedPayment : Type 0 where
  pub scheme : String
  pub network : String
  pub payment_identifier : String
  pub payer : String
  pub amount : String
  pub payee : Option String
  pub memo : Option String

pub record SettlementResponse : Type 0 where
  pub network : String
  pub payer : String
  pub amount : String
  pub transaction_hash : String
  pub payment_identifier : String
  pub memo : Option String

-- Without the table of scores, which is constant.
pub record FitScoreResource : Type 0 where
  pub resource_name : String
  pub scored_at : ℕ
  pub fit : String

-- `underpays amount minor` is `Number(amount) < minor / 1_000_000`; `format` is formatX402Amount.
pub record Wire : Type 0 where
  pub sign : SignedPayment → String
  pub read : String → Option SignedPayment
  pub underpays : String → ℕ → Bool
  pub format : ℕ → String

pub record MachineState : Type 0 where
  pub processed : Map SettlementResponse
  pub cached : Map FitScoreResource

abbrev pub reset_machine : MachineState
reset_machine = record { processed = []; cached = [] }

pub data MachineAnswer : Type 0 where
  payment_required : MachineAnswer
  malformed_signature : MachineAnswer
  payment_rejected : List String → MachineAnswer
  replayed : Option SettlementResponse → Option FitScoreResource → MachineAnswer
  paid : SettlementResponse → FitScoreResource → MachineAnswer

-- A failure's text is `String` of an object.
pub data MachineSpendOutcome : Type 0 where
  failed : String → MachineSpendOutcome
  spent : Option SettlementResponse → Option FitScoreResource → MachineSpendOutcome

unfoldable pub outcome : MachineAnswer → MachineSpendOutcome
outcome payment_required = failed "[object Object]"
outcome malformed_signature = failed "[object Object]"
outcome (payment_rejected errors) = failed "[object Object]"
outcome (replayed settlement resource) = spent settlement resource
outcome (paid settlement resource) = spent (some settlement) (some resource)

module _ (config : MachineSpendConfig) (wire : Wire) where
  unfoldable pub machine_errors : SignedPayment → String → List String
  machine_errors x hash =
      reason_if (not (x.scheme == "exact")) "scheme must be exact"
      ++ reason_if (not (x.network == config.network)) ("wrong network " <> x.network)
      ++ reason_if (not (truthy x.payment_identifier)) "payment-identifier required"
      ++ reason_if (wire.underpays x.amount config.amount_minor) "underpayment"
      ++ reason_if (is_set x.payee && not (x.payee =? config.payee_wallet)) "wrong recipient"
      ++ reason_if (not (is_memo_valid x.memo (memo_for_envelope hash))) "memo mismatch"

  unfoldable pub machine_settlement : SignedPayment → SettlementResponse
  machine_settlement x = record {
    network = config.network;
    payer = x.payer;
    amount = x.amount;
    transaction_hash = "tx_mock_" <> x.payment_identifier;
    payment_identifier = x.payment_identifier;
    memo = x.memo;
  }

  unfoldable pub fit_score : ℕ → String → FitScoreResource
  fit_score now payer = record {
    resource_name = config.resource_name;
    scored_at = now;
    fit = if payer == config.agent_wallet then "wide" else "unknown";
  }

  unfoldable pub charge : ℕ → MachineState → SignedPayment → MachineState × MachineAnswer
  unfolding machine_settlement fit_score
  charge now m x =
      let settlement = machine_settlement x in
      let resource = fit_score now x.payer in
      (
        record {
          processed = set m.processed x.payment_identifier settlement;
          cached = set m.cached x.payment_identifier resource;
        },
        paid settlement resource,
      )

  unfoldable pub accept_signed :
      ℕ → MachineState → String → Option SignedPayment → MachineState × MachineAnswer
  unfolding machine_errors charge
  accept_signed now m hash none = (m, malformed_signature)
  accept_signed now m hash (some x) =
      let errors = machine_errors x hash in
      if not (is_empty errors)
      then (m, payment_rejected errors)
      else if has m.processed x.payment_identifier
      then (m, replayed (get m.processed x.payment_identifier) (get m.cached x.payment_identifier))
      else charge now m x

  unfoldable pub accept_payment : ℕ → MachineState → String → String → MachineState × MachineAnswer
  unfolding accept_signed
  accept_payment now m header hash =
      if not (truthy header)
      then (m, payment_required)
      else accept_signed now m hash (wire.read header)

  -- The payload that the agent signs for the quoted option.
  unfoldable pub spend_payload : String → String → SignedPayment
  spend_payload hash payment = record {
    scheme = "exact";
    network = config.network;
    payment_identifier = payment;
    payer = config.agent_wallet;
    amount = wire.format config.amount_minor;
    payee = some config.payee_wallet;
    memo = some (memo_for_envelope hash);
  }

  unfoldable pub run_machine_spend :
      ℕ → MachineState → String → String → MachineState × MachineSpendOutcome
  unfolding spend_payload accept_payment outcome
  run_machine_spend now m hash payment =
      let answer = accept_payment now m (wire.sign (spend_payload hash payment)) hash in
      (answer.0, outcome answer.1)
