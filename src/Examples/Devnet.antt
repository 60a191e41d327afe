-- ===== src/Examples/Devnet.antt =====
-- The theorems on the paid resource of the Devnet at one payment, and on the budget of model calls.
use agentready_commerce.Prelude.{String, refl, ◌≤◌, true, none, some, [], ◌∷◌, ◌<>◌}
use agentready_commerce.Settlement.Types.{Store, settling, StoredAttempt}
use agentready_commerce.Settlement.Store.{new_attempt}
use agentready_commerce.Settlement.Moves.{claimed_row}
use agentready_commerce.Devnet.Inspect.{Transfer, text, details, Instruction, Transaction}
use agentready_commerce.Devnet.Terms.{
  DevnetConfig, ToolSpendRequest, Supplied, RawSettlement, AdaptedSettlement, solana_devnet,
  build_devnet_tool_spend_request, canonical_tool_spend_request_digest,
}
use agentready_commerce.Devnet.Complete.{Platform, World, Holder}
use agentready_commerce.Devnet.Settle.{SignedPayload, malformed, Facilitator}
use agentready_commerce.Budget.{
  Request, Runner, begins, asks, interpret, extract_soft_preferences, forwarded_calls,
  attempts_remaining, forwarded_calls-le,
}
use agentready_commerce.Examples.Data.{host}
use agentready_commerce.Examples.Settlement.{turn, request}

abbrev config : DevnetConfig
config = record {
  payee_public_key = "shop";
  devnet_usdc_mint = "usdc";
  payer_public_key = "agent";
  facilitator_url = "url";
  amount_minor = 10000;
}

abbrev spending : ToolSpendRequest
spending = build_devnet_tool_spend_request config "o1" 1

abbrev digest : String
digest = canonical_tool_spend_request_digest host spending

abbrev memo : Instruction
memo = record {
  program = some "spl-memo";
  program_id = some "MemoSq4gqABAXKb96qnH8TysNcWxMyWCqXgDLGmfcHr";
  parsed = text ("agentcart:v1:" <> "d1");
}

abbrev payment : Instruction
payment = record {
  program = some "spl-token";
  program_id = none;
  parsed = details (some "transferChecked") (
      some (record {
        destination = some "shop_account";
        source = some "agent_account";
        mint = some "usdc";
        amount = none;
        token_amount = some "10000";
        authority = some "agent";
        owner = none;
      }));
}

abbrev transaction : Transaction
transaction = record {
  meta = some (record {
    completed = true;
    inner = [];
    post_balances = record { account_index = 0; mint = some "usdc"; owner = some "shop" } ∷ [];
    pre_balances = [];
  });
  instructions = memo ∷ payment ∷ [];
  account_keys = "shop_account" ∷ "agent_account" ∷ [];
}

abbrev expected : Transfer
expected = record { mint = "usdc"; amount = "10000"; recipient = "shop"; payer = "agent" }

abbrev platform : Platform
platform = record {
  host = host;
  config = config;
  enabled = true;
  lease_ttl = 300000;
  big_int = λ s. some 10000;
  fetch_transaction = λ s. some transaction;
  evidence_text = λ e. "evidence";
  payer_in = λ e. "";
  fee_payer_in = λ e. "";
}

abbrev world : World
world = record { turn = λ n. turn; others = λ n s. s }

abbrev id : String
id = "op1"

abbrev in_air : Store
in_air = record {
  attempts =
      (id, claimed_row turn "worker" 100 none none (new_attempt turn request id "sauth_1")) ∷ [];
  history = [];
}

abbrev holder : Holder
holder = record {
  operation_id = id;
  owner = some "worker";
  fence_token = some "aa-bb";
  request_digest = "d1";
}

abbrev settlement : AdaptedSettlement
settlement = record {
  success = true;
  transaction_hash = "tx";
  payer = "agent";
  payee = "shop";
  network = solana_devnet;
  asset = "usdc";
  amount = "10000";
  facilitator_url = "url";
  payment_identifier = "pay1";
}

abbrev terms : Supplied
terms = record {
  scheme = some "exact";
  network = some solana_devnet;
  asset = some "usdc";
  amount = none;
  pay_to = some "shop";
  memo = some ("agentcart:v1:" <> digest);
  fee_payer = some "fee";
}

abbrev signed : SignedPayload
signed = record { accepted = some terms; payment_identifier = some "pay1" }

abbrev facilitator : Facilitator
facilitator = record {
  parse = λ h. some signed;
  fee_payer = some "fee";
  blockhash_of = λ h. none;
  requirements_text = λ r. "{}";
  verify = λ x. record { is_valid = true; payer = some "agent" };
  settle = λ x. malformed;
}

abbrev runner : Runner
runner = record {
  budget = record { enabled = true; max_attempts = 1; used = 0 };
  max_messages = 15;
  messages = 0;
}

-- A provider whose answers are the requests.
abbrev echo : Request → Request
echo q = q

forwarded_calls-le_example :
    forwarded_calls echo runner (begins ∷ asks interpret ∷ asks extract_soft_preferences ∷ [])
    ≤ attempts_remaining runner.budget
forwarded_calls-le_example =
    forwarded_calls-le echo runner (begins ∷ asks interpret ∷ asks extract_soft_preferences ∷ [])
      refl
