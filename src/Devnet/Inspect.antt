-- ===== src/Devnet/Inspect.antt =====
-- packages/payments/src/devnet-machine.ts: inspectTransaction, on the parsed answer of the RPC node.
-- `unknown` fields are what they hold where that has the expected type, and `none` elsewhere.
pub mod Meaning
pub mod Exact
use agentready_commerce.Prelude.{
  ℕ, zero, suc, String, ◌∷◌, [], ◌++◌, List, Bool, true, false, not, ◌&&◌, ◌||◌, Option, none, some,
  ◌==◌, ◌=?◌, eqb, if◌then◌else◌, is_some, any, keep, find_first, length, includes, get_or_else,
  map, truthy,
}

pub data Verification : Type 0 where
  verified missing mismatch unavailable : Verification

pub record Transfer : Type 0 where
  pub mint : String
  pub amount : String
  pub recipient : String
  pub payer : String

pub record Info : Type 0 where
  pub destination : Option String
  pub source : Option String
  pub mint : Option String
  pub amount : Option String
  pub token_amount : Option String
  pub authority : Option String
  pub owner : Option String

-- `ix.parsed`: a text, or an object with a type and details.
pub data Parsing : Type 0 where
  text : String → Parsing
  details : Option String → Option Info → Parsing
  nothing : Parsing

pub record Instruction : Type 0 where
  pub program : Option String
  pub program_id : Option String
  pub parsed : Parsing

pub record Balance : Type 0 where
  pub account_index : ℕ
  pub mint : Option String
  pub owner : Option String

-- `completed` is `meta.err === null`.
pub record Meta : Type 0 where
  pub completed : Bool
  pub inner : List (List Instruction)
  pub post_balances : List Balance
  pub pre_balances : List Balance

pub record Transaction : Type 0 where
  pub meta : Option Meta
  pub instructions : List Instruction
  pub account_keys : List String

pub record Inspection : Type 0 where
  pub memo : Verification
  pub transfer_state : Verification
  pub transfer : Option Transfer

-- `stringValue`: a text that is not empty.
unfoldable pub string_value : Option String → Option String
string_value none = none
string_value (some s) = if truthy s then some s else none

-- `a ?? b`.
unfoldable pub or_else : Option String → Option String → Option String
or_else none b = b
or_else (some a) b = some a

unfoldable pub concat : List (List Instruction) → List Instruction
concat [] = []
concat (x ∷ xs) = x ++ concat xs

unfoldable pub inner_instructions : Option Meta → List Instruction
unfolding concat
inner_instructions none = []
inner_instructions (some m) = concat m.inner

unfoldable pub is_text : Parsing → String → Bool
is_text (text s) expected = s == expected
is_text (details k i) expected = false
is_text nothing expected = false

unfoldable pub is_memo : String → Instruction → Bool
unfolding is_text
is_memo expected ix =
    ix.program =? "spl-memo"
    && ix.program_id =? "MemoSq4gqABAXKb96qnH8TysNcWxMyWCqXgDLGmfcHr"
    && is_text ix.parsed expected

-- `indexOf`, which is -1 where the text is missing: no balance has that index.
unfoldable pub index_of : List String → String → Option ℕ
index_of [] x = none
index_of (y ∷ ys) x = let rest = index_of ys x in if y == x then some 0 else next rest
  where
    next : Option ℕ → Option ℕ
    next none = none
    next (some n) = some (suc n)

unfoldable pub balance_at : List Balance → Option ℕ → Option Balance
balance_at balances none = none
balance_at balances (some n) = find_first (λ b. eqb b.account_index n) balances

unfoldable pub mint_of : Option Balance → Option String
unfolding string_value
mint_of none = none
mint_of (some b) = string_value b.mint

unfoldable pub owner_of : Option Balance → Option String
unfolding string_value
owner_of none = none
owner_of (some b) = string_value b.owner

unfoldable pub key_at : List String → Option ℕ → Option String
key_at keys none = none
key_at [] (some n) = none
key_at (k ∷ keys) (some zero) = some k
key_at (k ∷ keys) (some (suc n)) = key_at keys (some n)

abbrev pub token_programs : List String
token_programs =
    "TokenkegQfeZyiNwAJbNbGKPFXCWuBvf9Ss623VQ5DA" ∷ "TokenzQdBNbLqP5VEhdkAS6EPFLC1sT3L4f5Y7W8X9Y"
    ∷ []

-- Not an instruction of the token programs.
unfoldable pub foreign_program : Option String → Option String → Bool
foreign_program (some id) program = not (includes token_programs id)
foreign_program none program = not (program =? "spl-token")

unfoldable pub transfer_of : Option String → Option String → Option String → String → List Transfer
transfer_of (some mint) (some amount) (some payer) recipient =
    record { mint = mint; amount = amount; recipient = recipient; payer = payer } ∷ []
transfer_of none amount payer recipient = []
transfer_of (some mint) none payer recipient = []
transfer_of (some mint) (some amount) none recipient = []

unfoldable pub info_transfer : List String → Meta → Info → Option String → List Transfer
unfolding string_value or_else transfer_of index_of balance_at mint_of owner_of key_at
info_transfer keys m info none = []
info_transfer keys m info (some destination) =
    let at = index_of keys destination in
    let into = balance_at m.post_balances at in
    let out_of =
      balance_at m.pre_balances (index_of keys (get_or_else (string_value info.source) "")) in
    transfer_of (or_else (string_value info.mint) (mint_of into))
      (or_else (string_value info.token_amount) (string_value info.amount))
      (or_else (string_value info.authority) (or_else (string_value info.owner) (owner_of out_of)))
      (get_or_else (or_else (owner_of into) (key_at keys at)) destination)

unfoldable pub parsed_transfer : List String → Meta → Parsing → List Transfer
unfolding info_transfer string_value
parsed_transfer keys m (text s) = []
parsed_transfer keys m nothing = []
parsed_transfer keys m (details kind none) = []
parsed_transfer keys m (details kind (some info)) =
    if string_value kind =? "transfer" || string_value kind =? "transferChecked"
    then info_transfer keys m info (string_value info.destination)
    else []

unfoldable pub transfers : List String → Meta → List Instruction → List Transfer
unfolding parsed_transfer string_value foreign_program
transfers keys m [] = []
transfers keys m (ix ∷ rest) =
    (if foreign_program (string_value ix.program_id) (string_value ix.program)
      then []
      else parsed_transfer keys m ix.parsed)
    ++ transfers keys m rest

unfoldable pub same_transfer : Transfer → Transfer → Bool
same_transfer expected t =
    t.mint == expected.mint
    && t.amount == expected.amount
    && t.recipient == expected.recipient
    && t.payer == expected.payer

-- Exactly one transfer, and it is the expected one.
unfoldable pub transfer_inspection : Verification → Transfer → List Transfer → Inspection
unfolding same_transfer
transfer_inspection memo expected found =
    let matching = keep (same_transfer expected) found in
    if not (eqb (length found) 1) || not (eqb (length matching) 1)
    then record { memo = memo; transfer_state = mismatch; transfer = none }
    else record { memo = memo; transfer_state = verified; transfer = head matching }
  where
    head : List Transfer → Option Transfer
    head [] = none
    head (t ∷ ts) = some t

unfoldable pub meta_inspection :
    Verification → Transfer → Transaction → List Instruction → Option Meta → Inspection
unfolding transfer_inspection transfers
meta_inspection memo expected tx all none = record {
  memo = memo;
  transfer_state = mismatch;
  transfer = none;
}
meta_inspection memo expected tx all (some m) =
    if not m.completed
    then record { memo = memo; transfer_state = mismatch; transfer = none }
    else transfer_inspection memo expected (transfers tx.account_keys m all)

-- Without a transaction of the node: no URL, no answer, an error or no result.
unfoldable pub inspect_transaction : Option Transaction → String → Transfer → Inspection
unfolding inner_instructions is_memo meta_inspection
inspect_transaction none expected_memo expected = record {
  memo = unavailable;
  transfer_state = unavailable;
  transfer = none;
}
inspect_transaction (some tx) expected_memo expected =
    let all = tx.instructions ++ inner_instructions tx.meta in
    let memo = if any (is_memo expected_memo) all then verified else missing in
    meta_inspection memo expected tx all tx.meta
