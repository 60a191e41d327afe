-- ===== src/Devnet/Inspect/Meaning.antt =====
-- packages/payments/src/devnet-machine.ts: what the tests of inspectTransaction on instructions mean.
use agentready_commerce.Prelude.{
  String, ◌∷◌, [], ◌++◌, List, Bool, true, false, not, ◌&&◌, ◌||◌, Option, none, some, ◌≡◌, refl,
  sym, ap, subst, ◌∙◌, ◌↔◌, ◌⊎◌, inl, inr, Bool-cases, arith, any, ◌==◌, ==_refl, eq_of_==, eq_iff,
  ◌=?◌, =?_iff, if◌then◌else◌,
}
use agentready_commerce.Devnet.Inspect.{
  Transfer, Info, Parsing, text, details, nothing, Instruction, Meta, string_value, is_text,
  is_memo, foreign_program, info_transfer, parsed_transfer, transfers, same_transfer,
}

-- An instruction of the memo program with this text.
pub record IsMemo (memo : String) (ix : Instruction) : Type 0 where
  pub program : ix.program ≡ some "spl-memo"
  pub program_id : ix.program_id ≡ some "MemoSq4gqABAXKb96qnH8TysNcWxMyWCqXgDLGmfcHr"
  pub parsed : ix.parsed ≡ text memo

abbrev pub Carries : String → List Instruction → Type 0
Carries memo [] = ⊥
Carries memo (ix ∷ rest) = IsMemo memo ix ⊎ Carries memo rest

is_text_iff : (x : Parsing) (s : String) → (is_text x s ≡ true) ↔ (x ≡ text s)
unfolding is_text
is_text_iff (text t) s = (λ h. ap text (eq_of_== t s h), λ e. same e)
  where
    content : Parsing → String
    content (text t) = t
    content (details k i) = ""
    content nothing = ""

    same : text t ≡ text s → (t == s) ≡ true
    same e = (eq_iff t s).1 (ap content e)
is_text_iff (details k i) s = (λ h. absurd (cc), λ e. absurd (cc))
is_text_iff nothing s = (λ h. absurd (cc), λ e. absurd (cc))

and_iff : (a b : Bool) → (a && b ≡ true) ↔ ((a ≡ true) × (b ≡ true))
and_iff true b = (λ h. (refl, h), λ h. h.1)
and_iff false b = (λ h. absurd (cc), λ h. h.0)

or_iff : (a b : Bool) → (a || b ≡ true) ↔ ((a ≡ true) ⊎ (b ≡ true))
or_iff true b = (λ h. inl refl, λ h. refl)
or_iff false b = (λ h. inr h, λ h. elim h [ inl e ↦ absurd (cc) | inr e ↦ e ])

not_true : (b : Bool) {A : Type 0} → (b ≡ true) ↔ A → b ≡ false → ¬ A
not_true true d e = λ a. cc
not_true false d e = λ a. clash (d.1 a)
  where
    clash : false ≡ true → ⊥
    clash f = cc

is_memo_iff : (memo : String) (ix : Instruction) → (is_memo memo ix ≡ true) ↔ IsMemo memo ix
unfolding is_memo
is_memo_iff memo ix = (forward, backward)
  where
    forward : is_memo memo ix ≡ true → IsMemo memo ix
    forward h =
        let outer = (and_iff _ _).0 h in
        let ids = (and_iff _ _).0 outer.0 in
        record {
          program = (=?_iff _ _).0 ids.0;
          program_id = (=?_iff _ _).0 ids.1;
          parsed = (is_text_iff _ _).0 outer.1;
        }

    backward : IsMemo memo ix → is_memo memo ix ≡ true
    backward m = (and_iff _ _).1 (
      (and_iff _ _).1 ((=?_iff _ _).1 m.program, (=?_iff _ _).1 m.program_id),
      (is_text_iff _ _).1 m.parsed,
    )

pub any-Carries :
    (memo : String) (ixs : List Instruction) → (any (is_memo memo) ixs ≡ true) ↔ Carries memo ixs
any-Carries memo [] = (λ h. absurd (cc), λ e. absurd e)
any-Carries memo (ix ∷ rest) = (
  λ h. elim ((or_iff (is_memo memo ix) (any (is_memo memo) rest)).0 h) [
    | inl e ↦ inl ((is_memo_iff memo ix).0 e)
    | inr e ↦ inr ((any-Carries memo rest).0 e)
  ],
  λ c. (or_iff (is_memo memo ix) (any (is_memo memo) rest)).1 (elim c [
    | inl e ↦ inl ((is_memo_iff memo ix).1 e)
    | inr e ↦ inr ((any-Carries memo rest).1 e)
  ]),
)

-- The identifier, or without one the name, of a token program.
abbrev pub TokenProgram : Option String → Option String → Type 0
TokenProgram (some id) name =
    (id ≡ "TokenkegQfeZyiNwAJbNbGKPFXCWuBvf9Ss623VQ5DA")
    ⊎ (id ≡ "TokenzQdBNbLqP5VEhdkAS6EPFLC1sT3L4f5Y7W8X9Y")
TokenProgram none name = name ≡ some "spl-token"

-- A transfer with these details.
abbrev pub Transferring : Parsing → Info → Type 0
Transferring x info =
    (kind : Option String) × ((x ≡ details kind (some info))
      × ((string_value kind ≡ some "transfer") ⊎ (string_value kind ≡ some "transferChecked")))

abbrev pub Counts : Instruction → Info → Type 0
Counts ix info =
    TokenProgram (string_value ix.program_id) (string_value ix.program)
    × Transferring ix.parsed info

-- The transfers of one instruction: those of its details, if it counts.
abbrev pub Moved : List String → Meta → Instruction → List Transfer → Type 0
Moved keys m ix us =
    ((info : Info) × (Counts ix info
        × (us ≡ info_transfer keys m info (string_value info.destination))))
    ⊎ (¬ ((info : Info) × Counts ix info) × (us ≡ []))

-- The transfers of a list of instructions, in its order.
abbrev pub Moves : List String → Meta → List Instruction → List Transfer → Type 0
Moves keys m [] ts = ts ≡ []
Moves keys m (ix ∷ rest) ts =
    (us vs : List Transfer) × (((ts ≡ us ++ vs) × Moved keys m ix us) × Moves keys m rest vs)

foreign_iff :
    (id name : Option String) → (not (foreign_program id name) ≡ true) ↔ TokenProgram id name
unfolding foreign_program
foreign_iff none name = ground (arith, =?_iff name "spl-token")
foreign_iff (some id) name = ground (
  arith,
  eq_iff "TokenkegQfeZyiNwAJbNbGKPFXCWuBvf9Ss623VQ5DA" id,
  eq_iff "TokenzQdBNbLqP5VEhdkAS6EPFLC1sT3L4f5Y7W8X9Y" id,
)

counts_kind :
    (kind : Option String)
    → (string_value kind =? "transfer" || string_value kind =? "transferChecked" ≡ true)
      ↔ ((string_value kind ≡ some "transfer") ⊎ (string_value kind ≡ some "transferChecked"))
counts_kind kind =
    ground
      (arith, =?_iff (string_value kind) "transfer", =?_iff (string_value kind) "transferChecked")

kind_of : Parsing → Option String
kind_of (text s) = none
kind_of (details k i) = k
kind_of nothing = none

info_of : Info → Parsing → Info
info_of i (text s) = i
info_of i (details k none) = i
info_of i (details k (some j)) = j
info_of i nothing = i

module _ (keys : List String) (m : Meta) where
  parsed-Moved :
      (ix : Instruction) (x : Parsing)
      → ix.parsed ≡ x
      → TokenProgram (string_value ix.program_id) (string_value ix.program)
      → Moved keys m ix (parsed_transfer keys m x)
  unfolding parsed_transfer kind_of
  parsed-Moved ix (text s) e token = inr (no_details, refl)
    where
      no_details : ¬ ((info : Info) × Counts ix info)
      no_details (info, (t, (k, (f, c)))) = clash (sym e ∙ f)
        where
          clash : text s ≡ details k (some info) → ⊥
          clash g = cc
  parsed-Moved ix nothing e token = inr (no_details, refl)
    where
      no_details : ¬ ((info : Info) × Counts ix info)
      no_details (info, (t, (k, (f, c)))) = clash (sym e ∙ f)
        where
          clash : nothing ≡ details k (some info) → ⊥
          clash g = cc
  parsed-Moved ix (details kind none) e token = inr (no_details, refl)
    where
      no_details : ¬ ((info : Info) × Counts ix info)
      no_details (info, (t, (k, (f, c)))) = clash (sym e ∙ f)
        where
          clash : details kind none ≡ details k (some info) → ⊥
          clash g = cc
  parsed-Moved ix (details kind (some info)) e token =
      elim (Bool-cases
        (string_value kind =? "transfer" || string_value kind =? "transferChecked")) [
          | inl h ↦ inl (info, ((token, (kind, (e, (counts_kind kind).0 h))), simp h refl))
          | inr h ↦ inr (other h, simp h refl)
        ]
    where
      other :
          (string_value kind =? "transfer" || string_value kind =? "transferChecked") ≡ false
          → ¬ ((i : Info) × Counts ix i)
      other h (i, (t, (k, (f, c)))) = not_true _ (counts_kind kind) h (
          subst
            (λ o. (string_value o ≡ some "transfer") ⊎ (string_value o ≡ some "transferChecked"))
            (ap kind_of (sym f ∙ e)) c)

  instruction-Moved :
      (ix : Instruction)
      → Moved keys m ix (
          if foreign_program (string_value ix.program_id) (string_value ix.program)
          then []
          else parsed_transfer keys m ix.parsed)
  instruction-Moved ix =
      let token = foreign_iff (string_value ix.program_id) (string_value ix.program) in
      elim (Bool-cases (foreign_program (string_value ix.program_id) (string_value ix.program))) [
        | inl h ↦ simp h (inr (λ c. not_true _ token (ap not h) c.1.0, refl))
        | inr h ↦ simp h (parsed-Moved ix ix.parsed refl (token.0 (ap not h)))
      ]

  Moved-once :
      (ix : Instruction) (us vs : List Transfer) → Moved keys m ix us → Moved keys m ix vs → us ≡ vs
  unfolding info_of
  Moved-once ix us vs (inl (i, ((t, (k, (e, c))), h))) (inl (j, ((u, (l, (f, d))), g))) =
      h ∙ ap (λ o. info_transfer keys m o (string_value o.destination)) same ∙ sym g
    where
      same : i ≡ j
      same = ap (λ x. info_of i x) (sym e ∙ f)
  Moved-once ix us vs (inl (i, (c, h))) (inr (deny, g)) = absurd (deny (i, c))
  Moved-once ix us vs (inr (deny, g)) (inl (i, (c, h))) = absurd (deny (i, c))
  Moved-once ix us vs (inr (deny, h)) (inr (never, g)) = h ∙ sym g

  Moves-transfers : (ixs : List Instruction) → Moves keys m ixs (transfers keys m ixs)
  unfolding transfers
  Moves-transfers [] = refl
  Moves-transfers (ix ∷ rest) = (_, _, ((refl, instruction-Moved ix), Moves-transfers rest))

  Moves-once :
      (ixs : List Instruction) (ts : List Transfer)
      → Moves keys m ixs ts
      → transfers keys m ixs ≡ ts
  unfolding transfers
  Moves-once [] ts h = sym h
  Moves-once (ix ∷ rest) ts (us, vs, ((e, h), k)) =
      ap (λ a. a ++ transfers keys m rest) (Moved-once ix _ us (instruction-Moved ix) h)
      ∙ ap (λ b. us ++ b) (Moves-once rest vs k)
      ∙ sym e

  pub transfers_iff :
      (ixs : List Instruction) (ts : List Transfer)
      → (transfers keys m ixs ≡ ts) ↔ Moves keys m ixs ts
  transfers_iff ixs ts = (λ e. subst (Moves keys m ixs) e (Moves-transfers ixs), Moves-once ixs ts)

pub same_transfer_iff : (expected t : Transfer) → (same_transfer expected t ≡ true) ↔ (t ≡ expected)
unfolding same_transfer
same_transfer_iff x t = (forward, backward)
  where
    forward : same_transfer x t ≡ true → t ≡ x
    forward h =
        let mint : Bool = t.mint == x.mint in
        let amount : Bool = t.amount == x.amount in
        let recipient : Bool = t.recipient == x.recipient in
        let payer : Bool = t.payer == x.payer in
        let three = (and_iff ((mint && amount) && recipient) payer).0 h in
        let two = (and_iff (mint && amount) recipient).0 three.0 in
        let one = (and_iff mint amount).0 two.0 in
        cc (
          eq_of_== t.mint x.mint one.0,
          eq_of_== t.amount x.amount one.1,
          eq_of_== t.recipient x.recipient two.1,
          eq_of_== t.payer x.payer three.1,
        )

    self : same_transfer x x ≡ true
    self = simp (==_refl x.mint, ==_refl x.amount, ==_refl x.recipient, ==_refl x.payer) refl

    backward : t ≡ x → same_transfer x t ≡ true
    backward e = subst (λ u. same_transfer x u ≡ true) (sym e) self
