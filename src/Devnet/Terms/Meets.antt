-- ===== src/Devnet/Terms/Meets.antt =====
-- packages/payments/src/x402.ts: the terms that verifyCanonicalRequirements finds no error in.
use agentready_commerce.Prelude.{
  ℕ, ◌≤◌, String, ◌∷◌, [], ◌++◌, List, Bool, true, false, not, Option, none, some, Outcome,
  returned, thrown, ◌>>=◌, subst, ◌≡◌, refl, sym, ap, ◌=?◌, =?_iff, ltb, Bool-cases, inl, inr,
  arith, Option-cases,
}
use agentready_commerce.Settlement.Release.{reason_if}
use agentready_commerce.Devnet.Terms.{
  Supplied, CanonicalRequirements, underpaid, verify_canonical_requirements,
}

-- An amount that is given is a number not below the one asked for.
abbrev pub Enough : (String → Option ℕ) → Option String → String → Type 0
Enough big_int none asked = Unit
Enough big_int (some given) asked =
    (x y : ℕ) × (((big_int given ≡ some x) × (big_int asked ≡ some y)) × (y ≤ x))

pub record Meets (big_int : String → Option ℕ) (s : Supplied) (c : CanonicalRequirements)
    : Type 0 where
  pub scheme : s.scheme ≡ some c.scheme
  pub network : s.network ≡ some c.network
  pub asset : s.asset ≡ some c.asset
  pub payee : s.pay_to ≡ some c.pay_to
  pub memo : s.memo ≡ some c.memo
  pub amount : Enough big_int s.amount c.amount

no_error : (b : Bool) (why : String) → reason_if (not b) why ≡ [] → b ≡ true
no_error true why h = refl
no_error false why h = absurd (cc)

no_shortage : (x y : ℕ) → reason_if (ltb x y) "underpayment" ≡ [] → y ≤ x
no_shortage x y h = elim (Bool-cases (ltb x y)) [
  | inl e ↦ absurd (short (simp e at h))
  | inr e ↦ ground arith
]
  where
    short : ◌≡◌ {A = List String} ("underpayment" ∷ []) [] → ⊥
    short e = cc

errors_of : Outcome (List String) → List String
errors_of (returned es) = es
errors_of (thrown why) = []

nothing_left : (xs ys : List String) → xs ++ ys ≡ [] → (xs ≡ []) × (ys ≡ [])
nothing_left [] ys h = (refl, h)
nothing_left (x ∷ xs) ys h = absurd (cc)

abbrev errors : Bool → Bool → Bool → Bool → Bool → List String
errors a b c d e =
    reason_if (not a) "scheme"
    ++ reason_if (not b) "wrong network"
    ++ reason_if (not c) "wrong asset"
    ++ reason_if (not d) "wrong payee"
    ++ reason_if (not e) "memo mismatch"

record Passed (a b c d e : Bool) : Type 0 where
  scheme : a ≡ true
  network : b ≡ true
  asset : c ≡ true
  payee : d ≡ true
  memo : e ≡ true

passed : (a b c d e : Bool) → errors a b c d e ≡ [] → Passed a b c d e
passed a b c d e h =
    let a_error : List String = reason_if (not a) "scheme" in
    let b_error : List String = reason_if (not b) "wrong network" in
    let c_error : List String = reason_if (not c) "wrong asset" in
    let d_error : List String = reason_if (not d) "wrong payee" in
    let two : List String = a_error ++ b_error in
    let three : List String = two ++ c_error in
    let (four, memo) = nothing_left (three ++ d_error) (reason_if (not e) "memo mismatch") h in
    let (three_empty, payee) = nothing_left three d_error four in
    let (two_empty, asset) = nothing_left two c_error three_empty in
    let (scheme, network) = nothing_left a_error b_error two_empty in
    record {
      scheme = no_error a "scheme" scheme;
      network = no_error b "wrong network" network;
      asset = no_error c "wrong asset" asset;
      payee = no_error d "wrong payee" payee;
      memo = no_error e "memo mismatch" memo;
    }

compared :
    (big_int : String → Option ℕ) (es : List String) (given asked : String) (x y : Option ℕ)
    → big_int given ≡ x
    → big_int asked ≡ y
    → (underpaid x y >>= λ short. returned (es ++ short)) ≡ returned []
    → (es ≡ []) × Enough big_int (some given) asked
unfolding underpaid errors_of
compared big_int es given asked none y f g h = absurd (cc)
compared big_int es given asked (some x) none f g h = absurd (cc)
compared big_int es given asked (some x) (some y) f g h =
    let (before, after) = nothing_left es _ (ap errors_of h) in
    (before, (x, y, ((f, g), no_shortage x y after)))

pub verify_canonical_requirements-Meets :
    (big_int : String → Option ℕ) (s : Supplied) (c : CanonicalRequirements)
    → verify_canonical_requirements big_int s c ≡ returned []
    → Meets big_int s c
unfolding verify_canonical_requirements errors_of
verify_canonical_requirements-Meets big_int s c h = elim (Option-cases s.amount) [
  | inl e ↦ meets (ap errors_of (simp e at h)) (subst (λ o. Enough big_int o c.amount) (sym e) tt)
  | inr (a, e) ↦
      let (before, enough) =
        compared big_int found a c.amount (big_int a) (big_int c.amount) refl refl (simp e at h) in
      meets before (subst (λ o. Enough big_int o c.amount) (sym e) enough)
]
  where
    found : List String
    found =
        errors (s.scheme =? c.scheme) (s.network =? c.network) (s.asset =? c.asset)
          (s.pay_to =? c.pay_to) (s.memo =? c.memo)

    meets : found ≡ [] → Enough big_int s.amount c.amount → Meets big_int s c
    meets none_found enough =
        let p = passed _ _ _ _ _ none_found in
        record {
          scheme = (=?_iff s.scheme c.scheme).0 p.scheme;
          network = (=?_iff s.network c.network).0 p.network;
          asset = (=?_iff s.asset c.asset).0 p.asset;
          payee = (=?_iff s.pay_to c.pay_to).0 p.payee;
          memo = (=?_iff s.memo c.memo).0 p.memo;
          amount = enough;
        }
