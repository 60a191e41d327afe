-- ===== src/Settlement/Released.antt =====
-- packages/payments/src/x402-settlement-store.ts: what an answer of releaseAttempt says.
use text.Mathlib.Text.{starts_with}
use agentready_commerce.Prelude.{
  String, ◌∷◌, [], ◌++◌, List, Bool, true, false, not, ◌&&◌, ◌||◌, Option, none, some, get, set,
  ◌≡◌, refl, inl, inr, Bool-cases, arith, same_option, is_set, truthy, is_empty, ◌==◌,
}
use agentready_commerce.Settlement.Types.{
  manual, same_status, StoredAttempt, ReleaseEvidence, Store, Turn,
}
use agentready_commerce.Settlement.Release.{
  reason_if, release_reasons, ReleaseResult, done, refused, released_row, release_found,
  release_attempt,
}

-- The evidence that a release needs: an operator and a note, a new approval, a blockhash that has
-- expired, and a transfer that is known not to be the attempt's.
abbrev pub Expired : ReleaseEvidence → Type 0
Expired e =
    ((truthy e.operator_id ≡ true) × (truthy e.note ≡ true))
    × ((starts_with e.new_approval_event_id "appr_" ≡ true)
        × ((truthy e.blockhash ≡ true)
            × ((e.blockhash_valid ≡ false)
                × ((e.transfer_verification == "mismatch"
                      || e.transfer_verification == "unavailable")
                    ≡ true))))

append_empty :
    (xs ys : List String) → is_empty (xs ++ ys) ≡ true → (is_empty xs ≡ true) × (is_empty ys ≡ true)
append_empty [] ys h = (refl, h)
append_empty (x ∷ xs) ys h = absurd (cc)

no_reason : (b : Bool) (why : String) → is_empty (reason_if b why) ≡ true → b ≡ false
no_reason false why h = refl
no_reason true why h = absurd (cc)

release_reasons-Expired : (e : ReleaseEvidence) → is_empty (release_reasons e) ≡ true → Expired e
unfolding release_reasons
release_reasons-Expired e h =
    let note = append_empty _ _ h in
    let transfer = append_empty _ _ note.0 in
    let expiry = append_empty _ _ transfer.0 in
    let hash = append_empty _ _ expiry.0 in
    let who = append_empty _ _ hash.0 in
    (
      (on _ (no_reason _ _ who.0), on _ (no_reason _ _ note.1)),
      (
        second _ _ (no_reason _ _ who.1),
        (
          on _ (no_reason _ _ hash.1),
          (no_reason _ _ expiry.1, either _ _ (no_reason _ _ transfer.1)),
        ),
      ),
    )
  where
    on : (b : Bool) → not b ≡ false → b ≡ true
    on true k = refl
    on false k = absurd (cc)

    second : (a b : Bool) → (not a || not b) ≡ false → b ≡ true
    second a b k = ground (arith, k)

    either : (a b : Bool) → (not a && not b) ≡ false → (a || b) ≡ true
    either a b k = ground (arith, k)

-- What an answer says of the store before and after.
abbrev pub Releases : Turn → Store → String → ReleaseEvidence → Store × ReleaseResult → Type 0
Releases turn s id e (after, done q) =
    (Expired e × (after.attempts ≡ set s.attempts id q))
    × ((r : StoredAttempt) × ((get s.attempts id ≡ some r)
          × ((same_status r.status manual ≡ true)
              × ((same_option r.blockhash (some e.blockhash) ≡ true)
                  × (q ≡ released_row turn e r)))))
Releases turn s id e (after, refused why) = (after ≡ s) × (is_empty why ≡ false)

release_found-Releases :
    (turn : Turn) (s : Store) (id : String) (e : ReleaseEvidence) (o : Option StoredAttempt)
    → Expired e
    → get s.attempts id ≡ o
    → Releases turn s id e (release_found turn s id e o)
unfolding release_found
release_found-Releases turn s id e none h there = (refl, refl)
release_found-Releases turn s id e (some r) h there =
    elim (Bool-cases (same_status r.status manual)) [
      | inl a ↦ elim (Bool-cases (is_set r.blockhash)) [
        | inl b ↦ elim (Bool-cases (same_option r.blockhash (some e.blockhash))) [
          | inl c ↦ simp (a, b, c) ((h, refl), (r, (there, (a, (c, refl)))))
          | inr c ↦ simp (a, b, c) (refl, refl)
        ]
        | inr b ↦ simp (a, b) (refl, refl)
      ]
      | inr a ↦ simp a (refl, refl)
    ]

-- A release succeeds only with an operator, a note, a new approval and proof that the blockhash of
-- the attempt has expired and no transfer of it was verified, on an attempt in manual status whose
-- own blockhash that is; the attempt is then released to the cited approval, and no other attempt
-- has changed. A refused release gives reasons and leaves the store as it was.
pub release_attempt-Releases :
    (turn : Turn) (s : Store) (id : String) (e : ReleaseEvidence)
    → Releases turn s id e (release_attempt turn s id e)
unfolding release_attempt
release_attempt-Releases turn s id e = elim (Bool-cases (is_empty (release_reasons e))) [
  | inl h ↦
      simp h
        (release_found-Releases turn s id e (get s.attempts id) (release_reasons-Expired e h) refl)
  | inr h ↦ simp h (refl, refl)
]
