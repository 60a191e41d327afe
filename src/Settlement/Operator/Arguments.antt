-- ===== src/Settlement/Operator/Arguments.antt =====
-- packages/payments/src/operator.ts: the round trip of the release command's arguments.
use agentready_commerce.Prelude.{
  String, ◌∷◌, [], List, Bool, true, false, not, ◌&&◌, ◌||◌, Option, none, some, ◌≡◌, refl, arith,
  ◌==◌, truthy, All,
}
use agentready_commerce.Settlement.Operator.{
  ok, ReleaseArgs, flag_value, flag_text, parse_release_args,
}

abbrev pub release_flags : List String
release_flags =
    "--operation" ∷ "--operator" ∷ "--new-approval" ∷ "--transfer" ∷ "--note" ∷ "--blockhash" ∷ []

-- A text that is none of the command's flags.
abbrev pub Plain : String → Type 0
Plain v = All (λ flag. (v == flag) ≡ false) release_flags

-- A value that the command accepts.
abbrev pub Given : String → Type 0
Given v = (truthy v ≡ true) × Plain v

abbrev blockhash_argv : Option String → List String
blockhash_argv none = []
blockhash_argv (some h) = "--blockhash" ∷ h ∷ []

-- The command line that the usage text shows.
abbrev pub release_argv : ReleaseArgs → List String
release_argv a =
    "--operation"
    ∷ a.operation_id
    ∷ "--operator"
    ∷ a.operator_id
    ∷ "--new-approval"
    ∷ a.new_approval_event_id
    ∷ "--transfer"
    ∷ a.transfer_verification
    ∷ "--note"
    ∷ a.note
    ∷ blockhash_argv a.blockhash

-- A value that is no flag is passed over.
flag_value_plain :
    (v : String) (xs : List String) (flag : String)
    → (v == flag) ≡ false
    → flag_value (v ∷ xs) flag ≡ flag_value xs flag
unfolding flag_value
flag_value_plain v xs flag h = rw h refl

blockhash_read : (o : Option String) → flag_value (blockhash_argv o) "--blockhash" ≡ o
unfolding flag_value
blockhash_read none = refl
blockhash_read (some h) = refl

-- The arguments of a release, written as the command line, are parsed to themselves, if the five
-- required values are not empty and none of these is a flag of the command, and the transfer is
-- "mismatch" or "unavailable".
pub parse_release_args-release_argv :
    (a : ReleaseArgs)
    → Given a.operation_id
    → Given a.operator_id
    → Given a.new_approval_event_id
    → Given a.transfer_verification
    → Given a.note
    → (a.transfer_verification == "mismatch" || a.transfer_verification == "unavailable") ≡ true
    → parse_release_args (release_argv a) ≡ ok a
unfolding parse_release_args flag_text flag_value
parse_release_args-release_argv a (o, (o0, (o1, (o2, (o3, (o4, (o5, u)))))))
      (p, (p0, (p1, (p2, (p3, (p4, (p5, v))))))) (n, (n0, (n1, (n2, (n3, (n4, (n5, w)))))))
      (t, (t0, (t1, (t2, (t3, (t4, (t5, x))))))) (m, (m0, (m1, (m2, (m3, (m4, (m5, y))))))) kind =
    simp
      (
        o1,
        o2,
        o3,
        o4,
        o5,
        p2,
        p3,
        p4,
        p5,
        n3,
        n4,
        n5,
        t4,
        t5,
        m5,
        o,
        p,
        n,
        t,
        m,
        known (a.transfer_verification == "mismatch") (a.transfer_verification == "unavailable")
            kind,
        blockhash_read a.blockhash,
      )
      refl
  where
    known : (b c : Bool) → (b || c) ≡ true → (not b && not c) ≡ false
    known b c h = ground (arith, h)
