-- ===== src/Sessions/Token/Laws.antt =====
-- apps/web/lib/session-token.ts: the round trip of a snapshot, and what an opened token proves.
use Prim.Native.Char.{Char}
use Prim.Native.String.append
use Prim.Native.String.{[] as nil, ◌∷◌ as cons}
use agentready_commerce.Prelude.{
  guard_some, stop_some, ℕ, String, true, false, Option, none, some, Host, ◌≡◌, refl, sym, ap,
  subst, ◌∙◌, ◌==◌, ==_refl, eq_of_==, ◌<>◌, eqb, ltb, truthy, inl, inr, Bool-cases, eqb_iff,
  get_or_else,
}
use agentready_commerce.Sessions.Token.{
  SessionSnapshot, Codec, seal_snapshot, open_snapshot, open_parts, valid_snapshot, last_dot,
  dot_behind, behind, at_dot, session_snapshot_version,
}

abbrev dot : Char
dot = "."

last_dot-behind :
    (p t sig : String) → last_dot t ≡ some ("", sig) → last_dot (p <> t) ≡ some (p, sig)
unfolding last_dot
last_dot-behind nil t sig h = subst (λ x. last_dot x ≡ some ("", sig)) (sym (append.nil t)) h
last_dot-behind (cons c p) t sig h =
    subst (λ x. last_dot x ≡ some (cons c p, sig)) (sym (append.cons c p t))
      (simp (last_dot-behind p t sig h) refl)

last_dot-dot : (sig : String) → last_dot sig ≡ none → last_dot ("." <> sig) ≡ some ("", sig)
unfolding last_dot
last_dot-dot sig h =
    subst (λ x. last_dot x ≡ some ("", sig))
      (sym (append.cons dot nil sig ∙ ap (λ x. cons dot x) (append.nil sig))) (simp h refl)

pub last_dot-join :
    (p sig : String) → last_dot sig ≡ none → last_dot (p <> "." <> sig) ≡ some (p, sig)
last_dot-join p sig h = last_dot-behind p ("." <> sig) sig (last_dot-dot sig h)

-- A snapshot that is sealed and opened under the same secret before it expires is the same, if the
-- codec decodes what it encodes, its texts are not empty, and the signatures have no "." in them.
pub open_snapshot-seal_snapshot :
    (host : Host) (codec : Codec) (secret : String) (now : ℕ) (x : SessionSnapshot)
    → codec.decode (codec.encode x) ≡ some x
    → truthy (codec.encode x) ≡ true
    → last_dot (host.hmac secret (codec.encode x)) ≡ none
    → x.version ≡ session_snapshot_version
    → ltb x.expires_at now ≡ false
    → open_snapshot host codec (seal_snapshot host codec x secret) secret now ≡ some x
unfolding open_snapshot open_parts seal_snapshot valid_snapshot
open_snapshot-seal_snapshot host codec secret now x decodes there plain version fresh =
    simp
      (
        last_dot-join (codec.encode x) (host.hmac secret (codec.encode x)) plain,
        there,
        ==_refl (host.hmac secret (codec.encode x)),
        decodes,
        version,
        fresh,
      )
      refl

split_join : (c : Char) (s a b : String) → s ≡ a <> "." <> b → cons c s ≡ cons c a <> "." <> b
split_join c s a b h = ap (λ x. cons c x) h ∙ sym (append.cons c a ("." <> b))

pair_of :
    (x y u v : String)
    → ◌≡◌ {A = Option (String × String)} (some (x, y)) (some (u, v))
    → (x ≡ u) × (y ≡ v)
pair_of x y u v k = (ap (λ o. (parts_of o).0) k, ap (λ o. (parts_of o).1) k)
  where
    parts_of : Option (String × String) → String × String
    parts_of none = (x, y)
    parts_of (some q) = q

at_dot-join :
    (c : Char) (s a b : String)
    → at_dot (cons c nil == ".") s ≡ some (a, b)
    → cons c s ≡ a <> "." <> b
unfolding at_dot
at_dot-join c s a b h = elim (Bool-cases (cons c nil == ".")) [
  | inl e ↦
      let parts = pair_of "" s a b (simp e at h) in
      front c s (eq_of_== (cons c nil) "." e)
      ∙ sym (append.nil ("." <> s))
      ∙ ap (λ x. x <> "." <> s) parts.0
      ∙ ap (λ x. a <> "." <> x) parts.1
  | inr e ↦ absurd (nothing (simp e at h))
]
  where
    nothing : ◌≡◌ {A = Option (String × String)} none (some (a, b)) → ⊥
    nothing k = cc

    front : (d : Char) (t : String) → cons d nil ≡ "." → cons d t ≡ "." <> t
    front d t k = sym (append.cons d nil t ∙ ap (λ x. cons d x) (append.nil t)) ∙ ap (λ x. x <> t) k

-- The two parts of a text at its last "." are the text again.
last_dot-parts : (t a b : String) → last_dot t ≡ some (a, b) → t ≡ a <> "." <> b
unfolding last_dot
last_dot-parts nil a b h = absurd (cc)
last_dot-parts (cons c s) a b h = by (last_dot s) refl h (last_dot-parts s)
  where
    by :
        (o : Option (String × String))
        → last_dot s ≡ o
        → dot_behind (cons c nil == ".") s (behind o (λ x. cons c x)) ≡ some (a, b)
        → ((x y : String) → last_dot s ≡ some (x, y) → s ≡ x <> "." <> y)
        → cons c s ≡ a <> "." <> b
    by none e g again = at_dot-join c s a b g
    by (some (x, y)) e g again =
        let parts = pair_of (cons c x) y a b g in
        split_join c s x y (again x y e)
        ∙ ap (λ u. u <> "." <> y) parts.0
        ∙ ap (λ u. a <> "." <> u) parts.1

-- An opened token is a payload with its signature under the secret, the payload decodes to the
-- snapshot, and the snapshot is of this version and has not expired.
abbrev pub Opened : Host → Codec → String → String → ℕ → SessionSnapshot → Type 0
Opened host codec token secret now x =
    (payload : String) × (((token ≡ payload <> "." <> host.hmac secret payload)
        × (codec.decode payload ≡ some x))
      × ((x.version ≡ session_snapshot_version) × (ltb x.expires_at now ≡ false)))

valid_some :
    (now : ℕ) (o : Option SessionSnapshot) (x : SessionSnapshot)
    → valid_snapshot now o ≡ some x
    → (o ≡ some x) × ((x.version ≡ session_snapshot_version) × (ltb x.expires_at now ≡ false))
unfolding valid_snapshot
valid_some now none x e = absurd (cc)
valid_some now (some y) x e =
    let version = guard_some (eqb y.version session_snapshot_version) _ x e in
    let fresh = stop_some (ltb y.expires_at now) _ x version.1 in
    (
      fresh.1,
      subst (λ z. (z.version ≡ session_snapshot_version) × (ltb z.expires_at now ≡ false))
          (same y x fresh.1) ((eqb_iff y.version session_snapshot_version).0 version.0, fresh.0),
    )
  where
    same : (y x : SessionSnapshot) → some y ≡ some x → y ≡ x
    same y x k = ap (λ o. get_or_else o y) k

open_parts-Opened :
    (host : Host) (codec : Codec) (token secret : String) (now : ℕ) (o : Option (String × String))
    (x : SessionSnapshot)
    → last_dot token ≡ o
    → open_parts host codec secret now o ≡ some x
    → Opened host codec token secret now x
unfolding open_parts
open_parts-Opened host codec token secret now none x split e = absurd (cc)
open_parts-Opened host codec token secret now (some (payload, signature)) x split e =
    let there = guard_some (truthy payload) _ x e in
    let signed = guard_some (signature == host.hmac secret payload) _ x there.1 in
    let valid = valid_some now (codec.decode payload) x signed.1 in
    (
      payload,
      (
        (
          last_dot-parts token payload signature split
              ∙ ap (λ s. payload <> "." <> s)
                  (eq_of_== signature (host.hmac secret payload) signed.0),
          valid.0,
        ),
        valid.1,
      ),
    )

-- openSnapshot opens only tokens that carry the signature of the server's secret, in this version and
-- before they expire, and gives exactly the snapshot that the signed payload decodes to.
pub open_snapshot-Opened :
    (host : Host) (codec : Codec) (token secret : String) (now : ℕ) (x : SessionSnapshot)
    → open_snapshot host codec token secret now ≡ some x
    → Opened host codec token secret now x
unfolding open_snapshot
open_snapshot-Opened host codec token secret now x e =
    open_parts-Opened host codec token secret now (last_dot token) x refl e
