-- ===== src/Core/Store.antt =====
-- packages/core/src/store.ts: the interface of a store of operations, and its two implementations.
use agentready_commerce.Prelude.{
  ℕ, suc, String, ◌≡◌, refl, true, Option, none, some, inl, inr, [], ◌==◌, if◌then◌else◌, Map, get,
  set, get-set, truthy, Bool-cases,
}
use agentready_commerce.Core.Types.{OperationRecord}

-- What the coordinator relies on. A store hands out and keeps copies (`structuredClone`), so the
-- records are values.
pub record OperationStore (P : Type 0) : Type 1 where
  pub State : Type 0
  pub fetch : State → String → Option (OperationRecord P)
  pub put : State → String → OperationRecord P → State
  pub cleared : State → State
  pub fetch-put :
      (s : State) (k : String) (r : OperationRecord P) (j : String)
      → fetch (put s k r) j ≡ (if k == j then some r else fetch s j)
  pub fetch-cleared : (s : State) (j : String) → fetch (cleared s) j ≡ none

-- MemoryOperationStore: a `Map` of records.
module _ {P : Type 0} where
  pub memory_clear : Map (OperationRecord P) → Map (OperationRecord P)
  memory_clear m = []

  pub memory-cleared : (m : Map (OperationRecord P)) (j : String) → get (memory_clear m) j ≡ none
  unfolding memory_clear get
  memory-cleared m j = refl

  abbrev pub memory_store : OperationStore P
  memory_store = record {
    State = Map (OperationRecord P);
    fetch = get;
    put = set;
    cleared = memory_clear;
    fetch-put = get-set;
    fetch-cleared = memory-cleared;
  }

-- Node's AES-256-GCM and JSON: what is sealed under a key, with any vector, opens to the same
-- record, and no sealed text is empty (it begins with the vector and the tag).
pub record Cipher (P : Type 0) : Type 0 where
  pub derive_key : String → String
  pub vector : ℕ → String
  pub seal : String → String → OperationRecord P → String
  pub open_sealed : String → String → Option (OperationRecord P)
  pub open-seal :
      (key iv : String) (r : OperationRecord P) → open_sealed key (seal key iv r) ≡ some r
  pub seal-truthy : (key iv : String) (r : OperationRecord P) → truthy (seal key iv r) ≡ true

-- EncryptedOperationStore: a `Map` of sealed texts, and the number of vectors drawn so far.
pub record Encrypted : Type 0 where
  pub sealed : Map String
  pub drawn : ℕ

module _ {P : Type 0} (cipher : Cipher P) (secret : String) where
  open_entry : Option String → Option (OperationRecord P)
  open_entry none = none
  open_entry (some text) =
      if truthy text then cipher.open_sealed (cipher.derive_key secret) text else none

  unfoldable pub encrypted_get : Encrypted → String → Option (OperationRecord P)
  unfolding open_entry
  encrypted_get s k = open_entry (get s.sealed k)

  unfoldable pub encrypted_set : Encrypted → String → OperationRecord P → Encrypted
  encrypted_set s k r = record {
    sealed = set s.sealed k (cipher.seal (cipher.derive_key secret) (cipher.vector s.drawn) r);
    drawn = suc s.drawn;
  }

  unfoldable pub encrypted_clear : Encrypted → Encrypted
  encrypted_clear s = record s { sealed = [] }

  pub encrypted-fetch-put :
      (s : Encrypted) (k : String) (r : OperationRecord P) (j : String)
      → encrypted_get (encrypted_set s k r) j ≡ (if k == j then some r else encrypted_get s j)
  unfolding encrypted_get encrypted_set
  encrypted-fetch-put s k r j =
      let key = cipher.derive_key secret in
      let iv = cipher.vector s.drawn in
      elim (Bool-cases (k == j)) [
        | inl same ↦
            rw (get-set s.sealed k (cipher.seal key iv r) j, same)
              (rw (cipher.seal-truthy key iv r) (cipher.open-seal key iv r))
        | inr other ↦ rw (get-set s.sealed k (cipher.seal key iv r) j, other)
      ]

  pub encrypted-cleared : (s : Encrypted) (j : String) → encrypted_get (encrypted_clear s) j ≡ none
  unfolding encrypted_get encrypted_clear get
  encrypted-cleared s j = refl

  -- The encrypted store keeps the contract of the plain one.
  abbrev pub encrypted_store : OperationStore P
  encrypted_store = record {
    State = Encrypted;
    fetch = encrypted_get;
    put = encrypted_set;
    cleared = encrypted_clear;
    fetch-put = encrypted-fetch-put;
    fetch-cleared = encrypted-cleared;
  }
