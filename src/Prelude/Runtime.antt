-- ===== src/Prelude/Runtime.antt =====
-- What the program takes from Node and the JavaScript engine, and does not implement: parameters.
use Prim.Native.Nat.{ℕ}
use Prim.Native.String.{String}

-- `createHash("sha256")` and `createHmac("sha256", secret)` in hex, and the engine's
-- `JSON.stringify` of a text and `String` of a number; `toISOString` of an
-- instant; of an amount in paise, `(n / 100)` by `toLocaleString("en-IN")`, `toFixed(0)` and
-- `toFixed(2)`; `Number` of a text.
pub record Host : Type 0 where
  pub sha256 : String → String
  pub hmac : String → String → String
  pub quote : String → String
  pub show : ℕ → String
  pub iso : ℕ → String
  pub price : ℕ → String
  pub whole_rupees : ℕ → String
  pub fixed_rupees : ℕ → String
  pub number_of : String → ℕ

-- One call into the program: the clock, and the random identifiers that `newId(prefix)` gives.
pub record Call : Type 0 where
  pub now : ℕ
  pub new_id : String → String

-- The end of a call that may throw an `Error` with a message.
pub data Outcome (A : Type 0) : Type 0 where
  returned : A → Outcome A
  thrown : String → Outcome A

infixl 5 ◌>>=◌
abbrev pub ◌>>=◌ : {A B : Type 0} → Outcome A → (A → Outcome B) → Outcome B
returned a >>= f = f a
thrown e >>= f = thrown e
