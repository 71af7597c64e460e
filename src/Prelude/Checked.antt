-- ===== src/Prelude/Checked.antt =====
-- The result of Rust code that may panic.
use mathlib.Core.Option.{Option, none, some}

pub data Checked {ℓ} (A : Type ℓ) : Type ℓ where
  returns : A → Checked A
  panics : Checked A

infixl 5 ◌>>=◌
abbrev pub ◌>>=◌ {ℓ κ} : {A : Type ℓ} {B : Type κ} → Checked A → (A → Checked B) → Checked B
returns a >>= f = f a
panics >>= f = panics

infixl 5 ◌>>◌
abbrev pub ◌>>◌ {ℓ κ} : {A : Type ℓ} {B : Type κ} → Checked A → Checked B → Checked B
m >> k = m >>= λ _. k

-- `Option::expect` and `Option::unwrap`
abbrev pub expect {ℓ} : {A : Type ℓ} → Option A → Checked A
expect (some a) = returns a
expect none = panics
