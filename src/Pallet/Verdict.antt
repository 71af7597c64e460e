-- ===== src/Pallet/Verdict.antt =====
-- `TransactionValidity` while it is computed: a value, a rejection, or a panic.
use substrate_evm_account_ma.Prelude.{
  inl, inr, ◌⊎◌, refl, ◌≡◌, Bool, true, false, Option, none, some,
}
use substrate_evm_account_ma.Prelude.Checked.{Checked, returns, panics}
use substrate_evm_account_ma.Pallet.Types.{InvalidTransaction}

pub data Verdict (A : Type 0) : Type 0 where
  accept : A → Verdict A
  reject : InvalidTransaction → Verdict A
  panicked : Verdict A

infixl 5 ◌>>=◌ ◌>>◌
abbrev pub ◌>>=◌ : {A B : Type 0} → Verdict A → (A → Verdict B) → Verdict B
accept a >>= f = f a
reject e >>= f = reject e
panicked >>= f = panicked

abbrev pub ◌>>◌ : {B : Type 0} → Verdict (Unit {0}) → Verdict B → Verdict B
m >> k = m >>= λ _. k

-- `if b { return Err(e) }`
abbrev pub reject_if : Bool → InvalidTransaction → Verdict (Unit {0})
reject_if true e = reject e
reject_if false e = accept tt

-- `let Some(a) = o else { return Err(e) }`
abbrev pub or_reject : {A : Type 0} → Option A → InvalidTransaction → Verdict A
or_reject none e = reject e
or_reject (some a) e = accept a

abbrev pub lift : {A : Type 0} → Checked A → Verdict A
lift (returns a) = accept a
lift panics = panicked

-- `None` is a panic.
abbrev pub or_panic : {A : Type 0} → Option A → Verdict A
or_panic none = panicked
or_panic (some a) = accept a

-- Inversions of an accepting computation.
pub >>=-accept :
    {A B : Type 0} (m : Verdict A) (k : A → Verdict B) {b : B}
    → (m >>= k) ≡ accept b
    → (a : A) × (m ≡ accept a) × (k a ≡ accept b)
>>=-accept (accept a) k e = (a, refl, e)
>>=-accept (reject r) k e = cc
>>=-accept panicked k e = cc

-- A rejection comes from the first part or from the second.
pub >>=-reject :
    {A B : Type 0} (m : Verdict A) (k : A → Verdict B) {e : InvalidTransaction}
    → (m >>= k) ≡ reject e
    → (m ≡ reject e) ⊎ ((a : A) × (m ≡ accept a) × (k a ≡ reject e))
>>=-reject (accept a) k p = inr (a, refl, p)
>>=-reject (reject r) k p = inl (cc)
>>=-reject panicked k p = cc

-- A panic comes from the first part or from the second.
pub >>=-panicked :
    {A B : Type 0} (m : Verdict A) (k : A → Verdict B)
    → (m >>= k) ≡ panicked
    → (m ≡ panicked) ⊎ ((a : A) × (m ≡ accept a) × (k a ≡ panicked))
>>=-panicked (accept a) k p = inr (a, refl, p)
>>=-panicked (reject r) k p = cc
>>=-panicked panicked k p = inl refl
