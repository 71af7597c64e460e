-- ===== src/Pallet/Exec.antt =====
-- A dispatchable while it runs: it has a result or an error, and what it wrote stays written until
-- the storage layer around the call undoes it.
use substrate_evm_account_ma.Prelude.{
  refl, inr, inl, ◌⊎◌, ◌≡◌, none, some, [], ◌∷◌, if◌then◌else◌, ◌++◌, Bool, Option,
}
use substrate_evm_account_ma.Pallet.Types.{DispatchError, Event, State}

pub data Outcome (A : Type 0) : Type 0 where
  done : A → Outcome A
  failed : DispatchError → Outcome A

pub Outcome-cases :
    {A : Type 0} (r : Outcome A) → ((a : A) × (r ≡ done a)) ⊎ ((e : DispatchError) × (r ≡ failed e))
Outcome-cases (done a) = inl (a, refl)
Outcome-cases (failed e) = inr (e, refl)

abbrev pub Exec : Type 0 → Type 0 → Type 0
Exec S A = S → Outcome A × S

infixl 5 ◌>>=◌ ◌>>◌
abbrev pub ◌>>=◌ : {S A B : Type 0} → Exec S A → (A → Exec S B) → Exec S B
◌>>=◌ m k s = let (r, s') = m s in elim r [ done a ↦ k a s' | failed e ↦ (failed e, s') ]

abbrev pub ◌>>◌ : {S A B : Type 0} → Exec S A → Exec S B → Exec S B
m >> k = m >>= λ _. k

abbrev pub ensure : {S : Type 0} → Bool → DispatchError → Exec S (Unit {0})
ensure b e s = (if b then done tt else failed e, s)

module _ {Rest Post Err : Type 0} where
  abbrev pub gets : {A : Type 0} → (Rest → A) → Exec (State Rest Post Err) A
  gets g s = (done (g s.rest), s)

  abbrev pub modify_rest : (Rest → Rest) → Exec (State Rest Post Err) (Unit {0})
  modify_rest g s = (done tt, record s { rest = g s.rest })

  -- An operation of another pallet, with `None` mapped to the error.
  abbrev pub or_fail :
      {A : Type 0} → (Rest → Option A × Rest) → DispatchError → Exec (State Rest Post Err) A
  or_fail op e s =
      let (o, rest) = op s.rest in
      (elim o [ none ↦ failed e | some a ↦ done a ], record s { rest = rest })

  abbrev pub deposit_event : Event Post Err → Exec (State Rest Post Err) (Unit {0})
  deposit_event event s = (done tt, record s { events = s.events ++ (event ∷ []) })

-- Inversion of a success: the first part succeeded, and the rest from where it left off.
pub >>=-done :
    {S A B : Type 0} (m : Exec S A) (k : A → Exec S B) (s : S) {b : B} {t : S}
    → (m >>= k) s ≡ (done b, t)
    → (a : A) × ((m s).0 ≡ done a) × (k a (m s).1 ≡ (done b, t))
>>=-done m k s e = elim (Outcome-cases (m s).0) [
  | inl (a, ended) ↦ (a, ended, rw (ended, ◌>>=◌) at e)
  | inr (reason, stopped) ↦ cc (rw (stopped, ◌>>=◌) at e)
]

pub >>-done :
    {S A B : Type 0} (m : Exec S A) (k : Exec S B) (s : S) {b : B} {t : S}
    → (m >> k) s ≡ (done b, t)
    → (a : A) × ((m s).0 ≡ done a) × (k (m s).1 ≡ (done b, t))
>>-done m k s e = >>=-done m (λ _. k) s e

-- A part that succeeds hands its state on.
pub >>-run :
    {S A B : Type 0} (m : Exec S A) (k : Exec S B) (s : S) {a : A}
    → (m s).0 ≡ done a
    → (m >> k) s ≡ k (m s).1
>>-run m k s e = rw (e, ◌>>=◌)

-- Inversion of a failure: the first part failed, or the rest did from where it left off.
pub >>-failed :
    {S A B : Type 0} (m : Exec S A) (k : Exec S B) (s : S) {e : DispatchError}
    → ((m >> k) s).0 ≡ failed e
    → ((m s).0 ≡ failed e) ⊎ ((a : A) × ((m s).0 ≡ done a) × ((k (m s).1).0 ≡ failed e))
>>-failed m k s p = elim (Outcome-cases (m s).0) [
  | inl (a, ended) ↦ inr (a, ended, rw (ended, ◌>>=◌) at p)
  | inr (reason, stopped) ↦ inl (let q = rw (stopped, ◌>>=◌) at p in cc)
]
