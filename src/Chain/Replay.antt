-- ===== src/Chain/Replay.antt =====
-- No meta call is executed twice: an account's nonces are used one after the other.
-- The nonces of one account among those executed.
use mathlib.Core.Path.{ap₂}
use substrate_evm_account_ma.Prelude.{
  refl, ap, ◌∙◌, sym, bytes_eq_iff, inr, arith, inl, ◌%◌, bytes_eq, u64_mod, Bool-cases,
  if◌then◌else◌, zero, ◌<◌, ◌∷◌, suc, ◌+◌, ◌≤◌, [], length, ◌≡◌, List, ℕ,
}
use substrate_evm_account_ma.Account.{AccountId}
use substrate_evm_account_ma.Chain.{here, executed, other, Run, StorageLayer}
use substrate_evm_account_ma.Host.{Host}
use substrate_evm_account_ma.Pallet.Exec.{Outcome-cases, done}
use substrate_evm_account_ma.Pallet.Frame.{Config, Frame}
use substrate_evm_account_ma.Pallet.Frame.Laws.{IsSaturating, IsContained}
use substrate_evm_account_ma.Pallet.MetaCall.{meta_call, insert}
use substrate_evm_account_ma.Pallet.MetaCall.Effects.{meta_call_nonces}
use substrate_evm_account_ma.Pallet.MetaCall.Stages.{insert_self}
use substrate_evm_account_ma.Pallet.Types.{
  stale, Call, RawOrigin, ValidTransaction, MetaCall, State,
}
use substrate_evm_account_ma.Pallet.Validate.{validate_unsigned}
use substrate_evm_account_ma.Pallet.Validate.Accept.{validate_unsigned_sound}
use substrate_evm_account_ma.Pallet.Validate.Reject.{validate_unsigned-reject}
use substrate_evm_account_ma.Pallet.Verdict.{reject, accept}

abbrev pub nonces_of : AccountId → List (AccountId × ℕ) → List ℕ
nonces_of a [] = []
nonces_of a ((who, n) ∷ l) = if bytes_eq a who then n ∷ nonces_of a l else nonces_of a l

-- `count` numbers from `first` on, the last one first.
abbrev pub counting : ℕ → ℕ → List ℕ
counting first zero = []
counting first (suc count) = (first + count) ∷ counting first count

nonces_of-le :
    (a who : AccountId) (n : ℕ) (l : List (AccountId × ℕ))
    → length (nonces_of a l) ≤ length (nonces_of a ((who, n) ∷ l))
nonces_of-le a who n l = elim (Bool-cases (bytes_eq a who)) [
  | inl same ↦ rw same (omega arith)
  | inr differ ↦ rw differ (omega arith)
]

-- One more executed call, seen from an account.
next_nonces :
    (a who : AccountId) (n first : ℕ) (l : List (AccountId × ℕ)) (nonces : AccountId → ℕ)
    → nonces who ≡ n
    → first + length (nonces_of a ((who, n) ∷ l)) < u64_mod
    → (nonces a ≡ first + length (nonces_of a l))
      × (nonces_of a l ≡ counting first (length (nonces_of a l)))
    → (insert who ((n + 1) % u64_mod) nonces a ≡ first + length (nonces_of a ((who, n) ∷ l)))
      × (nonces_of a ((who, n) ∷ l) ≡ counting first (length (nonces_of a ((who, n) ∷ l))))
unfolding insert
next_nonces a who n first l nonces current small (before, listed) =
    elim (Bool-cases (bytes_eq a who)) [
      | inl same ↦
          let e : a ≡ who = (bytes_eq_iff a who).0 same in
          let at : n ≡ first + length (nonces_of a l) = cc in
          let fits = rw same at small in rw same (omega arith, ap₂ (λ x xs. x ∷ xs) at listed)
      | inr differ ↦ rw differ (before, listed)
    ]

module _ {RuntimeCall Rest Post Err Imbalance Liquidity : Type 0} (h : Host)
    (f : Frame RuntimeCall Rest Post Err Imbalance Liquidity)
    (c : Config RuntimeCall Rest Imbalance) (layer : StorageLayer (State Rest Post Err))
    (L : IsContained f) where
  -- A call that comes through the layer with a success was one.
  pub run_done :
      (m : MetaCall RuntimeCall) (t u : State Rest Post Err)
      → layer.run (meta_call f c RawOrigin.none m) t ≡ (done tt, u)
      → meta_call f c RawOrigin.none m t ≡ (done tt, u)
  run_done m t u e = elim (Outcome-cases (meta_call f c RawOrigin.none m t).0) [
    | inl (a, ok) ↦ sym (layer.keeps_success (meta_call f c RawOrigin.none m) t ok) ∙ e
    | inr (reason, bad) ↦ cc (layer.undoes_failure (meta_call f c RawOrigin.none m) t reason bad)
  ]

  -- In every run, as long as the nonce fits a `u64`: an account's nonce has grown by the number of
  -- its meta calls executed, and these had the nonces from the first on, each once and in order.
  -- Assumes that inner calls leave the pallet's map alone.
  pub Run-nonces :
      (a : AccountId) {s t : State Rest Post Err} {l : List (AccountId × ℕ)}
      → Run h f c layer s l t
      → s.account_nonce a + length (nonces_of a l) < u64_mod
      → (t.account_nonce a ≡ s.account_nonce a + length (nonces_of a l))
        × (nonces_of a l ≡ counting (s.account_nonce a) (length (nonces_of a l)))
  Run-nonces a here fits = (omega arith, refl)
  Run-nonces a {s} {t = u} (executed {l = l} {t = t} m v r valid e) fits =
      let (unsigned, current, moved) =
        meta_call_nonces f c RawOrigin.none m t u L (run_done m t u e) in
      let ih = Run-nonces a r (omega (arith, nonces_of-le a m.who m.nonce l)) in
      rw (ap (λ (nonces : AccountId → ℕ). nonces a) moved)
        (next_nonces a m.who m.nonce (s.account_nonce a) l t.account_nonce current fits ih)
  Run-nonces a (other r same) fits =
      rw (ap (λ (nonces : AccountId → ℕ). nonces a) same) (Run-nonces a r fits)

  -- An executed call moves its caller's nonce on by one.
  pub executed_next :
      (m : MetaCall RuntimeCall) {s t : State Rest Post Err}
      → layer.run (meta_call f c RawOrigin.none m) s ≡ (done tt, t)
      → m.nonce + 1 < u64_mod
      → t.account_nonce m.who ≡ m.nonce + 1
  executed_next m {s} {t} e fits =
      let (unsigned, current, moved) =
        meta_call_nonces f c RawOrigin.none m s t L (run_done m s t e) in
      rw (ap (λ (nonces : AccountId → ℕ). nonces m.who) moved)
        (insert_self m.who m.nonce s.account_nonce fits)

  -- The nonce of an executed call is behind its caller's in every later state.
  pub executed_is_behind :
      (m : MetaCall RuntimeCall) {s t u : State Rest Post Err} {l : List (AccountId × ℕ)}
      → layer.run (meta_call f c RawOrigin.none m) s ≡ (done tt, t)
      → Run h f c layer t l u
      → m.nonce + 1 + length (nonces_of m.who l) < u64_mod
      → m.nonce < u.account_nonce m.who
  executed_is_behind m {s} {t} {u} {l} e r fits =
      let next = executed_next m e (omega arith) in
      omega (arith, (Run-nonces m.who r (omega arith)).0)

  -- A meta call that was accepted and executed is stale in every later state, as long as the
  -- caller's nonce fits a `u64`. Assumes that inner calls leave the map alone, and that conversions
  -- of numbers saturate.
  pub executed_is_stale :
      (m : MetaCall RuntimeCall) (v : ValidTransaction) {s t u : State Rest Post Err}
      {l : List (AccountId × ℕ)}
      → IsSaturating f
      → validate_unsigned h f c s (Call.meta_call m) ≡ accept v
      → layer.run (meta_call f c RawOrigin.none m) s ≡ (done tt, t)
      → Run h f c layer t l u
      → m.nonce + 1 + length (nonces_of m.who l) < u64_mod
      → validate_unsigned h f c u (Call.meta_call m) ≡ reject stale
  executed_is_stale m v {s} {t} {u} {l} S valid e r fits =
      (validate_unsigned-reject h f c u m stale S).1
        ((validate_unsigned_sound h f c s m v S valid).0.signed, executed_is_behind m e r fits)
