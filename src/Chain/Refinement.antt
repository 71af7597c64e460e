-- ===== src/Chain/Refinement.antt =====
-- The chain against its abstract specification: what a batch of executed meta calls makes of the
-- nonces does not depend on their order, and is counted account by account.
use mathlib.Core.Quot.{Quot}
use substrate_evm_account_ma.Prelude.{
  inr, arith, bytes_eq_iff, inl, bytes_eq, Bool-cases, refl, ◌∷◌, u64_mod, ◌%◌, ap, ◌+◌, fun_ext,
  ◌==◌, if◌then◌else◌, length, ◌≡◌, List, ℕ,
}
use substrate_evm_account_ma.Account.{AccountId}
use substrate_evm_account_ma.Chain.{Run, StorageLayer, here, executed, other}
use substrate_evm_account_ma.Chain.Replay.{run_done, nonces_of}
use substrate_evm_account_ma.Host.{Host}
use substrate_evm_account_ma.Pallet.Frame.{Config, Frame}
use substrate_evm_account_ma.Pallet.Frame.Laws.{IsContained}
use substrate_evm_account_ma.Pallet.MetaCall.{insert}
use substrate_evm_account_ma.Pallet.MetaCall.Effects.{meta_call_nonces}
use substrate_evm_account_ma.Pallet.Types.{RawOrigin, State}
use mathlib.Core.Quot

-- Two lists of executed calls have as many of each account.
abbrev pub SameCalls : List (AccountId × ℕ) → List (AccountId × ℕ) → Type 0
SameCalls l l' = (a : AccountId) → length (nonces_of a l) ≡ length (nonces_of a l')

abbrev pub Batch : Type 0
Batch = Quot SameCalls

-- A nonce after a number of calls; a `u64` wraps.
abbrev pub raised : ℕ → ℕ → ℕ
raised n count = if count == 0 then n else (n + count) % u64_mod

-- The abstract machine: it sees the batch, and no order.
unfoldable pub settle : (AccountId → ℕ) → Batch → AccountId → ℕ
settle nonces =
    Quot.lift (hlevel) (λ l a. raised (nonces a) (length (nonces_of a l)))
      (λ l l' same. fun_ext (λ a. ap (raised (nonces a)) (same a)))

raised_next :
    (a who : AccountId) (n first : ℕ) (l : List (AccountId × ℕ)) (nonces : AccountId → ℕ)
    → nonces who ≡ n
    → nonces a ≡ raised first (length (nonces_of a l))
    → insert who ((n + 1) % u64_mod) nonces a ≡ raised first (length (nonces_of a ((who, n) ∷ l)))
unfolding insert
raised_next a who n first l nonces current before = elim (Bool-cases (bytes_eq a who)) [
  | inl same ↦
      let e : a ≡ who = (bytes_eq_iff a who).0 same in
      let at : n ≡ raised first (length (nonces_of a l)) = cc in rw same (ground arith)
  | inr differ ↦ rw differ before
]

module _ {RuntimeCall Rest Post Err Imbalance Liquidity : Type 0} (h : Host)
    (f : Frame RuntimeCall Rest Post Err Imbalance Liquidity)
    (c : Config RuntimeCall Rest Imbalance) (layer : StorageLayer (State Rest Post Err))
    (L : IsContained f) where
  Run-raised :
      (a : AccountId) {s t : State Rest Post Err} {l : List (AccountId × ℕ)}
      → Run h f c layer s l t
      → t.account_nonce a ≡ raised (s.account_nonce a) (length (nonces_of a l))
  Run-raised a here = refl
  Run-raised a {s} {t = u} (executed {l = l} {t = t} m v r valid e) =
      let (unsigned, current, moved) =
        meta_call_nonces f c RawOrigin.none m t u L (run_done h f c layer L m t u e) in
      rw (ap (λ (nonces : AccountId → ℕ). nonces a) moved)
        (raised_next a m.who m.nonce (s.account_nonce a) l t.account_nonce current (Run-raised a r))
  Run-raised a (other r same) = rw (ap (λ (nonces : AccountId → ℕ). nonces a) same) (Run-raised a r)

  -- Every run of the chain leaves the nonces that the abstract machine makes of the batch of its
  -- executed meta calls, which forgets their order. Assumes that inner calls leave the pallet's map
  -- alone.
  pub Run-settle :
      {s t : State Rest Post Err} {l : List (AccountId × ℕ)}
      → Run h f c layer s l t
      → t.account_nonce ≡ settle s.account_nonce (Quot.mk l)
  unfolding settle
  Run-settle r = fun_ext (λ a. Run-raised a r)
