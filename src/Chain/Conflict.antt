-- ===== src/Chain/Conflict.antt =====
-- Two calls that the transaction pool sees under one tag.
use substrate_evm_account_ma.Prelude.{arith, u64_mod, ◌+◌, ap, ℕ, ◌^◌, List, ◌<◌, ◌≡◌, length}
use substrate_evm_account_ma.Account.{AccountId}
use substrate_evm_account_ma.Chain.{Run, StorageLayer}
use substrate_evm_account_ma.Chain.Replay.{executed_is_behind, nonces_of}
use substrate_evm_account_ma.Host.{Host}
use substrate_evm_account_ma.Host.Laws.{IsScale}
use substrate_evm_account_ma.Pallet.Exec.{done}
use substrate_evm_account_ma.Pallet.Frame.{Config, Frame}
use substrate_evm_account_ma.Pallet.Frame.Laws.{IsContained, IsSaturating}
use substrate_evm_account_ma.Pallet.MetaCall.{meta_call}
use substrate_evm_account_ma.Pallet.Types.{
  State, MetaCall, RawOrigin, Call, ValidTransaction, stale,
}
use substrate_evm_account_ma.Pallet.Validate.{validate_unsigned}
use substrate_evm_account_ma.Pallet.Validate.Accept.{validate_unsigned_sound}
use substrate_evm_account_ma.Pallet.Validate.Reject.{validate_unsigned-reject}
use substrate_evm_account_ma.Pallet.Verdict.{reject, accept}

module _ {RuntimeCall Rest Post Err Imbalance Liquidity : Type 0} (h : Host)
    (f : Frame RuntimeCall Rest Post Err Imbalance Liquidity)
    (c : Config RuntimeCall Rest Imbalance) where
  -- What the types of the caller and the nonce give.
  pub record IsSized (m : MetaCall RuntimeCall) : Type 0 where
    pub who_fits : length m.who ≡ 32
    pub nonce_fits : m.nonce < 2 ^ 64

  -- Accepted calls with one tag have one caller and one nonce.
  same_tag :
      (m m' : MetaCall RuntimeCall) (v v' : ValidTransaction) (s s' : State Rest Post Err)
      → IsSaturating f
      → IsScale h
      → IsSized m
      → IsSized m'
      → validate_unsigned h f c s (Call.meta_call m) ≡ accept v
      → validate_unsigned h f c s' (Call.meta_call m') ≡ accept v'
      → v.provides ≡ v'.provides
      → (m.who ≡ m'.who) × (m.nonce ≡ m'.nonce)
  same_tag m m' v v' s s' S E z z' valid valid' tags =
      let (p, computed, built) = (validate_unsigned_sound h f c s m v S valid).1 in
      let (p', computed', built') = (validate_unsigned_sound h f c s' m' v' S valid').1 in
      E m.who m'.who m.nonce m'.nonce z.who_fits z'.who_fits z.nonce_fits z'.nonce_fits (cc)

  module _ (layer : StorageLayer (State Rest Post Err)) (L : IsContained f) where
    -- Of accepted calls that provide one tag, at most one is executed: once one of them is, the others
    -- are stale in every later state, as long as the caller's nonce fits a `u64`. Assumes that
    -- accounts have 32 bytes and nonces are `u64`s, that SCALE codes are unique, that inner calls
    -- leave the pallet's map alone and that conversions of numbers saturate.
    pub conflicting_is_stale :
        (m m' : MetaCall RuntimeCall) (v v' : ValidTransaction) (s' : State Rest Post Err)
        {s t u : State Rest Post Err} {l : List (AccountId × ℕ)}
        → IsSaturating f
        → IsScale h
        → IsSized m
        → IsSized m'
        → validate_unsigned h f c s (Call.meta_call m) ≡ accept v
        → validate_unsigned h f c s' (Call.meta_call m') ≡ accept v'
        → v.provides ≡ v'.provides
        → layer.run (meta_call f c RawOrigin.none m) s ≡ (done tt, t)
        → Run h f c layer t l u
        → m.nonce + 1 + length (nonces_of m.who l) < u64_mod
        → validate_unsigned h f c u (Call.meta_call m') ≡ reject stale
    conflicting_is_stale m m' v v' s' {s} {t} {u} S E z z' valid valid' tags e r fits =
        let (same_who, same_nonce) = same_tag m m' v v' s s' S E z z' valid valid' tags in
        let behind = executed_is_behind h f c layer L m e r fits in
        let at = ap u.account_nonce same_who in
        (validate_unsigned-reject h f c u m' stale S).1 (
          (validate_unsigned_sound h f c s' m' v' S valid').0.signed,
          omega (arith, behind, at, same_nonce),
        )
