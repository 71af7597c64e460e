-- ===== src/Chain.antt =====
-- The meta calls of a chain in sequence. The executive, which is not in the repository, validates an
-- unsigned extrinsic by `validate_unsigned` before it dispatches it with no origin, inside a storage
-- layer that undoes what a failed call wrote.
pub mod Replay
pub mod Refinement
pub mod Conflict
pub mod Progress
pub mod Later
pub mod Tip
pub mod Queue
use substrate_evm_account_ma.Prelude.{◌∷◌, [], ℕ, List, ◌≡◌}
use substrate_evm_account_ma.Account.{AccountId}
use substrate_evm_account_ma.Host.{Host}
use substrate_evm_account_ma.Pallet.Exec.{failed, done, Exec}
use substrate_evm_account_ma.Pallet.Frame.{Config, Frame}
use substrate_evm_account_ma.Pallet.MetaCall.{meta_call}
use substrate_evm_account_ma.Pallet.Types.{
  RawOrigin, Call, ValidTransaction, MetaCall, DispatchError, State,
}
use substrate_evm_account_ma.Pallet.Validate.{validate_unsigned}
use substrate_evm_account_ma.Pallet.Verdict.{accept}

-- FRAME's storage layer around a dispatchable.
pub record StorageLayer (S : Type 0) : Type 0 where
  pub run : Exec S (Unit {0}) → Exec S (Unit {0})
  pub keeps_success : (m : Exec S (Unit {0})) (s : S) → (m s).0 ≡ done tt → run m s ≡ m s
  pub undoes_failure :
      (m : Exec S (Unit {0})) (s : S) (e : DispatchError)
      → (m s).0 ≡ failed e
      → run m s ≡ (failed e, s)

module _ {RuntimeCall Rest Post Err Imbalance Liquidity : Type 0} (h : Host)
    (f : Frame RuntimeCall Rest Post Err Imbalance Liquidity)
    (c : Config RuntimeCall Rest Imbalance) (layer : StorageLayer (State Rest Post Err)) where
  -- From one state to another, with the callers and nonces of the meta calls executed on the way,
  -- the newest first. Any other extrinsic leaves this pallet's map alone.
  pub data Run (s : State Rest Post Err) : List (AccountId × ℕ) → State Rest Post Err → Type 0 where
    here : Run s [] s
    executed :
        {l : List (AccountId × ℕ)} {t u : State Rest Post Err} (m : MetaCall RuntimeCall)
        (v : ValidTransaction)
        → Run s l t
        → validate_unsigned h f c t (Call.meta_call m) ≡ accept v
        → layer.run (meta_call f c RawOrigin.none m) t ≡ (done tt, u)
        → Run s ((m.who, m.nonce) ∷ l) u
    other :
        {l : List (AccountId × ℕ)} {t u : State Rest Post Err}
        → Run s l t
        → u.account_nonce ≡ t.account_nonce
        → Run s l u
