-- ===== src/Runtime/Elsewhere.antt =====
-- A signature on other chains and under later versions of the runtime.
use substrate_evm_account_ma.Prelude.{sym, ◌≡◌, ℕ, ap, ◌∙◌, Bytes}
use substrate_evm_account_ma.Host.{Host}
use substrate_evm_account_ma.Pallet.Frame.{Frame}
use substrate_evm_account_ma.Pallet.Frame.Laws.{IsSaturating}
use substrate_evm_account_ma.Pallet.Message.{eip712_message_hash}
use substrate_evm_account_ma.Pallet.Types.{ValidTransaction, MetaCall, State, Call}
use substrate_evm_account_ma.Pallet.Validate.{validate_unsigned}
use substrate_evm_account_ma.Pallet.Validate.Accept.{
  validate_unsigned_sound, validate_unsigned_complete, IsFunded, IsSigned, accepted,
}
use substrate_evm_account_ma.Pallet.Validate.Priority.{HasRoom}
use substrate_evm_account_ma.Pallet.Verdict.{accept}
use substrate_evm_account_ma.Runtime.{runtime_config, Library}

-- Two runtimes, each with its calls and storage, over one host.
module _ {RuntimeCall Rest Post Err Imbalance Liquidity : Type 0}
    {RuntimeCall' Rest' Post' Err' Imbalance' Liquidity' : Type 0} (h : Host)
    (lib : Library Rest Imbalance) (lib' : Library Rest' Imbalance')
    (f : Frame RuntimeCall Rest Post Err Imbalance Liquidity)
    (f' : Frame RuntimeCall' Rest' Post' Err' Imbalance' Liquidity') where
  -- The calls are of one account and nonce, with one signature and the same bytes.
  pub record IsCopy (m : MetaCall RuntimeCall) (m' : MetaCall RuntimeCall') : Type 0 where
    pub who : m'.who ≡ m.who
    pub nonce : m'.nonce ≡ m.nonce
    pub signature : m'.signature ≡ m.signature
    pub bytes : f'.encode m'.call ≡ f.encode m.call

  same_hash :
      (who call_data : Bytes) (nonce : ℕ)
      → lib.u256_from 0 ≡ lib'.u256_from 0
      → eip712_message_hash h (runtime_config {RuntimeCall = RuntimeCall} h lib) who call_data nonce
        ≡ eip712_message_hash h
            (runtime_config {RuntimeCall = RuntimeCall'} h lib')
            who
            call_data
            nonce
  unfolding eip712_message_hash
  same_hash who call_data nonce e =
      ap
        (λ id.
          eip712_message_hash h
            (record (runtime_config {RuntimeCall = RuntimeCall} h lib) { eip712_chain_id = id }) who
            call_data nonce)
        e

  copy-IsSigned :
      (m : MetaCall RuntimeCall) (m' : MetaCall RuntimeCall')
      → lib.u256_from 0 ≡ lib'.u256_from 0
      → IsCopy m m'
      → IsSigned h f (runtime_config h lib) m
      → IsSigned h f' (runtime_config h lib') m'
  copy-IsSigned m m' e same (key, recovers, converted) =
      rw (same.who, same.nonce, same.signature, same.bytes)
        (
          key,
          ap (h.secp256k1_ecdsa_recover_compressed m.signature)
                (sym (same_hash m.who (f.encode m.call) m.nonce e))
              ∙ recovers,
          converted,
        )

  -- A call that one chain of this runtime accepts is accepted, with its signature, by any other
  -- that configures the pallet the same way, whatever its genesis and the version and calls of its
  -- runtime, as a call of the same bytes: if the account's nonce there is the same, its balance
  -- covers the fees and there is room in a block. Assumes that zero is one `U256` and that
  -- conversions of numbers saturate.
  pub accepted_elsewhere :
      (s : State Rest Post Err) (s' : State Rest' Post' Err') (m : MetaCall RuntimeCall)
      (m' : MetaCall RuntimeCall') (v : ValidTransaction)
      → IsSaturating f
      → IsSaturating f'
      → lib.u256_from 0 ≡ lib'.u256_from 0
      → IsCopy m m'
      → validate_unsigned h f (runtime_config h lib) s (Call.meta_call m) ≡ accept v
      → m'.nonce ≡ s'.account_nonce m'.who
      → IsFunded h f' (runtime_config h lib') m' s'.rest
      → HasRoom h f' (runtime_config h lib') m'
      → (p : ℕ) × (validate_unsigned h f' (runtime_config h lib') s' (Call.meta_call m')
          ≡ accept (accepted h f' (runtime_config h lib') m' p))
  accepted_elsewhere s s' m m' v S S' e same valid current funded room =
      let a = (validate_unsigned_sound h f (runtime_config h lib) s m v S valid).0 in
      validate_unsigned_complete h f' (runtime_config h lib') s' m' S' (record {
        signed = copy-IsSigned m m' e same a.signed;
        current = current;
        funded = funded;
        room = room;
      })
