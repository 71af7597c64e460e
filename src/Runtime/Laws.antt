-- ===== src/Runtime/Laws.antt =====
-- The runtime's pallet: which key signs for an account.
use substrate_evm_account_ma.Prelude.{some, Bytes, ◌≡◌}
use substrate_evm_account_ma.Host.{Host}
use substrate_evm_account_ma.Pallet.Frame.{Frame}
use substrate_evm_account_ma.Pallet.Frame.Laws.{IsSaturating}
use substrate_evm_account_ma.Pallet.Message.{eip712_message_hash}
use substrate_evm_account_ma.Pallet.Types.{ValidTransaction, MetaCall, State, Call}
use substrate_evm_account_ma.Pallet.Validate.{validate_unsigned}
use substrate_evm_account_ma.Pallet.Validate.Accept.{validate_unsigned_sound}
use substrate_evm_account_ma.Pallet.Verdict.{accept}
use substrate_evm_account_ma.Runtime.{runtime_config, Library}

module _ {RuntimeCall Rest Post Err Imbalance Liquidity : Type 0} (h : Host)
    (lib : Library Rest Imbalance) (f : Frame RuntimeCall Rest Post Err Imbalance Liquidity)
    (S : IsSaturating f) where
  -- The signature of a call that the runtime accepts recovers, over the message's hash, to a
  -- compressed key whose Blake2 hash is the caller's account. Assumes that conversions of numbers
  -- saturate.
  pub accepted_key :
      (s : State Rest Post Err) (m : MetaCall RuntimeCall) (v : ValidTransaction)
      → validate_unsigned h f (runtime_config h lib) s (Call.meta_call m) ≡ accept v
      → (key : Bytes) × (h.secp256k1_ecdsa_recover_compressed m.signature (
            eip712_message_hash h
              (runtime_config {RuntimeCall = RuntimeCall} h lib)
              m.who
              (f.encode m.call)
              m.nonce)
          ≡ some key)
        × (h.account_id32_decode (h.blake2_256 key) ≡ some m.who)
  accepted_key s m v e =
      let a = (validate_unsigned_sound h f (runtime_config h lib) s m v S e).0 in
      let (key, recovered_key, converted) = a.signed in (key, recovered_key, cc converted)
