-- ===== src/Pallet/Validate.antt =====
-- `validate_unsigned`, stage by stage as the source has them.
pub mod Priority
pub mod Tip
pub mod Accept
pub mod Reject
pub mod Panic
use substrate_evm_account_ma.Prelude.{
  ℕ, ◌+◌, ◌-◌, ◌/◌, ◌%◌, min, Bool, true, false, ◌&&◌, not, Option, none, some, List, [], ◌∷◌,
  Bytes, bytes_eq, as_bytes, ltb, ◌==◌, if◌then◌else◌, unwrap_or, clamp, u32_mod, u64_max, u128_max,
  saturating_add_u128, saturating_mul_u128,
}
use substrate_evm_account_ma.Prelude.Checked.{Checked}
use substrate_evm_account_ma.Account.{AccountId, Secp256K1PublicKeyForm, compressed, uncompressed}
use substrate_evm_account_ma.Host.{Host}
use substrate_evm_account_ma.Pallet.Frame.{Frame, Config}
use substrate_evm_account_ma.Pallet.Message.{eip712_message_hash}
use substrate_evm_account_ma.Pallet.Types.{
  Weight, DispatchInfo, InvalidTransaction, bad_signer, stale, future, payment, ValidTransaction,
  State, MetaCall, Call, meta_call, ignore, preserve, polite,
}
use substrate_evm_account_ma.Pallet.Verdict.{
  Verdict, accept, reject, ◌>>=◌, ◌>>◌, reject_if, or_reject, lift, or_panic,
}

-- The two recoveries, by the form of key that the converter wants.
abbrev pub recover : Host → Secp256K1PublicKeyForm → Bytes → Bytes → Option Bytes
recover h compressed signature message_hash =
    h.secp256k1_ecdsa_recover_compressed signature message_hash
recover h uncompressed signature message_hash = h.secp256k1_ecdsa_recover signature message_hash

-- The account that the key converts to must be the caller.
abbrev pub check_account : AccountId → Checked (Option AccountId) → Verdict (Unit {0})
check_account who converted = do
  converted_account ← lift converted
  decoded_account ← or_reject converted_account InvalidTransaction.call
  reject_if (not (bytes_eq who decoded_account)) bad_signer

module _ {RuntimeCall Rest Post Err Imbalance Liquidity : Type 0} (h : Host)
    (f : Frame RuntimeCall Rest Post Err Imbalance Liquidity)
    (c : Config RuntimeCall Rest Imbalance) where
  -- The signature is recovered to a key, and the key's account must be the caller.
  unfoldable pub check_signer : MetaCall RuntimeCall → Verdict (Unit {0})
  check_signer m = do
    let call_data = f.encode m.call
    let message_hash = eip712_message_hash h c m.who call_data m.nonce
    recovered_public_key ←
        or_reject (recover h c.address_converter.secp256k1_public_key_form m.signature message_hash)
          InvalidTransaction.call
    check_account m.who (c.address_converter.try_convert recovered_public_key)

  -- The tag of the nonce before, wanted where this nonce is ahead of the account's.
  abbrev pub requires : MetaCall RuntimeCall → ℕ → Option Bytes
  requires m account_nonce =
      if ltb account_nonce m.nonce && ltb 0 m.nonce
      then some (h.encode_who_nonce m.who (m.nonce - 1))
      else none

  -- The tags, where the nonce is the account's.
  unfoldable pub check_nonce : MetaCall RuntimeCall → ℕ → Verdict (Bytes × Option Bytes)
  check_nonce m account_nonce = do
    reject_if (ltb m.nonce account_nonce) stale
    let provides = h.encode_who_nonce m.who m.nonce
    reject_if (not (m.nonce == account_nonce)) (if ltb m.nonce account_nonce then stale else future)
    accept (provides, requires m account_nonce)

  -- `compute_fee(len as u32, &info, tip)`, which `meta_call` computes too.
  abbrev pub estimated_fee : MetaCall RuntimeCall → Rest → ℕ
  estimated_fee m rest =
      f.compute_fee (f.encoded_size m.call % u32_mod) (f.get_dispatch_info m.call)
        (unwrap_or m.tip 0) rest

  unfoldable pub check_payment : MetaCall RuntimeCall → Rest → Verdict (Unit {0})
  check_payment m rest = do
    let est_fee = f.saturated_into u128_max (estimated_fee m rest)
    let service_fee = f.saturated_into u128_max c.service_fee
    let usable_balance_for_fees =
        f.saturated_into u128_max (f.reducible_balance m.who preserve polite rest)
    reject_if (ltb usable_balance_for_fees (saturating_add_u128 est_fee service_fee)) payment

  -- How many such transactions fit into an empty block; the bounds of `clamp` may cross.
  unfoldable pub max_tx_per_block : ℕ → DispatchInfo → Verdict ℕ
  max_tx_per_block len info = do
    let max_block_length = c.max_length info.class
    let bounded_weight =
        f.weight_min (f.weight_max info.weight (record { ref_time = 1; proof_size = 1 }))
          c.max_block
    bounded_length ← or_panic (clamp len 1 max_block_length)
    let max_tx_per_block_weight =
        unwrap_or (f.defensive_proof (f.checked_div_per_component c.max_block bounded_weight)) 1
    let max_tx_per_block_length = max_block_length / bounded_length
    accept (min max_tx_per_block_length max_tx_per_block_weight)

  unfoldable pub priority : MetaCall RuntimeCall → Verdict ℕ
  priority m = do
    count ← max_tx_per_block (f.encoded_size m.call) (f.get_dispatch_info m.call)
    let scaled_tip =
        saturating_mul_u128 (saturating_add_u128 (unwrap_or m.tip 0) 1)
          (f.saturated_into u128_max count)
    accept (f.saturated_into u64_max scaled_tip)

  -- `and_requires`, if there is a tag
  abbrev pub build : ℕ → Bytes → Option Bytes → ValidTransaction
  build priority provides requires = record {
    tag_prefix = as_bytes "EVMAccountMapping";
    priority = priority;
    provides = provides ∷ [];
    requires = elim requires [ none ↦ [] | some tag ↦ tag ∷ [] ];
    longevity = 5;
    propagate = true;
  }

  unfoldable pub validate_unsigned :
      State Rest Post Err → Call RuntimeCall → Verdict ValidTransaction
  validate_unsigned s ignore = reject InvalidTransaction.call
  validate_unsigned s (meta_call m) = do
    check_signer m
    (provides, requires) ← check_nonce m (s.account_nonce m.who)
    check_payment m s.rest
    priority ← priority m
    accept (build priority provides requires)
