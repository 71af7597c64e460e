-- ===== src/Pallet/Frame.antt =====
-- The operations of FRAME that the pallet calls, and the pallet's configuration. FRAME, the
-- transaction payment pallet and the runtime's other pallets are outside the repository: they are
-- the parameter `Frame`. An operation that may fail returns the storage in both cases.
pub mod Laws
use substrate_evm_account_ma.Prelude.{ℕ, Bool, Option, Bytes}
use substrate_evm_account_ma.Encode.{U256}
use substrate_evm_account_ma.Account.{AccountId, AddressConversion}
use substrate_evm_account_ma.Pallet.Types.{
  Weight, DispatchClass, DispatchInfo, RawOrigin, WithdrawReasons, ExistenceRequirement,
  Preservation, Fortitude, DispatchResult, State,
}

pub record Frame (RuntimeCall Rest Post Err Imbalance Liquidity : Type 0) : Type 0 where
  -- the runtime's call
  pub encode : RuntimeCall → Bytes
  pub encoded_size : RuntimeCall → ℕ
  pub get_dispatch_info : RuntimeCall → DispatchInfo
  pub dispatch :
      RuntimeCall
      → RawOrigin
      → (RuntimeCall → Bool)
      → State Rest Post Err
      → DispatchResult Post Err × State Rest Post Err
  -- `Currency`
  pub withdraw :
      AccountId → ℕ → WithdrawReasons → ExistenceRequirement → Rest → Option Imbalance × Rest
  pub peek : Imbalance → ℕ
  pub reducible_balance : AccountId → Preservation → Fortitude → Rest → ℕ
  -- `pallet_transaction_payment`, and `OnChargeTransaction`
  pub compute_fee : ℕ → DispatchInfo → ℕ → Rest → ℕ
  pub compute_actual_fee : ℕ → DispatchInfo → Post → ℕ → Rest → ℕ
  pub withdraw_fee : AccountId → RuntimeCall → DispatchInfo → ℕ → ℕ → Rest → Option Liquidity × Rest
  pub correct_and_deposit_fee :
      AccountId → DispatchInfo → Post → ℕ → ℕ → Liquidity → Rest → Bool × Rest
  -- `SaturatedConversion::saturated_into`, into the type whose maximum is given
  pub saturated_into : ℕ → ℕ → ℕ
  -- `Weight`, and `Defensive`
  pub weight_max : Weight → Weight → Weight
  pub weight_min : Weight → Weight → Weight
  pub checked_div_per_component : Weight → Weight → Option ℕ
  pub weight_saturating_add : Weight → Weight → Weight
  pub defensive_proof : Option ℕ → Option ℕ

-- The pallet's `Config`, and the constants of `frame_system::Config` that the pallet reads.
pub record Config (RuntimeCall Rest Imbalance : Type 0) : Type 0 where
  pub address_converter : AddressConversion
  pub service_fee : ℕ
  pub on_unbalanced_for_service_fee : Imbalance → Rest → Rest
  pub call_filter : RuntimeCall → Bool
  pub eip712_name : Bytes
  pub eip712_version : Bytes
  pub eip712_chain_id : U256
  pub eip712_verifying_contract_address : Bytes
  -- `WeightInfo::meta_call`
  pub weight_info_meta_call : Weight
  pub ss58_prefix : ℕ
  -- `BlockWeights::get().max_block` and `BlockLength::get().max`
  pub max_block : Weight
  pub max_length : DispatchClass → ℕ
