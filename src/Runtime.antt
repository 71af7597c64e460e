-- ===== src/Runtime.antt =====
-- runtime/src/lib.rs: the constants of the runtime and its configuration of the pallet. The tables of API versions
-- and what `construct_runtime!` generates are left out.
pub mod Laws
pub mod Authority
pub mod Elsewhere
pub mod Api
pub mod Pallets
pub mod Benches
use substrate_evm_account_ma.Prelude.{replicate, true, u64_max, ◌*◌, ◌/◌, Bytes, as_bytes, ℕ}
use substrate_evm_account_ma.Account.{substrate_address_converter}
use substrate_evm_account_ma.Encode.{U256}
use substrate_evm_account_ma.Host.{Host}
use substrate_evm_account_ma.Pallet.Frame.{Config}
use substrate_evm_account_ma.Pallet.Types.{Weight, DispatchClass}
use substrate_evm_account_ma.Pallet.Weights.{DbWeight, substrate_weight_meta_call}

abbrev pub millisecs_per_block : ℕ
millisecs_per_block = 6000

abbrev pub slot_duration : ℕ
slot_duration = millisecs_per_block

abbrev pub minutes : ℕ
minutes = 60000 / millisecs_per_block

abbrev pub hours : ℕ
hours = minutes * 60

abbrev pub days : ℕ
days = hours * 24

abbrev pub block_hash_count : ℕ
block_hash_count = 2400

abbrev pub existential_deposit : ℕ
existential_deposit = 500

-- `SS58Prefix`
abbrev pub ss58_prefix : ℕ
ss58_prefix = 42

-- `pallet_aura::Config::MaxAuthorities`, and that of `pallet_grandpa::Config`
abbrev pub max_authorities : ℕ
max_authorities = 32

-- `pallet_timestamp::Config::MinimumPeriod`
abbrev pub minimum_period : ℕ
minimum_period = slot_duration / 2

-- `pallet_evm_account_mapping::Config::ServiceFee`
abbrev pub service_fee : ℕ
service_fee = 10000000000

-- `RuntimeVersion`, less `apis`.
pub record RuntimeVersion : Type 0 where
  pub spec_name : Bytes
  pub impl_name : Bytes
  pub authoring_version : ℕ
  pub spec_version : ℕ
  pub impl_version : ℕ
  pub transaction_version : ℕ
  pub state_version : ℕ

abbrev pub version : RuntimeVersion
version = record {
  spec_name = as_bytes "node-template";
  impl_name = as_bytes "node-template";
  authoring_version = 1;
  spec_version = 100;
  impl_version = 1;
  transaction_version = 1;
  state_version = 1;
}

-- In percent.
abbrev pub normal_dispatch_ratio : ℕ
normal_dispatch_ratio = 75

-- What the configuration calls: dropping an imbalance of the balances, `U256::from`, the limits of
-- `frame_system`, and the weights of the database.
pub record Library (Rest Imbalance : Type 0) : Type 0 where
  pub drop_imbalance : Imbalance → Rest → Rest
  pub u256_from : ℕ → U256
  pub weight_ref_time_per_second : ℕ
  pub with_sensible_defaults : Weight → ℕ → Weight
  pub max_with_normal_ratio : ℕ → ℕ → DispatchClass → ℕ
  pub weight_saturating_add : Weight → Weight → Weight
  pub db_weight : DbWeight

module _ {Rest Imbalance : Type 0} (lib : Library Rest Imbalance) where
  -- `DealWithServiceFee::on_nonzero_unbalanced`
  abbrev pub deal_with_service_fee : Imbalance → Rest → Rest
  deal_with_service_fee amount = lib.drop_imbalance amount

  -- `BlockWeights`, its `max_block`
  abbrev pub block_weights : Weight
  block_weights =
      lib.with_sensible_defaults
        (record { ref_time = 2 * lib.weight_ref_time_per_second; proof_size = u64_max })
        normal_dispatch_ratio

  -- `BlockLength`, its `max`
  abbrev pub block_length : DispatchClass → ℕ
  block_length = lib.max_with_normal_ratio (5 * 1024 * 1024) normal_dispatch_ratio

-- `impl pallet_evm_account_mapping::Config for Runtime`, and what `frame_system` is given.
abbrev pub runtime_config :
    {RuntimeCall Rest Imbalance : Type 0}
    → Host
    → Library Rest Imbalance
    → Config RuntimeCall Rest Imbalance
runtime_config h lib = record {
  address_converter = substrate_address_converter h;
  service_fee = service_fee;
  on_unbalanced_for_service_fee = deal_with_service_fee lib;
  call_filter = λ call. true;
  eip712_name = as_bytes "Substrate";
  eip712_version = as_bytes "1";
  eip712_chain_id = lib.u256_from 0;
  eip712_verifying_contract_address = replicate 20 0;
  weight_info_meta_call = substrate_weight_meta_call lib.weight_saturating_add lib.db_weight;
  ss58_prefix = ss58_prefix;
  max_block = block_weights lib;
  max_length = block_length lib;
}
