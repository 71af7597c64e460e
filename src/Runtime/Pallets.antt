-- ===== src/Runtime/Pallets.antt =====
-- runtime/src/lib.rs: the pallets of the runtime, the checks of a signed extrinsic, and the constants
-- of the other pallets' configurations. A pallet's index in the calls is its place in the list.
use substrate_evm_account_ma.Prelude.{ℕ, List, [], ◌∷◌}
use substrate_evm_account_ma.Runtime.{RuntimeVersion, version, existential_deposit}

-- `construct_runtime!`
pub data Pallet : Type 0 where
  system timestamp aura grandpa balances transaction_payment sudo evm_account_mapping : Pallet

abbrev pub runtime_pallets : List Pallet
runtime_pallets =
    system ∷ timestamp ∷ aura ∷ grandpa ∷ balances ∷ transaction_payment ∷ sudo
    ∷ evm_account_mapping ∷ []

-- `SignedExtra`
pub data SignedExtension : Type 0 where
  check_non_zero_sender check_spec_version check_tx_version check_genesis check_era check_nonce
        check_weight charge_transaction_payment :
      SignedExtension

abbrev pub signed_extra : List SignedExtension
signed_extra =
    check_non_zero_sender ∷ check_spec_version ∷ check_tx_version ∷ check_genesis ∷ check_era
    ∷ check_nonce ∷ check_weight ∷ charge_transaction_payment ∷ []

-- `opaque::SessionKeys`
pub data SessionKey : Type 0 where
  aura grandpa : SessionKey

abbrev pub session_keys : List SessionKey
session_keys = SessionKey.aura ∷ SessionKey.grandpa ∷ []

-- `frame_system::Config for Runtime`
abbrev pub max_consumers : ℕ
max_consumers = 16

-- `pallet_balances::Config for Runtime`
pub record BalancesConfig : Type 0 where
  pub existential_deposit : ℕ
  pub max_locks : ℕ
  pub max_reserves : ℕ
  pub max_holds : ℕ
  pub max_freezes : ℕ

abbrev pub balances_config : BalancesConfig
balances_config = record {
  existential_deposit = existential_deposit;
  max_locks = 50;
  max_reserves = 0;
  max_holds = 0;
  max_freezes = 0;
}

-- `pallet_transaction_payment::Config for Runtime`
abbrev pub operational_fee_multiplier : ℕ
operational_fee_multiplier = 5

-- `NativeVersion`; `can_author_with` is by default that of nothing else.
pub record NativeVersion : Type 0 where
  pub runtime_version : RuntimeVersion
  pub can_author_with : List ℕ

abbrev pub native_version : NativeVersion
native_version = record { runtime_version = version; can_author_with = [] }
