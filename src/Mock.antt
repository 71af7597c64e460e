-- ===== src/Mock.antt =====
-- pallets/evm_account_mapping/src/mock.rs: the runtime of the pallet's tests. The balances and
-- `frame_system` are outside the repository: what the code calls of them is a parameter.
pub mod Laws
pub mod Scenario
use substrate_evm_account_ma.Prelude.{
  zero, replicate, some, as_bytes, suc, u128_max, leb, ltb, min, none, true, ◌==◌, List, Option,
  if◌then◌else◌, saturating_mul_u128, ◌*◌, u64_max, ℕ, ◌+◌, ◌∷◌, [],
}
use substrate_evm_account_ma.Prelude.Checked.{Checked, returns, panics, ◌>>=◌}
use substrate_evm_account_ma.Account.{substrate_address_converter, AccountId}
use substrate_evm_account_ma.Encode.{U256}
use substrate_evm_account_ma.Host.{Host}
use substrate_evm_account_ma.Pallet.Frame.{Config}
use substrate_evm_account_ma.Pallet.Types.{Weight, DispatchClass}
use substrate_evm_account_ma.Pallet.Weights.{DbWeight, unit_weight_meta_call}

abbrev pub milli_cents : ℕ
milli_cents = 1000000

abbrev pub cents : ℕ
cents = 1000 * milli_cents

abbrev pub dollars : ℕ
dollars = 100 * cents

-- `pallet_balances::Config for Test`
abbrev pub existential_deposit : ℕ
existential_deposit = cents

-- `BlockHashCount` and `SS58Prefix` of `frame_system::Config for Test`
abbrev pub block_hash_count : ℕ
block_hash_count = 250

abbrev pub ss58_prefix : ℕ
ss58_prefix = 42

-- `ExtrinsicBaseWeight`
abbrev pub extrinsic_base_weight : Weight
extrinsic_base_weight = record { ref_time = 0; proof_size = 0 }

-- The first values of the statics of `WeightToFee` and `TransactionByteFee`
abbrev pub weight_to_fee_rate : ℕ
weight_to_fee_rate = 1

abbrev pub transaction_byte_fee_rate : ℕ
transaction_byte_fee_rate = 1

-- `WeightToFee` and `TransactionByteFee`, whose rates are the statics of these names.
abbrev pub weight_to_fee : (rate : ℕ) → Weight → ℕ
weight_to_fee rate weight = saturating_mul_u128 (min weight.ref_time u128_max) rate

abbrev pub transaction_byte_fee : (rate : ℕ) → Weight → ℕ
transaction_byte_fee rate weight = saturating_mul_u128 (min weight.ref_time u128_max) rate

-- `FeeUnbalancedAmount` and `TipUnbalancedAmount`
pub record Unbalanced : Type 0 where
  pub fees : ℕ
  pub tips : ℕ

-- The first values of these
abbrev pub no_unbalanced : Unbalanced
no_unbalanced = record { fees = 0; tips = 0 }

-- `+=` on a `u128`, as tests are built: an overflow panics.
abbrev pub add_u128 : ℕ → ℕ → Checked ℕ
add_u128 a b = if leb (a + b) u128_max then returns (a + b) else panics

-- `DealWithFees::on_unbalanceds`: the first imbalance is the fee, the second the tip.
unfoldable pub on_unbalanceds :
    {Imbalance : Type 0} → (Imbalance → ℕ) → List Imbalance → Unbalanced → Checked Unbalanced
on_unbalanceds peek [] u = returns u
on_unbalanceds peek (fees ∷ []) u = do
  total ← add_u128 u.fees (peek fees)
  returns (record u { fees = total })
on_unbalanceds peek (fees ∷ tips ∷ others) u = do
  total_fees ← add_u128 u.fees (peek fees)
  total_tips ← add_u128 u.tips (peek tips)
  returns (record { fees = total_fees; tips = total_tips })

-- What the test runtime's code calls of the other pallets.
pub record Hooks (Rest : Type 0) : Type 0 where
  pub on_finalize : ℕ → Rest → Rest
  pub on_initialize : ℕ → Rest → Rest
  pub set_balance : AccountId → ℕ → Rest → Rest
  pub free_balance : AccountId → Rest → ℕ

pub record System (Rest : Type 0) : Type 0 where
  pub block_number : ℕ
  pub rest : Rest

module _ {Rest : Type 0} (hooks : Hooks Rest) where
  unfoldable pub set_balance : AccountId → ℕ → Rest → Checked Rest
  set_balance who new_free rest =
      let rest' = hooks.set_balance who new_free rest in
      if hooks.free_balance who rest' == new_free then returns rest' else panics

  -- The body of the loop. A number below another `u64` does not overflow at one more.
  abbrev pub next_block : System Rest → System Rest
  next_block s = record {
    block_number = s.block_number + 1;
    rest = hooks.on_initialize (s.block_number + 1) (hooks.on_finalize s.block_number s.rest);
  }

  -- The loop, on fuel.
  unfoldable pub run_while : ℕ → ℕ → System Rest → Option (System Rest)
  run_while zero n s = none
  run_while (suc fuel) n s =
      let rest = run_while fuel n (next_block s) in if ltb s.block_number n then rest else some s

  unfoldable pub run_to_block : ℕ → ℕ → System Rest → Checked (Option (System Rest))
  run_to_block fuel n s = if ltb s.block_number n then returns (run_while fuel n s) else panics

-- What the configuration calls.
pub record MockLibrary (Rest Imbalance : Type 0) : Type 0 where
  pub drop_imbalance : Imbalance → Rest → Rest
  pub u256_from : ℕ → U256
  pub build_block_weights : (base_block base_extrinsic max_total : Weight) → Weight
  pub default_block_length : DispatchClass → ℕ
  pub weight_saturating_add : Weight → Weight → Weight
  pub rocks_db_weight : DbWeight

-- `BlockWeights::get()`, its `max_block`
abbrev pub mock_block_weights : {Rest Imbalance : Type 0} → MockLibrary Rest Imbalance → Weight
mock_block_weights lib =
    lib.build_block_weights (record { ref_time = 0; proof_size = 0 }) extrinsic_base_weight
      (record { ref_time = 1024; proof_size = u64_max })

-- `impl pallet_evm_account_mapping::Config for Test`, and what `frame_system` is given.
abbrev pub mock_config :
    {RuntimeCall Rest Imbalance : Type 0}
    → Host
    → MockLibrary Rest Imbalance
    → Config RuntimeCall Rest Imbalance
mock_config h lib = record {
  address_converter = substrate_address_converter h;
  service_fee = 1000;
  on_unbalanced_for_service_fee = lib.drop_imbalance;
  call_filter = λ call. true;
  eip712_name = as_bytes "Substrate";
  eip712_version = as_bytes "1";
  eip712_chain_id = lib.u256_from 0;
  eip712_verifying_contract_address = replicate 20 0;
  weight_info_meta_call = unit_weight_meta_call lib.weight_saturating_add lib.rocks_db_weight;
  ss58_prefix = ss58_prefix;
  max_block = mock_block_weights lib;
  max_length = lib.default_block_length;
}
