-- ===== src/Tests/MockExamples.antt =====
-- The theorems on the test runtime at concrete inputs.
use substrate_evm_account_ma.Prelude.{arith, [], some, ◌*◌, ◌+◌, ◌-◌, ◌↔◌, refl, ◌∷◌, ℕ, ◌≡◌}
use substrate_evm_account_ma.Prelude.Checked.{returns}
use substrate_evm_account_ma.Mock.{
  MockLibrary, cents, mock_config, Hooks, System, on_unbalanceds, run_to_block,
}
use substrate_evm_account_ma.Mock.Laws.{on_unbalanceds_lem, run_to_block_done}
use substrate_evm_account_ma.Account.{AccountId}
use substrate_evm_account_ma.Mock.Scenario.{Codec, eip712, it_works, test_call}
use substrate_evm_account_ma.Mock.Scenario.Laws.{eip712-IsSigned}
use substrate_evm_account_ma.Mock.Scenario.Passes.{IsTestRuntime, it_works_passes}
use substrate_evm_account_ma.Pallet.Benchmark.{account_text, call_data}
use substrate_evm_account_ma.Pallet.Frame.{Frame}
use substrate_evm_account_ma.Pallet.Frame.Laws.{IsCovering}
use substrate_evm_account_ma.Pallet.Validate.Accept.{IsSigned}
use substrate_evm_account_ma.Tests.ToyFrame.{frame, frame-IsCovering, who}
use substrate_evm_account_ma.Tests.ToyHost.{host}

abbrev hooks : Hooks ℕ
hooks = record {
  on_finalize = λ n rest. rest + n;
  on_initialize = λ n rest. rest * 2;
  set_balance = λ who amount rest. amount - cents;
  free_balance = λ who rest. rest + cents;
}

abbrev system : System ℕ
system = record { block_number = 1; rest = 7 }

run_to_block_done_example :
    run_to_block hooks 3 3 system ≡ returns (some (record { block_number = 3; rest = 36 }))
run_to_block_done_example = run_to_block_done hooks 3 3 system (omega arith) (omega arith)

-- The first imbalance is the fee and the second the tip; the third is dropped.
booked :
    on_unbalanceds (λ (n : ℕ). n) (4 ∷ 5 ∷ 6 ∷ []) (record { fees = 10; tips = 20 })
    ≡ returns (record { fees = 14; tips = 25 })
booked =
    on_unbalanceds_lem (λ (n : ℕ). n) (4 ∷ 5 ∷ 6 ∷ []) (record { fees = 10; tips = 20 })
      (omega arith) (omega arith)

abbrev library : MockLibrary ℕ ℕ
library = record {
  drop_imbalance = λ imbalance rest. rest;
  u256_from = λ n. record { limb0 = n; limb1 = 0; limb2 = 0; limb3 = 0 };
  build_block_weights = λ base_block base_extrinsic max_total. max_total;
  default_block_length = λ class. 1000;
  weight_saturating_add = λ a b. a;
  rocks_db_weight = record {
    reads = λ n. record { ref_time = n; proof_size = 0 };
    writes = λ n. record { ref_time = n; proof_size = 0 };
  };
}

abbrev codec : Codec ℕ
codec = record { from_ss58check = λ text. some who; decode = λ bytes. some 9 }

mock-IsCovering : IsCovering frame (mock_config host library)
mock-IsCovering = record {
  withdraw_covered = frame-IsCovering.withdraw_covered;
  reducible_balance-withdraw = frame-IsCovering.reducible_balance-withdraw;
  reducible_balance-on_unbalanced = frame-IsCovering.reducible_balance-on_unbalanced;
  compute_fee-withdraw = frame-IsCovering.compute_fee-withdraw;
  compute_fee-on_unbalanced = frame-IsCovering.compute_fee-on_unbalanced;
  withdraw_fee_covered = frame-IsCovering.withdraw_fee_covered;
  correct_and_deposit_fee_settles = frame-IsCovering.correct_and_deposit_fee_settles;
}

test-IsTestRuntime : IsTestRuntime host frame library hooks codec who 7
test-IsTestRuntime = record {
  free = refl;
  usable = refl;
  block_limit = refl;
  fee = λ len info tip. ground arith;
}

it_works_passes_example : it_works host frame library hooks codec 2 7 ≡ returns tt
it_works_passes_example =
    it_works_passes host frame library hooks codec 2 7 who 9 mock-IsCovering test-IsTestRuntime
      (omega arith) refl refl

-- Every call is encoded as the test's.
abbrev remarks : Frame ℕ ℕ ℕ ℕ ℕ ℕ
remarks = record frame { encode = λ call. call_data }

eip712-IsSigned_example : (eip712 host library ≡ returns tt) ↔ (
    (account : AccountId) × (host.to_ss58check_with_version account 42 ≡ account_text)
    × IsSigned host remarks (mock_config host library) (test_call account 9))
eip712-IsSigned_example = eip712-IsSigned host remarks library 9 refl
