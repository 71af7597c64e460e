-- ===== src/Mock/Scenario/Passes.antt =====
-- The test of `meta_call` passes.
use substrate_evm_account_ma.Prelude.{
  ℕ, some, ◌≡◌, ◌+◌, ◌<◌, ◌≤◌, refl, arith, u32_mod, ◌%◌, ==_iff,
}
use substrate_evm_account_ma.Prelude.Checked.{returns}
use substrate_evm_account_ma.Account.{AccountId}
use substrate_evm_account_ma.Host.{Host}
use substrate_evm_account_ma.Mock.{
  MockLibrary, mock_config, Hooks, set_balance, dollars, existential_deposit, weight_to_fee_rate,
  transaction_byte_fee_rate, weight_to_fee, transaction_byte_fee, mock_block_weights,
}
use substrate_evm_account_ma.Mock.Laws.{run_to_block_done}
use substrate_evm_account_ma.Mock.Scenario.{it_works, Codec, test_call, fresh}
use substrate_evm_account_ma.Pallet.Benchmark.{account_text, call_data}
use substrate_evm_account_ma.Pallet.Frame.{Frame}
use substrate_evm_account_ma.Pallet.Frame.Laws.{IsCovering}
use substrate_evm_account_ma.Pallet.MetaCall.Funds.{funded_meta_call_done}
use substrate_evm_account_ma.Pallet.Types.{DispatchInfo, polite, preserve}
use substrate_evm_account_ma.Pallet.Validate.{estimated_fee}

module _ {RuntimeCall Rest Post Err Imbalance Liquidity : Type 0} (h : Host)
    (f : Frame RuntimeCall Rest Post Err Imbalance Liquidity) (lib : MockLibrary Rest Imbalance)
    (hooks : Hooks Rest) (codec : Codec RuntimeCall) where
  -- The storage in which the test calls the pallet: block 1, the account endowed.
  abbrev test_start : AccountId → Rest → Rest
  test_start account genesis =
      hooks.set_balance account dollars (hooks.on_initialize 1 (hooks.on_finalize 0 genesis))

  -- Documented behaviour of the other pallets in the test's runtime: an endowed account has the
  -- balance set, of which the existential deposit is not usable; the limit of a block is that of its
  -- largest class; the fee is that of the length, that of the weight within a block, and the tip.
  pub record IsTestRuntime (account : AccountId) (genesis : Rest) : Type 0 where
    pub free : hooks.free_balance account (test_start account genesis) ≡ dollars
    pub usable :
        f.reducible_balance account preserve polite (test_start account genesis)
          + existential_deposit
        ≡ dollars
    pub block_limit : (mock_block_weights lib).ref_time ≡ 1024
    pub fee :
        (len : ℕ) (info : DispatchInfo) (tip : ℕ)
        → f.compute_fee len info tip (test_start account genesis)
          ≤ transaction_byte_fee transaction_byte_fee_rate
              (record { ref_time = len; proof_size = 0 })
            + weight_to_fee weight_to_fee_rate (mock_block_weights lib)
            + tip

  -- The test `it_works` passes, if its account and call are decoded. Assumes IsCovering of the
  -- balances and the fee payment and IsTestRuntime of the other pallets.
  pub it_works_passes :
      (fuel : ℕ) (genesis : Rest) (account : AccountId) (call : RuntimeCall)
      → IsCovering f (mock_config h lib)
      → IsTestRuntime account genesis
      → 1 < fuel
      → codec.from_ss58check account_text ≡ some account
      → codec.decode call_data ≡ some call
      → it_works h f lib hooks codec fuel genesis ≡ returns tt
  unfolding it_works set_balance
  it_works_passes fuel genesis account call L T enough decoded_account decoded_call =
      let start = test_start account genesis in
      let small : f.encoded_size call % u32_mod < u32_mod = omega arith in
      let priced = T.fee (f.encoded_size call % u32_mod) (f.get_dispatch_info call) 0 in
      let funded : estimated_fee h f (mock_config h lib) (test_call account call) start + 1000
          ≤ f.reducible_balance account preserve polite start =
        ground (arith, priced, T.usable, T.block_limit) in
      let success =
        funded_meta_call_done h f (mock_config h lib) L (test_call account call) (fresh start) refl
          funded in
      rw
        (
          run_to_block_done hooks fuel 1 (record { block_number = 0; rest = genesis }) (omega arith)
              (omega arith),
          decoded_account,
          decoded_call,
        )
        (rw ((==_iff _ _).1 T.free) (rw success refl))
