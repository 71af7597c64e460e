-- ===== src/Pallet/Benchmark/Laws.antt =====
-- The benchmark measures a call that succeeds.
use substrate_evm_account_ma.Prelude.{ap, ◌≤◌, ◌+◌, some, ◌≡◌}
use substrate_evm_account_ma.Prelude.Checked.{returns}
use substrate_evm_account_ma.Account.{AccountId}
use substrate_evm_account_ma.Host.{Host}
use substrate_evm_account_ma.Pallet.Benchmark.{
  endowed, benchmark_call, call_data, account_text, benchmark_meta_call, Setup,
}
use substrate_evm_account_ma.Pallet.Exec.{Outcome, done}
use substrate_evm_account_ma.Pallet.Frame.{Config, Frame}
use substrate_evm_account_ma.Pallet.Frame.Laws.{IsCovering}
use substrate_evm_account_ma.Pallet.MetaCall.{meta_call}
use substrate_evm_account_ma.Pallet.MetaCall.Funds.{funded_meta_call_done}
use substrate_evm_account_ma.Pallet.Types.{State, RawOrigin, polite, preserve}
use substrate_evm_account_ma.Pallet.Validate.{estimated_fee}

module _ {RuntimeCall Rest Post Err Imbalance Liquidity : Type 0} (h : Host)
    (f : Frame RuntimeCall Rest Post Err Imbalance Liquidity)
    (c : Config RuntimeCall Rest Imbalance) (setup : Setup RuntimeCall Rest)
    (L : IsCovering f c) where
  -- The benchmark runs `meta_call` to a success, if its account and call are decoded, the account's
  -- nonce is 0, and the balance given covers the two fees. Assumes IsCovering of the balances and the
  -- fee payment.
  pub benchmark_meta_call_done :
      (s : State Rest Post Err) (account : AccountId) (call : RuntimeCall)
      → setup.from_ss58check account_text ≡ some account
      → setup.decode call_data ≡ some call
      → s.account_nonce account ≡ 0
      → estimated_fee h f c
            (benchmark_call f c setup account call)
            (endowed f c setup account s).rest
          + c.service_fee
        ≤ f.reducible_balance account preserve polite (endowed f c setup account s).rest
      → (t : State Rest Post Err) × (benchmark_meta_call f c setup s ≡ returns (done tt, t))
  unfolding benchmark_meta_call
  benchmark_meta_call_done s account call decoded_account decoded_call fresh funded =
      let m = benchmark_call f c setup account call in
      let s' = endowed f c setup account s in
      let success = funded_meta_call_done h f c L m s' fresh funded in
      (
        (meta_call f c RawOrigin.none m s').1,
        rw (decoded_account, decoded_call)
            (ap (λ (o : Outcome (Unit {0})). returns (o, (meta_call f c RawOrigin.none m s').1))
              success),
      )
