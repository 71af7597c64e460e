-- ===== src/Pallet/Benchmark.antt =====
-- pallets/evm_account_mapping/src/benchmarking.rs: the benchmark of `meta_call`. The bytes that the
-- source writes in hexadecimal are written out.
pub mod Laws
use substrate_evm_account_ma.Prelude.{ℕ, ◌/◌, Option, as_bytes, none, u128_max, Bytes, ◌∷◌, []}
use substrate_evm_account_ma.Prelude.Checked.{◌>>=◌, expect, Checked, returns}
use substrate_evm_account_ma.Account.{AccountId}
use substrate_evm_account_ma.Pallet.Exec.{Outcome}
use substrate_evm_account_ma.Pallet.Frame.{Config, Frame}
use substrate_evm_account_ma.Pallet.MetaCall.{meta_call}
use substrate_evm_account_ma.Pallet.Types.{State, MetaCall, RawOrigin}

-- What the setup calls: the decoding of a text and of a call, and the balances.
pub record Setup (RuntimeCall Rest : Type 0) : Type 0 where
  pub from_ss58check : Bytes → Option AccountId
  pub decode : Bytes → Option RuntimeCall
  pub make_free_balance_be : AccountId → ℕ → Rest → Rest

abbrev pub account_text : Bytes
account_text = as_bytes "5DT96geTS2iLpkH8fAhYAAphNpxddKCV36s5ShVFavf1xQiF"

abbrev pub call_data : Bytes
call_data = 0x00 ∷ 0x07 ∷ 0x14 ∷ 0x48 ∷ 0x65 ∷ 0x6c ∷ 0x6c ∷ 0x6f ∷ []

abbrev pub signature : Bytes
signature =
    0x37 ∷ 0xcb ∷ 0x6f ∷ 0xf8 ∷ 0xe2 ∷ 0x96 ∷ 0xd7 ∷ 0xe4 ∷ 0x76 ∷ 0xee ∷ 0x13 ∷ 0xa6 ∷ 0xcf ∷ 0xab
    ∷ 0xab ∷ 0xe7 ∷ 0x88 ∷ 0x21 ∷ 0x75 ∷ 0x19 ∷ 0xd4 ∷ 0x28 ∷ 0xfc ∷ 0xc7 ∷ 0x23 ∷ 0xb4 ∷ 0x82
    ∷ 0xdc ∷ 0x97 ∷ 0xcb ∷ 0x4d ∷ 0x13 ∷ 0x59 ∷ 0xa8 ∷ 0xd1 ∷ 0xc0 ∷ 0x20 ∷ 0xfe ∷ 0x3c ∷ 0xeb
    ∷ 0xc1 ∷ 0xd0 ∷ 0x6a ∷ 0x67 ∷ 0xe6 ∷ 0x1b ∷ 0x1f ∷ 0x0e ∷ 0x29 ∷ 0x67 ∷ 0x39 ∷ 0xce ∷ 0xca
    ∷ 0xcc ∷ 0x64 ∷ 0x0b ∷ 0x0b ∷ 0xa4 ∷ 0x8e ∷ 0x8a ∷ 0x75 ∷ 0x55 ∷ 0x47 ∷ 0x2e ∷ 0x1b ∷ []

module _ {RuntimeCall Rest Post Err Imbalance Liquidity : Type 0}
    (f : Frame RuntimeCall Rest Post Err Imbalance Liquidity)
    (c : Config RuntimeCall Rest Imbalance) (setup : Setup RuntimeCall Rest) where
  abbrev pub benchmark_call : AccountId → RuntimeCall → MetaCall RuntimeCall
  benchmark_call account call = record {
    who = account;
    call = call;
    nonce = 0;
    signature = signature;
    tip = none;
  }

  abbrev pub endowed : AccountId → State Rest Post Err → State Rest Post Err
  endowed account s = record s { rest = setup.make_free_balance_be account (u128_max / 2) s.rest }

  unfoldable pub benchmark_meta_call :
      State Rest Post Err → Checked (Outcome (Unit {0}) × State Rest Post Err)
  benchmark_meta_call s = do
    account ← expect (setup.from_ss58check account_text)
    call ← expect (setup.decode call_data)
    returns (meta_call f c RawOrigin.none (benchmark_call account call) (endowed account s))
