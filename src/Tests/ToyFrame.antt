-- ===== src/Tests/ToyFrame.antt =====
-- A runtime that meets every assumption: one purse for all accounts, and calls that are numbers.
-- The call 0 succeeds, and any other call fails.
use substrate_evm_account_ma.Prelude.{
  u64_max, as_bytes, min, append-nil, none, true, ◌-◌, leb, some, sym, ◌+◌, ◌==◌, ◌≡◌, Option, [],
  arith, if◌then◌else◌, refl, replicate, ◌∷◌, ◌≤◌, ℕ,
}
use substrate_evm_account_ma.Account.{substrate_address_converter, AccountId}
use substrate_evm_account_ma.Chain.{StorageLayer}
use substrate_evm_account_ma.Pallet.Exec.{Outcome, failed, done}
use substrate_evm_account_ma.Pallet.Frame.{Config, Frame}
use substrate_evm_account_ma.Pallet.Frame.Laws.{IsSettling, IsContained, IsCovering, IsSaturating}
use substrate_evm_account_ma.Pallet.Types.{
  DispatchError, err, ok, normal, DispatchResult, MetaCall, State,
}
use substrate_evm_account_ma.Pallet.Weights.Laws.{IsAdding}
use substrate_evm_account_ma.Tests.ToyHost.{host}
use substrate_evm_account_ma.Tests.ToyWords.{bytes_le}

abbrev pub balance_left : ℕ → ℕ → ℕ
balance_left amount rest = if leb amount rest then rest - amount else rest

abbrev pub taken : ℕ → ℕ → Option ℕ
taken amount rest = if leb amount rest then some amount else none

abbrev pub toy_dispatch : ℕ → State ℕ ℕ ℕ → DispatchResult ℕ ℕ × State ℕ ℕ ℕ
toy_dispatch call s = (if call == 0 then ok 5 else err 1 6, s)

abbrev pub frame : Frame ℕ ℕ ℕ ℕ ℕ ℕ
frame = record {
  encode = λ call. call ∷ [];
  encoded_size = λ call. 1;
  get_dispatch_info = λ call. record {
    weight = record { ref_time = 3; proof_size = 4 };
    class = normal;
    pays_fee = true;
  };
  dispatch = λ call origin filter s. toy_dispatch call s;
  withdraw = λ who amount reasons requirement rest. (taken amount rest, balance_left amount rest);
  peek = λ imbalance. imbalance;
  reducible_balance = λ who preservation fortitude rest. rest;
  compute_fee = λ len info tip rest. 10 + tip;
  compute_actual_fee = λ len info post_info tip rest. 7 + tip;
  withdraw_fee = λ who call info fee tip rest. (taken fee rest, balance_left fee rest);
  correct_and_deposit_fee =
      λ who info post_info actual_fee tip liquidity rest. (true, rest + (liquidity - actual_fee));
  saturated_into = λ maximum x. min x maximum;
  weight_max = λ a b. a;
  weight_min = λ a b. a;
  checked_div_per_component = λ a b. some 100;
  weight_saturating_add = λ a b. record {
    ref_time = min (a.ref_time + b.ref_time) u64_max;
    proof_size = min (a.proof_size + b.proof_size) u64_max;
  };
  defensive_proof = λ o. o;
}

-- The account of a signature of 65 bytes.
abbrev pub who : AccountId
who = bytes_le 32 65

abbrev pub config : Config ℕ ℕ ℕ
config = record {
  address_converter = substrate_address_converter host;
  service_fee = 5;
  on_unbalanced_for_service_fee = λ imbalance rest. rest;
  call_filter = λ call. true;
  eip712_name = as_bytes "Substrate";
  eip712_version = as_bytes "1";
  eip712_chain_id = record { limb0 = 0; limb1 = 0; limb2 = 0; limb3 = 0 };
  eip712_verifying_contract_address = replicate 20 0;
  weight_info_meta_call = record { ref_time = 1; proof_size = 1 };
  ss58_prefix = 42;
  max_block = record { ref_time = 1000; proof_size = 1000 };
  max_length = λ class. 50;
}

abbrev pub start : State ℕ ℕ ℕ
start = record { account_nonce = λ a. 0; events = []; rest = 1000 }

-- A meta call of the call 9, which fails, with a tip of 2.
abbrev pub request : MetaCall ℕ
request = record { who = who; call = 9; nonce = 0; signature = replicate 65 7; tip = some 2 }

pub frame-IsSaturating : IsSaturating frame
frame-IsSaturating maximum x = refl

pub frame-IsContained : IsContained frame
frame-IsContained = record {
  keeps_nonces = λ call who filter s. refl;
  appends_events = λ call who filter s. ([], sym (append-nil s.events));
}

taken_lem : (amount rest : ℕ) → amount ≤ rest → taken amount rest ≡ some amount
taken_lem amount rest h = ground arith

balance_left_lem : (amount rest : ℕ) → amount ≤ rest → balance_left amount rest + amount ≡ rest
balance_left_lem amount rest h = ground arith

pub frame-IsCovering : IsCovering frame config
frame-IsCovering = record {
  withdraw_covered = λ who amount rest h. (amount, taken_lem amount rest h);
  reducible_balance-withdraw = λ who amount rest h. balance_left_lem amount rest h;
  reducible_balance-on_unbalanced = λ who withdrawn rest. omega arith;
  compute_fee-withdraw = λ len info tip who amount rest. refl;
  compute_fee-on_unbalanced = λ len info tip withdrawn rest. refl;
  withdraw_fee_covered = λ who call info fee tip rest h. (fee, taken_lem fee rest h);
  correct_and_deposit_fee_settles = λ who info post_info actual_fee tip liquidity rest. refl;
}

taken_exact :
    (amount rest withdrawn : ℕ)
    → taken amount rest ≡ some withdrawn
    → (withdrawn ≡ amount) × (balance_left amount rest + amount ≡ rest)
taken_exact amount rest withdrawn e = ground arith

refund_lem :
    (fee rest liquidity actual_fee rest' : ℕ)
    → taken fee rest ≡ some liquidity
    → actual_fee ≤ fee
    → rest' + (liquidity - actual_fee) + actual_fee ≡ rest' + fee
refund_lem fee rest liquidity actual_fee rest' e cheap =
    let same = (taken_exact fee rest liquidity e).0 in omega arith

pub frame-IsSettling : IsSettling frame config
frame-IsSettling = record {
  withdraw_exact = λ who amount rest withdrawn e. taken_exact amount rest withdrawn e;
  on_unbalanced_neutral = λ who withdrawn rest. refl;
  withdraw_fee_exact =
      λ who call info fee tip rest liquidity e. (taken_exact fee rest liquidity e).1;
  correct_and_deposit_fee_refunds =
      λ who call info fee tip rest liquidity post_info actual_fee rest' e cheap alive.
        refund_lem fee rest liquidity actual_fee rest' e cheap;
}

pub frame-IsAdding : IsAdding frame.weight_saturating_add
frame-IsAdding a b = (refl, refl)

-- The storage layer that puts the old state back.
abbrev pub restore :
    State ℕ ℕ ℕ → Outcome (Unit {0}) × State ℕ ℕ ℕ → Outcome (Unit {0}) × State ℕ ℕ ℕ
restore s (done a, t) = (done a, t)
restore s (failed e, t) = (failed e, s)

pub restore_done :
    (s : State ℕ ℕ ℕ) (r : Outcome (Unit {0}) × State ℕ ℕ ℕ) → r.0 ≡ done tt → restore s r ≡ r
restore_done s (done a, t) p = refl
restore_done s (failed e, t) p = cc

pub restore_failed :
    (s : State ℕ ℕ ℕ) (r : Outcome (Unit {0}) × State ℕ ℕ ℕ) (e : DispatchError)
    → r.0 ≡ failed e
    → restore s r ≡ (failed e, s)
restore_failed s (done a, t) e p = cc
restore_failed s (failed e', t) e p = cc

abbrev pub layer : StorageLayer (State ℕ ℕ ℕ)
layer = record {
  run = λ m s. restore s (m s);
  keeps_success = λ m s e. restore_done s (m s) e;
  undoes_failure = λ m s reason e. restore_failed s (m s) reason e;
}
