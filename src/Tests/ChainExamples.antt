-- ===== src/Tests/ChainExamples.antt =====
-- The theorems on panics, batches of calls, conflicts, charges and weights at concrete inputs.
use mathlib.Core.Quot.{Quot}
use substrate_evm_account_ma.Prelude.{
  u128_max, refl, bytes_eq, ◌↔◌, arith, ◌≤◌, [], some, ◌+◌, ◌<◌, ◌∷◌, ℕ, ◌≡◌,
}
use substrate_evm_account_ma.Prelude.Checked.{returns}
use substrate_evm_account_ma.Chain.{Run, here, executed}
use substrate_evm_account_ma.Chain.Conflict.{conflicting_is_stale, IsSized}
use substrate_evm_account_ma.Chain.Progress.{Run-continues}
use substrate_evm_account_ma.Chain.Refinement.{Run-settle, settle}
use substrate_evm_account_ma.Pallet.Benchmark.{benchmark_meta_call, Setup}
use substrate_evm_account_ma.Pallet.Benchmark.Laws.{benchmark_meta_call_done}
use substrate_evm_account_ma.Pallet.Exec.{done}
use substrate_evm_account_ma.Pallet.Frame.{Config}
use substrate_evm_account_ma.Pallet.MetaCall.{
  insert, charge_and_dispatch, meta_call_weight, pay_service_fee, bump_nonce, meta_call,
}
use substrate_evm_account_ma.Pallet.MetaCall.Charges.{
  meta_call_charges, withdrawn_fee, inner_start, usable,
}
use substrate_evm_account_ma.Pallet.MetaCall.Effects.{after_bump}
use substrate_evm_account_ma.Pallet.MetaCall.Stages.{inner, final_fee}
use substrate_evm_account_ma.Pallet.Types.{
  stale, Call, RawOrigin, normal, MetaCall, State, ValidTransaction,
}
use substrate_evm_account_ma.Pallet.Validate.{
  estimated_fee, check_nonce, max_tx_per_block, priority, check_payment, check_signer,
  validate_unsigned,
}
use substrate_evm_account_ma.Pallet.Validate.Accept.{
  validate_unsigned_sound, IsAcceptable, accepted,
}
use substrate_evm_account_ma.Pallet.Validate.Panic.{validate_unsigned-panicked, Cause}
use substrate_evm_account_ma.Pallet.Verdict.{panicked, accept, reject}
use substrate_evm_account_ma.Pallet.Weights.Laws.{meta_call_weight_covers, IsWithin}
use substrate_evm_account_ma.Tests.ToyFrame.{
  frame-IsSaturating, frame-IsContained, frame-IsSettling, frame-IsAdding, frame-IsCovering, layer,
  who, config, request, start, frame,
}
use substrate_evm_account_ma.Tests.ToyHost.{host-IsScale, host}
use substrate_evm_account_ma.Tests.ToyWords.{bytes_le, length-bytes_le}

-- The same caller and nonce, with another call.
abbrev rival : MetaCall ℕ
rival = record request { call = 0 }

abbrev first_valid : ValidTransaction
first_valid = accepted host frame config request 150

abbrev rival_valid : ValidTransaction
rival_valid = accepted host frame config rival 150

abbrev executed_state : State ℕ ℕ ℕ
executed_state = (meta_call frame config RawOrigin.none request start).1

first_accepted :
    validate_unsigned host frame config start (Call.meta_call request) ≡ accept first_valid
unfolding validate_unsigned check_signer check_nonce check_payment priority max_tx_per_block
    bytes_le bytes_eq
first_accepted = refl

rival_accepted :
    validate_unsigned host frame config start (Call.meta_call rival) ≡ accept rival_valid
unfolding validate_unsigned check_signer check_nonce check_payment priority max_tx_per_block
    bytes_le bytes_eq
rival_accepted = refl

first_run :
    layer.run (meta_call frame config RawOrigin.none request) start ≡ (done tt, executed_state)
unfolding meta_call pay_service_fee bump_nonce charge_and_dispatch
first_run = refl

request-IsSized : IsSized host frame config request
request-IsSized = record { who_fits = length-bytes_le 32 65; nonce_fits = omega arith }

rival-IsSized : IsSized host frame config rival
rival-IsSized = record { who_fits = length-bytes_le 32 65; nonce_fits = omega arith }

conflicting_is_stale_example :
    validate_unsigned host frame config executed_state (Call.meta_call rival) ≡ reject stale
conflicting_is_stale_example =
    conflicting_is_stale host frame config layer frame-IsContained request rival first_valid
      rival_valid start frame-IsSaturating host-IsScale request-IsSized rival-IsSized first_accepted
      rival_accepted refl first_run here (omega arith)

Run-settle_example :
    executed_state.account_nonce ≡ settle start.account_nonce (Quot.mk ((who, 0) ∷ []))
Run-settle_example =
    Run-settle host frame config layer frame-IsContained
      (executed request first_valid here first_accepted first_run)

-- No byte of a call fits into a block.
abbrev full : Config ℕ ℕ ℕ
full = record config { max_length = λ class. 0 }

request_panics : validate_unsigned host frame full start (Call.meta_call request) ≡ panicked
unfolding validate_unsigned check_signer check_nonce check_payment priority max_tx_per_block
    bytes_le bytes_eq
request_panics = refl

validate_unsigned-panicked_example :
    (validate_unsigned host frame full start (Call.meta_call request) ≡ panicked)
    ↔ Cause host frame full start request
validate_unsigned-panicked_example =
    validate_unsigned-panicked host frame full start request frame-IsSaturating

request_succeeds : meta_call frame config RawOrigin.none request start ≡ (done tt, executed_state)
unfolding meta_call pay_service_fee bump_nonce charge_and_dispatch
request_succeeds = refl

-- The fees are 5 and 9, and 12 are withdrawn before the inner call.
request_cheap :
    final_fee frame config request (after_bump frame config request start)
    ≤ withdrawn_fee frame config request start
unfolding bump_nonce pay_service_fee
request_cheap = omega arith

request_alive :
    0
    < usable frame config request
        (inner frame config request (after_bump frame config request start)).1.rest
unfolding bump_nonce pay_service_fee
request_alive = omega arith

meta_call_charges_example :
    usable frame config request executed_state.rest
      + 5
      + final_fee frame config request (after_bump frame config request start)
      + usable frame config request (inner_start frame config request start)
    ≡ usable frame config request start.rest
      + usable frame config request
          (inner frame config request (after_bump frame config request start)).1.rest
meta_call_charges_example =
    meta_call_charges frame config RawOrigin.none request start executed_state frame-IsSettling
      request_succeeds request_cheap request_alive

abbrev setup : Setup ℕ ℕ
setup = record {
  from_ss58check = λ text. some who;
  decode = λ bytes. some 9;
  make_free_balance_be = λ who amount rest. amount;
}

benchmark_runs :
    (t : State ℕ ℕ ℕ) × (benchmark_meta_call frame config setup start ≡ returns (done tt, t))
benchmark_runs =
    benchmark_meta_call_done host frame config setup frame-IsCovering start who 9 refl refl refl
      (omega arith)

weight_is_covered :
    IsWithin (record { ref_time = 3; proof_size = 4 }) (meta_call_weight frame config request).0
    × IsWithin (record { ref_time = 1; proof_size = 1 }) (meta_call_weight frame config request).0
    × IsWithin (meta_call_weight frame config request).0 (record { ref_time = 4; proof_size = 5 })
    × ((meta_call_weight frame config request).1 ≡ normal)
weight_is_covered =
    meta_call_weight_covers frame config frame-IsAdding request (omega arith, omega arith)
      (omega arith, omega arith)

-- The caller's next call.
abbrev second : MetaCall ℕ
second = record request { nonce = 1 }

second_is_accepted :
    validate_unsigned host frame config executed_state (Call.meta_call second)
    ≡ accept (accepted host frame config second 150)
unfolding validate_unsigned check_signer check_nonce check_payment priority max_tx_per_block
    bytes_le bytes_eq meta_call pay_service_fee bump_nonce charge_and_dispatch insert
second_is_accepted = refl

second-IsAcceptable : IsAcceptable host frame config executed_state second
unfolding bytes_le
second-IsAcceptable =
    (validate_unsigned_sound host frame config executed_state second
      (accepted host frame config second 150) frame-IsSaturating second_is_accepted).0

second_covered :
    estimated_fee host frame config second executed_state.rest + config.service_fee ≤ u128_max
second_covered = omega arith

Run-continues_example :
    (u : State ℕ ℕ ℕ) × Run host frame config layer start ((who, 1) ∷ (who, 0) ∷ []) u
unfolding bytes_le bytes_eq
Run-continues_example =
    Run-continues host frame config layer second frame-IsContained frame-IsCovering
      frame-IsSaturating (executed request first_valid here first_accepted first_run) refl
      (omega arith) second-IsAcceptable.signed second-IsAcceptable.funded second-IsAcceptable.room
      second_covered
