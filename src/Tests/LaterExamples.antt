-- ===== src/Tests/LaterExamples.antt =====
-- The theorems on calls validated again and on tips at concrete inputs.
use substrate_evm_account_ma.Prelude.{◌≡◌, ◌≤◌, ℕ, [], ◌∷◌, some, arith, length}
use substrate_evm_account_ma.Chain.Later.{Run-later_verdict, later_verdict}
use substrate_evm_account_ma.Chain.Replay.{nonces_of}
use substrate_evm_account_ma.Pallet.Types.{MetaCall, Call, ValidTransaction}
use substrate_evm_account_ma.Pallet.Validate.{validate_unsigned}
use substrate_evm_account_ma.Pallet.Validate.Accept.{IsFunded}
use substrate_evm_account_ma.Pallet.Validate.Tip.{other_tip_accepted, with_tip}
use substrate_evm_account_ma.Pallet.Verdict.{accept}
use substrate_evm_account_ma.Tests.Examples.{valid, after, request-valid, first-Run, fits}
use substrate_evm_account_ma.Tests.ToyFrame.{
  frame, config, layer, start, request, who, frame-IsSaturating, frame-IsContained,
}
use substrate_evm_account_ma.Tests.ToyHost.{host}

Run-later_verdict_example :
    validate_unsigned host frame config after (Call.meta_call request)
    ≡ later_verdict host frame config request valid
        (length (nonces_of who ((who, 0) ∷ [])))
        after.rest
Run-later_verdict_example =
    Run-later_verdict host frame config layer frame-IsContained request valid frame-IsSaturating
      request-valid first-Run fits

-- Another's tip of half the caller's balance.
tip_covered : IsFunded host frame config (with_tip host frame config request (some 500)) start.rest
tip_covered = omega arith

tip_is_accepted :
    (v' : ValidTransaction) × (validate_unsigned host frame config start
        (Call.meta_call (with_tip host frame config request (some 500)))
      ≡ accept v')
    × (v'.provides ≡ valid.provides)
    × (150 ≤ v'.priority)
tip_is_accepted =
    other_tip_accepted host frame config start request valid (some 500) frame-IsSaturating
      request-valid (omega arith) tip_covered

abbrev tipped : MetaCall ℕ
tipped = with_tip host frame config request (some 500)

-- Two calls of the account, the second with the next nonce.
abbrev second : MetaCall ℕ
second = record request { nonce = 1 }
