-- ===== src/Tests/Examples.antt =====
-- The theorems on the pallet and the chain at concrete inputs.
use substrate_evm_account_ma.Prelude.{
  ◌++◌, List, bytes_eq, ◌<◌, ◌↔◌, [], arith, refl, some, none, u128_max, u64_mod, ◌∷◌, ◌%◌, length,
  u64_max, ◌+◌, ℕ, ◌≡◌, ◌≤◌,
}
use substrate_evm_account_ma.Chain.{Run, here, executed}
use substrate_evm_account_ma.Chain.Replay.{Run-nonces, counting, executed_is_stale, nonces_of}
use substrate_evm_account_ma.Pallet.Exec.{done, failed}
use substrate_evm_account_ma.Pallet.Frame.{Frame}
use substrate_evm_account_ma.Pallet.MetaCall.{
  charge_and_dispatch, bump_nonce, insert, pay_service_fee, meta_call,
}
use substrate_evm_account_ma.Pallet.MetaCall.Effects.{
  paid_state, meta_call_events, meta_call_wrong_nonce, meta_call_nonces,
}
use substrate_evm_account_ma.Pallet.MetaCall.Errors.{meta_call_failed, Failure}
use substrate_evm_account_ma.Pallet.MetaCall.Funds.{validated_meta_call_done}
use substrate_evm_account_ma.Pallet.MetaCall.Stages.{final_fee, inner, service_event}
use substrate_evm_account_ma.Pallet.Types.{
  transaction_fee_paid, keep_alive, fee, Event, nonce_error, module_error, stale, State,
  ValidTransaction, Call, RawOrigin, call_done,
}
use substrate_evm_account_ma.Pallet.Validate.{
  check_payment, check_nonce, check_signer, max_tx_per_block, estimated_fee, priority,
  validate_unsigned,
}
use substrate_evm_account_ma.Pallet.Validate.Accept.{
  validate_unsigned_complete, validate_unsigned_sound, accepted, IsAcceptable,
}
use substrate_evm_account_ma.Pallet.Validate.Priority.{priority_mono, smaller_preferred}
use substrate_evm_account_ma.Pallet.Validate.Reject.{validate_unsigned-reject, Reason}
use substrate_evm_account_ma.Pallet.Verdict.{accept, reject}
use substrate_evm_account_ma.Tests.ToyFrame.{
  frame-IsContained, frame-IsCovering, frame-IsSaturating, layer, request, config, frame, start,
  who,
}
use substrate_evm_account_ma.Tests.ToyHost.{host}
use substrate_evm_account_ma.Tests.ToyWords.{bytes_le}

-- The account of the request after its execution.
abbrev pub valid : ValidTransaction
valid = accepted host frame config request 150

abbrev pub after : State ℕ ℕ ℕ
after = (meta_call frame config RawOrigin.none request start).1

pub request-valid :
    validate_unsigned host frame config start (Call.meta_call request) ≡ accept valid
unfolding validate_unsigned check_signer check_nonce check_payment priority max_tx_per_block
    bytes_le bytes_eq
request-valid = refl

request_done : meta_call frame config RawOrigin.none request start ≡ (done tt, after)
unfolding meta_call pay_service_fee bump_nonce charge_and_dispatch
request_done = refl

request_run : layer.run (meta_call frame config RawOrigin.none request) start ≡ (done tt, after)
unfolding meta_call pay_service_fee bump_nonce charge_and_dispatch
request_run = refl

pub first-Run : Run host frame config layer start ((who, 0) ∷ []) after
first-Run = executed request valid here request-valid request_run

pub fits : 0 + length (nonces_of who ((who, 0) ∷ [])) < u64_mod
unfolding bytes_eq bytes_le
fits = omega arith

pub request-IsAcceptable : IsAcceptable host frame config start request
unfolding bytes_le
request-IsAcceptable =
    (validate_unsigned_sound host frame config start request valid frame-IsSaturating
      request-valid).0

validate_unsigned_sound_example :
    IsAcceptable host frame config start request
    × ((p : ℕ) × (priority host frame config request ≡ accept p)
        × (valid ≡ accepted host frame config request p))
validate_unsigned_sound_example =
    validate_unsigned_sound host frame config start request valid frame-IsSaturating request-valid

validate_unsigned_complete_example :
    (p : ℕ) × (validate_unsigned host frame config start (Call.meta_call request)
      ≡ accept (accepted host frame config request p))
validate_unsigned_complete_example =
    validate_unsigned_complete host frame config start request frame-IsSaturating
      request-IsAcceptable

executed_is_stale_example :
    validate_unsigned host frame config after (Call.meta_call request) ≡ reject stale
executed_is_stale_example =
    executed_is_stale host frame config layer frame-IsContained request valid frame-IsSaturating
      request-valid request_run here (omega arith)

Run-nonces_example :
    (after.account_nonce who ≡ start.account_nonce who + length (nonces_of who ((who, 0) ∷ [])))
    × (nonces_of who ((who, 0) ∷ [])
        ≡ counting (start.account_nonce who) (length (nonces_of who ((who, 0) ∷ []))))
Run-nonces_example = Run-nonces host frame config layer frame-IsContained who first-Run fits

validate_unsigned-reject_example :
    (validate_unsigned host frame config after (Call.meta_call request) ≡ reject stale)
    ↔ Reason host frame config after request stale
validate_unsigned-reject_example =
    validate_unsigned-reject host frame config after request stale frame-IsSaturating

fees_fit : estimated_fee host frame config request start.rest + config.service_fee ≤ u128_max
fees_fit = omega arith

validated_meta_call_done_example : (meta_call frame config RawOrigin.none request start).0 ≡ done tt
validated_meta_call_done_example =
    validated_meta_call_done host frame config frame-IsCovering request start valid
      frame-IsSaturating fees_fit request-valid

meta_call_nonces_example :
    (RawOrigin.none ≡ RawOrigin.none)
    × (start.account_nonce who ≡ 0)
    × (after.account_nonce ≡ insert who ((0 + 1) % u64_mod) start.account_nonce)
meta_call_nonces_example =
    meta_call_nonces frame config RawOrigin.none request start after frame-IsContained request_done

wrong_nonce_fails :
    ((meta_call frame config RawOrigin.none (record request { nonce = 1 }) start).0
      ≡ failed (module_error nonce_error))
    × ((meta_call frame config RawOrigin.none (record request { nonce = 1 }) start).1.account_nonce
        ≡ start.account_nonce)
wrong_nonce_fails =
    meta_call_wrong_nonce frame config (record request { nonce = 1 }) start (λ e. cc)

priority_tip : priority host frame config request ≡ accept 150
unfolding priority max_tx_per_block
priority_tip = refl

priority_no_tip : priority host frame config (record request { tip = none }) ≡ accept 50
unfolding priority max_tx_per_block
priority_no_tip = refl

tip_raises_priority : (50 ≤ 150) × (150 ≤ u64_max)
tip_raises_priority =
    priority_mono host frame config (record request { tip = none }) (some 2) frame-IsSaturating
      (omega arith) priority_no_tip priority_tip

-- The length of a call is its number.
abbrev sized : Frame ℕ ℕ ℕ ℕ ℕ ℕ
sized = record frame { encoded_size = λ call. call }

short_priority : priority host sized config (record request { call = 3 }) ≡ accept 48
unfolding priority max_tx_per_block
short_priority = refl

long_priority : priority host sized config request ≡ accept 15
unfolding priority max_tx_per_block
long_priority = refl

smaller_preferred_example : 15 ≤ 48
smaller_preferred_example =
    smaller_preferred host sized config (record request { call = 3 }) request frame-IsSaturating
      refl refl (omega arith) short_priority long_priority

meta_call_events_example :
    (withdrawn : ℕ) × (deposited : List (Event ℕ ℕ)) × ((frame.withdraw who 5 fee keep_alive 1000).0
      ≡ some withdrawn)
    × ((inner frame config request (paid_state frame config request start withdrawn)).1.events
        ≡ ([] ++ (service_event frame config request withdrawn ∷ [])) ++ deposited)
    × (after.events
        ≡ []
          ++ (service_event frame config request withdrawn
              ∷ (deposited
                  ++ (call_done who
                        (inner frame config request
                          (paid_state frame config request start withdrawn)).0
                      ∷ transaction_fee_paid who
                          (final_fee frame config request
                            (paid_state frame config request start withdrawn))
                          2
                      ∷ []))))
meta_call_events_example =
    meta_call_events frame config RawOrigin.none request start after frame-IsContained request_done

wrong_nonce :
    (meta_call frame config RawOrigin.none (record request { nonce = 1 }) start).0
    ≡ failed (module_error nonce_error)
unfolding meta_call pay_service_fee bump_nonce
wrong_nonce = refl

meta_call_failed_example :
    Failure frame config RawOrigin.none
      (record request { nonce = 1 })
      start
      (module_error nonce_error)
meta_call_failed_example =
    meta_call_failed frame config RawOrigin.none (record request { nonce = 1 }) start
      (module_error nonce_error) wrong_nonce
