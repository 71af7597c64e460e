-- ===== src/Pallet/MetaCall.antt =====
-- `meta_call`, in the stages of the source: the service fee, the nonce, the inner call and its fee.
pub mod Stages
pub mod Effects
pub mod Errors
pub mod Charges
pub mod Funds
use substrate_evm_account_ma.Prelude.{
  u32_mod, u64_mod, ◌%◌, ◌+◌, unwrap_or, ◌==◌, Bool, Option, bytes_eq, false, if◌then◌else◌, true,
  ℕ,
}
use substrate_evm_account_ma.Account.{AccountId}
use substrate_evm_account_ma.Pallet.Exec.{
  modify_rest, deposit_event, ensure, gets, or_fail, ◌>>=◌, ◌>>◌, failed, done, Exec,
}
use substrate_evm_account_ma.Pallet.Frame.{Config, Frame}
use substrate_evm_account_ma.Pallet.Types.{
  service_fee_paid, transaction_fee_paid, call_done, keep_alive, bad_origin, fee, nonce_error,
  payment_error, module_error, DispatchError, Event, State, root, DispatchClass, signed, Weight,
  MetaCall, err, ok, DispatchResult, RawOrigin,
}

-- `AccountNonce`, a map with default 0, with the value of one account replaced.
unfoldable pub insert : AccountId → ℕ → (AccountId → ℕ) → AccountId → ℕ
insert who v nonces a = if bytes_eq a who then v else nonces a

-- `ensure_none`
abbrev pub is_none : RawOrigin → Bool
is_none RawOrigin.none = true
is_none root = false
is_none (signed who) = false

-- The information of a result, of an error too.
abbrev pub post_info_of : {Post Err : Type 0} → DispatchResult Post Err → Post
post_info_of (ok post_info) = post_info
post_info_of (err e post_info) = post_info

module _ {RuntimeCall Rest Post Err Imbalance Liquidity : Type 0}
    (f : Frame RuntimeCall Rest Post Err Imbalance Liquidity)
    (c : Config RuntimeCall Rest Imbalance) where
  unfoldable pub pay_service_fee : MetaCall RuntimeCall → Exec (State Rest Post Err) (Unit {0})
  pay_service_fee m = do
    withdrawn ← or_fail (f.withdraw m.who c.service_fee fee keep_alive) (module_error payment_error)
    let withdrawn_fee = f.peek withdrawn
    modify_rest (c.on_unbalanced_for_service_fee withdrawn)
    deposit_event (service_fee_paid m.who withdrawn_fee c.service_fee)

  -- `AccountNonce::try_mutate`; the addition wraps in a release build.
  unfoldable pub bump_nonce : MetaCall RuntimeCall → Exec (State Rest Post Err) (Unit {0})
  bump_nonce m s =
      let value = s.account_nonce m.who in
      if value == m.nonce
      then (
        done tt,
        record s { account_nonce = insert m.who ((value + 1) % u64_mod) s.account_nonce },
      )
      else (failed (module_error nonce_error), s)

  -- The dispatch of the inner call, as signed by the caller and under the call filter.
  abbrev pub dispatch_call :
      MetaCall RuntimeCall → Exec (State Rest Post Err) (DispatchResult Post Err)
  dispatch_call m s =
      let (call_result, s') = f.dispatch m.call (signed m.who) c.call_filter s in
      (done call_result, s')

  abbrev pub correct_fee :
      MetaCall RuntimeCall → Post → ℕ → Liquidity → Exec (State Rest Post Err) (Unit {0})
  correct_fee m post_info actual_fee already_withdrawn s =
      let (settled, rest) =
        f.correct_and_deposit_fee m.who (f.get_dispatch_info m.call) post_info actual_fee
          (unwrap_or m.tip 0) already_withdrawn s.rest in
      (if settled then done tt else failed (module_error payment_error), record s { rest = rest })

  unfoldable pub charge_and_dispatch : MetaCall RuntimeCall → Exec (State Rest Post Err) (Unit {0})
  charge_and_dispatch m = do
    let len = f.encoded_size m.call
    let info = f.get_dispatch_info m.call
    let tip = unwrap_or m.tip 0
    est_fee ← gets (f.compute_fee (len % u32_mod) info tip)
    already_withdrawn ←
        or_fail (f.withdraw_fee m.who m.call info est_fee tip) (module_error payment_error)
    call_result ← dispatch_call m
    let post_info = post_info_of call_result
    deposit_event (call_done m.who call_result)
    actual_fee ← gets (f.compute_actual_fee (len % u32_mod) info post_info tip)
    correct_fee m post_info actual_fee already_withdrawn
    deposit_event (transaction_fee_paid m.who actual_fee tip)

  unfoldable pub meta_call :
      RawOrigin → MetaCall RuntimeCall → Exec (State Rest Post Err) (Unit {0})
  meta_call origin m = do
    ensure (is_none origin) bad_origin
    pay_service_fee m
    bump_nonce m
    charge_and_dispatch m

  -- `#[pallet::weight]`: the pallet's own weight on top of the inner call's, in its class.
  unfoldable pub meta_call_weight : MetaCall RuntimeCall → Weight × DispatchClass
  meta_call_weight m =
      let di = f.get_dispatch_info m.call in
      (f.weight_saturating_add c.weight_info_meta_call di.weight, di.class)
