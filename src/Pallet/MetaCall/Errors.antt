-- ===== src/Pallet/MetaCall/Errors.antt =====
-- The errors of `meta_call`, and what each of them says.
use substrate_evm_account_ma.Prelude.{sym, ◌∙◌, ℕ, ap, ◌⊎◌, arith, ◌≢◌, ◌≡◌, none, inl, inr}
use substrate_evm_account_ma.Account.{AccountId}
use substrate_evm_account_ma.Pallet.Exec.{>>-failed, failed, ◌>>◌}
use substrate_evm_account_ma.Pallet.Frame.{Config, Frame}
use substrate_evm_account_ma.Pallet.MetaCall.{
  meta_call, bump_nonce, pay_service_fee, charge_and_dispatch,
}
use substrate_evm_account_ma.Pallet.MetaCall.Stages.{
  bump_nonce_done, pay_service_fee_events, pay_service_fee_nonces,
}
use substrate_evm_account_ma.Pallet.Types.{
  MetaCall, State, RawOrigin, nonce_error, payment_error, bad_origin, module_error, fee, keep_alive,
  root, signed, DispatchError,
}

module _ {RuntimeCall Rest Post Err Imbalance Liquidity : Type 0}
    (f : Frame RuntimeCall Rest Post Err Imbalance Liquidity)
    (c : Config RuntimeCall Rest Imbalance) where
  -- What an error says of the call, its origin and the state.
  abbrev pub Failure :
      RawOrigin → MetaCall RuntimeCall → State Rest Post Err → DispatchError → Type 0
  Failure origin m s e =
      ((e ≡ bad_origin) × (origin ≢ RawOrigin.none))
      ⊎ ((e ≡ module_error nonce_error)
          × (s.account_nonce m.who ≢ m.nonce)
          × ((f.withdraw m.who c.service_fee fee keep_alive s.rest).0 ≢ none))
      ⊎ ((e ≡ module_error payment_error)
          × (((f.withdraw m.who c.service_fee fee keep_alive s.rest).0 ≡ none)
              ⊎ (s.account_nonce m.who ≡ m.nonce)))

  charge_and_dispatch_failed :
      (m : MetaCall RuntimeCall) (s : State Rest Post Err) (e : DispatchError)
      → (charge_and_dispatch f c m s).0 ≡ failed e
      → e ≡ module_error payment_error
  unfolding charge_and_dispatch
  charge_and_dispatch_failed m s e p = ground arith

  pay_service_fee_failed :
      (m : MetaCall RuntimeCall) (s : State Rest Post Err) (e : DispatchError)
      → (pay_service_fee f c m s).0 ≡ failed e
      → (e ≡ module_error payment_error)
        × ((f.withdraw m.who c.service_fee fee keep_alive s.rest).0 ≡ none)
  unfolding pay_service_fee
  pay_service_fee_failed m s e p = ground arith

  bump_nonce_failed :
      (m : MetaCall RuntimeCall) (s : State Rest Post Err) (e : DispatchError)
      → (bump_nonce f c m s).0 ≡ failed e
      → (e ≡ module_error nonce_error) × (s.account_nonce m.who ≢ m.nonce)
  unfolding bump_nonce
  bump_nonce_failed m s e p = ground arith

  -- After the check of the origin.
  unsigned_failed :
      (m : MetaCall RuntimeCall) (s : State Rest Post Err) (e : DispatchError)
      → ((pay_service_fee f c m >> (bump_nonce f c m >> charge_and_dispatch f c m)) s).0 ≡ failed e
      → Failure RawOrigin.none m s e
  unsigned_failed m s e p =
      let kept = ap (λ (nonces : AccountId → ℕ). nonces m.who) (pay_service_fee_nonces f c m s) in
      elim (>>-failed (pay_service_fee f c m) (bump_nonce f c m >> charge_and_dispatch f c m) s p) [
        | inl unpaid ↦
            let (reason, missing) = pay_service_fee_failed m s e unpaid in
            inr (inr (reason, inl missing))
        | inr (a, paid, p1) ↦
            let (withdrawn, taken, first) = pay_service_fee_events f c m s paid in
            elim (>>-failed (bump_nonce f c m) (charge_and_dispatch f c m)
              (pay_service_fee f c m s).1 p1) [
                | inl wrong ↦
                    let (reason, differ) =
                      bump_nonce_failed m (pay_service_fee f c m s).1 e wrong in
                    inr (inl (reason, λ same. differ (kept ∙ same), λ missing. cc))
                | inr (b, bumped, p2) ↦
                    let (matched, moved) =
                      bump_nonce_done f c m (pay_service_fee f c m s).1 bumped in
                    inr (inr (charge_and_dispatch_failed m _ e p2, inr (sym kept ∙ matched)))
              ]
      ]

  -- A meta call that fails does so with one of three errors: bad origin, and then it has an origin;
  -- the nonce error, and then the nonce is wrong and the service fee could be withdrawn; the payment
  -- error, and then that fee could not be withdrawn or the nonce is right.
  pub meta_call_failed :
      (origin : RawOrigin) (m : MetaCall RuntimeCall) (s : State Rest Post Err) (e : DispatchError)
      → (meta_call f c origin m s).0 ≡ failed e
      → Failure origin m s e
  unfolding meta_call
  meta_call_failed root m s e p = inl (cc, λ q. cc)
  meta_call_failed (signed who) m s e p = inl (cc, λ q. cc)
  meta_call_failed RawOrigin.none m s e p = unsigned_failed m s e p
