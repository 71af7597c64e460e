-- ===== src/Pallet/MetaCall/Funds.antt =====
-- A meta call that was validated can pay: it succeeds, whatever the inner call does.
use substrate_evm_account_ma.Prelude.{
  sym, ap, u128_max, refl, ◌∙◌, u32_mod, ◌%◌, arith, unwrap_or, ◌+◌, ◌≡◌, ◌≤◌, ℕ,
}
use substrate_evm_account_ma.Account.{AccountId}
use substrate_evm_account_ma.Host.{Host}
use substrate_evm_account_ma.Pallet.Exec.{◌>>◌, >>-run, Outcome, done}
use substrate_evm_account_ma.Pallet.Frame.{Config, Frame}
use substrate_evm_account_ma.Pallet.Frame.Laws.{IsSaturating, IsCovering}
use substrate_evm_account_ma.Pallet.MetaCall.{
  meta_call, post_info_of, bump_nonce, charge_and_dispatch, pay_service_fee,
}
use substrate_evm_account_ma.Pallet.MetaCall.Stages.{pay_service_fee_nonces, final_fee, inner}
use substrate_evm_account_ma.Pallet.Types.{
  RawOrigin, Call, ValidTransaction, keep_alive, fee, polite, State, preserve, MetaCall,
}
use substrate_evm_account_ma.Pallet.Validate.{validate_unsigned, estimated_fee}
use substrate_evm_account_ma.Pallet.Validate.Accept.{validate_unsigned_sound}
use substrate_evm_account_ma.Pallet.Verdict.{accept}

module _ {RuntimeCall Rest Post Err Imbalance Liquidity : Type 0} (h : Host)
    (f : Frame RuntimeCall Rest Post Err Imbalance Liquidity)
    (c : Config RuntimeCall Rest Imbalance) (L : IsCovering f c) (m : MetaCall RuntimeCall) where
  abbrev usable : Rest → ℕ
  usable = f.reducible_balance m.who preserve polite

  -- The service fee is paid, and what was usable beyond it still is. The fee estimate stays.
  pay_service_fee_covered :
      (s : State Rest Post Err)
      → c.service_fee ≤ usable s.rest
      → ((pay_service_fee f c m s).0 ≡ done tt)
        × (usable s.rest ≤ usable (pay_service_fee f c m s).1.rest + c.service_fee)
        × (estimated_fee h f c m (pay_service_fee f c m s).1.rest ≡ estimated_fee h f c m s.rest)
  unfolding pay_service_fee
  pay_service_fee_covered s covered =
      let (withdrawn, taken) = L.withdraw_covered m.who c.service_fee s.rest covered in
      let len = f.encoded_size m.call % u32_mod in
      let info = f.get_dispatch_info m.call in
      let tip = unwrap_or m.tip 0 in
      let left = (f.withdraw m.who c.service_fee fee keep_alive s.rest).1 in
      rw taken (
        refl,
        omega (
          arith,
          L.reducible_balance-withdraw m.who c.service_fee s.rest covered,
          L.reducible_balance-on_unbalanced m.who withdrawn left,
        ),
        L.compute_fee-on_unbalanced len info tip withdrawn left
            ∙ L.compute_fee-withdraw len info tip m.who c.service_fee s.rest,
      )

  bump_nonce_current :
      (s : State Rest Post Err)
      → s.account_nonce m.who ≡ m.nonce
      → ((bump_nonce f c m s).0 ≡ done tt) × ((bump_nonce f c m s).1.rest ≡ s.rest)
  unfolding bump_nonce
  bump_nonce_current s e = ground arith

  charge_and_dispatch_covered :
      (s : State Rest Post Err)
      → estimated_fee h f c m s.rest ≤ usable s.rest
      → (charge_and_dispatch f c m s).0 ≡ done tt
  unfolding charge_and_dispatch
  charge_and_dispatch_covered s covered =
      let info = f.get_dispatch_info m.call in
      let tip = unwrap_or m.tip 0 in
      let (liquidity, taken) =
        L.withdraw_fee_covered m.who m.call info (estimated_fee h f c m s.rest) tip s.rest
          covered in
      let (result, s') = inner f c m s in
      ground (
        arith,
        taken,
        L.correct_and_deposit_fee_settles m.who info (post_info_of result) (final_fee f c m s) tip
            liquidity s'.rest,
      )

  -- With the account's nonce, and both fees usable, a meta call succeeds.
  pub funded_meta_call_done :
      (s : State Rest Post Err)
      → s.account_nonce m.who ≡ m.nonce
      → estimated_fee h f c m s.rest + c.service_fee ≤ usable s.rest
      → (meta_call f c RawOrigin.none m s).0 ≡ done tt
  unfolding meta_call
  funded_meta_call_done s current funded =
      let (paid, left, same_fee) = pay_service_fee_covered s (omega arith) in
      let s1 = (pay_service_fee f c m s).1 in
      let kept = pay_service_fee_nonces f c m s in
      let (bumped, same_rest) =
        bump_nonce_current s1 (cc (ap (λ (nonces : AccountId → ℕ). nonces m.who) kept)) in
      let charged =
        charge_and_dispatch_covered (bump_nonce f c m s1).1 (rw same_rest (omega arith)) in
      ap (λ (r : Outcome (Unit {0}) × State Rest Post Err). r.0)
        (>>-run (pay_service_fee f c m) (bump_nonce f c m >> charge_and_dispatch f c m) s paid
          ∙ >>-run (bump_nonce f c m) (charge_and_dispatch f c m) s1 bumped)
      ∙ charged

  -- A meta call that `validate_unsigned` accepts, its two fees together a `u128`, succeeds on the
  -- state for which it was validated, also where the inner call fails. Assumes IsCovering of the
  -- balances and the fee payment, and that conversions of numbers saturate.
  pub validated_meta_call_done :
      (s : State Rest Post Err) (v : ValidTransaction)
      → IsSaturating f
      → estimated_fee h f c m s.rest + c.service_fee ≤ u128_max
      → validate_unsigned h f c s (Call.meta_call m) ≡ accept v
      → (meta_call f c RawOrigin.none m s).0 ≡ done tt
  validated_meta_call_done s v S fits valid =
      let a = (validate_unsigned_sound h f c s m v S valid).0 in
      let funded = a.funded in funded_meta_call_done s (sym a.current) (omega arith)
