-- ===== src/Pallet/MetaCall/Charges.antt =====
-- What a meta call costs its caller.
use substrate_evm_account_ma.Prelude.{
  ◌∙◌, sym, ap, arith, ◌<◌, unwrap_or, ◌≤◌, u32_mod, ◌+◌, ◌%◌, ◌≡◌, ℕ,
}
use substrate_evm_account_ma.Pallet.Exec.{Outcome, done}
use substrate_evm_account_ma.Pallet.Frame.{Config, Frame}
use substrate_evm_account_ma.Pallet.Frame.Laws.{IsSettling}
use substrate_evm_account_ma.Pallet.MetaCall.{post_info_of, pay_service_fee, meta_call}
use substrate_evm_account_ma.Pallet.MetaCall.Effects.{after_fee, meta_call_stages, after_bump}
use substrate_evm_account_ma.Pallet.MetaCall.Stages.{
  charge_and_dispatch_rest, bump_nonce_done, inner, pay_service_fee_rest, final_fee, fee_withdrawal,
}
use substrate_evm_account_ma.Pallet.Types.{
  State, MetaCall, RawOrigin, preserve, polite, fee, keep_alive,
}

module _ {RuntimeCall Rest Post Err Imbalance Liquidity : Type 0}
    (f : Frame RuntimeCall Rest Post Err Imbalance Liquidity)
    (c : Config RuntimeCall Rest Imbalance) where
  -- What the caller can use of the balance.
  abbrev pub usable : MetaCall RuntimeCall → Rest → ℕ
  usable m = f.reducible_balance m.who preserve polite

  -- The storage as the inner call finds it, its fee withdrawn.
  abbrev pub inner_start : MetaCall RuntimeCall → State Rest Post Err → Rest
  inner_start m s = (fee_withdrawal f c m (after_bump f c m s).rest).1

  -- The fee withdrawn before the inner call.
  abbrev pub withdrawn_fee : MetaCall RuntimeCall → State Rest Post Err → ℕ
  withdrawn_fee m s =
      f.compute_fee (f.encoded_size m.call % u32_mod) (f.get_dispatch_info m.call)
        (unwrap_or m.tip 0) (after_bump f c m s).rest

  -- The service fee is paid exactly.
  pub pay_service_fee_charges :
      (m : MetaCall RuntimeCall) (s : State Rest Post Err)
      → IsSettling f c
      → (pay_service_fee f c m s).0 ≡ done tt
      → usable m (pay_service_fee f c m s).1.rest + c.service_fee ≡ usable m s.rest
  pay_service_fee_charges m s L e =
      let (withdrawn, taken, left) = pay_service_fee_rest f c m s e in
      let exact = (L.withdraw_exact m.who c.service_fee s.rest withdrawn taken).1 in
      rw left (
        omega (
          arith,
          exact,
          L.on_unbalanced_neutral m.who withdrawn
              (f.withdraw m.who c.service_fee fee keep_alive s.rest).1,
        ))

  -- Beyond what the inner call itself moves, a successful meta call costs the caller the service fee
  -- and the actual fee of the inner call: the usable balance before, with what the inner call left,
  -- is the usable balance afterwards, with both fees and what the inner call started from. Assumes
  -- that the actual fee is at most the one withdrawn, that the inner call leaves something usable,
  -- and IsSettling of the balances and the fee payment.
  pub meta_call_charges :
      (origin : RawOrigin) (m : MetaCall RuntimeCall) (s t : State Rest Post Err)
      → IsSettling f c
      → meta_call f c origin m s ≡ (done tt, t)
      → final_fee f c m (after_bump f c m s) ≤ withdrawn_fee m s
      → 0 < usable m (inner f c m (after_bump f c m s)).1.rest
      → usable m t.rest
          + c.service_fee
          + final_fee f c m (after_bump f c m s)
          + usable m (inner_start m s)
        ≡ usable m s.rest + usable m (inner f c m (after_bump f c m s)).1.rest
  meta_call_charges origin m s t L e cheap alive =
      let (unsigned, paid, bumped, charged) = meta_call_stages f c origin m s t e in
      let b = after_bump f c m s in
      let kept : b.rest ≡ (pay_service_fee f c m s).1.rest =
        ap (λ (r : State Rest Post Err). r.rest)
          (bump_nonce_done f c m (after_fee f c m s) bumped).1 in
      let (liquidity, taken, left) =
        charge_and_dispatch_rest f c m b
          (ap (λ (r : Outcome (Unit {0}) × State Rest Post Err). r.0) charged) in
      let settled : t.rest ≡ _ =
        sym (ap (λ (r : Outcome (Unit {0}) × State Rest Post Err). r.1.rest) charged) ∙ left in
      let exact =
        L.withdraw_fee_exact m.who m.call (f.get_dispatch_info m.call) (withdrawn_fee m s)
          (unwrap_or m.tip 0) b.rest liquidity taken in
      let refund =
        L.correct_and_deposit_fee_refunds m.who m.call (f.get_dispatch_info m.call)
          (withdrawn_fee m s) (unwrap_or m.tip 0) b.rest liquidity (post_info_of (inner f c m b).0)
          (final_fee f c m b) (inner f c m b).1.rest taken cheap alive in
      rw settled
        (omega (arith, exact, refund, ap (usable m) kept, pay_service_fee_charges m s L paid))
