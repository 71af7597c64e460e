-- ===== src/Pallet/Validate/Tip.antt =====
-- The tip, which the caller pays and the signed message leaves out.
use substrate_evm_account_ma.Prelude.{sym, ap, ◌≤◌, ◌≡◌, ℕ, Option, unwrap_or, arith}
use substrate_evm_account_ma.Host.{Host}
use substrate_evm_account_ma.Pallet.Frame.{Config, Frame}
use substrate_evm_account_ma.Pallet.Frame.Laws.{IsSaturating}
use substrate_evm_account_ma.Pallet.Types.{ValidTransaction, MetaCall, Call, State}
use substrate_evm_account_ma.Pallet.Validate.{validate_unsigned}
use substrate_evm_account_ma.Pallet.Validate.Accept.{
  validate_unsigned_sound, validate_unsigned_complete, IsFunded, IsAcceptable, accepted,
}
use substrate_evm_account_ma.Pallet.Validate.Priority.{priority_mono}
use substrate_evm_account_ma.Pallet.Verdict.{accept}

module _ {RuntimeCall Rest Post Err Imbalance Liquidity : Type 0} (h : Host)
    (f : Frame RuntimeCall Rest Post Err Imbalance Liquidity)
    (c : Config RuntimeCall Rest Imbalance) where
  -- A call with another tip, and all else as it was signed.
  abbrev pub with_tip : MetaCall RuntimeCall → Option ℕ → MetaCall RuntimeCall
  with_tip m tip = record m { tip = tip }

  other_tip-IsAcceptable :
      (s : State Rest Post Err) (m : MetaCall RuntimeCall) (tip : Option ℕ)
      → IsAcceptable h f c s m
      → IsFunded h f c (with_tip m tip) s.rest
      → IsAcceptable h f c s (with_tip m tip)
  other_tip-IsAcceptable s m tip a funded = record {
    signed = a.signed;
    current = a.current;
    funded = funded;
    room = a.room;
  }

  -- What an accepted call was signed for is accepted with any tip that is not lower and is covered
  -- together with the fees: with the same tag, and no lower a priority, so that it takes the place
  -- of the call signed. Assumes that conversions of numbers saturate.
  pub other_tip_accepted :
      (s : State Rest Post Err) (m : MetaCall RuntimeCall) (v : ValidTransaction) (tip : Option ℕ)
      → IsSaturating f
      → validate_unsigned h f c s (Call.meta_call m) ≡ accept v
      → unwrap_or m.tip 0 ≤ unwrap_or tip 0
      → IsFunded h f c (with_tip m tip) s.rest
      → (v' : ValidTransaction) × (validate_unsigned h f c s (Call.meta_call (with_tip m tip))
          ≡ accept v')
        × (v'.provides ≡ v.provides)
        × (v.priority ≤ v'.priority)
  other_tip_accepted s m v tip S e higher funded =
      let (a, (p, computed, built)) = validate_unsigned_sound h f c s m v S e in
      let (q, valid) =
        validate_unsigned_complete h f c s (with_tip m tip) S
          (other_tip-IsAcceptable s m tip a funded) in
      let (b, (q', computed', built')) =
        validate_unsigned_sound h f c s (with_tip m tip) (accepted h f c (with_tip m tip) q) S
          valid in
      (
        accepted h f c (with_tip m tip) q,
        valid,
        ap (λ (t : ValidTransaction). t.provides) (sym built),
        omega (
          arith,
          (priority_mono h f c m tip S higher computed computed').0,
          ap (λ (t : ValidTransaction). t.priority) built,
          ap (λ (t : ValidTransaction). t.priority) built',
        ),
      )
