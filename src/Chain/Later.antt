-- ===== src/Chain/Later.antt =====
-- What the transaction pool finds when it validates an accepted call again, later in the chain.
use substrate_evm_account_ma.Prelude.{
  Bool, ◌==◌, leb, if◌then◌else◌, min, u128_max, u64_mod, List, ℕ, length, ◌≡◌, ◌+◌, ◌<◌, arith,
  Bool-cases, inl, inr,
}
use substrate_evm_account_ma.Account.{AccountId}
use substrate_evm_account_ma.Chain.{Run, StorageLayer}
use substrate_evm_account_ma.Chain.Replay.{Run-nonces, nonces_of}
use substrate_evm_account_ma.Host.{Host}
use substrate_evm_account_ma.Pallet.Frame.{Config, Frame}
use substrate_evm_account_ma.Pallet.Frame.Laws.{IsContained, IsSaturating}
use substrate_evm_account_ma.Pallet.Types.{
  State, MetaCall, Call, ValidTransaction, stale, payment, polite, preserve,
}
use substrate_evm_account_ma.Pallet.Validate.{validate_unsigned, estimated_fee}
use substrate_evm_account_ma.Pallet.Validate.Accept.{
  validate_unsigned_sound, validate_unsigned_complete, accepted,
}
use substrate_evm_account_ma.Pallet.Validate.Reject.{validate_unsigned-reject}
use substrate_evm_account_ma.Pallet.Verdict.{Verdict, reject, accept}

module _ {RuntimeCall Rest Post Err Imbalance Liquidity : Type 0} (h : Host)
    (f : Frame RuntimeCall Rest Post Err Imbalance Liquidity)
    (c : Config RuntimeCall Rest Imbalance) where
  -- Whether the usable balance covers both fees, as `u128`s add.
  abbrev pub covers : MetaCall RuntimeCall → Rest → Bool
  covers m rest =
      leb (min (estimated_fee h f c m rest + c.service_fee) u128_max)
        (f.reducible_balance m.who preserve polite rest)

  -- What becomes of an accepted call, after a number of its account's calls and over a storage.
  abbrev pub later_verdict :
      MetaCall RuntimeCall → ValidTransaction → ℕ → Rest → Verdict ValidTransaction
  later_verdict m v count rest =
      if count == 0 then (if covers m rest then accept v else reject payment) else reject stale

  -- An accepted call whose nonce is still the account's.
  still_next :
      (m : MetaCall RuntimeCall) (v : ValidTransaction) (s u : State Rest Post Err)
      → IsSaturating f
      → validate_unsigned h f c s (Call.meta_call m) ≡ accept v
      → m.nonce ≡ u.account_nonce m.who
      → validate_unsigned h f c u (Call.meta_call m)
        ≡ (if covers m u.rest then accept v else reject payment)
  still_next m v s u S e same =
      let (a, (p, computed, built)) = validate_unsigned_sound h f c s m v S e in
      elim (Bool-cases (covers m u.rest)) [
        | inr short ↦ rw short (
            (validate_unsigned-reject h f c u m payment S).1
              (a.signed, same, λ q. ground (arith, short)))
        | inl enough ↦
            let (q, valid) = validate_unsigned_complete h f c u m S (record {
              signed = a.signed;
              current = same;
              funded = ground (arith, enough);
              room = a.room;
            }) in
            let (b, (q', computed', built')) =
              validate_unsigned_sound h f c u m (accepted h f c m q) S valid in
            rw enough (cc)
      ]

  module _ (layer : StorageLayer (State Rest Post Err)) (L : IsContained f) where
    -- An accepted call, validated again in a later state, as long as the caller's nonce fits a
    -- `u64`: once a call of its account was executed it is stale; before, it is accepted with the
    -- same result if the usable balance covers it, and else rejected for the payment. Assumes that
    -- inner calls leave the pallet's map alone and that conversions of numbers saturate.
    pub Run-later_verdict :
        (m : MetaCall RuntimeCall) (v : ValidTransaction) {s u : State Rest Post Err}
        {l : List (AccountId × ℕ)}
        → IsSaturating f
        → validate_unsigned h f c s (Call.meta_call m) ≡ accept v
        → Run h f c layer s l u
        → m.nonce + length (nonces_of m.who l) < u64_mod
        → validate_unsigned h f c u (Call.meta_call m)
          ≡ later_verdict m v (length (nonces_of m.who l)) u.rest
    Run-later_verdict m v {s} {u} {l} S e r fits =
        let a = (validate_unsigned_sound h f c s m v S e).0 in
        let current = a.current in
        let moved = (Run-nonces h f c layer L m.who r (omega (arith, current))).0 in
        elim (Bool-cases (length (nonces_of m.who l) == 0)) [
          | inl none_of ↦
              rw none_of (still_next m v s u S e (ground (arith, none_of, moved, current)))
          | inr some_of ↦ rw some_of (
              (validate_unsigned-reject h f c u m stale S).1
                (a.signed, ground (arith, some_of, moved, current)))
        ]
