-- ===== src/Chain/Progress.antt =====
-- The chain does not get stuck: a signed and funded call with the next nonce goes through.
use substrate_evm_account_ma.Prelude.{
  ◌∙◌, ap, arith, u64_mod, ◌<◌, ◌∷◌, u128_max, length, ◌≤◌, ◌+◌, ◌≡◌, ℕ, List,
}
use substrate_evm_account_ma.Account.{AccountId}
use substrate_evm_account_ma.Chain.{Run, StorageLayer, executed}
use substrate_evm_account_ma.Chain.Replay.{Run-nonces, nonces_of}
use substrate_evm_account_ma.Host.{Host}
use substrate_evm_account_ma.Pallet.Exec.{Outcome, done}
use substrate_evm_account_ma.Pallet.Frame.{Config, Frame}
use substrate_evm_account_ma.Pallet.Frame.Laws.{IsSaturating, IsContained, IsCovering}
use substrate_evm_account_ma.Pallet.MetaCall.{meta_call}
use substrate_evm_account_ma.Pallet.MetaCall.Funds.{validated_meta_call_done}
use substrate_evm_account_ma.Pallet.Types.{RawOrigin, MetaCall, State}
use substrate_evm_account_ma.Pallet.Validate.{estimated_fee}
use substrate_evm_account_ma.Pallet.Validate.Accept.{
  IsFunded, accepted, IsSigned, validate_unsigned_complete, IsAcceptable,
}
use substrate_evm_account_ma.Pallet.Validate.Priority.{HasRoom}

module _ {RuntimeCall Rest Post Err Imbalance Liquidity : Type 0} (h : Host)
    (f : Frame RuntimeCall Rest Post Err Imbalance Liquidity)
    (c : Config RuntimeCall Rest Imbalance) (layer : StorageLayer (State Rest Post Err)) where
  -- An acceptable call, its two fees together a `u128`, is executed.
  pub executed_if_acceptable :
      (m : MetaCall RuntimeCall) {s t : State Rest Post Err} {l : List (AccountId × ℕ)}
      → IsCovering f c
      → IsSaturating f
      → Run h f c layer s l t
      → IsAcceptable h f c t m
      → estimated_fee h f c m t.rest + c.service_fee ≤ u128_max
      → (u : State Rest Post Err) × Run h f c layer s ((m.who, m.nonce) ∷ l) u
  executed_if_acceptable m {s} {t} {l} V S r acceptable fits =
      let (p, valid) = validate_unsigned_complete h f c t m S acceptable in
      let success = validated_meta_call_done h f c V m t (accepted h f c m p) S fits valid in
      let outcome = meta_call f c RawOrigin.none m t in
      let split : outcome ≡ (done tt, outcome.1) =
        ap (λ (o : Outcome (Unit {0})). (o, outcome.1)) success in
      (
        outcome.1,
        executed m (accepted h f c m p) r valid
            (layer.keeps_success (meta_call f c RawOrigin.none m) t success ∙ split),
      )

  -- Every run goes on: a call that is signed by its caller, has the nonce after the caller's calls
  -- executed so far, a `u64`, is covered by the usable balance with its two fees together a `u128`,
  -- and has room in a block, is accepted and executed next. Assumes that inner calls leave the
  -- pallet's map alone, IsCovering of the balances and the fee payment, and that conversions of
  -- numbers saturate.
  pub Run-continues :
      (m : MetaCall RuntimeCall) {s t : State Rest Post Err} {l : List (AccountId × ℕ)}
      → IsContained f
      → IsCovering f c
      → IsSaturating f
      → Run h f c layer s l t
      → m.nonce ≡ s.account_nonce m.who + length (nonces_of m.who l)
      → m.nonce < u64_mod
      → IsSigned h f c m
      → IsFunded h f c m t.rest
      → HasRoom h f c m
      → estimated_fee h f c m t.rest + c.service_fee ≤ u128_max
      → (u : State Rest Post Err) × Run h f c layer s ((m.who, m.nonce) ∷ l) u
  Run-continues m V V' S r next small signed funded room fits =
      let current = (Run-nonces h f c layer V m.who r (omega arith)).0 in
      executed_if_acceptable m V' S r
        (record { signed = signed; current = omega arith; funded = funded; room = room }) fits
