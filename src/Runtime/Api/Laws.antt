-- ===== src/Runtime/Api/Laws.antt =====
-- What the node sees of a meta call through the runtime APIs.
use substrate_evm_account_ma.Prelude.{
  refl, Option-cases, none, ◌↔◌, ◌*◌, ap, arith, u64_mod, ◌<◌, length, inl, ◌+◌, inr, ℕ, List, ◌≡◌,
}
use substrate_evm_account_ma.Prelude.Checked.{panics}
use substrate_evm_account_ma.Account.{AccountId}
use substrate_evm_account_ma.Chain.{StorageLayer, Run}
use substrate_evm_account_ma.Chain.Replay.{Run-nonces, executed_next, nonces_of}
use substrate_evm_account_ma.Host.{Host}
use substrate_evm_account_ma.Pallet.Exec.{done}
use substrate_evm_account_ma.Pallet.Frame.{Frame}
use substrate_evm_account_ma.Pallet.Frame.Laws.{IsSaturating, IsContained}
use substrate_evm_account_ma.Pallet.MetaCall.{meta_call}
use substrate_evm_account_ma.Pallet.Types.{
  Weight, stale, RawOrigin, ValidTransaction, Call, InvalidTransaction, MetaCall, State,
}
use substrate_evm_account_ma.Pallet.Validate.{validate_unsigned}
use substrate_evm_account_ma.Pallet.Validate.Accept.{validate_unsigned_sound}
use substrate_evm_account_ma.Pallet.Validate.Reject.{validate_unsigned-reject}
use substrate_evm_account_ma.Pallet.Verdict.{accept, reject}
use substrate_evm_account_ma.Runtime.{millisecs_per_block, minimum_period, runtime_config, Library}
use substrate_evm_account_ma.Runtime.Api.{try_runtime, ApiParts, Executive, runtime_api}

module _ {RuntimeCall Rest Post Err Imbalance Liquidity : Type 0} (h : Host)
    (f : Frame RuntimeCall Rest Post Err Imbalance Liquidity) (lib : Library Rest Imbalance)
    (layer : StorageLayer (State Rest Post Err)) {t : ApiParts}
    (x : Executive t (State Rest Post Err))
    (new_unsigned : MetaCall RuntimeCall → t.Extrinsic) where
  -- Documented behaviour of the executive for the unsigned extrinsic of a meta call. It brings the
  -- block's own records up to date before and after, which are not this pallet's map. What the pallet
  -- rejects is rejected. What is applied with success was accepted by the pallet and then dispatched
  -- with no origin, inside a storage layer, with success.
  pub record IsExecutive : Type 0 where
    pub rejects :
        (source : t.Source) (m : MetaCall RuntimeCall) (hash : t.Hash) (s : State Rest Post Err)
        → (s' : State Rest Post Err) × (s'.account_nonce ≡ s.account_nonce)
          × ((e : InvalidTransaction)
              → validate_unsigned h f (runtime_config h lib) s' (Call.meta_call m) ≡ reject e
              → (reason : t.Invalid) × (x.validate_transaction source (new_unsigned m) hash s
                  ≡ inl reason))
    pub applies :
        (m : MetaCall RuntimeCall) (s u : State Rest Post Err)
        → x.apply_extrinsic (new_unsigned m) s ≡ (inr (inr tt), u)
        → (s' : State Rest Post Err) × (u' : State Rest Post Err) × (v : ValidTransaction)
          × (validate_unsigned h f (runtime_config h lib) s' (Call.meta_call m) ≡ accept v)
          × (layer.run (meta_call f (runtime_config h lib) RawOrigin.none m) s' ≡ (done tt, u'))
          × (u.account_nonce ≡ u'.account_nonce)

  -- Once the block builder's API applied a meta call with success, the transaction queue's API
  -- rejects it from every source in every later state, as long as the caller's nonce fits a `u64`.
  -- Assumes IsExecutive of the executive, that inner calls leave the pallet's map alone and that
  -- conversions of numbers saturate.
  pub applied_is_rejected :
      (m : MetaCall RuntimeCall) (source : t.Source) (hash : t.Hash) {s u w : State Rest Post Err}
      {l : List (AccountId × ℕ)}
      → IsContained f
      → IsSaturating f
      → IsExecutive
      → (runtime_api x).apply_extrinsic (new_unsigned m) s ≡ (inr (inr tt), u)
      → Run h f (runtime_config h lib) layer u l w
      → m.nonce + 1 + length (nonces_of m.who l) < u64_mod
      → (reason : t.Invalid) × ((runtime_api x).validate_transaction source (new_unsigned m) hash w
          ≡ inl reason)
  applied_is_rejected m source hash {s} {u} {w} L S E applied r fits =
      let c = runtime_config h lib in
      let (s', u', v, valid, success, nonces) = E.applies m s u applied in
      let next : u'.account_nonce m.who ≡ m.nonce + 1 =
        executed_next h f c layer L m success (omega arith) in
      let start = ap (λ (n : AccountId → ℕ). n m.who) nonces in
      let grown = (Run-nonces h f c layer L m.who r (omega arith)).0 in
      let (w', same, rejects) = E.rejects source m hash w in
      let at = ap (λ (n : AccountId → ℕ). n m.who) same in
      rejects stale (
        (validate_unsigned-reject h f c w' m stale S).1 (
          (validate_unsigned_sound h f c s' m v S valid).0.signed,
          omega (arith, next, start, grown, at),
        ))

-- The slots that the node is told last as long as the blocks are meant to, if `pallet_aura` doubles
-- the minimum period, as it is documented to.
slot_duration_lem :
    {t : ApiParts} {S : Type 0} (x : Executive t S)
    → x.aura_slot_duration ≡ 2 * minimum_period
    → (runtime_api x).slot_duration ≡ millisecs_per_block
slot_duration_lem x doubled = omega (arith, doubled)

-- Under `try-runtime` an upgrade panics exactly if the executive refuses it.
on_runtime_upgrade-panics :
    {t : ApiParts} {S : Type 0} (x : Executive t S) (max_block : Weight) (checks : t.UpgradeChecks)
    (s : S)
    → ((try_runtime x max_block).on_runtime_upgrade checks s ≡ panics)
      ↔ (x.try_runtime_upgrade checks s ≡ none)
on_runtime_upgrade-panics x max_block checks s =
    elim (Option-cases (x.try_runtime_upgrade checks s)) [
      | inl refused ↦ rw refused (λ p. refl, λ p. refl)
      | inr (weight, given) ↦ rw given (λ p. cc, λ p. cc)
    ]
