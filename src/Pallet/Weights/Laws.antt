-- ===== src/Pallet/Weights/Laws.antt =====
-- What the declared weight of a meta call covers.
use substrate_evm_account_ma.Prelude.{refl, arith, min, u64_max, ◌+◌, ◌≡◌, ◌≤◌}
use substrate_evm_account_ma.Pallet.Frame.{Config, Frame}
use substrate_evm_account_ma.Pallet.MetaCall.{meta_call_weight}
use substrate_evm_account_ma.Pallet.Types.{Weight, MetaCall}

-- Weights add up component by component, to a `u64` at most.
abbrev pub IsAdding : (Weight → Weight → Weight) → Type 0
IsAdding add =
    (a b : Weight)
    → ((add a b).ref_time ≡ min (a.ref_time + b.ref_time) u64_max)
      × ((add a b).proof_size ≡ min (a.proof_size + b.proof_size) u64_max)

-- Both components are `u64`s.
abbrev pub IsWeight : Weight → Type 0
IsWeight w = (w.ref_time ≤ u64_max) × (w.proof_size ≤ u64_max)

-- No component is larger.
abbrev pub IsWithin : Weight → Weight → Type 0
IsWithin a b = (a.ref_time ≤ b.ref_time) × (a.proof_size ≤ b.proof_size)

module _ {RuntimeCall Rest Post Err Imbalance Liquidity : Type 0}
    (f : Frame RuntimeCall Rest Post Err Imbalance Liquidity)
    (c : Config RuntimeCall Rest Imbalance) (A : IsAdding f.weight_saturating_add) where
  -- The declared weight of a meta call is in no component below the inner call's or the pallet's
  -- own, stays within both together, and has the inner call's class. Assumes that weights are `u64`s
  -- that add up with saturation.
  pub meta_call_weight_covers :
      (m : MetaCall RuntimeCall)
      → IsWeight c.weight_info_meta_call
      → IsWeight (f.get_dispatch_info m.call).weight
      → IsWithin (f.get_dispatch_info m.call).weight (meta_call_weight f c m).0
        × IsWithin c.weight_info_meta_call (meta_call_weight f c m).0
        × IsWithin (meta_call_weight f c m).0 (record {
          ref_time =
              c.weight_info_meta_call.ref_time + (f.get_dispatch_info m.call).weight.ref_time;
          proof_size =
              c.weight_info_meta_call.proof_size + (f.get_dispatch_info m.call).weight.proof_size;
        })
        × ((meta_call_weight f c m).1 ≡ (f.get_dispatch_info m.call).class)
  unfolding meta_call_weight
  meta_call_weight_covers m own inner =
      let (time, proof) = A c.weight_info_meta_call (f.get_dispatch_info m.call).weight in
      (omega arith, omega arith, omega arith, refl)
