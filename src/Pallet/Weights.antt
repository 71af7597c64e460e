-- ===== src/Pallet/Weights.antt =====
-- pallets/evm_account_mapping/src/weights.rs: the weight of a meta call, in both implementations of
-- `WeightInfo`. `Weight::saturating_add` and the weights of the database are parameters.
pub mod Laws
use substrate_evm_account_ma.Prelude.{ℕ}
use substrate_evm_account_ma.Pallet.Types.{Weight}

-- `RuntimeDbWeight`, its `reads` and `writes`
pub record DbWeight : Type 0 where
  pub reads : ℕ → Weight
  pub writes : ℕ → Weight

module _ (saturating_add : Weight → Weight → Weight) where
  -- `SubstrateWeight::meta_call`, with the database of the runtime.
  abbrev pub substrate_weight_meta_call : DbWeight → Weight
  substrate_weight_meta_call db =
      saturating_add
        (saturating_add (record { ref_time = 24000000; proof_size = 3593 }) (db.reads 3))
        (db.writes 2)

  -- `meta_call` of the implementation for `()`, with `RocksDbWeight`.
  abbrev pub unit_weight_meta_call : DbWeight → Weight
  unit_weight_meta_call rocks_db_weight =
      saturating_add
        (saturating_add (record { ref_time = 24000000; proof_size = 3593 })
          (rocks_db_weight.reads 3))
        (rocks_db_weight.writes 2)
