-- ===== src/Node/Rpc.antt =====
-- node/src/rpc.rs: the RPC module of a full node. The two modules that it merges, and `jsonrpsee`,
-- are the library's.
pub mod Laws
use substrate_evm_account_ma.Prelude.{◌⊎◌, inl, inr}

-- `FullDeps`
pub record FullDeps (Client Pool DenyUnsafe : Type 0) : Type 0 where
  pub client : Client
  pub pool : Pool
  pub deny_unsafe : DenyUnsafe

-- `RpcModule::new(())` and its `merge`, and the modules of `System` and of `TransactionPayment`. On
-- the left is an error.
pub record RpcLibrary (Client Pool DenyUnsafe Module E : Type 0) : Type 0 where
  pub new : Module
  pub merge : Module → Module → E ⊎ Module
  pub system : Client → Pool → DenyUnsafe → Module
  pub transaction_payment : Client → Module

-- `?`
abbrev and_then : {E A B : Type 0} → E ⊎ A → (A → E ⊎ B) → E ⊎ B
and_then (inl e) k = inl e
and_then (inr a) k = k a

module _ {Client Pool DenyUnsafe Module E : Type 0}
    (l : RpcLibrary Client Pool DenyUnsafe Module E) where
  unfoldable pub create_full : FullDeps Client Pool DenyUnsafe → E ⊎ Module
  create_full deps =
      and_then (l.merge l.new (l.system deps.client deps.pool deps.deny_unsafe))
        (λ merged. l.merge merged (l.transaction_payment deps.client))
