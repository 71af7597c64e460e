-- ===== src/Node/Benchmarking.antt =====
-- node/src/benchmarking.rs: the extrinsics and the inherent data of the benchmarks. The keyring, the
-- runtime's calls, opaque extrinsics and inherent data are the library's.
pub mod Laws
use substrate_evm_account_ma.Prelude.{inr, ◌++◌, inl, as_bytes, some, ◌⊎◌, Bytes, ℕ, ◌∷◌, []}
use substrate_evm_account_ma.Prelude.Checked.{Checked, returns, ◌>>=◌}
use substrate_evm_account_ma.Account.{AccountId}
use substrate_evm_account_ma.Node.Extrinsic.{
  create_extrinsic, FullClient, Signing, UncheckedExtrinsic,
}

-- `RemarkBuilder` and `TransferKeepAliveBuilder`
pub data ExtrinsicBuilder (Client : Type 0) : Type 0 where
  remark : (client : Client) → ExtrinsicBuilder Client
  transfer_keep_alive : (client : Client) (dest : AccountId) (value : ℕ) → ExtrinsicBuilder Client

abbrev pub pallet : {Client : Type 0} → ExtrinsicBuilder Client → Bytes
pallet (remark client) = as_bytes "system"
pallet (transfer_keep_alive client dest value) = as_bytes "balances"

abbrev pub extrinsic : {Client : Type 0} → ExtrinsicBuilder Client → Bytes
extrinsic (remark client) = as_bytes "remark"
extrinsic (transfer_keep_alive client dest value) = as_bytes "transfer_keep_alive"

pub record BuilderLibrary (RuntimeCall Era Pair Opaque : Type 0) : Type 0 where
  pub bob : Pair
  pub system_remark : Bytes → RuntimeCall
  pub balances_transfer_keep_alive : AccountId → ℕ → RuntimeCall
  pub into_opaque : UncheckedExtrinsic RuntimeCall Era → Opaque

module _ {RuntimeCall Era Hash Pair Opaque : Type 0} (l : Signing RuntimeCall Era Hash Pair)
    (b : BuilderLibrary RuntimeCall Era Pair Opaque) where
  unfoldable pub build : ExtrinsicBuilder (FullClient Hash) → ℕ → Checked Opaque
  build (remark client) nonce = do
    x ← create_extrinsic l client b.bob (b.system_remark []) (some nonce)
    returns (b.into_opaque x)
  build (transfer_keep_alive client dest value) nonce = do
    x ← create_extrinsic l client b.bob (b.balances_transfer_keep_alive dest value) (some nonce)
    returns (b.into_opaque x)

-- The inherent data and its provider of timestamps; an error is printed by `{:?}`.
pub record Inherents (InherentData E : Type 0) : Type 0 where
  pub new : InherentData
  pub provide_inherent_data : (timestamp : ℕ) → InherentData → E ⊎ InherentData
  pub debug : E → Bytes

-- On the left is the message.
abbrev pub inherent_benchmark_data :
    {InherentData E : Type 0} → Inherents InherentData E → Bytes ⊎ InherentData
inherent_benchmark_data i = elim (i.provide_inherent_data 0 i.new) [
  | inl e ↦ inl (as_bytes "creating inherent data: " ++ i.debug e)
  | inr provided ↦ inr provided
]
