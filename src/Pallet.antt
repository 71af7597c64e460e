-- ===== src/Pallet.antt =====
-- pallets/evm_account_mapping/src/lib.rs: the pallet, in parts.
pub mod Types
pub mod Weights
pub mod Verdict
pub mod Exec
pub mod Frame
pub mod Message
pub mod Validate
pub mod MetaCall
pub mod Benchmark
