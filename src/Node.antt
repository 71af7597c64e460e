-- ===== src/Node.antt =====
-- The node: its chain specifications, extrinsics for benchmarks, services, RPC and command line.
pub mod ChainSpec
pub mod Extrinsic
pub mod Startup
pub mod Substrate
pub mod Service
pub mod Benchmarking
pub mod Command
pub mod CliInfo
pub mod Rpc
