-- ===== src/Runtime/Benches.antt =====
-- runtime/src/lib.rs: the API for the benchmarks, of the feature `runtime-benchmarks`. What the macros
-- make of the list of benchmarks is a parameter.
use substrate_evm_account_ma.Prelude.{Bool, Bytes, List, [], ◌∷◌, as_bytes, ◌⊎◌}

-- The modules whose benchmarks run.
pub data Bench : Type 0 where
  baseline_bench system_bench balances timestamp sudo evm_account_mapping : Bench

-- `define_benchmarks!`
abbrev pub benches : List (Bytes × Bench)
benches =
    (as_bytes "frame_benchmarking", baseline_bench)
    ∷ (as_bytes "frame_system", system_bench)
    ∷ (as_bytes "pallet_balances", balances)
    ∷ (as_bytes "pallet_timestamp", timestamp)
    ∷ (as_bytes "pallet_sudo", sudo)
    ∷ (as_bytes "pallet_evm_account_mapping", evm_account_mapping)
    ∷ []

-- `list_benchmarks!` and `add_benchmarks!`, which add to a list, and the storage of all the pallets.
pub record BenchmarkLibrary (S Config BenchmarkList StorageInfo Key Batch : Type 0) : Type 0 where
  pub list_benchmarks : List (Bytes × Bench) → List BenchmarkList → Bool → List BenchmarkList
  pub add_benchmarks :
      List (Bytes × Bench) → Config → List Key → List Batch → S → (Bytes ⊎ List Batch) × S
  pub storage_info : List StorageInfo
  pub whitelisted_storage_keys : List Key

-- `frame_benchmarking::Benchmark`
pub record BenchmarkApi (S Config BenchmarkList StorageInfo Batch : Type 0) : Type 0 where
  pub benchmark_metadata : Bool → List BenchmarkList × List StorageInfo
  pub dispatch_benchmark : Config → S → (Bytes ⊎ List Batch) × S

abbrev pub benchmark_api :
    {S Config BenchmarkList StorageInfo Key Batch : Type 0}
    → BenchmarkLibrary S Config BenchmarkList StorageInfo Key Batch
    → BenchmarkApi S Config BenchmarkList StorageInfo Batch
benchmark_api x = record {
  benchmark_metadata =
      λ extra. let list = x.list_benchmarks benches [] extra in (list, x.storage_info);
  dispatch_benchmark = λ config s.
      let whitelist = x.whitelisted_storage_keys in x.add_benchmarks benches config whitelist [] s;
}
