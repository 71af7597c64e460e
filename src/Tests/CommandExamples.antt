-- ===== src/Tests/CommandExamples.antt =====
-- The theorems on the command line and the builders of extrinsics at concrete inputs.
use substrate_evm_account_ma.Node.Command.{
  run, run_cli, wait, run_subcommand, run_benchmark, run_session, checked, finish, build_next,
  map_error, revert, service,
}
use substrate_evm_account_ma.Node.Command.Panic.{run-panicked, needs_genesis}
use substrate_evm_account_ma.Node.Service.Panic.{GenesisMissing}
use substrate_evm_account_ma.Node.Command.Errors.{run_without_parts}
use substrate_evm_account_ma.Prelude.{
  not, refl, ◌&&◌, if◌then◌else◌, ◌+◌, ◌∷◌, ◌≡◌, [], false, inl, inr, none, some, true, ℕ, Bool,
}
use substrate_evm_account_ma.Prelude.Checked.{returns}
use substrate_evm_account_ma.Node.Benchmarking.{build, BuilderLibrary, ExtrinsicBuilder}
use substrate_evm_account_ma.Node.Benchmarking.Laws.{build_lem}
use substrate_evm_account_ma.Node.Command.{
  storage_message, pallet_message, message, BenchmarkCmd, benchmark, Commands, Cli,
}
use substrate_evm_account_ma.Node.Command.Errors.{run_without_benchmarks}
use substrate_evm_account_ma.Node.Command.Laws.{run-starts, is_nothing, node_started}
use substrate_evm_account_ma.Node.Extrinsic.{
  create_extrinsic, raw_payload, FullClient, UncheckedExtrinsic,
}
use substrate_evm_account_ma.Node.Service.{
  new_partial, new_full, prepare_full, start_authoring, start_voter,
}
use substrate_evm_account_ma.Node.Startup.{◌>>=◌, act, failed, panicked, pure, when, expect, try}
use substrate_evm_account_ma.Node.Startup.Laws.{is_done, starts}
use substrate_evm_account_ma.Node.Substrate.{Substrate}
use substrate_evm_account_ma.Tests.NodeExamples.{configuration, signing, client, numbers, substrate}

abbrev builders : BuilderLibrary ℕ ℕ ℕ ℕ
builders = record {
  bob = 2;
  system_remark = λ remark. 0;
  balances_transfer_keep_alive = λ dest amount. amount;
  into_opaque = λ x. x.function;
}

-- Commands that are numbers and always succeed. A benchmark of the overhead builds two extrinsics.
abbrev working : Bool → Commands numbers ℕ ℕ ℕ ℕ ℕ ℕ ℕ ℕ
working features = record {
  runtime_benchmarks = features;
  create_runner = λ cmd. inr configuration;
  run_key = λ cmd. inr tt;
  run_build_spec = λ cmd config. inr tt;
  run_check_block = λ cmd client queue. inr tt;
  run_export_blocks = λ cmd client config. inr tt;
  run_export_state = λ cmd client config. inr tt;
  run_import_blocks = λ cmd client queue. inr tt;
  run_purge_chain = λ cmd config. inr tt;
  grandpa_revert = λ client blocks. inr tt;
  run_revert = λ cmd client backend aux_revert. aux_revert client 1;
  run_chain_info = λ cmd config. inr tt;
  benchmark_pallet = λ cmd config. inr tt;
  benchmark_block = λ cmd client. inr tt;
  expose_db = λ backend. backend;
  expose_storage = λ backend. backend;
  benchmark_storage = λ cmd config client db storage. inr tt;
  benchmark_overhead = λ cmd config client inherents builder.
      build_next builder 0 (λ first. build_next builder 1 (λ second. finish (inr tt)));
  benchmark_extrinsic = λ cmd client inherents builders. finish (inr tt);
  benchmark_machine = λ cmd config. inr tt;
  inherents = record {
    new = 0;
    provide_inherent_data = λ timestamp inherents. inr 1;
    debug = λ e. e ∷ [];
  };
  alice = 1 ∷ [];
  signing = signing;
  builders = builders;
  best_hash = λ client. 12;
  best_number = λ client. 5;
  account_nonce = λ client block account. some 3;
  run_until_exit = λ log. inr tt;
}

-- No subcommand: the node itself.
abbrev node : Cli ℕ
node = record { subcommand = none; run = 0 }

-- An essential task fails.
abbrev failing : Commands numbers ℕ ℕ ℕ ℕ ℕ ℕ ℕ ℕ
failing = record (working true) { run_until_exit = λ log. inl 17 }

run-starts_example :
    (starts (run substrate failing node []).1
      ≡ starts [] + (if node_started substrate failing node.subcommand node.run [] then 1 else 0))
    × ((is_nothing node.subcommand
          && (is_done (run substrate failing node []).0
              && not (node_started substrate failing node.subcommand node.run [])))
        ≡ false)
run-starts_example = run-starts substrate failing node []

node_fails_later : (run substrate failing node []).0 ≡ failed (service 17)
unfolding run run_cli wait map_error new_full prepare_full new_partial start_authoring start_voter
    try expect when pure act ◌>>=◌
node_fails_later = refl

-- The parts cannot be built.
abbrev broken : Substrate numbers
broken = record substrate { new_full_parts = λ c o. inl 13 }

no_parts : new_partial broken configuration [] ≡ (failed 13, [])
unfolding new_partial try expect when pure act ◌>>=◌
no_parts = refl

parts_are_missing :
    run broken (working true) (record { subcommand = some (revert 0); run = 0 }) []
    ≡ (failed (service 13), [])
parts_are_missing =
    run_without_parts broken (working true) (revert 0) 0 configuration 13 [] [] refl refl no_parts

run_without_benchmarks_example :
    (run substrate
        (working false)
        (record { subcommand = some (benchmark (BenchmarkCmd.pallet 0)); run = 0 })
        []
      ≡ (failed (message pallet_message), []))
    × (run substrate
          (working false)
          (record { subcommand = some (benchmark (BenchmarkCmd.storage 0)); run = 0 })
          []
        ≡ (failed (message storage_message), []))
run_without_benchmarks_example =
    run_without_benchmarks substrate (working false) 0 0 configuration [] refl refl

abbrev transfer : ExtrinsicBuilder (FullClient ℕ)
transfer = ExtrinsicBuilder.transfer_keep_alive client (1 ∷ []) 500

transfer_is_built :
    (x : UncheckedExtrinsic ℕ ℕ) × (build signing builders transfer 4
      ≡ returns (builders.into_opaque x))
    × (x.function ≡ 500)
    × (x.signed ≡ 2 ∷ [])
    × (x.extra.check_nonce ≡ 4)
    × (x.signature
        ≡ signing.sign 2
            (signing.using_encoded (raw_payload signing client x.function x.extra 11 12)))
transfer_is_built = build_lem signing builders transfer 4 11 refl

-- No client has a genesis block.
abbrev genesisless : Substrate numbers
genesisless = record substrate { block_hash = λ client n. none }

node_panics : (run genesisless (working true) node []).0 ≡ panicked
unfolding run run_cli map_error new_full prepare_full new_partial try expect when pure act ◌>>=◌
node_panics = refl

abbrev overhead : Cli ℕ
overhead = record { subcommand = some (benchmark (BenchmarkCmd.overhead 0)); run = 0 }

overhead_panics : (run genesisless (working true) overhead []).0 ≡ panicked
unfolding run run_cli run_subcommand run_benchmark run_session checked build create_extrinsic
    map_error new_partial try expect when pure act ◌>>=◌
overhead_panics = refl

run-panicked_example : (needs_genesis overhead.subcommand ≡ true) × GenesisMissing genesisless
run-panicked_example = run-panicked genesisless (working true) overhead [] overhead_panics
