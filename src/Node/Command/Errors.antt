-- ===== src/Node/Command/Errors.antt =====
-- What the subcommands fail for.
use substrate_evm_account_ma.Prelude.{arith, some, inr, ◌≡◌, List, true, false, Bool}
use substrate_evm_account_ma.Node.Command.{
  partial, CliError, storage_message, pallet_message, map_error, run_benchmark, run_subcommand,
  run_cli, Subcommand, BenchmarkCmd, Commands, run, key, build_spec, check_block, export_blocks,
  export_state, import_blocks, purge_chain, revert, benchmark, chain_info, service, message,
  command_of,
}
use substrate_evm_account_ma.Node.Service.{PartialComponents, new_partial}
use substrate_evm_account_ma.Node.Startup.{◌>>=◌, try, Startup, failed, Action}
use substrate_evm_account_ma.Node.Substrate.{Parts, Config, Substrate}

-- Whether a subcommand needs the parts of the node, by the feature of the build.
abbrev pub needs_parts : {Cmd : Type 0} → (runtime_benchmarks : Bool) → Subcommand Cmd → Bool
needs_parts features (key cmd) = false
needs_parts features (build_spec cmd) = false
needs_parts features (check_block cmd) = true
needs_parts features (export_blocks cmd) = true
needs_parts features (export_state cmd) = true
needs_parts features (import_blocks cmd) = true
needs_parts features (purge_chain cmd) = false
needs_parts features (revert cmd) = true
needs_parts features (benchmark (BenchmarkCmd.pallet cmd)) = false
needs_parts features (benchmark (BenchmarkCmd.block cmd)) = true
needs_parts features (benchmark (BenchmarkCmd.storage cmd)) = features
needs_parts features (benchmark (BenchmarkCmd.overhead cmd)) = true
needs_parts features (benchmark (BenchmarkCmd.extrinsic cmd)) = true
needs_parts features (benchmark (BenchmarkCmd.machine cmd)) = false
needs_parts features (chain_info cmd) = false

-- The command that a subcommand holds.
abbrev pub held : {Cmd : Type 0} → Subcommand Cmd → Cmd
held (key cmd) = cmd
held (build_spec cmd) = cmd
held (check_block cmd) = cmd
held (export_blocks cmd) = cmd
held (export_state cmd) = cmd
held (import_blocks cmd) = cmd
held (purge_chain cmd) = cmd
held (revert cmd) = cmd
held (benchmark cmd) = command_of cmd
held (chain_info cmd) = cmd

>>=-failed :
    {E A B : Type 0} (m : Startup E A) (k : A → Startup E B) (e : E) (log log' : List Action)
    → m log ≡ (failed e, log')
    → (m >>= k) log ≡ (failed e, log')
unfolding ◌>>=◌
>>=-failed m k e log log' h = rw h

map_error-failed :
    {E E' A : Type 0} (g : E → E') (m : Startup E A) (e : E) (log log' : List Action)
    → m log ≡ (failed e, log')
    → map_error g m log ≡ (failed (g e), log')
unfolding map_error
map_error-failed g m e log log' h = ground (arith, h)

module _ {t : Parts} {Cmd Db Storage Data RuntimeCall Era Pair Opaque : Type 0} (l : Substrate t)
    (x : Commands t Cmd Db Storage Data RuntimeCall Era Pair Opaque) where
  partial_failed :
      {A : Type 0} (k : PartialComponents t → Startup (CliError t.Error) A) (config : Config t)
      (e : t.Error) (log log' : List Action)
      → new_partial l config log ≡ (failed e, log')
      → (partial l x config >>= k) log ≡ (failed (service e), log')
  partial_failed k config e log log' broken =
      >>=-failed _ k (service e) log log' (map_error-failed service _ e log log' broken)

  -- If the parts of the node cannot be built, each subcommand that needs them fails with the error
  -- of the service, and takes no further action.
  pub run_without_parts :
      (cmd : Subcommand Cmd) (cli_run : Cmd) (config : Config t) (e : t.Error)
      (log log' : List Action)
      → needs_parts x.runtime_benchmarks cmd ≡ true
      → x.create_runner (held cmd) ≡ inr config
      → new_partial l config log ≡ (failed e, log')
      → run l x (record { subcommand = some cmd; run = cli_run }) log ≡ (failed (service e), log')
  unfolding run run_cli run_subcommand run_benchmark map_error try ◌>>=◌
  run_without_parts (key cmd) cli_run config e log log' needs created broken = cc
  run_without_parts (build_spec cmd) cli_run config e log log' needs created broken = cc
  run_without_parts (check_block cmd) cli_run config e log log' needs created broken =
      rw created (partial_failed _ config e log log' broken)
  run_without_parts (export_blocks cmd) cli_run config e log log' needs created broken =
      rw created (partial_failed _ config e log log' broken)
  run_without_parts (export_state cmd) cli_run config e log log' needs created broken =
      rw created (partial_failed _ config e log log' broken)
  run_without_parts (import_blocks cmd) cli_run config e log log' needs created broken =
      rw created (partial_failed _ config e log log' broken)
  run_without_parts (purge_chain cmd) cli_run config e log log' needs created broken = cc
  run_without_parts (revert cmd) cli_run config e log log' needs created broken =
      rw created (partial_failed _ config e log log' broken)
  run_without_parts (benchmark (BenchmarkCmd.pallet cmd)) cli_run config e log log' needs created
        broken =
      cc
  run_without_parts (benchmark (BenchmarkCmd.block cmd)) cli_run config e log log' needs created
        broken =
      rw created (partial_failed _ config e log log' broken)
  run_without_parts (benchmark (BenchmarkCmd.storage cmd)) cli_run config e log log' needs created
        broken =
      rw (created, needs) (partial_failed _ config e log log' broken)
  run_without_parts (benchmark (BenchmarkCmd.overhead cmd)) cli_run config e log log' needs created
        broken =
      rw created (partial_failed _ config e log log' broken)
  run_without_parts (benchmark (BenchmarkCmd.extrinsic cmd)) cli_run config e log log' needs created
        broken =
      rw created (partial_failed _ config e log log' broken)
  run_without_parts (benchmark (BenchmarkCmd.machine cmd)) cli_run config e log log' needs created
        broken =
      cc
  run_without_parts (chain_info cmd) cli_run config e log log' needs created broken = cc

  -- Without the feature of the benchmarks, the benchmarks of pallets and of the storage fail with
  -- their messages, once the runner is created, and take no action.
  pub run_without_benchmarks :
      (cmd cli_run : Cmd) (config : Config t) (log : List Action)
      → x.runtime_benchmarks ≡ false
      → x.create_runner cmd ≡ inr config
      → (run l x
            (record { subcommand = some (benchmark (BenchmarkCmd.pallet cmd)); run = cli_run })
            log
          ≡ (failed (message pallet_message), log))
        × (run l x
              (record { subcommand = some (benchmark (BenchmarkCmd.storage cmd)); run = cli_run })
              log
            ≡ (failed (message storage_message), log))
  unfolding run run_cli run_subcommand run_benchmark map_error try ◌>>=◌
  run_without_benchmarks cmd cli_run config log absent created =
      (rw (created, absent), rw (created, absent))
