-- ===== src/Node/Command/Panic.antt =====
-- When the node panics.
use substrate_evm_account_ma.Prelude.{
  none, some, ◌≡◌, ◌⊎◌, List, Option, Bool, true, false, ℕ, [], not, arith, refl,
}
use substrate_evm_account_ma.Prelude.Checked.{Checked, returns, panics}
use substrate_evm_account_ma.Node.Benchmarking.{
  ExtrinsicBuilder, remark, transfer_keep_alive, BuilderLibrary, build,
}
use substrate_evm_account_ma.Node.Benchmarking.Laws.{client_of}
use substrate_evm_account_ma.Node.Extrinsic.{FullClient, Signing, create_extrinsic}
use substrate_evm_account_ma.Node.Command.{
  checked, run_session, Session, finish, build_next, wait, with_client, map_error, call, partial,
  library, service, message, inherent_data_step, run, run_cli, run_subcommand, run_benchmark,
  Subcommand, BenchmarkCmd, Commands, Cli, CliError, key, build_spec, check_block, export_blocks,
  export_state, import_blocks, purge_chain, revert, benchmark, chain_info,
}
use substrate_evm_account_ma.Node.Service.Panic.{
  GenesisMissing, new_full-PanicsOnlyIf, new_partial-PanicsOnlyIf,
}
use substrate_evm_account_ma.Node.Service.{PartialComponents}
use substrate_evm_account_ma.Node.Startup.{◌>>=◌, panicked, Startup, Action}
use substrate_evm_account_ma.Node.Startup.Panic.{
  PanicsOnlyIf, PanicsOnlyIf->>=, PanicsOnlyIf-try, PanicsOnlyIf-if,
}
use substrate_evm_account_ma.Node.Substrate.{Parts, Config, Substrate}

map_error_panicked :
    {E E' A P : Type 0} (g : E → E') (m : Startup E A)
    → PanicsOnlyIf P m
    → (log : List Action) → (map_error g m log).0 ≡ panicked
    → P
unfolding map_error
map_error_panicked g m h log e = h.reason log (ground arith)

PanicsOnlyIf-map_error :
    {E E' A P : Type 0} (g : E → E') {m : Startup E A}
    → PanicsOnlyIf P m
    → PanicsOnlyIf P (map_error g m)
PanicsOnlyIf-map_error g {m} h = record { reason = map_error_panicked g m h }

module _ {t : Parts} {Cmd Db Storage Data RuntimeCall Era Pair Opaque : Type 0} (l : Substrate t)
    (x : Commands t Cmd Db Storage Data RuntimeCall Era Pair Opaque) {P : Type 0} where
  call-PanicsOnlyIf : {A : Type 0} (r : t.Error ⊎ A) → PanicsOnlyIf P (call l x r)
  call-PanicsOnlyIf r = PanicsOnlyIf-map_error library (PanicsOnlyIf-try r)

  partial-PanicsOnlyIf : (config : Config t) → PanicsOnlyIf P (partial l x config)
  partial-PanicsOnlyIf config = PanicsOnlyIf-map_error service (new_partial-PanicsOnlyIf l config)

  -- A runner, and then the parts and a call that uses them.
  with_runner :
      {A : Type 0} (cmd : Cmd) (k : Config t → Startup (CliError t.Error) A)
      → ((config : Config t) → PanicsOnlyIf P (k config))
      → PanicsOnlyIf P (call l x (x.create_runner cmd) >>= k)
  with_runner cmd k h = PanicsOnlyIf->>= k (call-PanicsOnlyIf _) h

  with_parts :
      {A : Type 0} (config : Config t) (k : PartialComponents t → Startup (CliError t.Error) A)
      → ((p : PartialComponents t) → PanicsOnlyIf P (k p))
      → PanicsOnlyIf P (partial l x config >>= k)
  with_parts config k h = PanicsOnlyIf->>= k (partial-PanicsOnlyIf config) h

  with_inherents :
      {A : Type 0} (k : Data → Startup (CliError t.Error) A)
      → ((inherents : Data) → PanicsOnlyIf P (k inherents))
      → PanicsOnlyIf P (inherent_data_step l x >>= k)
  with_inherents k h = PanicsOnlyIf->>= k (PanicsOnlyIf-map_error message (PanicsOnlyIf-try _)) h

-- The two benchmarks that build extrinsics.
abbrev pub builds_extrinsics : {Cmd : Type 0} → Subcommand Cmd → Bool
builds_extrinsics (benchmark (BenchmarkCmd.overhead cmd)) = true
builds_extrinsics (benchmark (BenchmarkCmd.extrinsic cmd)) = true
builds_extrinsics (benchmark (BenchmarkCmd.pallet cmd)) = false
builds_extrinsics (benchmark (BenchmarkCmd.block cmd)) = false
builds_extrinsics (benchmark (BenchmarkCmd.storage cmd)) = false
builds_extrinsics (benchmark (BenchmarkCmd.machine cmd)) = false
builds_extrinsics (key cmd) = false
builds_extrinsics (build_spec cmd) = false
builds_extrinsics (check_block cmd) = false
builds_extrinsics (export_blocks cmd) = false
builds_extrinsics (export_state cmd) = false
builds_extrinsics (import_blocks cmd) = false
builds_extrinsics (purge_chain cmd) = false
builds_extrinsics (revert cmd) = false
builds_extrinsics (chain_info cmd) = false

-- A run of the node, or one of these.
abbrev pub needs_genesis : {Cmd : Type 0} → Option (Subcommand Cmd) → Bool
needs_genesis none = true
needs_genesis (some subcommand) = builds_extrinsics subcommand

checked_panicked :
    (E : Type 0) {A : Type 0} (r : Checked A) (log : List Action)
    → (checked {E = E} r log).0 ≡ panicked
    → r ≡ panics
unfolding checked
checked_panicked E (returns a) log e = cc
checked_panicked E panics log e = refl

module _ {RuntimeCall Era Hash Pair Opaque : Type 0} (g : Signing RuntimeCall Era Hash Pair)
    (b : BuilderLibrary RuntimeCall Era Pair Opaque) where
  create_extrinsic-panics :
      (client : FullClient Hash) (sender : Pair) (function : RuntimeCall) (nonce : ℕ)
      → create_extrinsic g client sender function (some nonce) ≡ panics
      → client.block_hash 0 ≡ none
  unfolding create_extrinsic
  create_extrinsic-panics client sender function nonce e = ground arith

  -- A builder panics only where its client has no genesis block.
  build-panics :
      (builder : ExtrinsicBuilder (FullClient Hash)) (nonce : ℕ)
      → build g b builder nonce ≡ panics
      → (client_of g b builder).block_hash 0 ≡ none
  unfolding build
  build-panics (remark client) nonce e =
      create_extrinsic-panics client b.bob (b.system_remark []) nonce (ground arith)
  build-panics (transfer_keep_alive client dest amount) nonce e =
      create_extrinsic-panics client b.bob (b.balances_transfer_keep_alive dest amount) nonce
        (ground arith)

module _ {t : Parts} {Cmd Db Storage Data RuntimeCall Era Pair Opaque : Type 0} (l : Substrate t)
    (x : Commands t Cmd Db Storage Data RuntimeCall Era Pair Opaque) where
  abbrev BuildsWithoutGenesis : Subcommand Cmd → Type 0
  BuildsWithoutGenesis cmd = (builds_extrinsics cmd ≡ true) × GenesisMissing l

  next_panicked :
      (builder : ExtrinsicBuilder t.Client) (nonce : ℕ)
      → build x.signing x.builders (with_client l x builder) nonce ≡ panics
      → GenesisMissing l
  next_panicked (remark client) nonce e = (client, build-panics x.signing x.builders _ nonce e)
  next_panicked (transfer_keep_alive client dest amount) nonce e =
      (client, build-panics x.signing x.builders _ nonce e)

  run_session-PanicsOnlyIf :
      (cmd : Subcommand Cmd)
      → builds_extrinsics cmd ≡ true
      → (s : Session t.Client Opaque t.Error)
      → PanicsOnlyIf (BuildsWithoutGenesis cmd) (run_session l x s)
  unfolding run_session
  run_session-PanicsOnlyIf cmd b (finish r) = PanicsOnlyIf-try r
  run_session-PanicsOnlyIf cmd b (build_next builder nonce next) =
      PanicsOnlyIf->>= _
        (record {
          reason = λ log e. (b, next_panicked builder nonce (checked_panicked t.Error _ log e));
        })
        (λ o. run_session-PanicsOnlyIf cmd b (next o))

  run_benchmark-PanicsOnlyIf :
      (cmd : BenchmarkCmd Cmd) (config : Config t)
      → PanicsOnlyIf (BuildsWithoutGenesis (benchmark cmd)) (run_benchmark l x cmd config)
  unfolding run_benchmark
  run_benchmark-PanicsOnlyIf (BenchmarkCmd.pallet cmd) config =
      PanicsOnlyIf-if (not x.runtime_benchmarks) _ _ (PanicsOnlyIf-try _) (call-PanicsOnlyIf l x _)
  run_benchmark-PanicsOnlyIf (BenchmarkCmd.block cmd) config =
      with_parts l x config _ (λ p. call-PanicsOnlyIf l x _)
  run_benchmark-PanicsOnlyIf (BenchmarkCmd.storage cmd) config =
      PanicsOnlyIf-if (not x.runtime_benchmarks) _ _ (PanicsOnlyIf-try _)
        (with_parts l x config _ (λ p. call-PanicsOnlyIf l x _))
  run_benchmark-PanicsOnlyIf (BenchmarkCmd.overhead cmd) config = with_parts l x config _ (λ p.
      with_inherents l x _ (λ inherents.
        PanicsOnlyIf-map_error library
          (run_session-PanicsOnlyIf (benchmark (BenchmarkCmd.overhead cmd)) refl _)))
  run_benchmark-PanicsOnlyIf (BenchmarkCmd.extrinsic cmd) config = with_parts l x config _ (λ p.
      with_inherents l x _ (λ inherents.
        PanicsOnlyIf-map_error library
          (run_session-PanicsOnlyIf (benchmark (BenchmarkCmd.extrinsic cmd)) refl _)))
  run_benchmark-PanicsOnlyIf (BenchmarkCmd.machine cmd) config = call-PanicsOnlyIf l x _

  run_subcommand-PanicsOnlyIf :
      (cmd : Subcommand Cmd) → PanicsOnlyIf (BuildsWithoutGenesis cmd) (run_subcommand l x cmd)
  unfolding run_subcommand
  run_subcommand-PanicsOnlyIf (key cmd) = call-PanicsOnlyIf l x _
  run_subcommand-PanicsOnlyIf (build_spec cmd) =
      with_runner l x cmd _ (λ config. call-PanicsOnlyIf l x _)
  run_subcommand-PanicsOnlyIf (check_block cmd) =
      with_runner l x cmd _ (λ config. with_parts l x config _ (λ p. call-PanicsOnlyIf l x _))
  run_subcommand-PanicsOnlyIf (export_blocks cmd) =
      with_runner l x cmd _ (λ config. with_parts l x config _ (λ p. call-PanicsOnlyIf l x _))
  run_subcommand-PanicsOnlyIf (export_state cmd) =
      with_runner l x cmd _ (λ config. with_parts l x config _ (λ p. call-PanicsOnlyIf l x _))
  run_subcommand-PanicsOnlyIf (import_blocks cmd) =
      with_runner l x cmd _ (λ config. with_parts l x config _ (λ p. call-PanicsOnlyIf l x _))
  run_subcommand-PanicsOnlyIf (purge_chain cmd) =
      with_runner l x cmd _ (λ config. call-PanicsOnlyIf l x _)
  run_subcommand-PanicsOnlyIf (revert cmd) =
      with_runner l x cmd _ (λ config. with_parts l x config _ (λ p. call-PanicsOnlyIf l x _))
  run_subcommand-PanicsOnlyIf (benchmark cmd) =
      with_runner l x _ _ (λ config. run_benchmark-PanicsOnlyIf cmd config)
  run_subcommand-PanicsOnlyIf (chain_info cmd) =
      with_runner l x cmd _ (λ config. call-PanicsOnlyIf l x _)

module _ {t : Parts} {Cmd Db Storage Data RuntimeCall Era Pair Opaque : Type 0} (l : Substrate t)
    (x : Commands t Cmd Db Storage Data RuntimeCall Era Pair Opaque) where
  wait-PanicsOnlyIf : {P : Type 0} → PanicsOnlyIf P (wait l x)
  unfolding wait
  wait-PanicsOnlyIf = record {
    reason = λ log.
        (PanicsOnlyIf-map_error service (PanicsOnlyIf-try (x.run_until_exit log))).reason log;
  }

  run_cli-panicked :
      (subcommand : Option (Subcommand Cmd)) (cmd : Cmd) (log : List Action)
      → (run_cli l x subcommand cmd log).0 ≡ panicked
      → (needs_genesis subcommand ≡ true) × GenesisMissing l
  unfolding run_cli
  run_cli-panicked none cmd log e = (
    refl,
    (with_runner l x cmd _ (λ config.
          PanicsOnlyIf->>= _ (PanicsOnlyIf-map_error service (new_full-PanicsOnlyIf l config))
            (λ u. wait-PanicsOnlyIf))).reason
        log e,
  )
  run_cli-panicked (some subcommand) cmd log e =
      (run_subcommand-PanicsOnlyIf l x subcommand).reason log e

  -- Once the runner is created, the node's own code panics only where a client has no genesis
  -- block, and only in a run without a subcommand or in one of the two benchmarks that build
  -- extrinsics. What is called of the libraries is taken not to panic.
  pub run-panicked :
      (cli : Cli Cmd) (log : List Action)
      → (run l x cli log).0 ≡ panicked
      → (needs_genesis cli.subcommand ≡ true) × GenesisMissing l
  unfolding run
  run-panicked cli log e = run_cli-panicked cli.subcommand cli.run log e
