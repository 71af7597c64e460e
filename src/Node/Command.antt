-- ===== src/Node/Command.antt =====
-- node/src/command.rs and node/src/cli.rs: the subcommands of the node. A parsed command, and what
-- `sc_cli` and the benchmarking library do with it, is the library's; a runner runs its closure and
-- then the future that the closure returns, to their end. A node runs on after it is started, until a
-- signal or until an essential task fails.
pub mod Laws
pub mod Errors
pub mod Panic
use substrate_evm_account_ma.Prelude.{
  none, List, ◌++◌, as_bytes, not, some, ℕ, Bool, Bytes, Option, if◌then◌else◌, ◌⊎◌, ◌∷◌, [], inl,
  inr,
}
use substrate_evm_account_ma.Account.{AccountId}
use substrate_evm_account_ma.Node.Benchmarking.{
  Inherents, inherent_benchmark_data, ExtrinsicBuilder, BuilderLibrary, build,
}
use substrate_evm_account_ma.Node.Extrinsic.{FullClient, Signing}
use substrate_evm_account_ma.Prelude.Checked.{Checked, returns, panics}
use substrate_evm_account_ma.Node.Service.{new_partial, new_full, PartialComponents}
use substrate_evm_account_ma.Node.Startup.{
  ◌>>=◌, ◌>>◌, try, Startup, Started, done, failed, panicked, Action,
}
use substrate_evm_account_ma.Node.Substrate.{Parts, Config, Substrate}
use substrate_evm_account_ma.Runtime.{existential_deposit}

-- `frame_benchmarking_cli::BenchmarkCmd`
pub data BenchmarkCmd (Cmd : Type 0) : Type 0 where
  pallet block storage overhead extrinsic machine : Cmd → BenchmarkCmd Cmd

-- `Subcommand`
pub data Subcommand (Cmd : Type 0) : Type 0 where
  key build_spec check_block export_blocks export_state import_blocks purge_chain revert :
      Cmd → Subcommand Cmd
  benchmark : BenchmarkCmd Cmd → Subcommand Cmd
  chain_info : Cmd → Subcommand Cmd

-- `Cli`
pub record Cli (Cmd : Type 0) : Type 0 where
  pub subcommand : Option (Subcommand Cmd)
  pub run : Cmd

-- `sc_cli::Error`: an error of the service, an error of the library, or a message.
pub data CliError (E : Type 0) : Type 0 where
  service : E → CliError E
  library : E → CliError E
  message : Bytes → CliError E

-- A benchmark that builds extrinsics on its way: it ends, or has a builder of the node build an
-- extrinsic with a nonce and goes on with that.
pub data Session (Client Opaque E : Type 0) : Type 0 where
  finish : E ⊎ Unit {0} → Session Client Opaque E
  build_next :
      (builder : ExtrinsicBuilder Client) (nonce : ℕ) (next : Opaque → Session Client Opaque E)
      → Session Client Opaque E

-- The commands of the libraries, with what the code passes on to each: the configuration stands for
-- the fields of it that are passed, and constants are left out. On the left is an error.
pub record Commands (t : Parts) (Cmd Db Storage Data RuntimeCall Era Pair Opaque : Type 0)
    : Type 0 where
  -- `cfg!(feature = "runtime-benchmarks")`
  pub runtime_benchmarks : Bool
  pub create_runner : Cmd → t.Error ⊎ Config t
  pub run_key : Cmd → t.Error ⊎ Unit {0}
  pub run_build_spec : Cmd → Config t → t.Error ⊎ Unit {0}
  pub run_check_block : Cmd → t.Client → t.ImportQueue → t.Error ⊎ Unit {0}
  pub run_export_blocks : Cmd → t.Client → Config t → t.Error ⊎ Unit {0}
  pub run_export_state : Cmd → t.Client → Config t → t.Error ⊎ Unit {0}
  pub run_import_blocks : Cmd → t.Client → t.ImportQueue → t.Error ⊎ Unit {0}
  pub run_purge_chain : Cmd → Config t → t.Error ⊎ Unit {0}
  pub grandpa_revert : t.Client → ℕ → t.Error ⊎ Unit {0}
  pub run_revert :
      Cmd → t.Client → t.Backend → (t.Client → ℕ → t.Error ⊎ Unit {0}) → t.Error ⊎ Unit {0}
  pub run_chain_info : Cmd → Config t → t.Error ⊎ Unit {0}
  pub benchmark_pallet : Cmd → Config t → t.Error ⊎ Unit {0}
  pub benchmark_block : Cmd → t.Client → t.Error ⊎ Unit {0}
  pub expose_db : t.Backend → Db
  pub expose_storage : t.Backend → Storage
  pub benchmark_storage : Cmd → Config t → t.Client → Db → Storage → t.Error ⊎ Unit {0}
  pub benchmark_overhead :
      Cmd → Config t → t.Client → Data → ExtrinsicBuilder t.Client → Session t.Client Opaque t.Error
  pub benchmark_extrinsic :
      Cmd → t.Client → Data → List (ExtrinsicBuilder t.Client) → Session t.Client Opaque t.Error
  pub benchmark_machine : Cmd → Config t → t.Error ⊎ Unit {0}
  -- what `inherent_benchmark_data` calls, and `Sr25519Keyring::Alice.to_account_id()`
  pub inherents : Inherents Data t.Error
  pub alice : AccountId
  -- what the builders call
  pub signing : Signing RuntimeCall Era t.Hash Pair
  pub builders : BuilderLibrary RuntimeCall Era Pair Opaque
  pub best_hash : t.Client → t.Hash
  pub best_number : t.Client → ℕ
  pub account_nonce : t.Client → t.Hash → AccountId → Option ℕ
  -- what `run_node_until_exit` ends with, once the node with its tasks is started
  pub run_until_exit : (started : List Action) → t.Error ⊎ Unit {0}

abbrev pub pallet_message : Bytes
pallet_message =
    as_bytes "Runtime benchmarking wasn't enabled when building the node. "
    ++ as_bytes "You can enable it with `--features runtime-benchmarks`."

abbrev pub storage_message : Bytes
storage_message =
    as_bytes "Storage benchmarking can be enabled with `--features runtime-benchmarks`."

-- The command itself, which the runner is created for.
abbrev pub command_of : {Cmd : Type 0} → BenchmarkCmd Cmd → Cmd
command_of (pallet cmd) = cmd
command_of (block cmd) = cmd
command_of (storage cmd) = cmd
command_of (overhead cmd) = cmd
command_of (extrinsic cmd) = cmd
command_of (machine cmd) = cmd

-- The errors of a step, as errors of the command line.
module _ {E A : Type 0} where
  unfoldable pub map_error : {E' : Type 0} → (E → E') → Startup E A → Startup E' A
  map_error g m log =
      let (r, log') = m log in
      elim r [
        | done a ↦ (done a, log')
        | failed e ↦ (failed (g e), log')
        | panicked ↦ (panicked, log')
      ]

-- A step of code that may panic.
unfoldable pub checked : {E A : Type 0} → Checked A → Startup E A
checked (returns a) log = (done a, log)
checked panics log = (panicked, log)

module _ {t : Parts} {Cmd Db Storage Data RuntimeCall Era Pair Opaque : Type 0} (l : Substrate t)
    (x : Commands t Cmd Db Storage Data RuntimeCall Era Pair Opaque) where
  abbrev pub full_client : t.Client → FullClient t.Hash
  full_client client = record {
    block_hash = l.block_hash client;
    best_hash = x.best_hash client;
    best_number = x.best_number client;
    account_nonce = x.account_nonce client;
  }

  abbrev pub with_client : ExtrinsicBuilder t.Client → ExtrinsicBuilder (FullClient t.Hash)
  with_client (ExtrinsicBuilder.remark client) = ExtrinsicBuilder.remark (full_client client)
  with_client (ExtrinsicBuilder.transfer_keep_alive client dest amount) =
      ExtrinsicBuilder.transfer_keep_alive (full_client client) dest amount

  unfoldable pub run_session : Session t.Client Opaque t.Error → Startup t.Error (Unit {0})
  run_session (finish r) = try r
  run_session (build_next builder nonce next) =
      checked (build x.signing x.builders (with_client builder) nonce) >>= λ o. run_session (next o)

  abbrev pub fail : {A : Type 0} → Bytes → Startup (CliError t.Error) A
  fail reason = try (inl (message reason))

  -- A call of the library, and of the service.
  abbrev pub call : {A : Type 0} → t.Error ⊎ A → Startup (CliError t.Error) A
  call r = map_error library (try r)

  abbrev pub partial : Config t → Startup (CliError t.Error) (PartialComponents t)
  partial config = map_error service (new_partial l config)

  abbrev pub inherent_data_step : Startup (CliError t.Error) Data
  inherent_data_step = map_error message (try (inherent_benchmark_data x.inherents))

  unfoldable pub run_benchmark : BenchmarkCmd Cmd → Config t → Startup (CliError t.Error) (Unit {0})
  run_benchmark (pallet cmd) config =
      if not x.runtime_benchmarks then fail pallet_message else call (x.benchmark_pallet cmd config)
  run_benchmark (block cmd) config = do p ← partial config; call (x.benchmark_block cmd p.client)
  run_benchmark (storage cmd) config =
      if not x.runtime_benchmarks then fail storage_message else (do
        p ← partial config
        call (
            x.benchmark_storage cmd config p.client (x.expose_db p.backend)
              (x.expose_storage p.backend)))
  run_benchmark (overhead cmd) config = do
    p ← partial config
    inherents ← inherent_data_step
    map_error library (
        run_session
          (x.benchmark_overhead cmd config p.client inherents (ExtrinsicBuilder.remark p.client)))
  run_benchmark (extrinsic cmd) config = do
    p ← partial config
    let ext_factory =
        ExtrinsicBuilder.remark p.client
        ∷ ExtrinsicBuilder.transfer_keep_alive p.client x.alice existential_deposit
        ∷ []
    inherents ← inherent_data_step
    map_error library (run_session (x.benchmark_extrinsic cmd p.client inherents ext_factory))
  run_benchmark (machine cmd) config = call (x.benchmark_machine cmd config)

  unfoldable pub run_subcommand : Subcommand Cmd → Startup (CliError t.Error) (Unit {0})
  run_subcommand (key cmd) = call (x.run_key cmd)
  run_subcommand (build_spec cmd) = do
    config ← call (x.create_runner cmd)
    call (x.run_build_spec cmd config)
  run_subcommand (check_block cmd) = do
    config ← call (x.create_runner cmd)
    p ← partial config
    call (x.run_check_block cmd p.client p.import_queue)
  run_subcommand (export_blocks cmd) = do
    config ← call (x.create_runner cmd)
    p ← partial config
    call (x.run_export_blocks cmd p.client config)
  run_subcommand (export_state cmd) = do
    config ← call (x.create_runner cmd)
    p ← partial config
    call (x.run_export_state cmd p.client config)
  run_subcommand (import_blocks cmd) = do
    config ← call (x.create_runner cmd)
    p ← partial config
    call (x.run_import_blocks cmd p.client p.import_queue)
  run_subcommand (purge_chain cmd) = do
    config ← call (x.create_runner cmd)
    call (x.run_purge_chain cmd config)
  run_subcommand (revert cmd) = do
    config ← call (x.create_runner cmd)
    p ← partial config
    call (x.run_revert cmd p.client p.backend x.grandpa_revert)
  run_subcommand (benchmark cmd) = do
    config ← call (x.create_runner (command_of cmd))
    run_benchmark cmd config
  run_subcommand (chain_info cmd) = do
    config ← call (x.create_runner cmd)
    call (x.run_chain_info cmd config)

  -- The run of the node that is started.
  unfoldable pub wait : Startup (CliError t.Error) (Unit {0})
  wait log = map_error service (try (x.run_until_exit log)) log

  unfoldable pub run_cli : Option (Subcommand Cmd) → Cmd → Startup (CliError t.Error) (Unit {0})
  run_cli (some subcommand) cmd = run_subcommand subcommand
  run_cli none cmd = do
    config ← call (x.create_runner cmd)
    map_error service (new_full l config)
    wait

  unfoldable pub run : Cli Cmd → Startup (CliError t.Error) (Unit {0})
  run cli = run_cli cli.subcommand cli.run
