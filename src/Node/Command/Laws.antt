-- ===== src/Node/Command/Laws.antt =====
-- What the subcommands start, and what they fail for.
use substrate_evm_account_ma.Prelude.{
  Option-cases, inr, none, inl, some, ◌&&◌, Option, ◌+◌, arith, if◌then◌else◌, true, ◌≡◌, List,
  false, not, Bool, ◌⊎◌, ◌∙◌, subst, refl,
}
use substrate_evm_account_ma.Prelude.Checked.{Checked, returns, panics}
use substrate_evm_account_ma.Node.Command.{
  run_cli, library, checked, run_session, Session, finish, build_next, wait, message, CliError,
  call, service, map_error, partial, run_benchmark, run_subcommand, Subcommand, BenchmarkCmd,
  Commands, Cli, run, key, build_spec, check_block, export_blocks, export_state, import_blocks,
  purge_chain, revert, benchmark, chain_info,
}
use substrate_evm_account_ma.Node.Service.{new_full}
use substrate_evm_account_ma.Node.Service.Laws.{new_full-starts, Keeps-new_partial}
use substrate_evm_account_ma.Node.Startup.{
  ◌>>=◌, bind, try, Startup, Started, Action, done, failed, panicked,
}
use substrate_evm_account_ma.Node.Startup.Laws.{starts, Keeps, Keeps->>=, Keeps-try, is_done}
use substrate_evm_account_ma.Node.Substrate.{Parts, Config, Substrate}

map_error_same :
    {E E' A : Type 0} (g : E → E') (m : Startup E A)
    → Keeps m
    → (log : List Action) → starts (map_error g m log).1 ≡ starts log
unfolding map_error
map_error_same g m h log = ground (arith, h.same log)

Keeps-map_error : {E E' A : Type 0} (g : E → E') {m : Startup E A} → Keeps m → Keeps (map_error g m)
Keeps-map_error g {m} h = record { same = map_error_same g m h }

is_done-map_error :
    {E E' A : Type 0} (g : E → E') (m : Startup E A) (log : List Action)
    → is_done (map_error g m log).0 ≡ is_done (m log).0
unfolding map_error
is_done-map_error g m log = ground arith

starts-map_error :
    {E E' A : Type 0} (g : E → E') (m : Startup E A) (log : List Action)
    → starts (map_error g m log).1 ≡ starts (m log).1
unfolding map_error
starts-map_error g m log = ground arith

and_false : (b : Bool) → (b && false) ≡ false
and_false true = refl
and_false false = refl

abbrev pub is_nothing : {A : Type 0} → Option A → Bool
is_nothing none = true
is_nothing (some a) = false

module _ {t : Parts} {Cmd Db Storage Data RuntimeCall Era Pair Opaque : Type 0} (l : Substrate t)
    (x : Commands t Cmd Db Storage Data RuntimeCall Era Pair Opaque) where
  Keeps-call : {A : Type 0} (r : t.Error ⊎ A) → Keeps (call l x r)
  Keeps-call r = Keeps-map_error library (Keeps-try r)

  Keeps-partial : (config : Config t) → Keeps (partial l x config)
  Keeps-partial config = Keeps-map_error service (Keeps-new_partial l config)

  Keeps-if :
      (b : Bool) (m n : Startup (CliError t.Error) (Unit {0}))
      → Keeps m
      → Keeps n
      → Keeps (if b then m else n)
  Keeps-if true m n h h' = h
  Keeps-if false m n h h' = h'

  checked_same :
      (E : Type 0) {A : Type 0} (r : Checked A) (log : List Action)
      → starts (checked {E = E} r log).1 ≡ starts log
  unfolding checked
  checked_same E (returns a) log = refl
  checked_same E panics log = refl

  Keeps-run_session : (s : Session t.Client Opaque t.Error) → Keeps (run_session l x s)
  unfolding run_session
  Keeps-run_session (finish r) = Keeps-try r
  Keeps-run_session (build_next builder nonce next) =
      Keeps->>= (record { same = checked_same _ _ }) (λ o. Keeps-run_session (next o))

  Keeps-run_benchmark :
      (cmd : BenchmarkCmd Cmd) (config : Config t) → Keeps (run_benchmark l x cmd config)
  unfolding run_benchmark
  Keeps-run_benchmark (BenchmarkCmd.pallet cmd) config =
      Keeps-if (not x.runtime_benchmarks) _ _ (Keeps-try _) (Keeps-call _)
  Keeps-run_benchmark (BenchmarkCmd.block cmd) config =
      Keeps->>= (Keeps-partial config) (λ p. Keeps-call _)
  Keeps-run_benchmark (BenchmarkCmd.storage cmd) config =
      Keeps-if (not x.runtime_benchmarks) _ _ (Keeps-try _)
        (Keeps->>= (Keeps-partial config) (λ p. Keeps-call _))
  Keeps-run_benchmark (BenchmarkCmd.overhead cmd) config = Keeps->>= (Keeps-partial config) (λ p.
      Keeps->>= (Keeps-map_error message (Keeps-try _))
        (λ inherents. Keeps-map_error library (Keeps-run_session _)))
  Keeps-run_benchmark (BenchmarkCmd.extrinsic cmd) config = Keeps->>= (Keeps-partial config) (λ p.
      Keeps->>= (Keeps-map_error message (Keeps-try _))
        (λ inherents. Keeps-map_error library (Keeps-run_session _)))
  Keeps-run_benchmark (BenchmarkCmd.machine cmd) config = Keeps-call _

  Keeps-run_subcommand : (cmd : Subcommand Cmd) → Keeps (run_subcommand l x cmd)
  unfolding run_subcommand
  Keeps-run_subcommand (key cmd) = Keeps-call _
  Keeps-run_subcommand (build_spec cmd) = Keeps->>= (Keeps-call _) (λ config. Keeps-call _)
  Keeps-run_subcommand (check_block cmd) =
      Keeps->>= (Keeps-call _) (λ config. Keeps->>= (Keeps-partial config) (λ p. Keeps-call _))
  Keeps-run_subcommand (export_blocks cmd) =
      Keeps->>= (Keeps-call _) (λ config. Keeps->>= (Keeps-partial config) (λ p. Keeps-call _))
  Keeps-run_subcommand (export_state cmd) =
      Keeps->>= (Keeps-call _) (λ config. Keeps->>= (Keeps-partial config) (λ p. Keeps-call _))
  Keeps-run_subcommand (import_blocks cmd) =
      Keeps->>= (Keeps-call _) (λ config. Keeps->>= (Keeps-partial config) (λ p. Keeps-call _))
  Keeps-run_subcommand (purge_chain cmd) = Keeps->>= (Keeps-call _) (λ config. Keeps-call _)
  Keeps-run_subcommand (revert cmd) =
      Keeps->>= (Keeps-call _) (λ config. Keeps->>= (Keeps-partial config) (λ p. Keeps-call _))
  Keeps-run_subcommand (benchmark cmd) =
      Keeps->>= (Keeps-call _) (λ config. Keeps-run_benchmark cmd config)
  Keeps-run_subcommand (chain_info cmd) = Keeps->>= (Keeps-call _) (λ config. Keeps-call _)

  Keeps-wait : Keeps (wait l x)
  unfolding wait
  Keeps-wait = record {
    same = λ log. (Keeps-map_error service (Keeps-try (x.run_until_exit log))).same log;
  }

  -- Whether a run has got as far as to build and start the node.
  abbrev pub started_with : t.Error ⊎ Config t → List Action → Bool
  started_with (inl e) log = false
  started_with (inr config) log = is_done (new_full l config log).0

  abbrev pub node_started : Option (Subcommand Cmd) → Cmd → List Action → Bool
  node_started none cmd log = started_with (x.create_runner cmd) log
  node_started (some subcommand) cmd log = false

  bind-wait :
      (r : Started (CliError t.Error) (Unit {0}) × List Action)
      → (starts (bind r (λ u. wait l x)).1 ≡ starts r.1)
        × ((is_done (bind r (λ u. wait l x)).0 && not (is_done r.0)) ≡ false)
  bind-wait (done u, log) = (Keeps-wait.same log, and_false (is_done (wait l x log).0))
  bind-wait (failed e, log) = (refl, refl)
  bind-wait (panicked, log) = (refl, refl)

  -- A run of the node itself, whose runner may fail.
  with_config :
      (r : t.Error ⊎ Config t) (log : List Action)
      → (starts
            ((call l x r >>= λ config. map_error service (new_full l config) >>= λ u. wait l x)
              log).1
          ≡ starts log + (if started_with r log then 1 else 0))
        × ((is_done
                ((call l x r >>= λ config. map_error service (new_full l config) >>= λ u. wait l x)
                  log).0
              && not (started_with r log))
            ≡ false)
  unfolding ◌>>=◌ try map_error
  with_config (inl e) log = (omega arith, refl)
  with_config (inr config) log =
      let (kept, done_before) = bind-wait (map_error service (new_full l config) log) in
      (
        kept ∙ (starts-map_error service (new_full l config) log ∙ new_full-starts l config log),
        subst
            (λ b.
              (is_done (bind (map_error service (new_full l config) log) (λ u. wait l x)).0
                && not b)
              ≡ false)
            (is_done-map_error service (new_full l config) log) done_before,
      )

  -- The network is started only by a run without a subcommand, and only once: if the runner is created
  -- and the node built, also where the node's tasks fail later. A run without a subcommand that
  -- succeeds has started it.
  pub run-starts :
      (cli : Cli Cmd) (log : List Action)
      → (starts (run l x cli log).1
          ≡ starts log + (if node_started cli.subcommand cli.run log then 1 else 0))
        × ((is_nothing cli.subcommand
              && (is_done (run l x cli log).0 && not (node_started cli.subcommand cli.run log)))
            ≡ false)
  unfolding run run_cli
  run-starts cli log = elim (Option-cases cli.subcommand) [
    | inl missing ↦ rw missing (with_config (x.create_runner cli.run) log)
    | inr (cmd, given) ↦ rw given (omega (arith, (Keeps-run_subcommand cmd).same log), refl)
  ]
