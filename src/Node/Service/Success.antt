-- ===== src/Node/Service/Success.antt =====
-- The start of a node whose libraries all succeed.
use substrate_evm_account_ma.Node.Substrate.{Configuration, Config, Parts, Substrate}
use substrate_evm_account_ma.Prelude.{
  ap, ◌∙◌, not, sym, Bytes, append_assoc, refl, ℕ, if◌then◌else◌, ◌++◌, ◌≡◌, Bool, List, Option,
  append-nil, ◌⊎◌, ◌∷◌, [], inr, none, some, true, false,
}
use substrate_evm_account_ma.Node.Service.{
  prepare_full, new_full, start_authoring, start_voter, grandpa_task, aura_task,
  grandpa_justification_period, offchain_task, telemetry_task, PartialComponents, filter_non_empty,
  is_some, make_telemetry, new_partial,
}
use substrate_evm_account_ma.Node.Startup.{
  ◌>>=◌, done, pure, act, try, expect, when, Startup, Action, spawn, service_tasks, start_network,
}

-- The step succeeds with this result, and takes these actions.
record Runs {Err A : Type 0} (m : Startup Err A) (a : A) (actions : List Action) : Type 0 where
  ends : (log : List Action) → m log ≡ (done a, log ++ actions)

Runs->>= :
    {Err A B : Type 0} {m : Startup Err A} (k : A → Startup Err B) {a : A} {b : B}
    {xs ys : List Action}
    → Runs m a xs
    → Runs (k a) b ys
    → Runs (m >>= k) b (xs ++ ys)
unfolding ◌>>=◌
Runs->>= k {xs = xs} {ys = ys} h h' = record {
  ends = λ log. rw (h.ends log, h'.ends (log ++ xs), append_assoc log xs ys);
}

Runs-try : {Err A : Type 0} {a : A} (r : Err ⊎ A) → r ≡ inr a → Runs (try r) a []
unfolding try
Runs-try r e = record { ends = λ log. rw (e, append-nil log) }

Runs-expect :
    (Err : Type 0) {A : Type 0} {a : A} (r : Option A)
    → r ≡ some a
    → Runs {Err = Err} (expect r) a []
unfolding expect
Runs-expect Err r e = record { ends = λ log. rw (e, append-nil log) }

Runs-pure : {Err A : Type 0} (a : A) → Runs {Err = Err} (pure a) a []
unfolding pure
Runs-pure a = record { ends = λ log. rw (append-nil log) }

Runs-act : {Err : Type 0} (a : Action) → Runs {Err = Err} (act a) tt (a ∷ [])
unfolding act
Runs-act a = record { ends = λ log. refl }

Runs-when :
    {Err : Type 0} (b : Bool) {m : Startup Err (Unit {0})} {xs : List Action}
    → Runs m tt xs
    → Runs (when b m) tt (if b then xs else [])
unfolding when pure
Runs-when true h = record { ends = λ log. h.ends log }
Runs-when false h = record { ends = λ log. rw (append-nil log) }

-- Every call of the libraries succeeds, and there is a genesis block.
pub record IsWorking {t : Parts} (l : Substrate t) (config : Config t) : Type 0 where
  pub worker : (n : ℕ) → (w : t.Worker) × (l.telemetry_worker_new n ≡ inr w)
  pub parts :
      (o : Option t.Telemetry)
      → (p : t.Client × t.Backend × t.Keystore) × (l.new_full_parts config o ≡ inr p)
  pub grandpa :
      (client : t.Client) (n : ℕ) (chain : t.SelectChain) (o : Option t.Telemetry)
      → (g : t.BlockImport × t.Link) × (l.block_import client n chain o ≡ inr g)
  pub slot : (client : t.Client) → (s : t.Slot) × (l.slot_duration client ≡ inr s)
  pub queue :
      (b : t.BlockImport) (client : t.Client) (s : t.Slot) (o : Option t.Telemetry)
      → (q : t.ImportQueue) × (l.import_queue b client s o ≡ inr q)
  pub genesis : (client : t.Client) → (g : t.Hash) × (l.block_hash client 0 ≡ some g)
  pub network :
      (net : t.NetConfig) (client : t.Client) (pool : t.Pool) (q : t.ImportQueue) (w : t.WarpSync)
      → (n : t.Network × t.SyncService) × (l.build_network config net client pool q w ≡ inr n)
  pub tasks :
      (n : t.Network) (client : t.Client) (k : t.Keystore) (pool : t.Pool) (b : t.Backend)
      (s : t.SyncService) (o : Option t.Telemetry)
      → l.spawn_tasks config n client k pool b s o ≡ inr tt
  pub aura :
      (s : t.Slot) (client : t.Client) (chain : t.SelectChain) (b : t.BlockImport) (pool : t.Pool)
      (force : Bool) (k : t.Keystore) (sync : t.SyncService) (o : Option t.Telemetry)
      → l.start_aura s client chain b pool force k sync o ≡ inr tt
  pub voter :
      (n : ℕ) (name : Bytes) (k : Option t.Keystore) (authority : Bool) (p : t.ProtocolName)
      (link : t.Link) (network : t.Network) (sync : t.SyncService) (s : t.NotificationService)
      (pool : t.Pool) (o : Option t.Telemetry)
      → l.run_grandpa_voter n name k authority p link network sync s pool o ≡ inr tt

-- The actions that a configuration asks for.
abbrev pub full_actions : {Endpoint Other : Type 0} → Configuration Endpoint Other → List Action
full_actions config =
    (if is_some (filter_non_empty config.telemetry_endpoints)
      then spawn telemetry_task ∷ []
      else [])
    ++ ((if config.offchain_worker_enabled then spawn offchain_task ∷ [] else [])
        ++ (service_tasks
            ∷ ((if config.is_authority then spawn aura_task ∷ [] else [])
                ++ ((if not config.disable_grandpa then spawn grandpa_task ∷ [] else [])
                    ++ (start_network ∷ [])))))

module _ {t : Parts} (l : Substrate t) (config : Config t) (W : IsWorking l config) where
  make_telemetry-Runs :
      (o : Option (List t.Endpoint))
      → (telemetry : Option t.Telemetry) × Runs (make_telemetry l o) telemetry []
        × (is_some telemetry ≡ is_some o)
  make_telemetry-Runs none = (none, Runs-pure none, refl)
  make_telemetry-Runs (some endpoints) =
      let (w, e) = W.worker 16 in
      (some (l.new_telemetry w endpoints), Runs->>= _ (Runs-try _ e) (Runs-pure _), refl)

  new_partial-Runs :
      (p : PartialComponents t) × Runs (new_partial l config) p (
        (if is_some (filter_non_empty config.telemetry_endpoints)
          then spawn telemetry_task ∷ []
          else [])
        ++ [])
  unfolding new_partial
  new_partial-Runs =
      let (telemetry, told, same) =
        make_telemetry-Runs (filter_non_empty config.telemetry_endpoints) in
      let (parts, e) = W.parts telemetry in
      let chain = l.longest_chain parts.1 in
      let (grandpa, e1) = W.grandpa parts.0 grandpa_justification_period chain telemetry in
      let (slot, e2) = W.slot parts.0 in
      let (queue, e3) = W.queue grandpa.0 parts.0 slot telemetry in
      (
        record {
          client = parts.0;
          backend = parts.1;
          import_queue = queue;
          keystore_container = parts.2;
          select_chain = chain;
          transaction_pool = l.new_full_pool config config.is_authority parts.0;
          grandpa_block_import = grandpa.0;
          grandpa_link = grandpa.1;
          telemetry = telemetry;
        },
        rw (sym same) (
            Runs->>= _ told (
              Runs->>= _ (Runs-try _ e) (
                Runs->>= _ (Runs-when _ (Runs-act _)) (
                  Runs->>= _ (Runs-try _ e1)
                    (Runs->>= _ (Runs-try _ e2) (Runs->>= _ (Runs-try _ e3) (Runs-pure _))))))),
      )

  authoring-Runs :
      (p : PartialComponents t) (sync : t.SyncService)
      → Runs (start_authoring l config p sync) tt (spawn aura_task ∷ [])
  unfolding start_authoring
  authoring-Runs p sync =
      let (slot, e) = W.slot p.client in
      Runs->>= _ (Runs-try _ e) (Runs->>= _ (Runs-try _ (W.aura _ _ _ _ _ _ _ _ _)) (Runs-act _))

  voter-Runs :
      (p : PartialComponents t) (name : t.ProtocolName) (s : t.NotificationService)
      (network : t.Network) (sync : t.SyncService)
      → Runs (start_voter l config p name s network sync) tt (spawn grandpa_task ∷ [])
  unfolding start_voter
  voter-Runs p name s network sync =
      Runs->>= _ (Runs-try _ (W.voter _ _ _ _ _ _ _ _ _ _ _)) (Runs-act _)

  new_full-Runs :
      (actions : List Action) × Runs (new_full l config) tt actions
      × (actions ≡ full_actions config)
  unfolding new_full prepare_full
  new_full-Runs =
      let (p, partial) = new_partial-Runs in
      let (genesis, e) = W.genesis p.client in
      let (built, e1) =
        W.network _ p.client p.transaction_pool p.import_queue
          (l.warp_proof p.backend p.grandpa_link) in
      (
        _,
        Runs->>= _
            (Runs->>= _ partial (
              Runs->>= _ (Runs-expect _ _ e) (
                Runs->>= _ (Runs-try _ e1) (
                  Runs->>= _ (Runs-when _ (Runs-act _)) (
                    Runs->>= _ (Runs-try _ (W.tasks _ _ _ _ _ _ _)) (
                      Runs->>= _ (Runs-act _) (
                        Runs->>= _ (Runs-when _ (authoring-Runs p _))
                          (Runs-when _ (voter-Runs p _ _ _ _)))))))))
            (Runs-act _),
        simp (append_assoc, append-nil),
      )

  -- If every call of the libraries succeeds and there is a genesis block, the start succeeds. It
  -- spawns, in this order, the telemetry if endpoints are given, the offchain worker if enabled, the
  -- tasks of the service, the block author if the node is an authority, and the voter unless it is
  -- disabled; then it starts the network.
  pub new_full_done :
      (log : List Action) → new_full l config log ≡ (done tt, log ++ full_actions config)
  new_full_done log =
      let (actions, runs, same) = new_full-Runs in
      runs.ends log ∙ ap (λ xs. (done tt, log ++ xs)) same
