-- ===== src/Node/Service.antt =====
-- node/src/service.rs: `new_partial` and `new_full`. What the Substrate libraries build is known by
-- its type alone, and each of their calls is a parameter with what the code passes on to it; fixed
-- arguments and handles that only connect the parts are left out.
pub mod Laws
pub mod Success
pub mod Order
pub mod Panic
use substrate_evm_account_ma.Node.Substrate.{Configuration, Parts, Config, Substrate}
use substrate_evm_account_ma.Prelude.{◌∷◌, []}
use substrate_evm_account_ma.Prelude.{
  Bytes, false, true, Bool, List, none, some, ◌⊎◌, Option, as_bytes, if◌then◌else◌, not, ℕ,
}
use substrate_evm_account_ma.Node.Startup.{
  ◌>>=◌, ◌>>◌, pure, act, try, expect, when, Startup, Task, Action, spawn, service_tasks,
  start_network,
}

abbrev pub grandpa_justification_period : ℕ
grandpa_justification_period = 512

abbrev pub telemetry_task : Task
telemetry_task = record {
  name = as_bytes "telemetry";
  group = none;
  essential = false;
  blocking = false;
}

abbrev pub offchain_task : Task
offchain_task = record {
  name = as_bytes "offchain-workers-runner";
  group = some (as_bytes "offchain-worker");
  essential = false;
  blocking = false;
}

abbrev pub aura_task : Task
aura_task = record {
  name = as_bytes "aura";
  group = some (as_bytes "block-authoring");
  essential = true;
  blocking = true;
}

abbrev pub grandpa_task : Task
grandpa_task = record {
  name = as_bytes "grandpa-voter";
  group = none;
  essential = true;
  blocking = true;
}

-- `PartialComponents`
pub record PartialComponents (t : Parts) : Type 0 where
  pub client : t.Client
  pub backend : t.Backend
  pub import_queue : t.ImportQueue
  pub keystore_container : t.Keystore
  pub select_chain : t.SelectChain
  pub transaction_pool : t.Pool
  pub grandpa_block_import : t.BlockImport
  pub grandpa_link : t.Link
  pub telemetry : Option t.Telemetry

-- `.filter(|x| !x.is_empty())`
abbrev pub filter_non_empty : {A : Type 0} → Option (List A) → Option (List A)
filter_non_empty none = none
filter_non_empty (some []) = none
filter_non_empty (some (x ∷ xs)) = some (x ∷ xs)

abbrev pub is_some : {A : Type 0} → Option A → Bool
is_some none = false
is_some (some a) = true

module _ {t : Parts} (l : Substrate t) where
  -- The telemetry of the endpoints, where there are any.
  abbrev pub make_telemetry : Option (List t.Endpoint) → Startup t.Error (Option t.Telemetry)
  make_telemetry none = pure none
  make_telemetry (some endpoints) = do
    worker ← try (l.telemetry_worker_new 16)
    pure (some (l.new_telemetry worker endpoints))

  unfoldable pub new_partial : Config t → Startup t.Error (PartialComponents t)
  new_partial config = do
    telemetry ← make_telemetry (filter_non_empty config.telemetry_endpoints)
    parts ← try (l.new_full_parts config telemetry)
    let (client, backend, keystore_container) = parts
    when (is_some telemetry) (act (spawn telemetry_task))
    let select_chain = l.longest_chain backend
    let transaction_pool = l.new_full_pool config config.is_authority client
    grandpa ← try (l.block_import client grandpa_justification_period select_chain telemetry)
    let (grandpa_block_import, grandpa_link) = grandpa
    slot_duration ← try (l.slot_duration client)
    import_queue ← try (l.import_queue grandpa_block_import client slot_duration telemetry)
    pure (record {
      client = client;
      backend = backend;
      import_queue = import_queue;
      keystore_container = keystore_container;
      select_chain = select_chain;
      transaction_pool = transaction_pool;
      grandpa_block_import = grandpa_block_import;
      grandpa_link = grandpa_link;
      telemetry = telemetry;
    })

  -- The author of blocks.
  unfoldable pub start_authoring :
      Config t → PartialComponents t → t.SyncService → Startup t.Error (Unit {0})
  start_authoring config p sync_service = do
    slot_duration ← try (l.slot_duration p.client)
    try (
        l.start_aura slot_duration p.client p.select_chain p.grandpa_block_import p.transaction_pool
          config.force_authoring p.keystore_container sync_service p.telemetry)
    act (spawn aura_task)

  -- The voter; the keystore is for an authority only.
  unfoldable pub start_voter :
      Config t
      → PartialComponents t
      → t.ProtocolName
      → t.NotificationService
      → t.Network
      → t.SyncService
      → Startup t.Error (Unit {0})
  start_voter config p grandpa_protocol_name notification_service network sync_service = do
    let keystore = if config.is_authority then some p.keystore_container else none
    try (
        l.run_grandpa_voter grandpa_justification_period config.node_name keystore
          config.is_authority grandpa_protocol_name p.grandpa_link network sync_service
          notification_service p.transaction_pool p.telemetry)
    act (spawn grandpa_task)

  -- Everything but the start of the network.
  unfoldable pub prepare_full : Config t → Startup t.Error (Unit {0})
  prepare_full config = do
    p ← new_partial config
    let net_config = l.full_network_configuration config
    genesis_hash ← expect (l.block_hash p.client 0)
    let grandpa_protocol_name = l.protocol_standard_name genesis_hash config
    let (net_config', notification_service) =
        l.grandpa_peers_set_config net_config grandpa_protocol_name
    let warp_sync = l.warp_proof p.backend p.grandpa_link
    built ←
        try
          (l.build_network config net_config' p.client p.transaction_pool p.import_queue warp_sync)
    let (network, sync_service) = built
    when config.offchain_worker_enabled (act (spawn offchain_task))
    try (
        l.spawn_tasks config network p.client p.keystore_container p.transaction_pool p.backend
          sync_service p.telemetry)
    act service_tasks
    when config.is_authority (start_authoring config p sync_service)
    when (not config.disable_grandpa)
        (start_voter config p grandpa_protocol_name notification_service network sync_service)

  unfoldable pub new_full : Config t → Startup t.Error (Unit {0})
  new_full config = do prepare_full config; act start_network
