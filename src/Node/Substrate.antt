-- ===== src/Node/Substrate.antt =====
-- The libraries that node/src/service.rs calls: their parts, known by type alone, and their calls.
use substrate_evm_account_ma.Prelude.{ℕ, Bool, Bytes, List, Option, ◌⊎◌}

-- The fields of the configuration that the code reads, and the rest.
pub record Configuration (Endpoint Other : Type 0) : Type 0 where
  pub telemetry_endpoints : Option (List Endpoint)
  pub is_authority : Bool
  pub offchain_worker_enabled : Bool
  pub force_authoring : Bool
  pub disable_grandpa : Bool
  pub node_name : Bytes
  pub other : Other

pub record Parts : Type 1 where
  pub Endpoint : Type 0
  pub Other : Type 0
  pub Error : Type 0
  pub Worker : Type 0
  pub Telemetry : Type 0
  pub Client : Type 0
  pub Backend : Type 0
  pub Keystore : Type 0
  pub SelectChain : Type 0
  pub Pool : Type 0
  pub BlockImport : Type 0
  pub Link : Type 0
  pub Slot : Type 0
  pub ImportQueue : Type 0
  pub Hash : Type 0
  pub ProtocolName : Type 0
  pub NotificationService : Type 0
  pub NetConfig : Type 0
  pub WarpSync : Type 0
  pub Network : Type 0
  pub SyncService : Type 0

abbrev pub Config : Parts → Type 0
Config t = Configuration t.Endpoint t.Other

-- The calls, in the order of the source. On the left is an error.
pub record Substrate (t : Parts) : Type 0 where
  pub telemetry_worker_new : ℕ → t.Error ⊎ t.Worker
  pub new_telemetry : t.Worker → List t.Endpoint → t.Telemetry
  pub new_full_parts : Config t → Option t.Telemetry → t.Error ⊎ (t.Client × t.Backend × t.Keystore)
  pub longest_chain : t.Backend → t.SelectChain
  pub new_full_pool : Config t → Bool → t.Client → t.Pool
  pub block_import :
      t.Client → ℕ → t.SelectChain → Option t.Telemetry → t.Error ⊎ (t.BlockImport × t.Link)
  pub slot_duration : t.Client → t.Error ⊎ t.Slot
  pub import_queue :
      t.BlockImport → t.Client → t.Slot → Option t.Telemetry → t.Error ⊎ t.ImportQueue
  pub full_network_configuration : Config t → t.NetConfig
  pub block_hash : t.Client → ℕ → Option t.Hash
  pub protocol_standard_name : t.Hash → Config t → t.ProtocolName
  pub grandpa_peers_set_config : t.NetConfig → t.ProtocolName → t.NetConfig × t.NotificationService
  pub warp_proof : t.Backend → t.Link → t.WarpSync
  pub build_network :
      Config t
      → t.NetConfig
      → t.Client
      → t.Pool
      → t.ImportQueue
      → t.WarpSync
      → t.Error ⊎ (t.Network × t.SyncService)
  pub spawn_tasks :
      Config t
      → t.Network
      → t.Client
      → t.Keystore
      → t.Pool
      → t.Backend
      → t.SyncService
      → Option t.Telemetry
      → t.Error ⊎ Unit {0}
  pub start_aura :
      t.Slot
      → t.Client
      → t.SelectChain
      → t.BlockImport
      → t.Pool
      → Bool
      → t.Keystore
      → t.SyncService
      → Option t.Telemetry
      → t.Error ⊎ Unit {0}
  pub run_grandpa_voter :
      (justification_generation_period : ℕ)
      → (name : Bytes) → Option t.Keystore
      → Bool
      → t.ProtocolName
      → t.Link
      → t.Network
      → t.SyncService
      → t.NotificationService
      → t.Pool
      → Option t.Telemetry
      → t.Error ⊎ Unit {0}
