-- ===== src/Tests/NodeExamples.antt =====
-- The theorems on the runtime and the node at concrete inputs.
use substrate_evm_account_ma.Node.Substrate.{Configuration, Parts, Substrate}
use substrate_evm_account_ma.Prelude.{
  arith, as_bytes, false, ◌<◌, ◌≢◌, ◌≤◌, none, true, ◌^◌, ◌∷◌, [], bytes_eq, length, refl, some,
  ◌*◌, ◌+◌, ◌≡◌, Bytes, inr, inl, ◌↔◌, ℕ,
}
use substrate_evm_account_ma.Prelude.Checked.{returns}
use substrate_evm_account_ma.Node.ChainSpec.{Loaded, Result, Keys, load_spec, ok, read}
use substrate_evm_account_ma.Node.ChainSpec.Laws.{load_spec_no_wasm}
use substrate_evm_account_ma.Node.Extrinsic.{
  raw_payload, create_extrinsic, power_at_least, FullClient, Signing, UncheckedExtrinsic, period,
}
use substrate_evm_account_ma.Node.Extrinsic.Laws.{create_extrinsic_lem, period_lem}
use substrate_evm_account_ma.Node.Service.{grandpa_task, aura_task, new_full}
use substrate_evm_account_ma.Node.Service.Order.{new_full-Began}
use substrate_evm_account_ma.Node.Startup.Progress.{Began}
use substrate_evm_account_ma.Node.Startup.Laws.{is_done}
use substrate_evm_account_ma.Node.Service.Success.{full_actions, new_full_done, IsWorking}
use substrate_evm_account_ma.Node.Startup.{done, spawn, service_tasks, start_network}
use substrate_evm_account_ma.Pallet.Message.{eip712_message_hash}
use substrate_evm_account_ma.Pallet.Types.{State, ValidTransaction, Call}
use substrate_evm_account_ma.Pallet.Validate.{
  check_nonce, priority, max_tx_per_block, check_payment, check_signer, validate_unsigned,
}
use substrate_evm_account_ma.Pallet.Validate.Accept.{accepted}
use substrate_evm_account_ma.Pallet.Verdict.{accept}
use substrate_evm_account_ma.Runtime.{
  millisecs_per_block, runtime_config, block_hash_count, Library, days,
}
use substrate_evm_account_ma.Runtime.Laws.{accepted_key}
use substrate_evm_account_ma.Tests.ToyFrame.{frame, start, request, who, frame-IsSaturating}
use substrate_evm_account_ma.Tests.ToyHost.{host}
use substrate_evm_account_ma.Tests.ToyWords.{bytes_le}

-- A day is 86,400,000 milliseconds of blocks.
day : days * millisecs_per_block ≡ 86400000
day = refl

abbrev pub library : Library ℕ ℕ
library = record {
  drop_imbalance = λ amount rest. rest;
  u256_from = λ n. record { limb0 = n; limb1 = 0; limb2 = 0; limb3 = 0 };
  weight_ref_time_per_second = 1000000000000;
  with_sensible_defaults = λ w ratio. w;
  max_with_normal_ratio = λ n ratio class. n;
  weight_saturating_add = λ a b. record {
    ref_time = a.ref_time + b.ref_time;
    proof_size = a.proof_size + b.proof_size;
  };
  db_weight = record {
    reads = λ n. record { ref_time = 25000000 * n; proof_size = 0 };
    writes = λ n. record { ref_time = 100000000 * n; proof_size = 0 };
  };
}

-- The account of the request, with enough for the service fee.
abbrev pub rich : State ℕ ℕ ℕ
rich = record start { rest = 20000000000 }

abbrev valid : ValidTransaction
valid = accepted host frame (runtime_config host library) request 300

request-valid :
    validate_unsigned host frame (runtime_config host library) rich (Call.meta_call request)
    ≡ accept valid
unfolding validate_unsigned check_signer check_nonce check_payment priority max_tx_per_block
    bytes_le bytes_eq
request-valid = refl

key_is_owned :
    (key : Bytes) × (host.secp256k1_ecdsa_recover_compressed request.signature
        (eip712_message_hash host (runtime_config {RuntimeCall = ℕ} host library) who (9 ∷ []) 0)
      ≡ some key)
    × (host.account_id32_decode (host.blake2_256 key) ≡ some who)
key_is_owned = accepted_key host library frame frame-IsSaturating rich request valid request-valid

-- The runtime keeps 2400 block hashes.
period_lem_example :
    (j : ℕ) × (period block_hash_count ≡ 2 ^ j)
    × (period block_hash_count < block_hash_count)
    × (block_hash_count ≤ 2 * period block_hash_count)
period_lem_example = period_lem block_hash_count (omega arith) (omega arith)

runtime_period : period block_hash_count ≡ 2048
unfolding period power_at_least
runtime_period = refl

abbrev pub client : FullClient ℕ
client = record {
  block_hash = λ n. some 11;
  best_hash = 12;
  best_number = 5;
  account_nonce = λ block account. some 3;
}

abbrev pub signing : Signing ℕ ℕ ℕ ℕ
signing = record {
  mortal = λ a b. a + b;
  saturated_into_u64 = λ n. n;
  using_encoded = λ p. p.function ∷ p.genesis_hash ∷ [];
  public = λ pair. pair ∷ [];
  sign = λ pair message. pair ∷ message;
}

extrinsic_is_built :
    (x : UncheckedExtrinsic ℕ ℕ) × (create_extrinsic signing client 1 2 none ≡ returns x)
    × (x.signed ≡ 1 ∷ [])
    × (x.extra.check_nonce ≡ 3)
    × (x.signature
        ≡ signing.sign 1
            (signing.using_encoded (raw_payload signing client x.function x.extra 11 12)))
extrinsic_is_built = create_extrinsic_lem signing client 1 2 none 11 3 refl refl

abbrev keys : Keys ℕ ℕ
keys = record {
  aura_from_seed = λ seed. length seed;
  grandpa_from_seed = λ seed. length seed;
  account_id_from_seed = λ seed. seed;
  wasm_binary = none;
}

abbrev from_json_file : Bytes → Result ℕ
from_json_file path = ok (length path)

abbrev path : Bytes
path = 9 ∷ []

abbrev loaded : Loaded ℕ ℕ ℕ
loaded = read 1

read_file : load_spec keys from_json_file path ≡ ok loaded
unfolding load_spec bytes_eq
read_file = refl

file_is_loaded :
    (file : ℕ) × (loaded ≡ read file)
    × (from_json_file path ≡ ok file)
    × (path ≢ as_bytes "dev")
    × (path ≢ as_bytes "local")
    × (path ≢ [])
file_is_loaded = load_spec_no_wasm keys from_json_file path loaded refl read_file

-- Libraries whose parts are numbers, and that never fail.
abbrev pub numbers : Parts
numbers = record {
  Endpoint = ℕ;
  Other = ℕ;
  Error = ℕ;
  Worker = ℕ;
  Telemetry = ℕ;
  Client = ℕ;
  Backend = ℕ;
  Keystore = ℕ;
  SelectChain = ℕ;
  Pool = ℕ;
  BlockImport = ℕ;
  Link = ℕ;
  Slot = ℕ;
  ImportQueue = ℕ;
  Hash = ℕ;
  ProtocolName = ℕ;
  NotificationService = ℕ;
  NetConfig = ℕ;
  WarpSync = ℕ;
  Network = ℕ;
  SyncService = ℕ;
}

abbrev pub substrate : Substrate numbers
substrate = record {
  telemetry_worker_new = λ n. inr n;
  new_telemetry = λ w es. w;
  new_full_parts = λ c o. inr (1, 2, 3);
  longest_chain = λ b. b;
  new_full_pool = λ c a client. client;
  block_import = λ client n chain o. inr (4, 5);
  slot_duration = λ client. inr 6000;
  import_queue = λ b client s o. inr 6;
  full_network_configuration = λ c. 7;
  block_hash = λ client n. some 8;
  protocol_standard_name = λ g c. 9;
  grandpa_peers_set_config = λ n p. (n, p);
  warp_proof = λ b link. 10;
  build_network = λ c n client pool q w. inr (11, 12);
  spawn_tasks = λ c n client k pool b s o. inr tt;
  start_aura = λ s client chain b pool f k sync o. inr tt;
  run_grandpa_voter = λ n name k a p link net sync s pool o. inr tt;
}

abbrev pub configuration : Configuration ℕ ℕ
configuration = record {
  telemetry_endpoints = some [];
  is_authority = true;
  offchain_worker_enabled = false;
  force_authoring = false;
  disable_grandpa = false;
  node_name = as_bytes "node";
  other = 0;
}

substrate-IsWorking : IsWorking substrate configuration
substrate-IsWorking = record {
  worker = λ n. (n, refl);
  parts = λ o. ((1, 2, 3), refl);
  grandpa = λ client n chain o. ((4, 5), refl);
  slot = λ client. (6000, refl);
  queue = λ b client s o. (6, refl);
  genesis = λ client. (8, refl);
  network = λ n client pool q w. ((11, 12), refl);
  tasks = λ n client k pool b s o. refl;
  aura = λ s client chain b pool f k sync o. refl;
  voter = λ n name k a p link net sync s pool o. refl;
}

new_full_done_example :
    new_full substrate configuration []
    ≡ (done tt, service_tasks ∷ spawn aura_task ∷ spawn grandpa_task ∷ start_network ∷ [])
new_full_done_example = new_full_done substrate configuration substrate-IsWorking []

-- The finality voter fails to start.
abbrev voterless : Substrate numbers
voterless = record substrate { run_grandpa_voter = λ n name k a p link net sync s pool o. inl 14 }

new_full-Began_example :
    (b : Began (full_actions configuration) [] (new_full voterless configuration []).1) × ((is_done
          (new_full voterless configuration []).0
        ≡ true)
      ↔ (b.rest ≡ []))
new_full-Began_example = new_full-Began voterless configuration []
