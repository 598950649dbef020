-- ===== src/Node/Service/Tests.antt =====
-- A library whose calls all succeed, and one without a genesis block, and the theorems about the
-- service at them.
use create_chain_substrate_n.Common.{
  ◌↔◌, ◌⊎◌, ◌<◌, ◌≤◌, ◌+◌, ℕ, ◌≡◌, refl, Result, ok, err, none, some, [], ◌∷◌, true, false, String,
  All, ◌==◌, not, ◌/◌,
}
use create_chain_substrate_n.Node.Types.{Types, Configuration, libp2p}
use create_chain_substrate_n.Node.Library.{Library, Trace}
use create_chain_substrate_n.Node.Action.{Failure, service, ◌>>=◌}
use create_chain_substrate_n.Node.Service.Partial.{
  new_partial, telemetry_task, new_telemetry, spawn_telemetry,
}
use create_chain_substrate_n.Node.Service.Full.{
  new_full, start_offchain_workers, start_authoring, start_grandpa_voter, grandpa_params,
  offchain_task, aura_task, grandpa_task,
}
use create_chain_substrate_n.Node.Service.Spawning.{planned_tasks, new_full_tasks, spawned, After}
use create_chain_substrate_n.Node.Service.Progress.{AfterCalls}
use create_chain_substrate_n.Node.Service.Sequence.{planned_calls, new_full_sequence}
use create_chain_substrate_n.Node.Service.Calls.{IsAllowed, new_full_calls}
use create_chain_substrate_n.Runtime.Configs.Tests.{times, times-IsLawful}
use create_chain_substrate_n.Node.Service.Timing.{IsLawfulClock, AcceptsAuthor, author_accepted_iff}
use create_chain_substrate_n.Node.Service.FailFast.{IsFailFast}
use create_chain_substrate_n.Node.Service.Failing.{new_full_fails_fast}

-- Every value is a number, and an error is a text.
abbrev pub toy : Types
toy = record {
  ServiceError = String;
  Endpoints = ℕ;
  TelemetryWorker = ℕ;
  Telemetry = ℕ;
  TelemetryHandle = ℕ;
  ExecutorConfig = ℕ;
  WasmExecutor = ℕ;
  Client = ℕ;
  Backend = ℕ;
  KeystoreContainer = ℕ;
  Keystore = ℕ;
  TaskManager = ℕ;
  SelectChain = ℕ;
  PoolOptions = ℕ;
  TransactionPool = ℕ;
  Registry = ℕ;
  BlockImport = ℕ;
  LinkHalf = ℕ;
  ImportQueue = ℕ;
  Role = ℕ;
  Hash = ℕ;
  SlotDuration = ℕ;
  Timestamp = ℕ;
  Slot = ℕ;
  NetworkConfig = ℕ;
  FullNetworkConfig = ℕ;
  Metrics = ℕ;
  ProtocolName = ℕ;
  ProtocolConfig = ℕ;
  NotificationService = ℕ;
  WarpSyncProvider = ℕ;
  Network = ℕ;
  SystemRpcTx = ℕ;
  TxHandlerController = ℕ;
  SyncService = ℕ;
  OffchainWorkers = ℕ;
  RpcModule = ℕ;
  RpcHandlers = ℕ;
  ProposerFactory = ℕ;
  AuraTask = ℕ;
  GrandpaTask = ℕ;
  ChainSpec = ℕ;
  Database = ℕ;
}

-- A role other than 0 is an authority, and endpoints 0 are empty.
abbrev pub working : Library toy
working = record {
  telemetry_worker_new = λ n t. ok 1;
  new_full_parts = λ config handle executor t. ok (2, 3, 4, 5);
  block_import = λ client period chain handle t. ok (6, 7);
  import_queue = λ params t. ok 8;
  build_network = λ params t. ok (9, 10, 11, 12);
  offchain_workers_new = λ options t. ok 13;
  spawn_tasks = λ params t. ok 14;
  slot_duration = λ client t. ok 6000;
  start_aura = λ params t. ok 15;
  run_grandpa_voter = λ params t. ok 16;
  is_empty = λ endpoints. endpoints == 0;
  new_telemetry = λ worker endpoints. endpoints;
  handle = λ telemetry. telemetry;
  new_wasm_executor = λ config. config;
  longest_chain = λ backend. backend;
  is_authority = λ role. not (role == 0);
  build_pool = λ tasks client authority options registry. options;
  slot_duration_at = λ client hash. ok 6000;
  from_timestamp_and_slot_duration = λ timestamp duration. timestamp / duration;
  full_network_config = λ config registry. config;
  register_notification_metrics = λ registry. 0;
  block_hash = λ client number. ok (some 17);
  protocol_standard_name = λ hash spec. hash;
  grandpa_peers_set_config = λ name metrics config. (name, 18);
  add_notification_protocol = λ protocol config. config;
  warp_sync_provider = λ backend link. link;
  keystore = λ container. container;
  proposer_factory = λ tasks client pool registry handle. 19;
}

-- The author cannot be started.
abbrev no_author : Library toy
no_author = record working { start_aura = λ params t. err "no author" }

-- An authority with telemetry.
abbrev pub validator : Configuration toy
validator = record {
  telemetry_endpoints = some 1;
  executor = 0;
  role = 1;
  transaction_pool = 0;
  prometheus_registry = none;
  network = 0;
  network_backend = libp2p;
  node_name = "alice";
  chain_spec = 0;
  database = 0;
  offchain_worker_enabled = true;
  force_authoring = false;
  disable_grandpa = false;
}

-- Unfolds the whole service.
started : Library toy → Result (Failure toy) ℕ × Trace toy
unfolding new_full ◌>>=◌ new_partial new_telemetry spawn_telemetry start_offchain_workers
    start_authoring start_grandpa_voter grandpa_params
started S = new_full S validator []

-- The author fails: the voter is not handed over.
started_partly :
    ((started no_author).0 ≡ err (service "no author"))
    × (spawned (started no_author).1 ≡ telemetry_task ∷ offchain_task ∷ [])
unfolding started
started_partly = (refl, refl)

started_fully :
    spawned (started working).1 ≡ telemetry_task ∷ offchain_task ∷ aura_task ∷ grandpa_task ∷ []
unfolding started
started_fully = refl

new_full_tasks_example :
    After (planned_tasks no_author validator) [] (new_full no_author validator [])
new_full_tasks_example = new_full_tasks no_author validator

new_full_sequence_example :
    AfterCalls (planned_calls no_author validator) [] (new_full no_author validator [])
new_full_sequence_example = new_full_sequence no_author validator

new_full_calls_example : All (IsAllowed working validator) (new_full working validator []).1
new_full_calls_example = new_full_calls working validator

new_full_fails_fast_example : IsFailFast no_author (new_full no_author validator [])
new_full_fails_fast_example = new_full_fails_fast no_author validator

abbrev working-IsLawfulClock : IsLawfulClock working
working-IsLawfulClock = record {
  millis = λ t. t;
  duration_millis = λ d. d;
  slot_number = λ s. s;
  slot_lem = λ t d _. refl;
}

-- Two times in slots that follow each other, less than half a slot apart: the second is refused.
author_accepted_iff_example :
    AcceptsAuthor working working-IsLawfulClock times times-IsLawful 6000 (1, 11_999) 12_000
    ↔ ((1 < 12_000 / 6000) × ((◌≡◌ {A = ℕ} 11_999 0) ⊎ (11_999 + 3000 ≤ 12_000)))
author_accepted_iff_example =
    author_accepted_iff working working-IsLawfulClock times times-IsLawful 6000 refl (1, 11_999)
      12_000
