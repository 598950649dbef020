-- ===== src/Node/Service/Full.antt =====
-- `new_full` of node/src/service.rs. Its three conditional parts are functions of their own, in
-- the order of the source.
use create_chain_substrate_n.Common.{Result, ok, none, some, true, false, not, if◌then◌else◌}
use create_chain_substrate_n.Node.Types.{
  Types, Configuration, Task, BuildNetworkParams, OffchainWorkerOptions, SpawnTasksParams,
  StartAuraParams, GrandpaParams,
}
use create_chain_substrate_n.Node.Library.{
  Library, build_network, offchain_workers_new, spawn_tasks, slot_duration, start_aura,
  run_grandpa_voter,
}
use create_chain_substrate_n.Node.Action.{Action, pure, perform, expect, spawn_task, ◌>>=◌, ◌>>◌}
use create_chain_substrate_n.Node.Service.Partial.{
  PartialComponents, grandpa_justification_period, handle_of, new_partial,
}

abbrev pub offchain_task : Task
offchain_task = record {
  name = "offchain-workers-runner";
  group = some "offchain-worker";
  essential = false;
  blocking = false;
}

abbrev pub aura_task : Task
aura_task = record {
  name = "aura";
  group = some "block-authoring";
  essential = true;
  blocking = true;
}

abbrev pub grandpa_task : Task
grandpa_task = record { name = "grandpa-voter"; group = none; essential = true; blocking = true }

module _ {T : Types} (S : Library T) where
  -- `if config.offchain_worker.enabled { … }`
  unfoldable pub start_offchain_workers :
      Configuration T → PartialComponents T → T.Network → Action T (Unit {0})
  start_offchain_workers config parts network =
      let options : OffchainWorkerOptions T = record {
        runtime_api_provider = parts.client;
        is_validator = S.is_authority config.role;
        keystore = some (S.keystore parts.keystore_container);
        offchain_db = parts.backend;
        transaction_pool = some parts.transaction_pool;
        network_provider = network;
        enable_http_requests = true;
      } in
      if config.offchain_worker_enabled
      then (do
        _workers ← perform (offchain_workers_new options) (S.offchain_workers_new options)
        spawn_task parts.task_manager offchain_task)
      else pure tt

  -- The closure `create_inherent_data_providers` of the author, with the system's time.
  unfoldable pub author_inherents :
      T.SlotDuration → T.Timestamp → Result T.ServiceError (T.Slot × T.Timestamp)
  author_inherents duration timestamp =
      ok (S.from_timestamp_and_slot_duration timestamp duration, timestamp)

  -- `if role.is_authority() { … }`
  unfoldable pub start_authoring :
      Configuration T → PartialComponents T → T.SyncService → Action T (Unit {0})
  start_authoring config parts sync_service =
      let factory =
        S.proposer_factory parts.task_manager parts.client parts.transaction_pool
          config.prometheus_registry (handle_of S parts.telemetry) in
      let params : T.SlotDuration → StartAuraParams T = λ duration. record {
        slot_duration = duration;
        client = parts.client;
        select_chain = parts.select_chain;
        block_import = parts.block_import;
        proposer_factory = factory;
        force_authoring = config.force_authoring;
        keystore = S.keystore parts.keystore_container;
        sync_oracle = sync_service;
        justification_sync_link = sync_service;
        block_proposal_slot_portion = (2, 3);
        telemetry = handle_of S parts.telemetry;
      } in
      if S.is_authority config.role
      then (do
        duration ← perform (slot_duration parts.client) (S.slot_duration parts.client)
        _aura ← perform (start_aura (params duration)) (S.start_aura (params duration))
        spawn_task parts.task_manager aura_task)
      else pure tt

  -- What the GRANDPA voter is started with.
  unfoldable pub grandpa_params :
      Configuration T
      → PartialComponents T
      → T.ProtocolName
      → T.NotificationService
      → T.Network
      → T.SyncService
      → GrandpaParams T
  grandpa_params config parts protocol_name notification_service network sync_service = record {
    config = record {
      gossip_duration_millis = 333;
      justification_generation_period = grandpa_justification_period;
      name = some config.node_name;
      observer_enabled = false;
      keystore =
          if S.is_authority config.role then some (S.keystore parts.keystore_container) else none;
      local_role = config.role;
      telemetry = handle_of S parts.telemetry;
      protocol_name = protocol_name;
    };
    link = parts.grandpa_link;
    network = network;
    sync = sync_service;
    notification_service = notification_service;
    prometheus_registry = config.prometheus_registry;
    telemetry = handle_of S parts.telemetry;
    offchain_tx_pool = parts.transaction_pool;
  }

  -- `if enable_grandpa { … }`
  unfoldable pub start_grandpa_voter :
      Configuration T → PartialComponents T → GrandpaParams T → Action T (Unit {0})
  start_grandpa_voter config parts params =
      if not config.disable_grandpa
      then (do
        _voter ← perform (run_grandpa_voter params) (S.run_grandpa_voter params)
        spawn_task parts.task_manager grandpa_task)
      else pure tt

  unfoldable pub new_full : Configuration T → Action T T.TaskManager
  new_full config = do
    parts ← new_partial S config
    let net_config = S.full_network_config config.network config.prometheus_registry
    let metrics = S.register_notification_metrics config.prometheus_registry
    genesis ← expect (S.block_hash parts.client 0) "Genesis block exists; qed"
    let protocol_name = S.protocol_standard_name genesis config.chain_spec
    let (protocol_config, notification_service) =
        S.grandpa_peers_set_config protocol_name metrics net_config
    let network_params : BuildNetworkParams T = record {
      config = config;
      net_config = S.add_notification_protocol protocol_config net_config;
      client = parts.client;
      transaction_pool = parts.transaction_pool;
      task_manager = parts.task_manager;
      import_queue = parts.import_queue;
      warp_sync_config = some (S.warp_sync_provider parts.backend parts.grandpa_link);
      metrics = metrics;
    }
    (network, system_rpc_tx, tx_handler_controller, sync_service) ←
        perform (build_network network_params) (S.build_network network_params)
    start_offchain_workers config parts network
    let tasks_params : SpawnTasksParams T = record {
      network = network;
      client = parts.client;
      keystore = S.keystore parts.keystore_container;
      task_manager = parts.task_manager;
      transaction_pool = parts.transaction_pool;
      rpc_client = parts.client;
      rpc_pool = parts.transaction_pool;
      backend = parts.backend;
      system_rpc_tx = system_rpc_tx;
      tx_handler_controller = tx_handler_controller;
      sync_service = sync_service;
      config = config;
      telemetry = parts.telemetry;
    }
    _rpc_handlers ← perform (spawn_tasks tasks_params) (S.spawn_tasks tasks_params)
    start_authoring config parts sync_service
    start_grandpa_voter config parts
        (grandpa_params config parts protocol_name notification_service network sync_service)
    pure parts.task_manager
