-- ===== src/Node/Types.antt =====
-- The values of Substrate's client crates that the node passes from one call to another. The node
-- looks into few of them: a type of other crates is a field of `Types`, and what the node reads of
-- the configuration is a record.
use create_chain_substrate_n.Common.{ℕ, String, Bool, Option}

pub record Types : Type 1 where
  pub ServiceError : Type 0
  pub Endpoints : Type 0
  pub TelemetryWorker : Type 0
  pub Telemetry : Type 0
  pub TelemetryHandle : Type 0
  pub ExecutorConfig : Type 0
  pub WasmExecutor : Type 0
  pub Client : Type 0
  pub Backend : Type 0
  pub KeystoreContainer : Type 0
  pub Keystore : Type 0
  pub TaskManager : Type 0
  pub SelectChain : Type 0
  pub PoolOptions : Type 0
  pub TransactionPool : Type 0
  pub Registry : Type 0
  pub BlockImport : Type 0
  pub LinkHalf : Type 0
  pub ImportQueue : Type 0
  pub Role : Type 0
  pub Hash : Type 0
  pub SlotDuration : Type 0
  pub Timestamp : Type 0
  pub Slot : Type 0
  pub NetworkConfig : Type 0
  pub FullNetworkConfig : Type 0
  pub Metrics : Type 0
  pub ProtocolName : Type 0
  pub ProtocolConfig : Type 0
  pub NotificationService : Type 0
  pub WarpSyncProvider : Type 0
  pub Network : Type 0
  pub SystemRpcTx : Type 0
  pub TxHandlerController : Type 0
  pub SyncService : Type 0
  pub OffchainWorkers : Type 0
  pub RpcModule : Type 0
  pub RpcHandlers : Type 0
  pub ProposerFactory : Type 0
  pub AuraTask : Type 0
  pub GrandpaTask : Type 0
  pub ChainSpec : Type 0
  pub Database : Type 0

-- `sc_network::config::NetworkBackendType`, matched by the node.
pub data NetworkBackendType : Type 0 where
  libp2p litep2p : NetworkBackendType

-- The fields of `sc_service::Configuration` that the node reads.
pub record Configuration (T : Types) : Type 0 where
  pub telemetry_endpoints : Option T.Endpoints
  pub executor : T.ExecutorConfig
  pub role : T.Role
  pub transaction_pool : T.PoolOptions
  pub prometheus_registry : Option T.Registry
  pub network : T.NetworkConfig
  pub network_backend : NetworkBackendType
  pub node_name : String
  pub chain_spec : T.ChainSpec
  pub database : T.Database
  pub offchain_worker_enabled : Bool
  pub force_authoring : Bool
  pub disable_grandpa : Bool

-- A task that is handed to the task manager: its name, its group, whether the node goes down with
-- it, and whether it may block its thread.
pub record Task : Type 0 where
  pub name : String
  pub group : Option String
  pub essential : Bool
  pub blocking : Bool

module _ (T : Types) where
  open T use {
    Client, Backend, BlockImport, SelectChain, Registry, Keystore, TaskManager, TelemetryHandle,
  }

  -- `sc_consensus_aura::ImportQueueParams`; its inherent data come of the closure
  -- `import_inherents`, and what is given by `Default` is left out.
  pub record ImportQueueParams : Type 0 where
    pub block_import : BlockImport
    pub justification_import : Option BlockImport
    pub client : Client
    pub spawner : TaskManager
    pub registry : Option Registry
    pub telemetry : Option TelemetryHandle

  -- `sc_service::BuildNetworkParams`; the fields given as `None` are left out.
  pub record BuildNetworkParams : Type 0 where
    pub config : Configuration T
    pub net_config : T.FullNetworkConfig
    pub client : Client
    pub transaction_pool : T.TransactionPool
    pub task_manager : TaskManager
    pub import_queue : T.ImportQueue
    pub warp_sync_config : Option T.WarpSyncProvider
    pub metrics : T.Metrics

  -- `sc_offchain::OffchainWorkerOptions`
  pub record OffchainWorkerOptions : Type 0 where
    pub runtime_api_provider : Client
    pub is_validator : Bool
    pub keystore : Option Keystore
    pub offchain_db : Backend
    pub transaction_pool : Option T.TransactionPool
    pub network_provider : T.Network
    pub enable_http_requests : Bool

  -- `sc_service::SpawnTasksParams`; `rpc_client` and `rpc_pool` are what the closure
  -- `rpc_builder` holds, and `tracing_execute_block: None` is left out.
  pub record SpawnTasksParams : Type 0 where
    pub network : T.Network
    pub client : Client
    pub keystore : Keystore
    pub task_manager : TaskManager
    pub transaction_pool : T.TransactionPool
    pub rpc_client : Client
    pub rpc_pool : T.TransactionPool
    pub backend : Backend
    pub system_rpc_tx : T.SystemRpcTx
    pub tx_handler_controller : T.TxHandlerController
    pub sync_service : T.SyncService
    pub config : Configuration T
    pub telemetry : Option T.Telemetry

  -- `sc_consensus_aura::StartAuraParams`; the slot portion is a fraction, its inherent data come
  -- of the closure `author_inherents`, and what is `None` or given by `Default` is left out.
  pub record StartAuraParams : Type 0 where
    pub slot_duration : T.SlotDuration
    pub client : Client
    pub select_chain : SelectChain
    pub block_import : BlockImport
    pub proposer_factory : T.ProposerFactory
    pub force_authoring : Bool
    pub keystore : Keystore
    pub sync_oracle : T.SyncService
    pub justification_sync_link : T.SyncService
    pub block_proposal_slot_portion : ℕ × ℕ
    pub telemetry : Option TelemetryHandle

  -- `sc_consensus_grandpa::Config` within `GrandpaParams`.
  pub record GrandpaConfig : Type 0 where
    pub gossip_duration_millis : ℕ
    pub justification_generation_period : ℕ
    pub name : Option String
    pub observer_enabled : Bool
    pub keystore : Option Keystore
    pub local_role : T.Role
    pub telemetry : Option TelemetryHandle
    pub protocol_name : T.ProtocolName

  -- `sc_consensus_grandpa::GrandpaParams`; the voting rule and the shared voter state are the
  -- default ones, and left out.
  pub record GrandpaParams : Type 0 where
    pub config : GrandpaConfig
    pub link : T.LinkHalf
    pub network : T.Network
    pub sync : T.SyncService
    pub notification_service : T.NotificationService
    pub prometheus_registry : Option Registry
    pub telemetry : Option TelemetryHandle
    pub offchain_tx_pool : T.TransactionPool
