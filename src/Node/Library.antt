-- ===== src/Node/Library.antt =====
-- The calls of Substrate's client crates that the node makes. A call that can fail, or that has an
-- effect, is an entry of a trace, and its result may depend on all calls made before it; the other
-- functions only make values.
use create_chain_substrate_n.Common.{ℕ, Bool, Option, List, Result}
use create_chain_substrate_n.Node.Types.{
  Types, Configuration, Task, ImportQueueParams, BuildNetworkParams, OffchainWorkerOptions,
  SpawnTasksParams, StartAuraParams, GrandpaParams,
}

pub data LibraryCall (T : Types) : Type 0 where
  telemetry_worker_new : (buffer_size : ℕ) → LibraryCall T
  new_full_parts : Configuration T → Option T.TelemetryHandle → T.WasmExecutor → LibraryCall T
  block_import : T.Client → (period : ℕ) → T.SelectChain → Option T.TelemetryHandle → LibraryCall T
  import_queue : ImportQueueParams T → LibraryCall T
  build_network : BuildNetworkParams T → LibraryCall T
  offchain_workers_new : OffchainWorkerOptions T → LibraryCall T
  spawn_tasks : SpawnTasksParams T → LibraryCall T
  slot_duration : T.Client → LibraryCall T
  start_aura : StartAuraParams T → LibraryCall T
  run_grandpa_voter : GrandpaParams T → LibraryCall T
  spawn : T.TaskManager → Task → LibraryCall T

-- The calls made so far, the last one first.
abbrev pub Trace : Types → Type 0
Trace T = List (LibraryCall T)

-- What a call returns after the calls made so far; the errors are converted by `?` already.
abbrev pub Answer : Types → Type 0 → Type 0
Answer T A = Trace T → Result T.ServiceError A

pub record Library (T : Types) : Type 0 where
  -- the calls
  pub telemetry_worker_new : ℕ → Answer T T.TelemetryWorker
  pub new_full_parts :
      Configuration T
      → Option T.TelemetryHandle
      → T.WasmExecutor
      → Answer T (T.Client × T.Backend × T.KeystoreContainer × T.TaskManager)
  pub block_import :
      T.Client
      → ℕ
      → T.SelectChain
      → Option T.TelemetryHandle
      → Answer T (T.BlockImport × T.LinkHalf)
  pub import_queue : ImportQueueParams T → Answer T T.ImportQueue
  pub build_network :
      BuildNetworkParams T
      → Answer T (T.Network × T.SystemRpcTx × T.TxHandlerController × T.SyncService)
  pub offchain_workers_new : OffchainWorkerOptions T → Answer T T.OffchainWorkers
  pub spawn_tasks : SpawnTasksParams T → Answer T T.RpcHandlers
  pub slot_duration : T.Client → Answer T T.SlotDuration
  pub start_aura : StartAuraParams T → Answer T T.AuraTask
  pub run_grandpa_voter : GrandpaParams T → Answer T T.GrandpaTask
  -- the functions
  pub is_empty : T.Endpoints → Bool
  pub new_telemetry : T.TelemetryWorker → T.Endpoints → T.Telemetry
  pub handle : T.Telemetry → T.TelemetryHandle
  pub new_wasm_executor : T.ExecutorConfig → T.WasmExecutor
  pub longest_chain : T.Backend → T.SelectChain
  pub is_authority : T.Role → Bool
  pub build_pool :
      T.TaskManager → T.Client → Bool → T.PoolOptions → Option T.Registry → T.TransactionPool
  pub slot_duration_at : T.Client → T.Hash → Result T.ServiceError T.SlotDuration
  pub from_timestamp_and_slot_duration : T.Timestamp → T.SlotDuration → T.Slot
  pub full_network_config : T.NetworkConfig → Option T.Registry → T.FullNetworkConfig
  pub register_notification_metrics : Option T.Registry → T.Metrics
  pub block_hash : T.Client → ℕ → Result T.ServiceError (Option T.Hash)
  pub protocol_standard_name : T.Hash → T.ChainSpec → T.ProtocolName
  pub grandpa_peers_set_config :
      T.ProtocolName → T.Metrics → T.FullNetworkConfig → T.ProtocolConfig × T.NotificationService
  pub add_notification_protocol : T.ProtocolConfig → T.FullNetworkConfig → T.FullNetworkConfig
  pub warp_sync_provider : T.Backend → T.LinkHalf → T.WarpSyncProvider
  pub keystore : T.KeystoreContainer → T.Keystore
  pub proposer_factory :
      T.TaskManager
      → T.Client
      → T.TransactionPool
      → Option T.Registry
      → Option T.TelemetryHandle
      → T.ProposerFactory
