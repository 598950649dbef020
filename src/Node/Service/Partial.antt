-- ===== src/Node/Service/Partial.antt =====
-- `new_partial` of node/src/service.rs.
use create_chain_substrate_n.Common.{ℕ, Result, ok, err, Option, none, some, false, if◌then◌else◌}
use create_chain_substrate_n.Node.Types.{Types, Configuration, Task, ImportQueueParams}
use create_chain_substrate_n.Node.Library.{
  Library, telemetry_worker_new, new_full_parts, block_import, import_queue,
}
use create_chain_substrate_n.Node.Action.{Action, pure, perform, spawn_task, ◌>>=◌, ◌>>◌}

abbrev pub grandpa_justification_period : ℕ
grandpa_justification_period = 512

-- `sc_service::PartialComponents`, with the tuple `other` by its parts.
pub record PartialComponents (T : Types) : Type 0 where
  pub client : T.Client
  pub backend : T.Backend
  pub task_manager : T.TaskManager
  pub import_queue : T.ImportQueue
  pub keystore_container : T.KeystoreContainer
  pub select_chain : T.SelectChain
  pub transaction_pool : T.TransactionPool
  pub block_import : T.BlockImport
  pub grandpa_link : T.LinkHalf
  pub telemetry : Option T.Telemetry

abbrev pub telemetry_task : Task
telemetry_task = record { name = "telemetry"; group = none; essential = false; blocking = false }

module _ {T : Types} (S : Library T) where
  -- `.filter(|x| !x.is_empty())`
  abbrev pub not_empty : Option T.Endpoints → Option T.Endpoints
  not_empty none = none
  not_empty (some endpoints) = if S.is_empty endpoints then none else some endpoints

  -- `.map(…).transpose()?`
  unfoldable pub new_telemetry :
      Option T.Endpoints → Action T (Option (T.TelemetryWorker × T.Telemetry))
  new_telemetry none = pure none
  new_telemetry (some endpoints) = do
    worker ← perform (telemetry_worker_new 16) (S.telemetry_worker_new 16)
    pure (some (worker, S.new_telemetry worker endpoints))

  -- `telemetry.as_ref().map(|x| x.handle())`
  abbrev pub handle_of : Option T.Telemetry → Option T.TelemetryHandle
  handle_of none = none
  handle_of (some telemetry) = some (S.handle telemetry)

  abbrev pub telemetry_of : Option (T.TelemetryWorker × T.Telemetry) → Option T.Telemetry
  telemetry_of none = none
  telemetry_of (some (_, telemetry)) = some telemetry

  -- `telemetry.map(|(worker, telemetry)| { … })`
  unfoldable pub spawn_telemetry :
      T.TaskManager → Option (T.TelemetryWorker × T.Telemetry) → Action T (Option T.Telemetry)
  spawn_telemetry tasks none = pure none
  spawn_telemetry tasks (some (worker, telemetry)) = do
    spawn_task tasks telemetry_task
    pure (some telemetry)

  -- The closure `create_inherent_data_providers` of the import queue, with the system's time.
  unfoldable pub import_inherents :
      T.Client → T.Timestamp → T.Hash → Result T.ServiceError (T.Slot × T.Timestamp)
  import_inherents client timestamp parent_hash = elim (S.slot_duration_at client parent_hash) [
    | ok duration ↦ ok (S.from_timestamp_and_slot_duration timestamp duration, timestamp)
    | err e ↦ err e
  ]

  unfoldable pub new_partial : Configuration T → Action T (PartialComponents T)
  new_partial config = do
    started ← new_telemetry (not_empty config.telemetry_endpoints)
    let executor = S.new_wasm_executor config.executor
    let first_handle = handle_of (telemetry_of started)
    (client, backend, keystore_container, task_manager) ←
        perform (new_full_parts config first_handle executor)
          (S.new_full_parts config first_handle executor)
    telemetry ← spawn_telemetry task_manager started
    let select_chain = S.longest_chain backend
    let transaction_pool =
        S.build_pool task_manager client (S.is_authority config.role) config.transaction_pool
          config.prometheus_registry
    (grandpa_block_import, grandpa_link) ←
        perform
          (block_import client grandpa_justification_period select_chain (handle_of telemetry))
          (S.block_import client grandpa_justification_period select_chain (handle_of telemetry))
    let params : ImportQueueParams T = record {
      block_import = grandpa_block_import;
      justification_import = some grandpa_block_import;
      client = client;
      spawner = task_manager;
      registry = config.prometheus_registry;
      telemetry = handle_of telemetry;
    }
    queue ← perform (import_queue params) (S.import_queue params)
    pure (record {
      client = client;
      backend = backend;
      task_manager = task_manager;
      import_queue = queue;
      keystore_container = keystore_container;
      select_chain = select_chain;
      transaction_pool = transaction_pool;
      block_import = grandpa_block_import;
      grandpa_link = grandpa_link;
      telemetry = telemetry;
    })
