-- ===== src/Node/Service/Sequence.antt =====
-- The calls of the client crates that `new_full` of node/src/service.rs makes, in their order.
use create_chain_substrate_n.Common.{Option, none, some, List, [], ◌∷◌, ◌++◌, not, if◌then◌else◌}
use create_chain_substrate_n.Node.Types.{Types, Configuration, GrandpaParams}
use create_chain_substrate_n.Node.Library.{Library}
use create_chain_substrate_n.Node.Action.{Action, bind_assoc, pure-bind, ◌>>=◌}
use create_chain_substrate_n.Node.Service.Partial.{
  telemetry_task, not_empty, new_telemetry, spawn_telemetry, new_partial, PartialComponents,
}
use create_chain_substrate_n.Node.Service.Full.{
  offchain_task, aura_task, grandpa_task, start_offchain_workers, start_authoring,
  start_grandpa_voter, new_full,
}
use create_chain_substrate_n.Node.Service.Progress.{
  Kind, makes_telemetry_worker, makes_parts, makes_block_import, makes_import_queue, makes_network,
  makes_offchain_workers, spawns_rpc_tasks, reads_slot_duration, makes_author, makes_voter, spawns,
  AfterCalls, Makes, Makes-pure, Makes-call, Makes-bind, Makes-last, Makes-expect, Makes-if,
  Makes-spawn_task,
}

-- The calls that a worker for the telemetry takes, and its task.
abbrev worker_calls {ℓ} : {A : Type ℓ} → Option A → List Kind
worker_calls none = []
worker_calls (some _) = makes_telemetry_worker ∷ []

abbrev telemetry_calls {ℓ} : {A : Type ℓ} → Option A → List Kind
telemetry_calls none = []
telemetry_calls (some _) = spawns telemetry_task ∷ []

-- The calls of `new_partial` behind that worker, and all of them.
abbrev parts_calls {ℓ} : {A : Type ℓ} → Option A → List Kind
parts_calls started =
    makes_parts ∷ (telemetry_calls started ++ (makes_block_import ∷ makes_import_queue ∷ []))

abbrev partial_calls {ℓ} : {A : Type ℓ} → Option A → List Kind
partial_calls endpoints = worker_calls endpoints ++ parts_calls endpoints

module _ {T : Types} (S : Library T) where
  abbrev offchain_calls : Configuration T → List Kind
  offchain_calls config =
      if config.offchain_worker_enabled
      then makes_offchain_workers ∷ spawns offchain_task ∷ []
      else []

  abbrev author_calls : Configuration T → List Kind
  author_calls config =
      if S.is_authority config.role
      then reads_slot_duration ∷ makes_author ∷ spawns aura_task ∷ []
      else []

  abbrev voter_calls : Configuration T → List Kind
  voter_calls config =
      if not config.disable_grandpa then makes_voter ∷ spawns grandpa_task ∷ [] else []

  -- The calls that a configuration asks for, in their order.
  abbrev pub planned_calls : Configuration T → List Kind
  planned_calls config =
      partial_calls (not_empty S config.telemetry_endpoints)
      ++ (makes_network
          ∷ (offchain_calls config
              ++ (spawns_rpc_tasks ∷ (author_calls config ++ voter_calls config))))

  spawn_telemetry-Makes :
      (tasks : T.TaskManager) (started : Option (T.TelemetryWorker × T.Telemetry))
      → Makes (spawn_telemetry S tasks started) (telemetry_calls started)
  unfolding spawn_telemetry
  spawn_telemetry-Makes tasks none = Makes-pure none
  spawn_telemetry-Makes tasks (some (worker, telemetry)) =
      Makes-last _ _ (Makes-spawn_task tasks telemetry_task) (λ _. Makes-pure _)

  -- The worker is there exactly if there are endpoints.
  new_telemetry-Makes :
      {B : Type 0} (endpoints : Option T.Endpoints)
      (f : Option (T.TelemetryWorker × T.Telemetry) → Action T B)
      → ((started : Option (T.TelemetryWorker × T.Telemetry))
          → Makes (f started) (parts_calls started))
      → Makes (new_telemetry S endpoints >>= f) (partial_calls endpoints)
  unfolding new_telemetry
  new_telemetry-Makes none f k = rw pure-bind (k none)
  new_telemetry-Makes (some endpoints) f k =
      rw bind_assoc (Makes-call _ _ _ λ worker. rw pure-bind (k (some _)))

  new_partial-Makes :
      (config : Configuration T)
      → Makes (new_partial S config) (partial_calls (not_empty S config.telemetry_endpoints))
  unfolding new_partial
  new_partial-Makes config = new_telemetry-Makes _ _ λ started.
      Makes-call _ _ _ λ (client, backend, keystore_container, task_manager).
        Makes-bind _ _ (spawn_telemetry-Makes task_manager started) λ telemetry.
          Makes-call _ _ _
            λ (grandpa_block_import, grandpa_link). Makes-call _ _ _ λ queue. Makes-pure _

  start_offchain_workers-Makes :
      (config : Configuration T) (parts : PartialComponents T) (network : T.Network)
      → Makes (start_offchain_workers S config parts network) (offchain_calls config)
  unfolding start_offchain_workers
  start_offchain_workers-Makes config parts network =
      Makes-if config.offchain_worker_enabled _ _
        (Makes-call _ _ _ λ _. Makes-spawn_task _ offchain_task) (Makes-pure tt)

  start_authoring-Makes :
      (config : Configuration T) (parts : PartialComponents T) (sync_service : T.SyncService)
      → Makes (start_authoring S config parts sync_service) (author_calls config)
  unfolding start_authoring
  start_authoring-Makes config parts sync_service =
      Makes-if (S.is_authority config.role) _ _
        (Makes-call _ _ _ λ _. Makes-call _ _ _ λ _. Makes-spawn_task _ aura_task) (Makes-pure tt)

  start_grandpa_voter-Makes :
      (config : Configuration T) (parts : PartialComponents T) (params : GrandpaParams T)
      → Makes (start_grandpa_voter S config parts params) (voter_calls config)
  unfolding start_grandpa_voter
  start_grandpa_voter-Makes config parts params =
      Makes-if (not config.disable_grandpa) _ _
        (Makes-call _ _ _ λ _. Makes-spawn_task _ grandpa_task) (Makes-pure tt)

  new_full-Makes : (config : Configuration T) → Makes (new_full S config) (planned_calls config)
  unfolding new_full
  new_full-Makes config = Makes-bind _ _ (new_partial-Makes config) λ parts.
      Makes-expect _ _ _ λ genesis.
        Makes-call _ _ _ λ (network, system_rpc_tx, tx_handler_controller, sync_service).
          Makes-bind _ _ (start_offchain_workers-Makes config parts network) λ _.
            Makes-call _ _ _ λ handlers.
              Makes-bind _ _ (start_authoring-Makes config parts sync_service)
                λ _. Makes-last _ _ (start_grandpa_voter-Makes config parts _) λ _. Makes-pure _

  -- From no calls at all: if `new_full` returns, it has made exactly the calls that the
  -- configuration asks for, in that order: the telemetry's worker if there are endpoints, the parts
  -- of the client, the telemetry's task, the block import and its queue; the network; the off-chain
  -- workers if they are enabled; the RPC tasks; the slot duration and the author if the role is an
  -- authority; and the GRANDPA voter unless it is disabled. If it fails at any point, it has made
  -- the first few of them.
  pub new_full_sequence :
      (config : Configuration T) → AfterCalls (planned_calls config) [] (new_full S config [])
  new_full_sequence config = (new_full-Makes config).at []
