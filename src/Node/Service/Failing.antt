-- ===== src/Node/Service/Failing.antt =====
-- How the service fails: an error of a call ends `new_full` of node/src/service.rs at once, and
-- the only panic is that of a missing genesis block.

use create_chain_substrate_n.Common.{refl, Option, none, some, [], not}
use create_chain_substrate_n.Node.Types.{Types, Configuration, GrandpaParams}
use create_chain_substrate_n.Node.Library.{Library, Trace}
use create_chain_substrate_n.Node.Service.Partial.{
  new_telemetry, spawn_telemetry, new_partial, PartialComponents,
}
use create_chain_substrate_n.Node.Service.Full.{
  start_offchain_workers, start_authoring, start_grandpa_voter, new_full,
}
use create_chain_substrate_n.Node.Service.FailFast.{
  AllSucceeded, IsFailFast, FailsFast, FailsFast-pure, FailsFast-if, FailsFast-spawn_task,
  FailsFast-bind, FailsFast-call, FailsFast-genesis,
}

module _ {T : Types} (S : Library T) (config : Configuration T) where
  new_telemetry-FailsFast :
      (endpoints : Option T.Endpoints) → FailsFast S (new_telemetry S endpoints)
  unfolding new_telemetry
  new_telemetry-FailsFast none = FailsFast-pure none
  new_telemetry-FailsFast (some endpoints) =
      FailsFast-call _ _ _ (λ t. refl) λ worker. FailsFast-pure _

  spawn_telemetry-FailsFast :
      (tasks : T.TaskManager) (started : Option (T.TelemetryWorker × T.Telemetry))
      → FailsFast S (spawn_telemetry S tasks started)
  unfolding spawn_telemetry
  spawn_telemetry-FailsFast tasks none = FailsFast-pure none
  spawn_telemetry-FailsFast tasks (some (worker, telemetry)) =
      FailsFast-bind _ _ (FailsFast-spawn_task _ _) λ _. FailsFast-pure _

  new_partial-FailsFast : FailsFast S (new_partial S config)
  unfolding new_partial
  new_partial-FailsFast = FailsFast-bind _ _ (new_telemetry-FailsFast _) λ started.
      FailsFast-call _ _ _ (λ t. refl)
        λ (client, backend, keystore_container, task_manager).
          FailsFast-bind _ _ (spawn_telemetry-FailsFast task_manager started) λ telemetry.
            FailsFast-call _ _ _ (λ t. refl)
              λ (grandpa_block_import, grandpa_link).
                FailsFast-call _ _ _ (λ t. refl) λ queue. FailsFast-pure _

  start_offchain_workers-FailsFast :
      (parts : PartialComponents T) (network : T.Network)
      → FailsFast S (start_offchain_workers S config parts network)
  unfolding start_offchain_workers
  start_offchain_workers-FailsFast parts network =
      FailsFast-if config.offchain_worker_enabled _ _
        (FailsFast-call _ _ _ (λ t. refl) λ _. FailsFast-spawn_task _ _) (FailsFast-pure tt)

  start_authoring-FailsFast :
      (parts : PartialComponents T) (sync_service : T.SyncService)
      → FailsFast S (start_authoring S config parts sync_service)
  unfolding start_authoring
  start_authoring-FailsFast parts sync_service =
      FailsFast-if (S.is_authority config.role) _ _
        (FailsFast-call _ _ _ (λ t. refl)
          λ _. FailsFast-call _ _ _ (λ t. refl) λ _. FailsFast-spawn_task _ _)
        (FailsFast-pure tt)

  start_grandpa_voter-FailsFast :
      (parts : PartialComponents T) (params : GrandpaParams T)
      → FailsFast S (start_grandpa_voter S config parts params)
  unfolding start_grandpa_voter
  start_grandpa_voter-FailsFast parts params =
      FailsFast-if (not config.disable_grandpa) _ _
        (FailsFast-call _ _ _ (λ t. refl) λ _. FailsFast-spawn_task _ _) (FailsFast-pure tt)

  new_full-FailsFast : FailsFast S (new_full S config)
  unfolding new_full
  new_full-FailsFast = FailsFast-bind _ _ new_partial-FailsFast λ parts.
      FailsFast-genesis _ _ λ genesis.
        FailsFast-call _ _ _ (λ t. refl)
          λ (network, system_rpc_tx, tx_handler_controller, sync_service).
            FailsFast-bind _ _ (start_offchain_workers-FailsFast parts network) λ _.
              FailsFast-call _ _ _ (λ t. refl)
                λ handlers. FailsFast-bind _ _ (start_authoring-FailsFast parts sync_service) λ _.
                  FailsFast-bind _ _ (start_grandpa_voter-FailsFast parts _) λ _. FailsFast-pure _

  -- `new_full` ignores no error: if it returns, every call that it made succeeded; if it ends with
  -- an error, that is the error of the last call that it made, and every call before succeeded; if
  -- it panics, every call succeeded, and the client has no block 0.
  pub new_full_fails_fast : IsFailFast S (new_full S config [])
  new_full_fails_fast = new_full-FailsFast.at [] tt

  -- So does `new_partial`, after any calls that succeeded.
  pub new_partial_fails_fast :
      (t : Trace T) → AllSucceeded S t → IsFailFast S (new_partial S config t)
  new_partial_fails_fast t h = new_partial-FailsFast.at t h
