-- ===== src/Node/Service/Calls.antt =====
-- What every call that the service makes satisfies, on every path through `new_partial` and
-- `new_full` of node/src/service.rs.
use create_chain_substrate_n.Common.{
  ◌≡◌, refl, Result, ok, err, Option, none, some, [], ◌∷◌, not, Bool, true, false, All, String,
  arith, if◌then◌else◌,
}
use create_chain_substrate_n.Node.Types.{Types, Configuration, Task}
use create_chain_substrate_n.Node.Library.{
  LibraryCall, Library, Trace, Answer, spawn, telemetry_worker_new, block_import,
  offchain_workers_new, slot_duration, start_aura, run_grandpa_voter,
}
use create_chain_substrate_n.Node.Action.{
  Failure, Action, pure, perform, expect, spawn_task, continue, ◌>>=◌,
}
use create_chain_substrate_n.Node.Service.Partial.{
  grandpa_justification_period, new_telemetry, spawn_telemetry, new_partial, PartialComponents,
}
use create_chain_substrate_n.Node.Service.Full.{
  grandpa_params, start_offchain_workers, start_authoring, start_grandpa_voter, new_full,
}

-- Every call that `m` makes satisfies `P`.
record Makes {T : Types} {A : Type 0} (P : LibraryCall T → Type 0) (m : Action T A) : Type 0 where
  at : (t : Trace T) → All P t → All P (m t).1

module _ {T : Types} {P : LibraryCall T → Type 0} {A : Type 0} where
  Makes-pure : (a : A) → Makes P (pure a)
  unfolding pure
  Makes-pure a = record { at = λ t h. h }

  Makes-if :
      (b : Bool) (m n : Action T A)
      → (b ≡ true → Makes P m)
      → Makes P n
      → Makes P (if b then m else n)
  Makes-if true m n h k = h refl
  Makes-if false m n h k = k

module _ {T : Types} {P : LibraryCall T → Type 0} where
  Makes-spawn_task :
      (tasks : T.TaskManager) (task : Task)
      → P (spawn tasks task)
      → Makes P (spawn_task {T = T} tasks task)
  unfolding spawn_task
  Makes-spawn_task tasks task p = record { at = λ t h. (p, h) }

module _ {T : Types} {P : LibraryCall T → Type 0} {A B : Type 0} where
  Makes-continue :
      (f : A → Action T B) (r : Result (Failure T) A) (t : Trace T)
      → ((a : A) → Makes P (f a))
      → All P t
      → All P (continue r f t).1
  Makes-continue f (ok a) t k h = (k a).at t h
  Makes-continue f (err e) t k h = h

  Makes-bind :
      (m : Action T A) (f : A → Action T B)
      → Makes P m
      → ((a : A) → Makes P (f a))
      → Makes P (m >>= f)
  unfolding ◌>>=◌
  Makes-bind m f h k = record { at = λ t p. Makes-continue f (m t).0 (m t).1 k (h.at t p) }

  Makes-call :
      (c : LibraryCall T) (answer : Answer T A) (f : A → Action T B)
      → P c
      → ((a : A) → Makes P (f a))
      → Makes P (perform c answer >>= f)
  unfolding ◌>>=◌
  Makes-call c answer f p k = record { at = λ t h. Makes-continue f _ (c ∷ t) k (p, h) }

  Makes-expect :
      {E : Type 0} (r : Result E (Option A)) (message : String) (f : A → Action T B)
      → ((a : A) → Makes P (f a))
      → Makes P (expect r message >>= f)
  unfolding ◌>>=◌
  Makes-expect (ok (some a)) message f k = k a
  Makes-expect (ok none) message f k = record { at = λ t h. h }
  Makes-expect (err _) message f k = record { at = λ t h. h }

abbrev pub is_some : {A : Type 0} → Option A → Bool
is_some none = false
is_some (some _) = true

module _ {T : Types} (S : Library T) (config : Configuration T) where
  -- What a configuration allows: off-chain workers if they are enabled; slots and an author if the
  -- role is an authority; a GRANDPA voter unless it is disabled, with the key store exactly if the
  -- role is an authority, with the configured role and name, and with the period of the block import.
  abbrev pub IsAllowed : LibraryCall T → Type 0
  IsAllowed (telemetry_worker_new size) = size ≡ 16
  IsAllowed (block_import client period chain telemetry) = period ≡ grandpa_justification_period
  IsAllowed (offchain_workers_new options) =
      (config.offchain_worker_enabled ≡ true) × (options.is_validator ≡ S.is_authority config.role)
  IsAllowed (slot_duration client) = S.is_authority config.role ≡ true
  IsAllowed (start_aura params) =
      (S.is_authority config.role ≡ true) × (params.force_authoring ≡ config.force_authoring)
  IsAllowed (run_grandpa_voter params) =
      (config.disable_grandpa ≡ false)
      × (params.config.justification_generation_period ≡ grandpa_justification_period)
      × (is_some params.config.keystore ≡ S.is_authority config.role)
      × (params.config.local_role ≡ config.role)
      × (params.config.name ≡ some config.node_name)
  IsAllowed _ = Unit

  new_telemetry-Makes :
      (endpoints : Option T.Endpoints) → Makes IsAllowed (new_telemetry S endpoints)
  unfolding new_telemetry
  new_telemetry-Makes none = Makes-pure none
  new_telemetry-Makes (some endpoints) = Makes-call _ _ _ refl λ worker. Makes-pure _

  spawn_telemetry-Makes :
      (tasks : T.TaskManager) (started : Option (T.TelemetryWorker × T.Telemetry))
      → Makes IsAllowed (spawn_telemetry S tasks started)
  unfolding spawn_telemetry
  spawn_telemetry-Makes tasks none = Makes-pure none
  spawn_telemetry-Makes tasks (some (worker, telemetry)) =
      Makes-bind _ _ (Makes-spawn_task _ _ tt) λ _. Makes-pure _

  new_partial-Makes : Makes IsAllowed (new_partial S config)
  unfolding new_partial
  new_partial-Makes = Makes-bind _ _ (new_telemetry-Makes _) λ started.
      Makes-call _ _ _ tt λ (client, backend, keystore_container, task_manager).
        Makes-bind _ _ (spawn_telemetry-Makes task_manager started) λ telemetry.
          Makes-call _ _ _ refl
            λ (grandpa_block_import, grandpa_link). Makes-call _ _ _ tt λ queue. Makes-pure _

  start_offchain_workers-Makes :
      (parts : PartialComponents T) (network : T.Network)
      → Makes IsAllowed (start_offchain_workers S config parts network)
  unfolding start_offchain_workers
  start_offchain_workers-Makes parts network =
      Makes-if config.offchain_worker_enabled _ _
        (λ enabled. Makes-call _ _ _ (enabled, refl) λ _. Makes-spawn_task _ _ tt) (Makes-pure tt)

  start_authoring-Makes :
      (parts : PartialComponents T) (sync_service : T.SyncService)
      → Makes IsAllowed (start_authoring S config parts sync_service)
  unfolding start_authoring
  start_authoring-Makes parts sync_service =
      Makes-if (S.is_authority config.role) _ _
        (λ authority.
          Makes-call _ _ _ authority
            λ _. Makes-call _ _ _ (authority, refl) λ _. Makes-spawn_task _ _ tt)
        (Makes-pure tt)

  keystore-is_some : (b : Bool) (k : T.Keystore) → is_some (if b then some k else none) ≡ b
  keystore-is_some true k = refl
  keystore-is_some false k = refl

  start_grandpa_voter-Makes :
      (parts : PartialComponents T) (protocol_name : T.ProtocolName)
      (notifications : T.NotificationService) (network : T.Network) (sync_service : T.SyncService)
      → Makes IsAllowed (
          start_grandpa_voter S config parts
            (grandpa_params S config parts protocol_name notifications network sync_service))
  unfolding start_grandpa_voter grandpa_params
  start_grandpa_voter-Makes parts protocol_name notifications network sync_service =
      Makes-if (not config.disable_grandpa) _ _
        (λ enabled.
          Makes-call _ _ _
            (ground arith, refl, keystore-is_some (S.is_authority config.role) _, refl, refl)
            λ _. Makes-spawn_task _ _ tt)
        (Makes-pure tt)

  new_full-Makes : Makes IsAllowed (new_full S config)
  unfolding new_full
  new_full-Makes = Makes-bind _ _ new_partial-Makes λ parts. Makes-expect _ _ _ λ genesis.
      Makes-call _ _ _ tt λ (network, system_rpc_tx, tx_handler_controller, sync_service).
        Makes-bind _ _ (start_offchain_workers-Makes parts network) λ _.
          Makes-call _ _ _ tt λ handlers.
            Makes-bind _ _ (start_authoring-Makes parts sync_service) λ _.
              Makes-bind _ _ (start_grandpa_voter-Makes parts _ _ network sync_service)
                λ _. Makes-pure _

  -- Whether `new_full` returns or fails, every call that it made is allowed by the configuration:
  -- off-chain workers are built only if enabled; the slot duration is read and the author started
  -- only for an authority; the GRANDPA voter is run only if not disabled, with the key store
  -- exactly if the role is an authority, and with the justification period that the block import
  -- was given.
  pub new_full_calls : All IsAllowed (new_full S config []).1
  new_full_calls = new_full-Makes.at [] tt
