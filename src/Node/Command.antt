-- ===== src/Node/Command.antt =====
-- `run` of node/src/command.rs: one branch for each subcommand, over the runner of sc_cli.
mod CommandLine
pub mod Steps
pub mod Cases
pub mod Running
pub mod Clients
pub mod Prompt
pub mod Errors
pub mod Failing
pub mod Tasks
pub mod Description
mod Tests
unfoldable pub use CommandLine.*
use create_chain_substrate_n.Common.{
  ℕ, ◌≡◌, Bool, Option, none, some, List, [], ◌∷◌, ◌++◌, map, Result, ok, err, String, map_err,
  Effect, pure, fail, lift, ◌>>=◌, ◌>>◌, if◌then◌else◌, not,
}
use create_chain_substrate_n.Runtime.{existential_deposit}
use create_chain_substrate_n.Runtime.Genesis.{GenesisApi}
use create_chain_substrate_n.Node.Types.{Types, Configuration, NetworkBackendType, libp2p, litep2p}
use create_chain_substrate_n.Node.Library.{Library}
use create_chain_substrate_n.Node.Action.{Action, Failure, service, panicked}
use create_chain_substrate_n.Node.ChainSpec.{ChainSpecApi, load_spec}
use create_chain_substrate_n.Node.Benchmarking.{BenchmarkApi, inherent_benchmark_data}
use create_chain_substrate_n.Node.Benchmarking.Builders.{
  ExtrinsicBuilder, remark_builder, transfer_keep_alive_builder,
}
use create_chain_substrate_n.Node.Service.Partial.{PartialComponents, new_partial}
use create_chain_substrate_n.Node.Service.Full.{new_full}

-- The errors of the node's own where a feature is missing.
abbrev pub pallet_refusal : String
pallet_refusal =
    "Runtime benchmarking wasn't enabled when building the node. You can enable it with `--features runtime-benchmarks`."

abbrev pub storage_refusal : String
storage_refusal = "Storage benchmarking can be enabled with `--features runtime-benchmarks`."

-- How code of the command line ends that does not return.
pub data Stop (K : CommandTypes) : Type 0 where
  failed : K.Error → Stop K
  stopped : String → Stop K

module _ (K : CommandTypes) (T : Types) (C : ChainSpecApi) (G : GenesisApi) (B : BenchmarkApi) where
  -- What the process did so far, the last first.
  abbrev pub Log : Type 0
  Log = List (CommandCall K T C G B)

  abbrev pub Command : Type 0 → Type 0
  Command A = Effect Log (Stop K) A

  -- What the file uses of sc_cli and of the commands. A result may depend on all that was done.
  pub record CommandApi : Type 0 where
    pub from_string : String → K.Error
    pub from_service : T.ServiceError → K.Error
    pub create_runner : RunnerCommand K → Log → Result K.Error K.Runner
    pub sync_run : K.Runner → (Configuration T → Command (Unit {0})) → Command (Unit {0})
    pub async_run :
        K.Runner
        → (Configuration T → Command (CommandRun K T C G B × T.TaskManager))
        → Command (Unit {0})
    pub run_node_until_exit :
        K.Runner → (Configuration T → Command T.TaskManager) → Command (Unit {0})
    pub run_command : CommandRun K T C G B → Log → Result K.Error (Unit {0})
    pub chain : K.ExportChainSpecCmd → String
    pub spec_name : T.ChainSpec → String
    pub grandpa_revert : T.Client → ℕ → Result T.ServiceError (Unit {0})
    pub expose_db : T.Backend → K.Db
    pub expose_storage : T.Backend → K.Storage
    pub expose_shared_trie_cache : T.Backend → K.SharedTrieCache

  -- What the build and the machine give: the runtime's code, the feature `runtime-benchmarks`, and
  -- the client crates, with those of each network backend.
  pub record Build : Type 0 where
    pub wasm_binary : Option C.Code
    pub runtime_benchmarks : Bool
    pub library : Library T
    pub libp2p_library : Library T
    pub litep2p_library : Library T

module _ {K : CommandTypes} {T : Types} {C : ChainSpecApi} {G : GenesisApi} {B : BenchmarkApi}
    (R : CommandApi K T C G B) (D : Build K T C G B) where
  -- `cli.create_runner(cmd)?`
  abbrev pub new_runner : RunnerCommand K → Command K T C G B K.Runner
  new_runner cmd log = (map_err failed (R.create_runner cmd log), create_runner cmd ∷ log)

  -- `cmd.run(…)`, where it is not a future.
  abbrev pub run_now : CommandRun K T C G B → Command K T C G B (Unit {0})
  run_now cmd log = (map_err failed (R.run_command cmd log), run_command cmd ∷ log)

  abbrev pub into_stop : {A : Type 0} → Result (Failure T) A → Result (Stop K) A
  into_stop (ok a) = ok a
  into_stop (err (service e)) = err (failed (R.from_service e))
  into_stop (err (panicked message)) = err (stopped message)

  -- Code of the service, whose first calls these are: a process runs such code once.
  abbrev pub from_service : {A : Type 0} → Action T A → Command K T C G B A
  from_service m log = (into_stop (m []).0, map service_call (m []).1 ++ log)

  abbrev pub partial : Configuration T → Command K T C G B (PartialComponents T)
  partial config = from_service (new_partial D.library config)

  -- A runner that runs a closure at its configuration.
  abbrev pub sync :
      Subcommand K → (Configuration T → Command K T C G B (Unit {0})) → Command K T C G B (Unit {0})
  sync cmd closure = do runner ← new_runner (of_subcommand cmd); R.sync_run runner closure

  -- The closure that builds a client, and gives a future made of its parts.
  abbrev pub with_client :
      (Configuration T → PartialComponents T → CommandRun K T C G B)
      → Configuration T
      → Command K T C G B (CommandRun K T C G B × T.TaskManager)
  with_client future config = do
    parts ← partial config
    pure (future config parts, parts.task_manager)

  -- A runner that runs such a closure.
  abbrev pub async :
      Subcommand K
      → (Configuration T → PartialComponents T → CommandRun K T C G B)
      → Command K T C G B (Unit {0})
  async cmd future = do
    runner ← new_runner (of_subcommand cmd)
    R.async_run runner (with_client future)

  -- `inherent_benchmark_data()?`
  abbrev pub inherents : Command K T C G B B.InherentData
  inherents = lift (map_err (λ e. failed (R.from_string e)) (inherent_benchmark_data B))

  -- The *Remark* and *TKA* builders.
  abbrev pub extrinsic_builders : T.Client → List (ExtrinsicBuilder T.Client G.AccountId)
  extrinsic_builders client =
      remark_builder client
      ∷ transfer_keep_alive_builder client (G.to_account_id G.alice) existential_deposit
      ∷ []

  -- The match on the benchmarks. `cfg!` and `#[cfg]` test the feature of the build.
  unfoldable pub run_benchmark : BenchmarkCmd K → Configuration T → Command K T C G B (Unit {0})
  run_benchmark (pallet cmd) config =
      if not D.runtime_benchmarks
      then fail (failed (R.from_string pallet_refusal))
      else run_now (run_pallet cmd (some config.chain_spec))
  run_benchmark (block cmd) config = do parts ← partial config; run_now (run_block cmd parts.client)
  run_benchmark (storage cmd) config =
      if not D.runtime_benchmarks then fail (failed (R.from_string storage_refusal)) else (do
        parts ← partial config
        run_now (
            run_storage cmd config parts.client (R.expose_db parts.backend)
              (R.expose_storage parts.backend) (R.expose_shared_trie_cache parts.backend)))
  run_benchmark (overhead cmd) config = do
    parts ← partial config
    inherent_data ← inherents
    run_now (
        run_overhead cmd (R.spec_name config.chain_spec) parts.client inherent_data
          (remark_builder parts.client))
  run_benchmark (extrinsic cmd) config = do
    parts ← partial config
    inherent_data ← inherents
    run_now (run_extrinsic cmd parts.client inherent_data (extrinsic_builders parts.client))
  run_benchmark (machine cmd) config = run_now (run_machine cmd config)

  -- The match on the subcommand, `None` apart.
  unfoldable pub run_subcommand : Cli K → Subcommand K → Command K T C G B (Unit {0})
  unfolding run_benchmark
  run_subcommand cli (key cmd) = run_now (run_key cmd cli)
  run_subcommand cli (build_spec cmd) =
      sync (build_spec cmd) λ config. run_now (run_build_spec cmd config.chain_spec config.network)
  run_subcommand cli (check_block cmd) =
      async (check_block cmd) λ config parts. run_check_block cmd parts.client parts.import_queue
  run_subcommand cli (export_chain_spec cmd) = do
    chain_spec ←
        lift (map_err (λ e. failed (R.from_string e)) (load_spec C D.wasm_binary G (R.chain cmd)))
    run_now (run_export_chain_spec cmd chain_spec)
  run_subcommand cli (export_blocks cmd) =
      async (export_blocks cmd) λ config parts. run_export_blocks cmd parts.client config.database
  run_subcommand cli (export_state cmd) =
      async (export_state cmd) λ config parts. run_export_state cmd parts.client config.chain_spec
  run_subcommand cli (import_blocks cmd) =
      async (import_blocks cmd)
        λ config parts. run_import_blocks cmd parts.client parts.import_queue
  run_subcommand cli (purge_chain cmd) =
      sync (purge_chain cmd) λ config. run_now (run_purge_chain cmd config.database)
  run_subcommand cli (revert cmd) =
      async (revert cmd)
        λ config parts. run_revert cmd parts.client parts.backend (some R.grandpa_revert)
  run_subcommand cli (benchmark cmd) = sync (benchmark cmd) (run_benchmark cmd)
  run_subcommand cli (chain_info cmd) =
      sync (chain_info cmd) λ config. run_now (run_chain_info cmd config)

  -- The match on the network backend.
  abbrev pub node_with : NetworkBackendType → Configuration T → Command K T C G B T.TaskManager
  node_with libp2p config = from_service (new_full D.libp2p_library config)
  node_with litep2p config = from_service (new_full D.litep2p_library config)

  -- The closure of the branch `None`.
  abbrev pub start_node : Configuration T → Command K T C G B T.TaskManager
  start_node config = node_with config.network_backend config

  -- The branch `None`.
  abbrev pub run_node : K.RunCmd → Command K T C G B (Unit {0})
  run_node options = do
    runner ← new_runner (of_run options)
    R.run_node_until_exit runner start_node

  -- The match on the subcommand.
  abbrev pub run_choice : Cli K → Option (Subcommand K) → Command K T C G B (Unit {0})
  run_choice cli none = run_node cli.run
  run_choice cli (some cmd) = run_subcommand cli cmd

  -- `run`, behind `Cli::from_args`.
  unfoldable pub run : Cli K → Command K T C G B (Unit {0})
  unfolding run_subcommand
  run cli = run_choice cli cli.subcommand
