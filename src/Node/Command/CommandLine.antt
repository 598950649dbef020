-- ===== src/Node/Command/CommandLine.antt =====
-- The command line of node/src/cli.rs, over the commands of sc_cli and frame_benchmarking_cli, and
-- what node/src/command.rs gives the commands that it runs.
use create_chain_substrate_n.Common.{ℕ, Option, List, Result, String}
use create_chain_substrate_n.Node.Types.{Types, Configuration}
use create_chain_substrate_n.Node.Library.{LibraryCall}
use create_chain_substrate_n.Node.ChainSpec.{ChainSpecApi}
use create_chain_substrate_n.Node.Benchmarking.{BenchmarkApi}
use create_chain_substrate_n.Node.Benchmarking.Builders.{ExtrinsicBuilder}
use create_chain_substrate_n.Runtime.Genesis.{GenesisApi}

-- The types of other crates.
pub record CommandTypes : Type 1 where
  pub KeySubcommand : Type 0
  pub BuildSpecCmd : Type 0
  pub ExportChainSpecCmd : Type 0
  pub CheckBlockCmd : Type 0
  pub ExportBlocksCmd : Type 0
  pub ExportStateCmd : Type 0
  pub ImportBlocksCmd : Type 0
  pub PurgeChainCmd : Type 0
  pub RevertCmd : Type 0
  pub ChainInfoCmd : Type 0
  pub RunCmd : Type 0
  pub PalletCmd : Type 0
  pub BlockCmd : Type 0
  pub StorageCmd : Type 0
  pub OverheadCmd : Type 0
  pub ExtrinsicCmd : Type 0
  pub MachineCmd : Type 0
  pub Runner : Type 0
  pub Error : Type 0
  pub Db : Type 0
  pub Storage : Type 0
  pub SharedTrieCache : Type 0

-- `frame_benchmarking_cli::BenchmarkCmd`, by the variants that are matched.
pub data BenchmarkCmd (K : CommandTypes) : Type 0 where
  pallet : K.PalletCmd → BenchmarkCmd K
  block : K.BlockCmd → BenchmarkCmd K
  storage : K.StorageCmd → BenchmarkCmd K
  overhead : K.OverheadCmd → BenchmarkCmd K
  extrinsic : K.ExtrinsicCmd → BenchmarkCmd K
  machine : K.MachineCmd → BenchmarkCmd K

pub data Subcommand (K : CommandTypes) : Type 0 where
  key : K.KeySubcommand → Subcommand K
  build_spec : K.BuildSpecCmd → Subcommand K
  export_chain_spec : K.ExportChainSpecCmd → Subcommand K
  check_block : K.CheckBlockCmd → Subcommand K
  export_blocks : K.ExportBlocksCmd → Subcommand K
  export_state : K.ExportStateCmd → Subcommand K
  import_blocks : K.ImportBlocksCmd → Subcommand K
  purge_chain : K.PurgeChainCmd → Subcommand K
  revert : K.RevertCmd → Subcommand K
  benchmark : BenchmarkCmd K → Subcommand K
  chain_info : K.ChainInfoCmd → Subcommand K

pub record Cli (K : CommandTypes) : Type 0 where
  pub subcommand : Option (Subcommand K)
  pub run : K.RunCmd

-- What `create_runner` is given: a command, in the variant that it is an argument of, or the
-- options of a run of the node.
pub data RunnerCommand (K : CommandTypes) : Type 0 where
  of_subcommand : Subcommand K → RunnerCommand K
  of_run : K.RunCmd → RunnerCommand K

module _ (K : CommandTypes) (T : Types) (C : ChainSpecApi) (G : GenesisApi) (B : BenchmarkApi) where
  -- `cmd.run(…)` and `cmd.run_with_spec(…)`, by the command and its arguments. What is a constant
  -- of another crate, empty or `false` is left out.
  pub data CommandRun : Type 0 where
    run_key : K.KeySubcommand → Cli K → CommandRun
    run_build_spec : K.BuildSpecCmd → T.ChainSpec → T.NetworkConfig → CommandRun
    run_check_block : K.CheckBlockCmd → T.Client → T.ImportQueue → CommandRun
    run_export_chain_spec : K.ExportChainSpecCmd → C.ChainSpec → CommandRun
    run_export_blocks : K.ExportBlocksCmd → T.Client → T.Database → CommandRun
    run_export_state : K.ExportStateCmd → T.Client → T.ChainSpec → CommandRun
    run_import_blocks : K.ImportBlocksCmd → T.Client → T.ImportQueue → CommandRun
    run_purge_chain : K.PurgeChainCmd → T.Database → CommandRun
    run_revert :
        K.RevertCmd
        → T.Client
        → T.Backend
        → Option (T.Client → ℕ → Result T.ServiceError (Unit {0}))
        → CommandRun
    run_pallet : K.PalletCmd → Option T.ChainSpec → CommandRun
    run_block : K.BlockCmd → T.Client → CommandRun
    run_storage :
        K.StorageCmd
        → Configuration T
        → T.Client
        → K.Db
        → K.Storage
        → K.SharedTrieCache
        → CommandRun
    run_overhead :
        K.OverheadCmd
        → String
        → T.Client
        → B.InherentData
        → ExtrinsicBuilder T.Client G.AccountId
        → CommandRun
    run_extrinsic :
        K.ExtrinsicCmd
        → T.Client
        → B.InherentData
        → List (ExtrinsicBuilder T.Client G.AccountId)
        → CommandRun
    run_machine : K.MachineCmd → Configuration T → CommandRun
    run_chain_info : K.ChainInfoCmd → Configuration T → CommandRun

  -- What the process does: it makes a runner, makes calls of the service, runs a command, runs the
  -- future of a command with a task manager, or runs the node until it exits.
  pub data CommandCall : Type 0 where
    create_runner : RunnerCommand K → CommandCall
    service_call : LibraryCall T → CommandCall
    run_command : CommandRun → CommandCall
    block_on : CommandRun → T.TaskManager → CommandCall
    until_exit : T.TaskManager → CommandCall
