-- ===== src/Node/Command/Tests.antt =====
-- A concrete command line, whose commands all succeed, and the theorems at it.
use create_chain_substrate_n.Common.{
  ℕ, ◌≡◌, refl, ok, err, none, some, [], ◌∷◌, false, String, ◌>>=◌,
}
use create_chain_substrate_n.Runtime.Sample.{keys}
use create_chain_substrate_n.Node.Types.{Configuration}
use create_chain_substrate_n.Node.Tests.{specs, bench}
use create_chain_substrate_n.Node.Service.Tests.{toy, working, validator}
use create_chain_substrate_n.Node.Command.{
  CommandTypes, CommandApi, Build, Cli, of_run, storage, benchmark, check_block, run, block_on,
  until_exit, failed, run_benchmark,
}
use create_chain_substrate_n.Node.Command.Steps.{
  IsLawfulRunner, Ends, last_step, first_steps, service_calls,
}
use create_chain_substrate_n.Node.Command.Running.{run-Ends}
use create_chain_substrate_n.Node.Command.Clients.{run_without_client}
use create_chain_substrate_n.Node.Command.Prompt.{IsPrompt}
use create_chain_substrate_n.Node.Command.Failing.{UsesLibrary, run_fails_fast}
use create_chain_substrate_n.Node.Library.{Library}
use create_chain_substrate_n.Node.Command.Tasks.{Starts, run_tasks}
use create_chain_substrate_n.Node.Service.Spawning.{planned_tasks}

-- A command is a number, and an error is a text.
abbrev commands : CommandTypes
commands = record {
  KeySubcommand = ℕ;
  BuildSpecCmd = ℕ;
  ExportChainSpecCmd = ℕ;
  CheckBlockCmd = ℕ;
  ExportBlocksCmd = ℕ;
  ExportStateCmd = ℕ;
  ImportBlocksCmd = ℕ;
  PurgeChainCmd = ℕ;
  RevertCmd = ℕ;
  ChainInfoCmd = ℕ;
  RunCmd = ℕ;
  PalletCmd = ℕ;
  BlockCmd = ℕ;
  StorageCmd = ℕ;
  OverheadCmd = ℕ;
  ExtrinsicCmd = ℕ;
  MachineCmd = ℕ;
  Runner = Configuration toy;
  Error = String;
  Db = ℕ;
  Storage = ℕ;
  SharedTrieCache = ℕ;
}

-- A runner is its configuration; a command reads the chain `dev`.
abbrev runners : CommandApi commands toy specs keys bench
runners = record {
  from_string = λ s. s;
  from_service = λ e. e;
  create_runner = λ cmd log. ok validator;
  sync_run = λ r f. f r;
  async_run = λ r f. f r >>= λ x t. (ok tt, block_on x.0 x.1 ∷ t);
  run_node_until_exit = λ r f. f r >>= λ tasks t. (ok tt, until_exit tasks ∷ t);
  run_command = λ cmd log. ok tt;
  chain = λ cmd. "dev";
  spec_name = λ spec. "Development";
  grandpa_revert = λ client blocks. ok tt;
  expose_db = λ backend. backend;
  expose_storage = λ backend. backend;
  expose_shared_trie_cache = λ backend. backend;
}

abbrev runners-IsLawful : IsLawfulRunner runners
runners-IsLawful = record {
  configuration = λ r. r;
  await = λ cmd tasks log. ok tt;
  exit = λ tasks log. ok tt;
  sync_run_lem = λ r f log. refl;
  async_run_lem = λ r f log. refl;
  run_node_until_exit_lem = λ r f log. refl;
}

-- A build without the feature `runtime-benchmarks`.
abbrev plain : Build commands toy specs keys bench
plain = record {
  wasm_binary = some 0;
  runtime_benchmarks = false;
  library = working;
  libp2p_library = working;
  litep2p_library = working;
}

abbrev checking : Cli commands
checking = record { subcommand = some (check_block 5); run = 0 }

abbrev measuring : Cli commands
measuring = record { subcommand = some (benchmark (storage 5)); run = 0 }

-- Without the feature the benchmark of the storage is refused.
measuring_refused :
    (run runners plain measuring []).0
    ≡ err (failed "Storage benchmarking can be enabled with `--features runtime-benchmarks`.")
unfolding run run_benchmark
measuring_refused = refl

run-Ends_example :
    Ends
      (last_step checking.subcommand)
      (first_steps 0 checking.subcommand)
      (run runners plain checking [])
run-Ends_example = run-Ends runners plain runners-IsLawful checking

run_without_client_example : service_calls (run runners plain measuring []).1 ≡ []
run_without_client_example = run_without_client runners plain runners-IsLawful measuring refl

run_fails_fast_example :
    (S : Library toy) × UsesLibrary runners plain runners-IsLawful measuring.subcommand S
    × IsPrompt runners plain runners-IsLawful S (run runners plain measuring [])
run_fails_fast_example = run_fails_fast runners plain runners-IsLawful measuring

abbrev starting : Cli commands
starting = record { subcommand = none; run = 0 }

run_tasks_example :
    Starts (of_run 0) (planned_tasks working validator) (run runners plain starting [])
run_tasks_example = run_tasks runners plain runners-IsLawful starting validator refl refl
