-- ===== src/Node/Command/Steps.antt =====
-- What `run` of node/src/command.rs does, in steps: the runner, the calls of the service, the
-- command or the node. The runner's documented behaviour.
use create_chain_substrate_n.Common.{
  Bool, true, false, if◌then◌else◌, ◌≡◌, refl, ap, ◌⊎◌, inl, Option, none, some, List, [], ◌∷◌,
  ◌++◌, map, Result, ok, err, ◌>>=◌,
}
use create_chain_substrate_n.Runtime.Genesis.{GenesisApi}
use create_chain_substrate_n.Node.Types.{Types, Configuration}
use create_chain_substrate_n.Node.Library.{Trace}
use create_chain_substrate_n.Node.ChainSpec.{ChainSpecApi}
use create_chain_substrate_n.Node.Benchmarking.{BenchmarkApi}
use create_chain_substrate_n.Node.Command.{
  CommandTypes, pallet, block, storage, overhead, extrinsic, machine, Subcommand, key, build_spec,
  export_chain_spec, check_block, export_blocks, export_state, import_blocks, purge_chain, revert,
  benchmark, chain_info, RunnerCommand, of_subcommand, of_run, CommandRun, run_key, run_build_spec,
  run_check_block, run_export_chain_spec, run_export_blocks, run_export_state, run_import_blocks,
  run_purge_chain, run_revert, run_pallet, run_block, run_storage, run_overhead, run_extrinsic,
  run_machine, run_chain_info, create_runner, service_call, run_command, block_on, until_exit, Stop,
  Log, Command, CommandApi,
}

-- A runner made for a command, a command run, or the node run.
pub data Step (K : CommandTypes) : Type 0 where
  made_runner : RunnerCommand K → Step K
  ran : Subcommand K → Step K
  ran_node : Step K

-- The documented behaviour of a runner: it runs a closure at its configuration, and then what the
-- closure gives: a future to its end, or the node until it exits.
pub record IsLawfulRunner {K : CommandTypes} {T : Types} {C : ChainSpecApi} {G : GenesisApi}
    {B : BenchmarkApi} (R : CommandApi K T C G B) : Type 0 where
  pub configuration : K.Runner → Configuration T
  pub await : CommandRun K T C G B → T.TaskManager → Log K T C G B → Result (Stop K) (Unit {0})
  pub exit : T.TaskManager → Log K T C G B → Result (Stop K) (Unit {0})
  pub sync_run_lem :
      (r : K.Runner) (f : Configuration T → Command K T C G B (Unit {0})) (log : Log K T C G B)
      → R.sync_run r f log ≡ f (configuration r) log
  pub async_run_lem :
      (r : K.Runner)
      (f : Configuration T → Command K T C G B (CommandRun K T C G B × T.TaskManager))
      (log : Log K T C G B)
      → R.async_run r f log
        ≡ (f (configuration r) >>= λ x t. (await x.0 x.1 t, block_on x.0 x.1 ∷ t)) log
  pub run_node_until_exit_lem :
      (r : K.Runner) (f : Configuration T → Command K T C G B T.TaskManager) (log : Log K T C G B)
      → R.run_node_until_exit r f log
        ≡ (f (configuration r) >>= λ tasks t. (exit tasks t, until_exit tasks ∷ t)) log

module _ {K : CommandTypes} {T : Types} {C : ChainSpecApi} {G : GenesisApi} {B : BenchmarkApi} where
  -- The subcommand that a command belongs to.
  abbrev pub subcommand_of : CommandRun K T C G B → Subcommand K
  subcommand_of (run_key cmd _) = key cmd
  subcommand_of (run_build_spec cmd _ _) = build_spec cmd
  subcommand_of (run_check_block cmd _ _) = check_block cmd
  subcommand_of (run_export_chain_spec cmd _) = export_chain_spec cmd
  subcommand_of (run_export_blocks cmd _ _) = export_blocks cmd
  subcommand_of (run_export_state cmd _ _) = export_state cmd
  subcommand_of (run_import_blocks cmd _ _) = import_blocks cmd
  subcommand_of (run_purge_chain cmd _) = purge_chain cmd
  subcommand_of (run_revert cmd _ _ _) = revert cmd
  subcommand_of (run_pallet cmd _) = benchmark (pallet cmd)
  subcommand_of (run_block cmd _) = benchmark (block cmd)
  subcommand_of (run_storage cmd _ _ _ _ _) = benchmark (storage cmd)
  subcommand_of (run_overhead cmd _ _ _ _) = benchmark (overhead cmd)
  subcommand_of (run_extrinsic cmd _ _ _) = benchmark (extrinsic cmd)
  subcommand_of (run_machine cmd _) = benchmark (machine cmd)
  subcommand_of (run_chain_info cmd _) = chain_info cmd

  -- What was done, the last first, without the calls of the service.
  abbrev pub steps : Log K T C G B → List (Step K)
  steps [] = []
  steps (create_runner cmd ∷ log) = made_runner cmd ∷ steps log
  steps (service_call _ ∷ log) = steps log
  steps (run_command c ∷ log) = ran (subcommand_of c) ∷ steps log
  steps (block_on c _ ∷ log) = ran (subcommand_of c) ∷ steps log
  steps (until_exit _ ∷ log) = ran_node ∷ steps log

  -- The calls of the service, the last first.
  abbrev pub service_calls : Log K T C G B → Trace T
  service_calls [] = []
  service_calls (service_call c ∷ log) = c ∷ service_calls log
  service_calls (create_runner _ ∷ log) = service_calls log
  service_calls (run_command _ ∷ log) = service_calls log
  service_calls (block_on _ _ ∷ log) = service_calls log
  service_calls (until_exit _ ∷ log) = service_calls log

  pub steps-map :
      (t : Trace T) (log : Log K T C G B) → steps (map service_call t ++ log) ≡ steps log
  steps-map [] log = refl
  steps-map (c ∷ t) log = steps-map t log

  pub service_calls-map :
      (t : Trace T) (log : Log K T C G B)
      → service_calls log ≡ []
      → service_calls (map service_call t ++ log) ≡ t
  service_calls-map [] log e = e
  service_calls-map (c ∷ t) log e = ap (λ l. c ∷ l) (service_calls-map t log e)

  -- After `before`, code that returned had done one more thing, `last`; code that failed had done
  -- it too, or nothing.
  abbrev pub Ends :
      {A : Type 0} → Step K → List (Step K) → Result (Stop K) A × Log K T C G B → Type 0
  Ends last before (ok _, log) = steps log ≡ last ∷ before
  Ends last before (err _, log) = (steps log ≡ last ∷ before) ⊎ (steps log ≡ before)

  pub Ends-did :
      {A : Type 0} (last : Step K) (before : List (Step K)) (r : Result (Stop K) A)
      (log : Log K T C G B)
      → steps log ≡ last ∷ before
      → Ends last before (r, log)
  Ends-did last before (ok a) log h = h
  Ends-did last before (err e) log h = inl h

abbrev pub last_step : {K : CommandTypes} → Option (Subcommand K) → Step K
last_step none = ran_node
last_step (some cmd) = ran cmd

-- Only `key` and `export-chain-spec` have no runner.
abbrev pub has_runner : {K : CommandTypes} → Subcommand K → Bool
has_runner (key _) = false
has_runner (export_chain_spec _) = false
has_runner _ = true

abbrev pub first_steps : {K : CommandTypes} → K.RunCmd → Option (Subcommand K) → List (Step K)
first_steps options none = made_runner (of_run options) ∷ []
first_steps options (some cmd) = if has_runner cmd then made_runner (of_subcommand cmd) ∷ [] else []
