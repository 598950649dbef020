-- ===== src/Node/Command/Running.antt =====
-- Which command `run` of node/src/command.rs runs.
use create_chain_substrate_n.Common.{
  ◌≡◌, refl, inl, inr, none, some, [], ◌∷◌, ◌++◌, map, subst, Bool-cases, map_err, ◌>>=◌,
}
use create_chain_substrate_n.Runtime.Genesis.{GenesisApi}
use create_chain_substrate_n.Node.Types.{Types, Configuration, libp2p, litep2p}
use create_chain_substrate_n.Node.ChainSpec.{ChainSpecApi, load_spec}
use create_chain_substrate_n.Node.Benchmarking.{BenchmarkApi, inherent_benchmark_data}
use create_chain_substrate_n.Node.Action.{Action}
use create_chain_substrate_n.Node.Service.Partial.{PartialComponents, new_partial}
use create_chain_substrate_n.Node.Service.Full.{new_full}
use create_chain_substrate_n.Node.Command.{
  CommandTypes, BenchmarkCmd, pallet, block, storage, overhead, extrinsic, machine, Subcommand, key,
  build_spec, export_chain_spec, check_block, export_blocks, export_state, import_blocks,
  purge_chain, revert, benchmark, chain_info, Cli, of_subcommand, of_run, CommandRun, run_key,
  run_build_spec, run_check_block, run_export_chain_spec, run_export_blocks, run_export_state,
  run_import_blocks, run_purge_chain, run_revert, run_pallet, run_block, run_storage, run_overhead,
  run_extrinsic, run_machine, run_chain_info, create_runner, service_call, run_command, until_exit,
  failed, Log, Command, CommandApi, Build, run_now, from_service, partial, sync, async,
  run_benchmark, run_subcommand, node_with, start_node, run_node, run_choice, run, inherents,
  extrinsic_builders,
}
use create_chain_substrate_n.Node.Benchmarking.Builders.{remark_builder}
use create_chain_substrate_n.Node.Command.Steps.{
  Step, made_runner, ran, ran_node, IsLawfulRunner, subcommand_of, steps, steps-map, Ends, Ends-did,
  last_step, first_steps,
}
use create_chain_substrate_n.Node.Command.Cases.{
  lift-at, runner-at, from_service-at, sync-at, async-at,
}

module _ {K : CommandTypes} {T : Types} {C : ChainSpecApi} {G : GenesisApi} {B : BenchmarkApi}
    (R : CommandApi K T C G B) (D : Build K T C G B) (L : IsLawfulRunner R) where
  sync-Ends :
      (cmd : Subcommand K) (f : Configuration T → Command K T C G B (Unit {0}))
      → ((config : Configuration T)
          → Ends
              (ran cmd)
              (made_runner (of_subcommand cmd) ∷ [])
              (f config (create_runner (of_subcommand cmd) ∷ [])))
      → Ends (ran cmd) (made_runner (of_subcommand cmd) ∷ []) (sync R D cmd f [])
  sync-Ends cmd f h =
      sync-at R D L (Ends (ran cmd) (made_runner (of_subcommand cmd) ∷ [])) cmd f (λ s. inr refl) h

  async-Ends :
      (cmd : Subcommand K) (future : Configuration T → PartialComponents T → CommandRun K T C G B)
      → ((config : Configuration T) (parts : PartialComponents T)
          → subcommand_of (future config parts) ≡ cmd)
      → Ends (ran cmd) (made_runner (of_subcommand cmd) ∷ []) (async R D cmd future [])
  async-Ends cmd future h =
      async-at R D L (Ends (ran cmd) (made_runner (of_subcommand cmd) ∷ [])) cmd future
        (λ s t. inr (steps-map t _))
        λ config parts t x.
          Ends-did _ _ x _
            (rw (h config parts, steps-map t (create_runner (of_subcommand cmd) ∷ [])) refl)

  -- Code behind code of the service, which is no step.
  from_service-Ends :
      {A : Type 0} (last : Step K) (m : Action T A) (k : A → Command K T C G B (Unit {0}))
      (log : Log K T C G B)
      → ((a : A) (log' : Log K T C G B) → Ends last (steps log') (k a log'))
      → Ends last (steps log) ((from_service R D m >>= k) log)
  from_service-Ends last m k log h =
      from_service-at R D (Ends last (steps log)) m k log (λ s t. inr (steps-map t log))
        λ a t.
          subst (λ before. Ends last before (k a (map service_call t ++ log))) (steps-map t log)
            (h a _)

  run_now-Ends :
      (c : CommandRun K T C G B) (log : Log K T C G B)
      → Ends (ran (subcommand_of c)) (steps log) (run_now R D c log)
  run_now-Ends c log =
      Ends-did (ran (subcommand_of c)) (steps log) (map_err failed (R.run_command c log))
        (run_command c ∷ log) refl

  -- A command that is given a client.
  client-Ends :
      (last : Step K) (config : Configuration T) (c : PartialComponents T → CommandRun K T C G B)
      (log : Log K T C G B)
      → ((parts : PartialComponents T) → ran (subcommand_of (c parts)) ≡ last)
      → Ends last (steps log) ((partial R D config >>= λ parts. run_now R D (c parts)) log)
  client-Ends last config c log h =
      from_service-Ends last (new_partial D.library config) (λ parts. run_now R D (c parts)) log
        λ parts log'.
          subst (λ l. Ends l (steps log') (run_now R D (c parts) log')) (h parts)
            (run_now-Ends (c parts) log')

  -- A command that is given a client and the inherent data.
  inherents-Ends :
      (last : Step K) (config : Configuration T)
      (c : PartialComponents T → B.InherentData → CommandRun K T C G B) (log : Log K T C G B)
      → ((parts : PartialComponents T) (i : B.InherentData)
          → ran (subcommand_of (c parts i)) ≡ last)
      → Ends last
          (steps log)
          ((partial R D config >>= λ parts. inherents R D >>= λ i. run_now R D (c parts i)) log)
  inherents-Ends last config c log h =
      from_service-Ends last (new_partial D.library config)
        (λ parts. inherents R D >>= λ i. run_now R D (c parts i)) log
        λ parts log'.
          lift-at R D (Ends last (steps log'))
            (map_err (λ e. failed (R.from_string e)) (inherent_benchmark_data B))
            (λ i. run_now R D (c parts i)) log' (λ s. inr refl)
            λ i.
              subst (λ l. Ends l (steps log') (run_now R D (c parts i) log')) (h parts i)
                (run_now-Ends (c parts i) log')

  -- A benchmark is run once, or not at all, whatever was done before.
  run_benchmark-Ends :
      (cmd : BenchmarkCmd K) (config : Configuration T) (log : Log K T C G B)
      → Ends (ran (benchmark cmd)) (steps log) (run_benchmark R D cmd config log)
  unfolding run_benchmark
  run_benchmark-Ends (pallet cmd) config log = elim (Bool-cases D.runtime_benchmarks) [
    | inl e ↦ rw e (run_now-Ends (run_pallet cmd (some config.chain_spec)) log)
    | inr e ↦ rw e (inr refl)
  ]
  run_benchmark-Ends (block cmd) config log =
      client-Ends (ran (benchmark (block cmd))) config (λ parts. run_block cmd parts.client) log
        λ parts. refl
  run_benchmark-Ends (storage cmd) config log = elim (Bool-cases D.runtime_benchmarks) [
    | inl e ↦ rw e (
        client-Ends (ran (benchmark (storage cmd))) config
          (λ parts.
            run_storage cmd config parts.client (R.expose_db parts.backend)
              (R.expose_storage parts.backend) (R.expose_shared_trie_cache parts.backend))
          log λ parts. refl)
    | inr e ↦ rw e (inr refl)
  ]
  run_benchmark-Ends (overhead cmd) config log =
      inherents-Ends (ran (benchmark (overhead cmd))) config
        (λ parts i.
          run_overhead cmd (R.spec_name config.chain_spec) parts.client i
            (remark_builder parts.client))
        log λ parts i. refl
  run_benchmark-Ends (extrinsic cmd) config log =
      inherents-Ends (ran (benchmark (extrinsic cmd))) config
        (λ parts i. run_extrinsic cmd parts.client i (extrinsic_builders R D parts.client)) log
        λ parts i. refl
  run_benchmark-Ends (machine cmd) config log = run_now-Ends (run_machine cmd config) log

  run_subcommand-Ends :
      (cli : Cli K) (cmd : Subcommand K)
      → Ends (ran cmd) (first_steps cli.run (some cmd)) (run_subcommand R D cli cmd [])
  unfolding run_subcommand
  run_subcommand-Ends cli (key cmd) = run_now-Ends (run_key cmd cli) []
  run_subcommand-Ends cli (build_spec cmd) =
      sync-Ends (build_spec cmd)
        (λ config. run_now R D (run_build_spec cmd config.chain_spec config.network))
        λ config. run_now-Ends (run_build_spec cmd config.chain_spec config.network) _
  run_subcommand-Ends cli (export_chain_spec cmd) =
      lift-at R D (Ends (ran (export_chain_spec cmd)) [])
        (map_err (λ e. failed (R.from_string e)) (load_spec C D.wasm_binary G (R.chain cmd)))
        (λ spec. run_now R D (run_export_chain_spec cmd spec)) [] (λ s. inr refl)
        λ spec. run_now-Ends (run_export_chain_spec cmd spec) []
  run_subcommand-Ends cli (check_block cmd) =
      async-Ends (check_block cmd)
        (λ config parts. run_check_block cmd parts.client parts.import_queue) λ config parts. refl
  run_subcommand-Ends cli (export_blocks cmd) =
      async-Ends (export_blocks cmd)
        (λ config parts. run_export_blocks cmd parts.client config.database) λ config parts. refl
  run_subcommand-Ends cli (export_state cmd) =
      async-Ends (export_state cmd)
        (λ config parts. run_export_state cmd parts.client config.chain_spec) λ config parts. refl
  run_subcommand-Ends cli (import_blocks cmd) =
      async-Ends (import_blocks cmd)
        (λ config parts. run_import_blocks cmd parts.client parts.import_queue) λ config parts. refl
  run_subcommand-Ends cli (purge_chain cmd) =
      sync-Ends (purge_chain cmd) (λ config. run_now R D (run_purge_chain cmd config.database))
        λ config. run_now-Ends (run_purge_chain cmd config.database) _
  run_subcommand-Ends cli (revert cmd) =
      async-Ends (revert cmd)
        (λ config parts. run_revert cmd parts.client parts.backend (some R.grandpa_revert))
        λ config parts. refl
  run_subcommand-Ends cli (benchmark cmd) =
      sync-Ends (benchmark cmd) (run_benchmark R D cmd) λ config. run_benchmark-Ends cmd config _
  run_subcommand-Ends cli (chain_info cmd) =
      sync-Ends (chain_info cmd) (λ config. run_now R D (run_chain_info cmd config))
        λ config. run_now-Ends (run_chain_info cmd config) _

  until_exit-Ends :
      (m : Action T T.TaskManager) (log : Log K T C G B)
      → Ends ran_node
          (steps log)
          ((from_service R D m >>= λ tasks t. (L.exit tasks t, until_exit tasks ∷ t)) log)
  until_exit-Ends m log =
      from_service-Ends ran_node m (λ tasks t. (L.exit tasks t, until_exit tasks ∷ t)) log
        λ tasks log'.
          Ends-did ran_node (steps log') (L.exit tasks log') (until_exit tasks ∷ log') refl

  start_node-Ends :
      (config : Configuration T) (log : Log K T C G B)
      → Ends ran_node
          (steps log)
          ((start_node R D config >>= λ tasks t. (L.exit tasks t, until_exit tasks ∷ t)) log)
  start_node-Ends config log =
      elim config.network_backend
        as (λ b.
          Ends ran_node (steps log)
            ((node_with R D b config >>= λ tasks t. (L.exit tasks t, until_exit tasks ∷ t)) log)) [
              | libp2p ↦ until_exit-Ends (new_full D.libp2p_library config) log
              | litep2p ↦ until_exit-Ends (new_full D.litep2p_library config) log
            ]

  run_node-Ends :
      (options : K.RunCmd)
      → Ends ran_node (made_runner (of_run options) ∷ []) (run_node R D options [])
  run_node-Ends options =
      runner-at R D (Ends ran_node (made_runner (of_run options) ∷ [])) (of_run options)
        (λ r. R.run_node_until_exit r (start_node R D)) (λ s. inr refl)
        λ r.
          rw (L.run_node_until_exit_lem r (start_node R D) (create_runner (of_run options) ∷ []))
            (start_node-Ends (L.configuration r) (create_runner (of_run options) ∷ []))

  -- If `run` returns, it has made the runner for the command on the command line, except for `key`
  -- and `export-chain-spec`, and then run that command once and no other, or the node if there is
  -- no subcommand. If it fails, it has done the same, or it has run no command and no node, and has
  -- only asked for that runner.
  pub run-Ends :
      (cli : Cli K)
      → Ends (last_step cli.subcommand) (first_steps cli.run cli.subcommand) (run R D cli [])
  unfolding run
  run-Ends cli =
      elim cli.subcommand
        as (λ s. Ends (last_step s) (first_steps cli.run s) (run_choice R D cli s [])) [
          | none ↦ run_node-Ends cli.run
          | some cmd ↦ run_subcommand-Ends cli cmd
        ]
