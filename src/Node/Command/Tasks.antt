-- ===== src/Node/Command/Tasks.antt =====
-- The tasks of the node that `run` of node/src/command.rs starts where there is no subcommand.
use create_chain_substrate_n.Common.{
  ◌≡◌, refl, ◌∙◌, ap, sym, subst, ◌⊎◌, inl, inr, none, List, [], ◌∷◌, ◌++◌, map, Result, ok, err,
  ◌>>=◌, lift, map_err,
}
use create_chain_substrate_n.Runtime.Genesis.{GenesisApi}
use create_chain_substrate_n.Node.Types.{
  Types, Configuration, Task, NetworkBackendType, libp2p, litep2p,
}
use create_chain_substrate_n.Node.Library.{Trace}
use create_chain_substrate_n.Node.Action.{Failure, service, panicked}
use create_chain_substrate_n.Node.ChainSpec.{ChainSpecApi}
use create_chain_substrate_n.Node.Benchmarking.{BenchmarkApi}
use create_chain_substrate_n.Node.Service.Full.{new_full}
use create_chain_substrate_n.Node.Service.Spawning.{planned_tasks, new_full_tasks, spawned, After}
use create_chain_substrate_n.Node.Command.{
  CommandTypes, Cli, RunnerCommand, of_run, create_runner, service_call, until_exit, Stop, failed,
  Log, Command, CommandApi, Build, into_stop, node_with, start_node, run_node, run_choice, run,
}
use create_chain_substrate_n.Node.Command.Steps.{
  IsLawfulRunner, service_calls, service_calls-map, made_runner, ran_node, steps, steps-map,
}
use create_chain_substrate_n.Node.Command.Prompt.{library_of}

module _ {K : CommandTypes} {T : Types} {C : ChainSpecApi} {G : GenesisApi} {B : BenchmarkApi} where
  -- The tasks that were handed over, the first one first.
  abbrev pub handed_over : Log K T C G B → List Task
  handed_over log = spawned (service_calls log)

  -- With a runner made for `cmd`, the node ran, and all of `tasks` were handed over; or the process
  -- failed before, with the first few of them handed over.
  abbrev pub Starts :
      RunnerCommand K → List Task → Result (Stop K) (Unit {0}) × Log K T C G B → Type 0
  Starts cmd tasks (r, log) =
      ((steps log ≡ ran_node ∷ made_runner cmd ∷ []) × (handed_over log ≡ tasks))
      ⊎ ((s : Stop K) × (r ≡ err s)
          × (steps log ≡ made_runner cmd ∷ [])
          × (left : List Task) × (handed_over log ++ left ≡ tasks))

module _ {K : CommandTypes} {T : Types} {C : ChainSpecApi} {G : GenesisApi} {B : BenchmarkApi}
    (R : CommandApi K T C G B) (D : Build K T C G B) (L : IsLawfulRunner R) where
  abbrev exit_with : T.TaskManager → Command K T C G B (Unit {0})
  exit_with tasks t = (L.exit tasks t, until_exit tasks ∷ t)

  -- The log of the calls `t`, behind the runner.
  abbrev log_of : RunnerCommand K → Trace T → Log K T C G B
  log_of cmd t = map service_call t ++ (create_runner cmd ∷ [])

  handed_over-log_of :
      (cmd : RunnerCommand K) (t : Trace T) → handed_over (log_of cmd t) ≡ spawned t
  handed_over-log_of cmd t = ap spawned (service_calls-map t (create_runner cmd ∷ []) refl)

  stop-Starts :
      (cmd : RunnerCommand K) (tasks : List Task) (s : Stop K) (t : Trace T)
      → (made : List Task) × (left : List Task) × (made ++ left ≡ tasks) × (spawned t ≡ made)
      → Starts cmd tasks (err s, log_of cmd t)
  stop-Starts cmd tasks s t (made, left, whole, h) =
      inr (s, refl, steps-map t _, left, rw (handed_over-log_of cmd t, h) whole)

  exit-Starts :
      (cmd : RunnerCommand K) (tasks : List Task) (r : Result (Failure T) T.TaskManager)
      (t : Trace T)
      → After tasks [] (r, t)
      → Starts cmd tasks ((lift (into_stop R D r) >>= exit_with) (log_of cmd t))
  exit-Starts cmd tasks (ok manager) t h =
      inl (ap (λ l. ran_node ∷ l) (steps-map t _), handed_over-log_of cmd t ∙ h)
  exit-Starts cmd tasks (err (service e)) t h = stop-Starts cmd tasks _ t h
  exit-Starts cmd tasks (err (panicked message)) t h = stop-Starts cmd tasks _ t h

  node_with-Starts :
      (cmd : RunnerCommand K) (backend : NetworkBackendType) (config : Configuration T)
      → Starts cmd
          (planned_tasks (library_of D backend) config)
          ((node_with R D backend config >>= exit_with) (create_runner cmd ∷ []))
  node_with-Starts cmd libp2p config =
      let S = D.libp2p_library in
      exit-Starts cmd (planned_tasks S config) (new_full S config []).0 (new_full S config []).1
        (new_full_tasks S config)
  node_with-Starts cmd litep2p config =
      let S = D.litep2p_library in
      exit-Starts cmd (planned_tasks S config) (new_full S config []).0 (new_full S config []).1
        (new_full_tasks S config)

  -- The branch `None`, behind the runner `r`.
  run_node-Starts :
      (options : K.RunCmd) (r : K.Runner)
      → R.create_runner (of_run options) [] ≡ ok r
      → let config = L.configuration r in
        Starts
          (of_run options)
          (planned_tasks (library_of D config.network_backend) config)
          (run_node R D options [])
  run_node-Starts options r made =
      let config = L.configuration r in
      let cmd = of_run options in
      let tasks = planned_tasks (library_of D config.network_backend) config in
      subst
        (λ x. Starts cmd tasks (
          (lift (map_err failed x) >>= λ r. R.run_node_until_exit r (start_node R D))
            (create_runner cmd ∷ [])))
        (sym made)
        (rw (L.run_node_until_exit_lem r (start_node R D) (create_runner cmd ∷ []))
          (node_with-Starts cmd config.network_backend config))

  -- Without a subcommand, once the runner is made: either the node is run, with exactly the tasks
  -- handed over that the runner's configuration asks for, in their order, by the library of the
  -- configured network backend; or the process fails without running it, and has handed over the
  -- first few of them.
  pub run_tasks :
      (cli : Cli K) (r : K.Runner)
      → cli.subcommand ≡ none
      → R.create_runner (of_run cli.run) [] ≡ ok r
      → let config = L.configuration r in
        Starts
          (of_run cli.run)
          (planned_tasks (library_of D config.network_backend) config)
          (run R D cli [])
  unfolding run
  run_tasks cli r no_subcommand made =
      let config = L.configuration r in
      let tasks = planned_tasks (library_of D config.network_backend) config in
      subst (λ s. Starts (of_run cli.run) tasks (run_choice R D cli s [])) (sym no_subcommand)
        (run_node-Starts cli.run r made)
