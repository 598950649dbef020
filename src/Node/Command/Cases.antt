-- ===== src/Node/Command/Cases.antt =====
-- Splits on the results that the branches of `run` in node/src/command.rs depend on.
use create_chain_substrate_n.Common.{[], ◌∷◌, ◌++◌, map, Result, ok, err, pure, ◌>>=◌, lift}
use create_chain_substrate_n.Runtime.Genesis.{GenesisApi}
use create_chain_substrate_n.Node.Types.{Types, Configuration}
use create_chain_substrate_n.Node.Library.{Trace}
use create_chain_substrate_n.Node.ChainSpec.{ChainSpecApi}
use create_chain_substrate_n.Node.Benchmarking.{BenchmarkApi}
use create_chain_substrate_n.Node.Action.{Action}
use create_chain_substrate_n.Node.Service.Partial.{PartialComponents, new_partial}
use create_chain_substrate_n.Node.Command.{
  CommandTypes, Subcommand, RunnerCommand, of_subcommand, CommandRun, create_runner, service_call,
  block_on, Stop, Log, Command, CommandApi, Build, new_runner, into_stop, from_service, with_client,
  sync, async,
}
use create_chain_substrate_n.Node.Command.Steps.{IsLawfulRunner}

module _ {K : CommandTypes} {T : Types} {C : ChainSpecApi} {G : GenesisApi} {B : BenchmarkApi}
    (R : CommandApi K T C G B) (D : Build K T C G B) where
  -- Code behind a result that may be an error.
  pub lift-at :
      {A X : Type 0} (P : Result (Stop K) X × Log K T C G B → Type 0) (r : Result (Stop K) A)
      (k : A → Command K T C G B X) (log : Log K T C G B)
      → ((s : Stop K) → P (err s, log))
      → ((a : A) → P (k a log))
      → P ((lift r >>= k) log)
  lift-at P (ok a) k log stop go = go a
  lift-at P (err e) k log stop go = stop e

  -- Code behind a runner, whether the runner is made or not.
  pub runner-at :
      (P : Result (Stop K) (Unit {0}) × Log K T C G B → Type 0) (cmd : RunnerCommand K)
      (k : K.Runner → Command K T C G B (Unit {0}))
      → ((s : Stop K) → P (err s, create_runner cmd ∷ []))
      → ((r : K.Runner) → P (k r (create_runner cmd ∷ [])))
      → P ((new_runner R D cmd >>= k) [])
  runner-at P cmd k stop go = lift-at P _ k _ stop go

  -- Code behind code of the service, whether that returns or not.
  pub from_service-at :
      {A X : Type 0} (P : Result (Stop K) X × Log K T C G B → Type 0) (m : Action T A)
      (k : A → Command K T C G B X) (log : Log K T C G B)
      → ((s : Stop K) (t : Trace T) → P (err s, map service_call t ++ log))
      → ((a : A) (t : Trace T) → P (k a (map service_call t ++ log)))
      → P ((from_service R D m >>= k) log)
  from_service-at P m k log stop go =
      lift-at P (into_stop R D (m []).0) k (map service_call (m []).1 ++ log) (λ s. stop s (m []).1)
        λ a. go a (m []).1

  module _ (L : IsLawfulRunner R) where
    -- A closure that a runner runs.
    pub sync-at :
        (P : Result (Stop K) (Unit {0}) × Log K T C G B → Type 0) (cmd : Subcommand K)
        (f : Configuration T → Command K T C G B (Unit {0}))
        → ((s : Stop K) → P (err s, create_runner (of_subcommand cmd) ∷ []))
        → ((config : Configuration T) → P (f config (create_runner (of_subcommand cmd) ∷ [])))
        → P (sync R D cmd f [])
    sync-at P cmd f stop go =
        runner-at P (of_subcommand cmd) (λ r. R.sync_run r f) stop
          λ r.
            rw (L.sync_run_lem r f (create_runner (of_subcommand cmd) ∷ []))
              (go (L.configuration r))

    -- A future that a runner runs: it is the last thing that is done.
    pub async-at :
        (P : Result (Stop K) (Unit {0}) × Log K T C G B → Type 0) (cmd : Subcommand K)
        (future : Configuration T → PartialComponents T → CommandRun K T C G B)
        → ((s : Stop K) (t : Trace T)
            → P (err s, map service_call t ++ create_runner (of_subcommand cmd) ∷ []))
        → ((config : Configuration T) (parts : PartialComponents T) (t : Trace T)
              (x : Result (Stop K) (Unit {0}))
            → P (
              x,
              block_on (future config parts) parts.task_manager ∷ map service_call t
                  ++ create_runner (of_subcommand cmd) ∷ [],
            ))
        → P (async R D cmd future [])
    async-at P cmd future stop go =
        runner-at P (of_subcommand cmd) (λ r. R.async_run r (with_client R D future))
          (λ s. stop s [])
          λ r.
            rw (L.async_run_lem r (with_client R D future) (create_runner (of_subcommand cmd) ∷ []))
              (from_service-at {X = CommandRun K T C G B × T.TaskManager}
                (λ y. P ((lift y.0 >>= λ x t. (L.await x.0 x.1 t, block_on x.0 x.1 ∷ t)) y.1))
                (new_partial D.library (L.configuration r))
                (λ parts. pure (future (L.configuration r) parts, parts.task_manager))
                (create_runner (of_subcommand cmd) ∷ []) stop
                λ parts t. go (L.configuration r) parts t _)
