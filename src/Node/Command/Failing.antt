-- ===== src/Node/Command/Failing.antt =====
-- How `run` of node/src/command.rs fails: an error of a call is passed on at once, and the errors of
-- the node's own are few.
use create_chain_substrate_n.Common.{
  ◌≡◌, refl, inl, none, some, Option, [], ◌∷◌, ◌++◌, map, Result, ok, err, map_err, ◌>>=◌, lift,
}
use create_chain_substrate_n.Runtime.Genesis.{GenesisApi}
use create_chain_substrate_n.Node.Types.{Types, Configuration, NetworkBackendType, libp2p, litep2p}
use create_chain_substrate_n.Node.Library.{Library}
use create_chain_substrate_n.Node.ChainSpec.{ChainSpecApi}
use create_chain_substrate_n.Node.Benchmarking.{BenchmarkApi}
use create_chain_substrate_n.Node.Service.Full.{new_full}
use create_chain_substrate_n.Node.Service.FailFast.{error_of}
use create_chain_substrate_n.Node.Service.Failing.{new_full_fails_fast}
use create_chain_substrate_n.Node.Command.{
  CommandTypes, Subcommand, Cli, of_run, create_runner, service_call, until_exit, Stop, failed, Log,
  Command, CommandApi, Build, into_stop, from_service, node_with, start_node, run_node, run_choice,
  run,
}
use create_chain_substrate_n.Node.Command.Steps.{IsLawfulRunner, service_calls}
use create_chain_substrate_n.Node.Command.Prompt.{
  library_of, NoneFailed, IsPrompt, IsPrompt-call, IsPrompt-bind, from_service-IsPrompt,
}
use create_chain_substrate_n.Node.Command.Errors.{run_subcommand-IsPrompt}

module _ {K : CommandTypes} {T : Types} {C : ChainSpecApi} {G : GenesisApi} {B : BenchmarkApi}
    (R : CommandApi K T C G B) (D : Build K T C G B) (L : IsLawfulRunner R) where
  -- The library that the calls of the service are made of: for the node, that of the network
  -- backend of the runner's configuration.
  abbrev pub UsesLibrary : Option (Subcommand K) → Library T → Type 0
  UsesLibrary (some _) S = S ≡ D.library
  UsesLibrary none S = (backend : NetworkBackendType) × (S ≡ library_of D backend)

  abbrev exit_with : T.TaskManager → Command K T C G B (Unit {0})
  exit_with tasks t = (L.exit tasks t, until_exit tasks ∷ t)

  service-IsPrompt :
      (S : Library T) (config : Configuration T) (log : Log K T C G B)
      → service_calls log ≡ []
      → NoneFailed R D L S log
      → IsPrompt R D L S ((from_service R D (new_full S config) >>= exit_with) log)
  service-IsPrompt S config log e h =
      IsPrompt-bind R D L S (into_stop R D (new_full S config []).0) exit_with
        (map service_call (new_full S config []).1 ++ log)
        (from_service-IsPrompt R D L S (new_full S config []) log (new_full_fails_fast S config) e
          h)
        λ tasks h'. IsPrompt-call R D L S (until_exit tasks) (L.exit tasks _) _ refl h'

  node_with-IsPrompt :
      (backend : NetworkBackendType) (config : Configuration T) (log : Log K T C G B)
      → service_calls log ≡ []
      → NoneFailed R D L (library_of D backend) log
      → IsPrompt R D L (library_of D backend) ((node_with R D backend config >>= exit_with) log)
  node_with-IsPrompt libp2p config log e h = service-IsPrompt D.libp2p_library config log e h
  node_with-IsPrompt litep2p config log e h = service-IsPrompt D.litep2p_library config log e h

  run_node-IsPrompt :
      (options : K.RunCmd)
      → (backend : NetworkBackendType) × IsPrompt R D L
          (library_of D backend)
          (run_node R D options [])
  run_node-IsPrompt options = go (map_err failed (R.create_runner (of_run options) [])) refl
    where
      go :
          (x : Result (Stop K) K.Runner)
          → error_of (map_err failed (R.create_runner (of_run options) [])) ≡ error_of x
          → (backend : NetworkBackendType) × IsPrompt R D L (library_of D backend) (
              (lift x >>= λ r. R.run_node_until_exit r (start_node R D))
                (create_runner (of_run options) ∷ []))
      go (err s) e = (libp2p, inl (create_runner (of_run options), [], refl, e, tt))
      go (ok r) e =
          let config = L.configuration r in
          (
            config.network_backend,
            rw (L.run_node_until_exit_lem r (start_node R D) (create_runner (of_run options) ∷ []))
                (node_with-IsPrompt config.network_backend config
                  (create_runner (of_run options) ∷ []) refl (e, tt)),
          )

  -- `run` ignores no error. If it returns, no call failed. If it stops, either its last call failed
  -- with just that error and no call before it, or no call failed; then the client has no block 0,
  -- which is a panic, or the error is that of the chain specification, of the inherent data, or of
  -- the missing feature `runtime-benchmarks`.
  pub run_fails_fast :
      (cli : Cli K)
      → (S : Library T) × UsesLibrary cli.subcommand S × IsPrompt R D L S (run R D cli [])
  unfolding run
  run_fails_fast cli =
      elim cli.subcommand
        as (λ s. (S : Library T) × UsesLibrary s S × IsPrompt R D L S (run_choice R D cli s [])) [
          | none ↦
              let (backend, h) = run_node-IsPrompt cli.run in
              (library_of D backend, (backend, refl), h)
          | some cmd ↦ (D.library, refl, run_subcommand-IsPrompt R D L cli cmd)
        ]
