-- ===== src/Node/Command/Errors.antt =====
-- The errors of the subcommands of node/src/command.rs: those of the calls, passed on at once, and
-- the few of the node's own.
use create_chain_substrate_n.Common.{
  ◌≡◌, refl, inl, inr, Bool, true, false, some, [], ◌∷◌, ◌++◌, map, Result, ok, err, map_err, pure,
  ◌>>=◌, String, if◌then◌else◌, not, fail,
}
use create_chain_substrate_n.Runtime.Genesis.{GenesisApi}
use create_chain_substrate_n.Node.Types.{Types, Configuration}
use create_chain_substrate_n.Node.Library.{Library}
use create_chain_substrate_n.Node.ChainSpec.{ChainSpecApi, load_spec}
use create_chain_substrate_n.Node.Benchmarking.{BenchmarkApi, inherent_benchmark_data}
use create_chain_substrate_n.Node.Service.Partial.{PartialComponents, new_partial}
use create_chain_substrate_n.Node.Service.Failing.{new_partial_fails_fast}
use create_chain_substrate_n.Node.Command.{
  CommandTypes, BenchmarkCmd, pallet, block, storage, overhead, extrinsic, machine, Subcommand, key,
  build_spec, export_chain_spec, check_block, export_blocks, export_state, import_blocks,
  purge_chain, revert, benchmark, chain_info, Cli, RunnerCommand, of_subcommand, CommandRun,
  run_key, run_build_spec, run_export_chain_spec, run_purge_chain, run_pallet, run_block,
  run_storage, run_overhead, run_extrinsic, run_machine, run_chain_info, create_runner,
  service_call, block_on, Stop, failed, Log, Command, CommandApi, Build, new_runner, run_now,
  into_stop, partial, with_client, sync, async, run_benchmark, run_subcommand, inherents,
  extrinsic_builders, pallet_refusal, storage_refusal,
}
use create_chain_substrate_n.Node.Benchmarking.Builders.{remark_builder}
use create_chain_substrate_n.Node.Command.Steps.{IsLawfulRunner, service_calls}
use create_chain_substrate_n.Node.Command.Prompt.{
  NoneFailed, IsOwnError, IsPrompt, IsPrompt-call, IsPrompt-bind, run_now-IsPrompt,
  from_service-IsPrompt,
}

module _ {K : CommandTypes} {T : Types} {C : ChainSpecApi} {G : GenesisApi} {B : BenchmarkApi}
    (R : CommandApi K T C G B) (D : Build K T C G B) (L : IsLawfulRunner R) where
  partial-IsPrompt :
      {X : Type 0} (config : Configuration T) (k : PartialComponents T → Command K T C G B X)
      (log : Log K T C G B)
      → service_calls log ≡ []
      → NoneFailed R D L D.library log
      → ((parts : PartialComponents T) (log' : Log K T C G B)
          → NoneFailed R D L D.library log'
          → IsPrompt R D L D.library (k parts log'))
      → IsPrompt R D L D.library ((partial R D config >>= k) log)
  partial-IsPrompt config k log e h next =
      IsPrompt-bind R D L D.library (into_stop R D (new_partial D.library config []).0) k
        (map service_call (new_partial D.library config []).1 ++ log)
        (from_service-IsPrompt R D L D.library (new_partial D.library config []) log
          (new_partial_fails_fast D.library config [] tt) e h)
        λ parts h'. next parts _ h'

  runner-IsPrompt :
      (S : Library T) (cmd : RunnerCommand K) (k : K.Runner → Command K T C G B (Unit {0}))
      → ((r : K.Runner)
          → NoneFailed R D L S (create_runner cmd ∷ [])
          → IsPrompt R D L S (k r (create_runner cmd ∷ [])))
      → IsPrompt R D L S ((new_runner R D cmd >>= k) [])
  runner-IsPrompt S cmd k next =
      IsPrompt-bind R D L S (map_err failed (R.create_runner cmd [])) k (create_runner cmd ∷ [])
        (IsPrompt-call R D L S (create_runner cmd) (map_err failed (R.create_runner cmd [])) [] refl
          tt)
        next

  sync-IsPrompt :
      (cmd : Subcommand K) (f : Configuration T → Command K T C G B (Unit {0}))
      → ((config : Configuration T) (log : Log K T C G B)
          → service_calls log ≡ []
          → NoneFailed R D L D.library log
          → IsPrompt R D L D.library (f config log))
      → IsPrompt R D L D.library (sync R D cmd f [])
  sync-IsPrompt cmd f next =
      runner-IsPrompt D.library (of_subcommand cmd) (λ r. R.sync_run r f)
        λ r h.
          rw (L.sync_run_lem r f (create_runner (of_subcommand cmd) ∷ []))
            (next (L.configuration r) (create_runner (of_subcommand cmd) ∷ []) refl h)

  async-IsPrompt :
      (cmd : Subcommand K) (future : Configuration T → PartialComponents T → CommandRun K T C G B)
      → IsPrompt R D L D.library (async R D cmd future [])
  async-IsPrompt cmd future =
      runner-IsPrompt D.library (of_subcommand cmd) (λ r. R.async_run r (with_client R D future))
        λ r h.
          rw (L.async_run_lem r (with_client R D future) (create_runner (of_subcommand cmd) ∷ [])) (
            let x =
              with_client R D future (L.configuration r) (create_runner (of_subcommand cmd) ∷ []) in
            IsPrompt-bind R D L D.library x.0 (λ y t. (L.await y.0 y.1 t, block_on y.0 y.1 ∷ t)) x.1
              (partial-IsPrompt (L.configuration r)
                (λ parts. pure (future (L.configuration r) parts, parts.task_manager))
                (create_runner (of_subcommand cmd) ∷ []) refl h λ parts log' h'. h')
              λ y h'.
                IsPrompt-call R D L D.library (block_on y.0 y.1) (L.await y.0 y.1 x.1) x.1 refl h')

  client-IsPrompt :
      (config : Configuration T) (c : PartialComponents T → CommandRun K T C G B)
      (log : Log K T C G B)
      → service_calls log ≡ []
      → NoneFailed R D L D.library log
      → IsPrompt R D L D.library ((partial R D config >>= λ parts. run_now R D (c parts)) log)
  client-IsPrompt config c log e h =
      partial-IsPrompt config (λ parts. run_now R D (c parts)) log e h
        λ parts log' h'. run_now-IsPrompt R D L D.library (c parts) log' h'

  -- A result that may be an error of the node's own.
  own-IsPrompt :
      {A : Type 0} (S : Library T) (r : Result String A) (log : Log K T C G B)
      → ((e : String) → r ≡ err e → IsOwnError R D L e)
      → NoneFailed R D L S log
      → IsPrompt R D L S (map_err {F = Stop K} (λ e. failed (R.from_string e)) r, log)
  own-IsPrompt S (ok a) log own h = h
  own-IsPrompt S (err e) log own h = inr (h, (e, refl, own e refl))

  inherents-IsPrompt :
      (config : Configuration T) (c : PartialComponents T → B.InherentData → CommandRun K T C G B)
      (log : Log K T C G B)
      → service_calls log ≡ []
      → NoneFailed R D L D.library log
      → IsPrompt R D L D.library
          ((partial R D config >>= λ parts. inherents R D >>= λ i. run_now R D (c parts i)) log)
  inherents-IsPrompt config c log e h =
      partial-IsPrompt config (λ parts. inherents R D >>= λ i. run_now R D (c parts i)) log e h
        λ parts log' h'.
          IsPrompt-bind R D L D.library
            (map_err (λ e. failed (R.from_string e)) (inherent_benchmark_data B))
            (λ i. run_now R D (c parts i)) log'
            (own-IsPrompt D.library (inherent_benchmark_data B) log' (λ e own. inr (inl own)) h')
            λ i h''. run_now-IsPrompt R D L D.library (c parts i) log' h''

  -- Code behind a feature of the build.
  feature-IsPrompt :
      (b : Bool) (refusal : String) (m : Command K T C G B (Unit {0})) (log : Log K T C G B)
      → (b ≡ false → IsOwnError R D L refusal)
      → NoneFailed R D L D.library log
      → IsPrompt R D L D.library (m log)
      → IsPrompt R D L D.library ((if not b then fail (failed (R.from_string refusal)) else m) log)
  feature-IsPrompt true refusal m log own h k = k
  feature-IsPrompt false refusal m log own h k = inr (h, (refusal, refl, own refl))

  run_benchmark-IsPrompt :
      (cmd : BenchmarkCmd K) (config : Configuration T) (log : Log K T C G B)
      → service_calls log ≡ []
      → NoneFailed R D L D.library log
      → IsPrompt R D L D.library (run_benchmark R D cmd config log)
  unfolding run_benchmark
  run_benchmark-IsPrompt (pallet cmd) config log e h =
      feature-IsPrompt D.runtime_benchmarks pallet_refusal
        (run_now R D (run_pallet cmd (some config.chain_spec))) log
        (λ off. inr (inr (off, inl refl))) h
        (run_now-IsPrompt R D L D.library (run_pallet cmd (some config.chain_spec)) log h)
  run_benchmark-IsPrompt (block cmd) config log e h =
      client-IsPrompt config (λ parts. run_block cmd parts.client) log e h
  run_benchmark-IsPrompt (storage cmd) config log e h =
      let c : PartialComponents T → CommandRun K T C G B = λ parts.
        run_storage cmd config parts.client (R.expose_db parts.backend)
          (R.expose_storage parts.backend) (R.expose_shared_trie_cache parts.backend) in
      feature-IsPrompt D.runtime_benchmarks storage_refusal
        (partial R D config >>= λ parts. run_now R D (c parts)) log
        (λ off. inr (inr (off, inr (inl refl)))) h (client-IsPrompt config c log e h)
  run_benchmark-IsPrompt (overhead cmd) config log e h =
      inherents-IsPrompt config
        (λ parts i.
          run_overhead cmd (R.spec_name config.chain_spec) parts.client i
            (remark_builder parts.client))
        log e h
  run_benchmark-IsPrompt (extrinsic cmd) config log e h =
      inherents-IsPrompt config
        (λ parts i. run_extrinsic cmd parts.client i (extrinsic_builders R D parts.client)) log e h
  run_benchmark-IsPrompt (machine cmd) config log e h =
      run_now-IsPrompt R D L D.library (run_machine cmd config) log h

  pub run_subcommand-IsPrompt :
      (cli : Cli K) (cmd : Subcommand K) → IsPrompt R D L D.library (run_subcommand R D cli cmd [])
  unfolding run_subcommand
  run_subcommand-IsPrompt cli (key cmd) = run_now-IsPrompt R D L D.library (run_key cmd cli) [] tt
  run_subcommand-IsPrompt cli (build_spec cmd) =
      sync-IsPrompt (build_spec cmd)
        (λ config. run_now R D (run_build_spec cmd config.chain_spec config.network))
        λ config log e h.
          run_now-IsPrompt R D L D.library (run_build_spec cmd config.chain_spec config.network) log
            h
  run_subcommand-IsPrompt cli (export_chain_spec cmd) =
      IsPrompt-bind R D L D.library
        (map_err (λ e. failed (R.from_string e)) (load_spec C D.wasm_binary G (R.chain cmd)))
        (λ spec. run_now R D (run_export_chain_spec cmd spec)) []
        (own-IsPrompt D.library (load_spec C D.wasm_binary G (R.chain cmd)) []
          (λ e own. inl (R.chain cmd, own)) tt)
        λ spec h. run_now-IsPrompt R D L D.library (run_export_chain_spec cmd spec) [] h
  run_subcommand-IsPrompt cli (check_block cmd) = async-IsPrompt (check_block cmd) _
  run_subcommand-IsPrompt cli (export_blocks cmd) = async-IsPrompt (export_blocks cmd) _
  run_subcommand-IsPrompt cli (export_state cmd) = async-IsPrompt (export_state cmd) _
  run_subcommand-IsPrompt cli (import_blocks cmd) = async-IsPrompt (import_blocks cmd) _
  run_subcommand-IsPrompt cli (purge_chain cmd) =
      sync-IsPrompt (purge_chain cmd) (λ config. run_now R D (run_purge_chain cmd config.database))
        λ config log e h.
          run_now-IsPrompt R D L D.library (run_purge_chain cmd config.database) log h
  run_subcommand-IsPrompt cli (revert cmd) = async-IsPrompt (revert cmd) _
  run_subcommand-IsPrompt cli (benchmark cmd) =
      sync-IsPrompt (benchmark cmd) (run_benchmark R D cmd) (run_benchmark-IsPrompt cmd)
  run_subcommand-IsPrompt cli (chain_info cmd) =
      sync-IsPrompt (chain_info cmd) (λ config. run_now R D (run_chain_info cmd config))
        λ config log e h. run_now-IsPrompt R D L D.library (run_chain_info cmd config) log h
