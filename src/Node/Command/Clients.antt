-- ===== src/Node/Command/Clients.antt =====
-- Which commands make no call of the service, in node/src/command.rs.
use create_chain_substrate_n.Common.{
  false≢true, ◌≡◌, refl, sym, inl, inr, Bool, true, false, Option, none, some, [], ◌∷◌, Result,
  Bool-cases, map_err,
}
use create_chain_substrate_n.Runtime.Genesis.{GenesisApi}
use create_chain_substrate_n.Node.Types.{Types, Configuration}
use create_chain_substrate_n.Node.ChainSpec.{ChainSpecApi, load_spec}
use create_chain_substrate_n.Node.Benchmarking.{BenchmarkApi}
use create_chain_substrate_n.Node.Command.{
  CommandTypes, BenchmarkCmd, pallet, block, storage, overhead, extrinsic, machine, Subcommand, key,
  build_spec, export_chain_spec, check_block, export_blocks, export_state, import_blocks,
  purge_chain, revert, benchmark, chain_info, Cli, of_subcommand, run_build_spec,
  run_export_chain_spec, run_purge_chain, run_chain_info, create_runner, Stop, failed, Log, Command,
  CommandApi, Build, run_now, sync, run_benchmark, run_subcommand, run_choice, run,
}
use create_chain_substrate_n.Node.Command.Steps.{IsLawfulRunner, service_calls}
use create_chain_substrate_n.Node.Command.Cases.{lift-at, sync-at}

module _ {K : CommandTypes} {T : Types} {C : ChainSpecApi} {G : GenesisApi} {B : BenchmarkApi}
    (R : CommandApi K T C G B) (D : Build K T C G B) (L : IsLawfulRunner R) where
  -- Whether a benchmark is given a client; of the storage, it is if the feature is enabled.
  abbrev pub benchmark_uses_client : BenchmarkCmd K → Bool
  benchmark_uses_client (pallet _) = false
  benchmark_uses_client (machine _) = false
  benchmark_uses_client (storage _) = D.runtime_benchmarks
  benchmark_uses_client _ = true

  abbrev pub uses_client : Option (Subcommand K) → Bool
  uses_client (some (key _)) = false
  uses_client (some (build_spec _)) = false
  uses_client (some (export_chain_spec _)) = false
  uses_client (some (purge_chain _)) = false
  uses_client (some (chain_info _)) = false
  uses_client (some (benchmark cmd)) = benchmark_uses_client cmd
  uses_client _ = true

  -- The calls of the service are none.
  abbrev IsQuiet : Result (Stop K) (Unit {0}) × Log K T C G B → Type 0
  IsQuiet x = service_calls x.1 ≡ []

  run_benchmark-IsQuiet :
      (cmd : BenchmarkCmd K) (config : Configuration T) (log : Log K T C G B)
      → benchmark_uses_client cmd ≡ false
      → service_calls log ≡ []
      → IsQuiet (run_benchmark R D cmd config log)
  unfolding run_benchmark
  run_benchmark-IsQuiet (pallet cmd) config log h quiet = elim (Bool-cases D.runtime_benchmarks) [
    | inl e ↦ rw e quiet
    | inr e ↦ rw e quiet
  ]
  run_benchmark-IsQuiet (machine cmd) config log h quiet = quiet
  run_benchmark-IsQuiet (storage cmd) config log h quiet = rw h quiet
  run_benchmark-IsQuiet (block cmd) config log h quiet = absurd (false≢true (sym h))
  run_benchmark-IsQuiet (overhead cmd) config log h quiet = absurd (false≢true (sym h))
  run_benchmark-IsQuiet (extrinsic cmd) config log h quiet = absurd (false≢true (sym h))

  sync-IsQuiet :
      (cmd : Subcommand K) (f : Configuration T → Command K T C G B (Unit {0}))
      → ((config : Configuration T) → IsQuiet (f config (create_runner (of_subcommand cmd) ∷ [])))
      → IsQuiet (sync R D cmd f [])
  sync-IsQuiet cmd f h = sync-at R D L IsQuiet cmd f (λ s. refl) h

  run_choice-IsQuiet :
      (cli : Cli K) (s : Option (Subcommand K))
      → uses_client s ≡ false
      → IsQuiet (run_choice R D cli s [])
  unfolding run_subcommand
  run_choice-IsQuiet cli none h = absurd (false≢true (sym h))
  run_choice-IsQuiet cli (some (key cmd)) h = refl
  run_choice-IsQuiet cli (some (build_spec cmd)) h =
      sync-IsQuiet (build_spec cmd)
        (λ config. run_now R D (run_build_spec cmd config.chain_spec config.network)) λ config. refl
  run_choice-IsQuiet cli (some (export_chain_spec cmd)) h =
      lift-at R D IsQuiet
        (map_err (λ e. failed (R.from_string e)) (load_spec C D.wasm_binary G (R.chain cmd)))
        (λ spec. run_now R D (run_export_chain_spec cmd spec)) [] (λ s. refl) λ spec. refl
  run_choice-IsQuiet cli (some (purge_chain cmd)) h =
      sync-IsQuiet (purge_chain cmd) (λ config. run_now R D (run_purge_chain cmd config.database))
        λ config. refl
  run_choice-IsQuiet cli (some (chain_info cmd)) h =
      sync-IsQuiet (chain_info cmd) (λ config. run_now R D (run_chain_info cmd config))
        λ config. refl
  run_choice-IsQuiet cli (some (benchmark cmd)) h =
      sync-IsQuiet (benchmark cmd) (run_benchmark R D cmd)
        λ config. run_benchmark-IsQuiet cmd config _ h refl
  run_choice-IsQuiet cli (some (check_block cmd)) h = absurd (false≢true (sym h))
  run_choice-IsQuiet cli (some (export_blocks cmd)) h = absurd (false≢true (sym h))
  run_choice-IsQuiet cli (some (export_state cmd)) h = absurd (false≢true (sym h))
  run_choice-IsQuiet cli (some (import_blocks cmd)) h = absurd (false≢true (sym h))
  run_choice-IsQuiet cli (some (revert cmd)) h = absurd (false≢true (sym h))

  -- `key`, `build-spec`, `export-chain-spec`, `purge-chain`, `chain-info`, the benchmarks of
  -- pallets and of the machine, and, without the feature `runtime-benchmarks`, that of the storage
  -- build no client: they make no call of the service, whether they succeed or fail.
  pub run_without_client :
      (cli : Cli K) → uses_client cli.subcommand ≡ false → service_calls (run R D cli []).1 ≡ []
  unfolding run
  run_without_client cli h = run_choice-IsQuiet cli cli.subcommand h
