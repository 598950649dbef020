-- ===== src/Runtime/Apis/Benchmarks.antt =====
-- The benchmark API of runtime/src/apis.rs, over the list of runtime/src/benchmarks.rs, and the
-- API of try-runtime.
use create_chain_substrate_n.Common.{
  ◌≡◌, ◌≢◌, String, ◌<>◌, Bool, List, [], ◌∷◌, ◌++◌, Result, ok, err, pure, fail, ◌>>=◌,
}
use create_chain_substrate_n.Template.Weights.{WeightApi}
use create_chain_substrate_n.Runtime.Genesis.{GenesisApi, panic}
use create_chain_substrate_n.Runtime.Configs.{LimitsApi, runtime_block_weights}
use create_chain_substrate_n.Runtime.Apis.{FrameTypes, FrameApi, Api}

module _ {G : GenesisApi} {W : WeightApi} {N : LimitsApi W} {F : FrameTypes}
    (E : FrameApi G W N F) where
  -- `define_benchmarks!`: the names and where their benchmarks are.
  abbrev pub benchmarks : List (String × F.BenchmarkLocation)
  benchmarks =
      ("frame_benchmarking", E.baseline_bench)
      ∷ ("frame_system", E.system_bench)
      ∷ ("frame_system_extensions", E.system_extensions_bench)
      ∷ ("pallet_balances", E.balances_bench)
      ∷ ("pallet_timestamp", E.timestamp_bench)
      ∷ ("pallet_sudo", E.sudo_bench)
      ∷ ("pallet_template", E.template_bench)
      ∷ []

  -- `list_benchmarks!`
  abbrev pub list_benchmarks : Bool → List (String × F.BenchmarkLocation) → List F.BenchmarkList
  list_benchmarks extra [] = []
  list_benchmarks extra ((name, location) ∷ rest) =
      E.list_benchmark name location extra ∷ list_benchmarks extra rest

  abbrev pub benchmark_metadata : Bool → Api F (List F.BenchmarkList × List F.StorageInfo)
  benchmark_metadata extra = pure (list_benchmarks extra benchmarks, E.storage_info)

  -- The batches of one benchmark, and what follows, unless it is its error.
  abbrev pub extend :
      (List F.BenchmarkBatch → Api F (Result String (List F.BenchmarkBatch)))
      → List F.BenchmarkBatch
      → Result String (List F.BenchmarkBatch)
      → Api F (Result String (List F.BenchmarkBatch))
  extend next batches (ok more) = next (batches ++ more)
  extend next batches (err e) = pure (err e)

  -- `add_benchmarks!`: each in turn may add to the batches, or return an error at once.
  unfoldable pub add_benchmarks :
      F.BenchmarkConfig
      → List F.TrackedStorageKey
      → List (String × F.BenchmarkLocation)
      → List F.BenchmarkBatch
      → Api F (Result String (List F.BenchmarkBatch))
  add_benchmarks config whitelist [] batches = pure (ok batches)
  add_benchmarks config whitelist ((name, location) ∷ rest) batches = do
    added ← E.add_benchmark config whitelist name location
    extend (add_benchmarks config whitelist rest) batches added

  unfoldable pub dispatch_benchmark :
      F.BenchmarkConfig → Api F (Result String (List F.BenchmarkBatch))
  dispatch_benchmark config = add_benchmarks config E.whitelisted_storage_keys benchmarks []

  -- `result.unwrap()` and `result.expect(message)`
  abbrev unwrap_or_panic : {A : Type 0} → String → Result F.TryRuntimeError A → Api F A
  unwrap_or_panic message (ok a) = pure a
  unwrap_or_panic message (err e) = fail (panic (message <> ": " <> E.debug e))

  -- frame_try_runtime::TryRuntime
  unfoldable pub on_runtime_upgrade : F.UpgradeCheckSelect → Api F (W.Weight × W.Weight)
  on_runtime_upgrade checks = do
    result ← E.try_runtime_upgrade checks
    weight ← unwrap_or_panic "called `Result::unwrap()` on an `Err` value" result
    pure (weight, E.max_block (runtime_block_weights W N))

  unfoldable pub try_execute_block : F.LazyBlock → Bool → Bool → F.TryStateSelect → Api F W.Weight
  try_execute_block block state_root_check signature_check select = do
    result ← E.try_execute_block block state_root_check signature_check select
    unwrap_or_panic "execute-block failed" result

-- The documented behaviour of the macros for one benchmark: it is listed under its name, and it is
-- run, which gives its batches or an error, only if the configuration names its pallet and its
-- instance; otherwise it adds nothing.
pub record IsLawfulBenchmarking {G : GenesisApi} {W : WeightApi} {N : LimitsApi W} {F : FrameTypes}
    (E : FrameApi G W N F) : Type 0 where
  pub listed_name : F.BenchmarkList → String
  pub pallet_of : F.BenchmarkConfig → String
  pub list_benchmark_lem :
      (name : String) (location : F.BenchmarkLocation) (extra : Bool)
      → listed_name (E.list_benchmark name location extra) ≡ name
  pub add_benchmark_other :
      (config : F.BenchmarkConfig) (keys : List F.TrackedStorageKey) (name : String)
      (location : F.BenchmarkLocation) (s : F.State)
      → name ≢ pallet_of config
      → E.add_benchmark config keys name location s ≡ (ok (ok []), s)
