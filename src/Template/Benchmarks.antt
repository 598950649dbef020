-- ===== src/Template/Benchmarks.antt =====
-- The benchmarks of pallets/template/src/benchmarking.rs: each sets the storage up and makes one
-- call from a signed origin, whose value it then asserts.
use create_chain_substrate_n.Common.{◌≡◌, refl, ◌∙◌, ok, some, modify, ◌>>◌, arith}
use create_chain_substrate_n.Template.{Config, IsLawful, DispatchResult, do_something, cause_error}
use create_chain_substrate_n.Template.Calls.{do_something-signed, cause_error-below}

module _ (T : Config) where
  pub benchmark_do_something : T.OriginFor → DispatchResult T
  benchmark_do_something caller = do_something T caller 100

  pub benchmark_cause_error : T.OriginFor → DispatchResult T
  benchmark_cause_error caller = do modify (T.put 100); cause_error T caller

module _ (T : Config) (L : IsLawful T) where
  -- From a signed origin and any storage, both benchmarked calls succeed, and the values that the
  -- benchmarks assert afterwards are stored: the argument 100, and 101 after 100.
  pub benchmarks_pass :
      (caller : T.OriginFor) (s : T.State) {who : T.AccountId}
      → T.ensure_signed caller ≡ ok who
      → ((benchmark_do_something T caller s).0 ≡ ok tt)
        × (T.get (benchmark_do_something T caller s).1 ≡ some 100)
        × ((benchmark_cause_error T caller s).0 ≡ ok tt)
        × (T.get (benchmark_cause_error T caller s).1 ≡ some 101)
  unfolding benchmark_do_something benchmark_cause_error
  benchmarks_pass caller s signed =
      rw
        (
          do_something-signed T caller s 100 signed,
          cause_error-below T caller (T.put 100 s) signed (L.get-put 100 s) (omega arith),
        )
        (refl, L.get-deposit _ _ ∙ L.get-put 100 s, refl, L.get-put 101 (T.put 100 s))
