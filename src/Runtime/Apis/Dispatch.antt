-- ===== src/Runtime/Apis/Dispatch.antt =====
-- `dispatch_benchmark` of runtime/src/apis.rs on the pallets of runtime/src/lib.rs.
use mathlib.Core.List.{append-nil}
use create_chain_substrate_n.Common.{
  ◌≡◌, ◌≢◌, refl, sym, ap, ◌∙◌, String, ◌==ₛ◌, eq_iff, Bool, true, Option, none, some, List, [],
  ◌∷◌, not, ◌&&◌, IsIn, AllDistinct, inl, inr, Bool-cases, subst, arith, Result, ok, err, pure,
  bind-ok, false≢true, if◌then◌else◌,
}
use create_chain_substrate_n.Template.Weights.{WeightApi}
use create_chain_substrate_n.Runtime.Genesis.{GenesisApi, Panic}
use create_chain_substrate_n.Runtime.Configs.{LimitsApi}
use create_chain_substrate_n.Runtime.Calls.{
  Pallet, system, timestamp, aura, grandpa, balances, transaction_payment, sudo, template,
  crate_name,
}
use create_chain_substrate_n.Runtime.Apis.{FrameTypes, FrameApi, Api}
use create_chain_substrate_n.Runtime.Apis.Benchmarks.{
  IsLawfulBenchmarking, benchmarks, extend, add_benchmarks, dispatch_benchmark,
}

-- Whether a text is none of a list, and whether the texts of a list differ.
abbrev is_fresh : String → List String → Bool
is_fresh y [] = true
is_fresh y (x ∷ xs) = not (y ==ₛ x) && is_fresh y xs

abbrev all_distinct : List String → Bool
all_distinct [] = true
all_distinct (x ∷ xs) = is_fresh x xs && all_distinct xs

is_fresh_absent : (y : String) (l : List String) → is_fresh y l ≡ true → ¬ IsIn y l
is_fresh_absent y [] h m = elim m [ ]
is_fresh_absent y (x ∷ xs) h (inl e) = ground (arith, eq_iff y x)
is_fresh_absent y (x ∷ xs) h (inr m) = ground (arith, is_fresh_absent y xs)

all_distinct-AllDistinct : (l : List String) → all_distinct l ≡ true → AllDistinct l
all_distinct-AllDistinct [] h = tt
all_distinct-AllDistinct (x ∷ xs) h =
    ground (arith, is_fresh_absent x xs, all_distinct-AllDistinct xs)

module _ {G : GenesisApi} {W : WeightApi} {N : LimitsApi W} {F : FrameTypes}
    (E : FrameApi G W N F) where
  -- Where the benchmarks of a pallet of the runtime are, if it has any.
  abbrev pub location_of : Pallet → Option F.BenchmarkLocation
  location_of system = some E.system_bench
  location_of timestamp = some E.timestamp_bench
  location_of aura = none
  location_of grandpa = none
  location_of balances = some E.balances_bench
  location_of transaction_payment = none
  location_of sudo = some E.sudo_bench
  location_of template = some E.template_bench

  -- The one benchmark at a location, or none.
  abbrev pub add_one :
      F.BenchmarkConfig
      → String
      → Option F.BenchmarkLocation
      → Api F (Result String (List F.BenchmarkBatch))
  add_one config name none = pure (ok [])
  add_one config name (some location) =
      E.add_benchmark config E.whitelisted_storage_keys name location

  abbrev names : List (String × F.BenchmarkLocation) → List String
  names [] = []
  names ((name, _) ∷ rest) = name ∷ names rest

  -- Where a list has the benchmarks of a name.
  abbrev find : String → List (String × F.BenchmarkLocation) → Option F.BenchmarkLocation
  find name [] = none
  find name ((other, location) ∷ rest) = if name ==ₛ other then some location else find name rest

module _ {G : GenesisApi} {W : WeightApi} {N : LimitsApi W} {F : FrameTypes} (E : FrameApi G W N F)
    (L : IsLawfulBenchmarking E) (config : F.BenchmarkConfig) where
  -- A benchmark that the configuration does not name is passed over.
  pass :
      (name : String) (location : F.BenchmarkLocation) (rest : List (String × F.BenchmarkLocation))
      (batches : List F.BenchmarkBatch) (s : F.State)
      → name ≢ L.pallet_of config
      → add_benchmarks E config E.whitelisted_storage_keys ((name, location) ∷ rest) batches s
        ≡ add_benchmarks E config E.whitelisted_storage_keys rest batches s
  unfolding add_benchmarks
  pass name location rest batches s differ =
      bind-ok (E.add_benchmark config E.whitelisted_storage_keys name location)
        (extend E (add_benchmarks E config E.whitelisted_storage_keys rest) batches)
        (L.add_benchmark_other config E.whitelisted_storage_keys name location s differ)
      ∙ ap (λ l. add_benchmarks E config E.whitelisted_storage_keys rest l s) (append-nil batches)

  pass_all :
      (l : List (String × F.BenchmarkLocation)) (batches : List F.BenchmarkBatch) (s : F.State)
      → ¬ IsIn (L.pallet_of config) (names E l)
      → add_benchmarks E config E.whitelisted_storage_keys l batches s ≡ (ok (ok batches), s)
  unfolding add_benchmarks
  pass_all [] batches s absent = refl
  pass_all ((name, location) ∷ rest) batches s absent =
      pass name location rest batches s (λ e. absent (inl (sym e)))
      ∙ pass_all rest batches s (λ m. absent (inr m))

  -- The one that it names gives all batches, or its error.
  take_one :
      (location : F.BenchmarkLocation) (rest : List (String × F.BenchmarkLocation)) (s : F.State)
      → ¬ IsIn (L.pallet_of config) (names E rest)
      → add_benchmarks E config E.whitelisted_storage_keys
          ((L.pallet_of config, location) ∷ rest)
          []
          s
        ≡ E.add_benchmark config E.whitelisted_storage_keys (L.pallet_of config) location s
  unfolding add_benchmarks
  take_one location rest s absent =
      go (E.add_benchmark config E.whitelisted_storage_keys (L.pallet_of config) location s)
    where
      go :
          (x : Result Panic (Result String (List F.BenchmarkBatch)) × F.State)
          → elim x.0 [
            | ok added ↦
                extend E (add_benchmarks E config E.whitelisted_storage_keys rest) [] added x.1
            | err p ↦ (err p, x.1)
          ]
            ≡ x
      go (ok (ok more), s') = pass_all rest more s' absent
      go (ok (err e), s') = refl
      go (err p, s') = refl

  add_benchmarks-find :
      (l : List (String × F.BenchmarkLocation)) (s : F.State)
      → AllDistinct (names E l)
      → add_benchmarks E config E.whitelisted_storage_keys l [] s
        ≡ add_one E config (L.pallet_of config) (find E (L.pallet_of config) l) s
  unfolding add_benchmarks
  add_benchmarks-find [] s u = refl
  add_benchmarks-find ((name, location) ∷ rest) s (fresh, u) =
      let pallet = L.pallet_of config in
      elim (Bool-cases (pallet ==ₛ name)) [
        | inl e ↦
            let same : pallet ≡ name = (eq_iff pallet name).0 e in
            rw e (
              ap
                (λ n.
                  add_benchmarks E config E.whitelisted_storage_keys ((n, location) ∷ rest) [] s)
                (sym same)
              ∙ take_one location rest s (subst (λ n. ¬ IsIn n (names E rest)) (sym same) fresh))
        | inr e ↦
            let differ : name ≢ pallet = λ h. false≢true (sym e ∙ (eq_iff pallet name).1 (sym h)) in
            rw e (pass name location rest [] s differ ∙ add_benchmarks-find rest s u)
      ]

  find-location_of : (p : Pallet) → find E (crate_name p) (benchmarks E) ≡ location_of E p
  find-location_of system = refl
  find-location_of timestamp = refl
  find-location_of aura = refl
  find-location_of grandpa = refl
  find-location_of balances = refl
  find-location_of transaction_payment = refl
  find-location_of sudo = refl
  find-location_of template = refl

  -- For a configuration that names the crate of a pallet of the runtime, `dispatch_benchmark` runs
  -- the benchmarks of that pallet and no other: it gives their batches, returns their error, or
  -- panics as they do. The pallets for Aura, GRANDPA and transaction payments have none; then
  -- nothing is run, and no batch comes back.
  pub dispatch_benchmark_one :
      (p : Pallet) (s : F.State)
      → L.pallet_of config ≡ crate_name p
      → dispatch_benchmark E config s ≡ add_one E config (crate_name p) (location_of E p) s
  unfolding dispatch_benchmark
  dispatch_benchmark_one p s named =
      add_benchmarks-find (benchmarks E) s (all_distinct-AllDistinct (names E (benchmarks E)) refl)
      ∙ ap (λ name. add_one E config name (find E name (benchmarks E)) s) named
      ∙ ap (λ location. add_one E config (crate_name p) location s) (find-location_of p)
