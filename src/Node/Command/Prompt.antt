-- ===== src/Node/Command/Prompt.antt =====
-- What it is for code of node/src/command.rs to pass each error on at once, and the rules for it.
use create_chain_substrate_n.Common.{
  ◌≡◌, ◌≢◌, refl, ◌⊎◌, inl, inr, false, none, some, Option, [], ◌∷◌, ◌++◌, map, Result, ok, err,
  map_err, ◌>>=◌, lift, String, IsIn,
}
use create_chain_substrate_n.Runtime.Genesis.{GenesisApi}
use create_chain_substrate_n.Node.Types.{Types, NetworkBackendType, libp2p, litep2p}
use create_chain_substrate_n.Node.Library.{Library, Trace}
use create_chain_substrate_n.Node.ChainSpec.{ChainSpecApi, load_spec}
use create_chain_substrate_n.Node.Benchmarking.{BenchmarkApi, inherent_benchmark_data}
use create_chain_substrate_n.Node.Action.{Failure, service, panicked}
use create_chain_substrate_n.Node.Service.FailFast.{error_of, failure, AllSucceeded, IsFailFast}
use create_chain_substrate_n.Node.Command.{
  CommandTypes, CommandRun, CommandCall, create_runner, service_call, run_command, block_on,
  until_exit, Stop, failed, stopped, Log, Command, CommandApi, Build, run_now, into_stop,
  pallet_refusal, storage_refusal,
}
use create_chain_substrate_n.Node.Command.Steps.{IsLawfulRunner, service_calls, service_calls-map}

-- The library of a network backend.
abbrev pub library_of :
    {K : CommandTypes} {T : Types} {C : ChainSpecApi} {G : GenesisApi} {B : BenchmarkApi}
    → Build K T C G B
    → NetworkBackendType
    → Library T
library_of D libp2p = D.libp2p_library
library_of D litep2p = D.litep2p_library

module _ {K : CommandTypes} {T : Types} {C : ChainSpecApi} {G : GenesisApi} {B : BenchmarkApi}
    (R : CommandApi K T C G B) (D : Build K T C G B) (L : IsLawfulRunner R) where
  abbrev stop_of : Option T.ServiceError → Option (Stop K)
  stop_of none = none
  stop_of (some e) = some (failed (R.from_service e))

  -- The error of a call after the calls before it, if it fails; `S` is the library that the calls
  -- of the service are made of.
  abbrev pub call_error : Library T → CommandCall K T C G B → Log K T C G B → Option (Stop K)
  call_error S (create_runner cmd) log = error_of (map_err failed (R.create_runner cmd log))
  call_error S (service_call c) log = stop_of (failure S c (service_calls log))
  call_error S (run_command c) log = error_of (map_err failed (R.run_command c log))
  call_error S (block_on c tasks) log = error_of (L.await c tasks log)
  call_error S (until_exit tasks) log = error_of (L.exit tasks log)

  -- No call failed.
  abbrev pub NoneFailed : Library T → Log K T C G B → Type 0
  NoneFailed S [] = Unit
  NoneFailed S (c ∷ log) = (call_error S c log ≡ none) × NoneFailed S log

  -- The texts of the node's own errors: of a chain specification, of the inherent data, and of a
  -- missing feature.
  abbrev pub IsOwnError : String → Type 0
  IsOwnError e =
      ((id : String) × (load_spec C D.wasm_binary G id ≡ err e))
      ⊎ (inherent_benchmark_data B ≡ err e)
      ⊎ ((D.runtime_benchmarks ≡ false) × IsIn e (pallet_refusal ∷ storage_refusal ∷ []))

  -- An end that no call is the reason of.
  abbrev pub IsOwnStop : Library T → Stop K → Type 0
  IsOwnStop S (failed x) = (e : String) × (x ≡ R.from_string e) × IsOwnError e
  IsOwnStop S (stopped message) =
      (message ≡ "Genesis block exists; qed")
      × (client : T.Client) × ((h : T.Hash) → S.block_hash client 0 ≢ ok (some h))

  -- How code came to its end. If it returned, no call failed. If it stopped, either its last call
  -- failed with that error, and none before it, or no call failed, and the end is one of its own.
  abbrev pub IsPrompt : Library T → {A : Type 0} → Result (Stop K) A × Log K T C G B → Type 0
  IsPrompt S (ok _, log) = NoneFailed S log
  IsPrompt S (err s, log) =
      ((c : CommandCall K T C G B) × (before : Log K T C G B) × (log ≡ c ∷ before)
        × (call_error S c before ≡ some s)
        × NoneFailed S before)
      ⊎ (NoneFailed S log × IsOwnStop S s)

  -- A call, after calls that succeeded.
  pub IsPrompt-call :
      {A : Type 0} (S : Library T) (c : CommandCall K T C G B) (r : Result (Stop K) A)
      (log : Log K T C G B)
      → call_error S c log ≡ error_of r
      → NoneFailed S log
      → IsPrompt S (r, c ∷ log)
  IsPrompt-call S c (ok a) log e h = (e, h)
  IsPrompt-call S c (err s) log e h = inl (c, log, refl, e, h)

  -- Code behind such code.
  pub IsPrompt-bind :
      {A X : Type 0} (S : Library T) (r : Result (Stop K) A) (k : A → Command K T C G B X)
      (log : Log K T C G B)
      → IsPrompt S (r, log)
      → ((a : A) → NoneFailed S log → IsPrompt S (k a log))
      → IsPrompt S ((lift r >>= k) log)
  IsPrompt-bind S (ok a) k log h next = next a h
  IsPrompt-bind S (err s) k log h next = h

  pub run_now-IsPrompt :
      (S : Library T) (c : CommandRun K T C G B) (log : Log K T C G B)
      → NoneFailed S log
      → IsPrompt S (run_now R D c log)
  run_now-IsPrompt S c log h = IsPrompt-call S (run_command c) _ log refl h

  NoneFailed-map :
      (S : Library T) (t : Trace T) (log : Log K T C G B)
      → service_calls log ≡ []
      → AllSucceeded S t
      → NoneFailed S log
      → NoneFailed S (map service_call t ++ log)
  NoneFailed-map S [] log e h k = k
  NoneFailed-map S (c ∷ t) log e (h, h') k =
      (rw (service_calls-map t log e, h) refl, NoneFailed-map S t log e h' k)

  -- Code of the service that fails fast, as code of the command line.
  pub from_service-IsPrompt :
      {A : Type 0} (S : Library T) (x : Result (Failure T) A × Trace T) (log : Log K T C G B)
      → IsFailFast S x
      → service_calls log ≡ []
      → NoneFailed S log
      → IsPrompt S (into_stop R D x.0, map service_call x.1 ++ log)
  from_service-IsPrompt S (ok a, t) log h e k = NoneFailed-map S t log e h k
  from_service-IsPrompt S (err (service s), t) log (c, before, last, failed_, h) e k = rw last (
      inl (
        service_call c,
        map service_call before ++ log,
        refl,
        rw (service_calls-map before log e, failed_) refl,
        NoneFailed-map S before log e h k,
      ))
  from_service-IsPrompt S (err (panicked message), t) log (text, client, missing, h) e k =
      inr (NoneFailed-map S t log e h k, (text, client, missing))
