-- ===== src/Node/Service/FailFast.antt =====
-- How code of the node ends when a call of a client crate fails: with its error at once. One rule
-- for each way to build an action.

use create_chain_substrate_n.Common.{
  ◌≡◌, ◌≢◌, refl, Result, ok, err, Option, none, some, [], ◌∷◌, Bool, true, false, if◌then◌else◌,
  inl, inr, Result-cases,
}
use create_chain_substrate_n.Node.Types.{Types, Task}
use create_chain_substrate_n.Node.Library.{
  LibraryCall, Library, Trace, Answer, spawn, telemetry_worker_new, new_full_parts, block_import,
  import_queue, build_network, offchain_workers_new, spawn_tasks, slot_duration, start_aura,
  run_grandpa_voter,
}
use create_chain_substrate_n.Node.Action.{
  Failure, service, panicked, Action, pure, perform, expect, spawn_task, continue, ◌>>=◌,
}

-- The error of an answer, if it is one.
abbrev pub error_of : {E A : Type 0} → Result E A → Option E
error_of (ok _) = none
error_of (err e) = some e

module _ {T : Types} (S : Library T) where
  -- The error that a call returns after the calls of a trace, if it fails.
  abbrev pub failure : LibraryCall T → Trace T → Option T.ServiceError
  failure (telemetry_worker_new size) t = error_of (S.telemetry_worker_new size t)
  failure (new_full_parts config handle executor) t =
      error_of (S.new_full_parts config handle executor t)
  failure (block_import client period chain handle) t =
      error_of (S.block_import client period chain handle t)
  failure (import_queue params) t = error_of (S.import_queue params t)
  failure (build_network params) t = error_of (S.build_network params t)
  failure (offchain_workers_new options) t = error_of (S.offchain_workers_new options t)
  failure (spawn_tasks params) t = error_of (S.spawn_tasks params t)
  failure (slot_duration client) t = error_of (S.slot_duration client t)
  failure (start_aura params) t = error_of (S.start_aura params t)
  failure (run_grandpa_voter params) t = error_of (S.run_grandpa_voter params t)
  failure (spawn tasks task) t = none

  -- No call of the trace failed.
  abbrev pub AllSucceeded : Trace T → Type 0
  AllSucceeded [] = Unit
  AllSucceeded (c ∷ t) = (failure c t ≡ none) × AllSucceeded t

  -- How a piece of code came to its end. If it returned, no call failed. If it returned an error,
  -- that is the error of the last call, and no call before it failed. If it panicked, no call
  -- failed, and the client has no genesis block.
  abbrev pub IsFailFast : {A : Type 0} → Result (Failure T) A × Trace T → Type 0
  IsFailFast (ok _, t) = AllSucceeded t
  IsFailFast (err (service e), t) =
      (c : LibraryCall T) × (before : Trace T) × (t ≡ c ∷ before)
      × (failure c before ≡ some e)
      × AllSucceeded before
  IsFailFast (err (panicked message), t) =
      (message ≡ "Genesis block exists; qed")
      × (client : T.Client) × ((h : T.Hash) → S.block_hash client 0 ≢ ok (some h))
      × AllSucceeded t

  pub record FailsFast {A : Type 0} (m : Action T A) : Type 0 where
    pub at : (t : Trace T) → AllSucceeded t → IsFailFast (m t)

module _ {T : Types} {S : Library T} {A : Type 0} where
  pub FailsFast-pure : (a : A) → FailsFast S (pure a)
  unfolding pure
  FailsFast-pure a = record { at = λ t h. h }

  pub FailsFast-if :
      (b : Bool) (m n : Action T A)
      → FailsFast S m
      → FailsFast S n
      → FailsFast S (if b then m else n)
  FailsFast-if true m n h k = h
  FailsFast-if false m n h k = k

module _ {T : Types} {S : Library T} where
  pub FailsFast-spawn_task :
      (tasks : T.TaskManager) (task : Task) → FailsFast S (spawn_task {T = T} tasks task)
  unfolding spawn_task
  FailsFast-spawn_task tasks task = record { at = λ t h. (refl, h) }

module _ {T : Types} {S : Library T} {A B : Type 0} where
  FailsFast-continue :
      (f : A → Action T B) (r : Result (Failure T) A) (t : Trace T)
      → ((a : A) → FailsFast S (f a))
      → IsFailFast S (r, t)
      → IsFailFast S (continue r f t)
  FailsFast-continue f (ok a) t k h = (k a).at t h
  FailsFast-continue f (err (service e)) t k h = h
  FailsFast-continue f (err (panicked message)) t k h = h

  pub FailsFast-bind :
      (m : Action T A) (f : A → Action T B)
      → FailsFast S m
      → ((a : A) → FailsFast S (f a))
      → FailsFast S (m >>= f)
  unfolding ◌>>=◌
  FailsFast-bind m f h k = record { at = λ t p. FailsFast-continue f (m t).0 (m t).1 k (h.at t p) }

  -- A call whose answer is that of the library.
  pub FailsFast-call :
      (c : LibraryCall T) (answer : Answer T A) (f : A → Action T B)
      → ((t : Trace T) → failure S c t ≡ error_of (answer t))
      → ((a : A) → FailsFast S (f a))
      → FailsFast S (perform c answer >>= f)
  unfolding ◌>>=◌
  FailsFast-call c answer f e k = record {
    at = λ t h. elim (Result-cases (answer t)) [
      | inl (a, r) ↦ rw r ((k a).at (c ∷ t) (rw (e t, r) refl, h))
      | inr (x, r) ↦ rw r (c, t, refl, rw (e t, r) refl, h)
    ];
  }

module _ {T : Types} {S : Library T} {B : Type 0} where
  pub FailsFast-genesis :
      (client : T.Client) (f : T.Hash → Action T B)
      → ((h : T.Hash) → FailsFast S (f h))
      → FailsFast S (expect (S.block_hash client 0) "Genesis block exists; qed" >>= f)
  unfolding ◌>>=◌
  FailsFast-genesis client f k = go (S.block_hash client 0) refl
    where
      go :
          (r : Result T.ServiceError (Option T.Hash))
          → S.block_hash client 0 ≡ r
          → FailsFast S (expect r "Genesis block exists; qed" >>= f)
      go (ok (some h)) e = k h
      go (ok none) e = record { at = λ t p. (refl, client, λ h q. cc, p) }
      go (err _) e = record { at = λ t p. (refl, client, λ h q. cc, p) }
