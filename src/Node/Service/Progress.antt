-- ===== src/Node/Service/Progress.antt =====
-- Which calls a piece of the node's code makes: all of a list if it returns, and the first few of
-- the list if it fails. One rule for each way to build an action.
use mathlib.Core.List.{append-nil, append_assoc}
use create_chain_substrate_n.Common.{
  ◌≡◌, refl, sym, ap, ◌∙◌, subst, Result, ok, err, Option, none, some, List, [], ◌∷◌, ◌++◌, Bool,
  true, false, String, if◌then◌else◌, inl, inr, Result-cases,
}
use create_chain_substrate_n.Node.Types.{Types, Task}
use create_chain_substrate_n.Node.Library.{
  LibraryCall, telemetry_worker_new, new_full_parts, block_import, import_queue, build_network,
  offchain_workers_new, spawn_tasks, slot_duration, start_aura, run_grandpa_voter, spawn, Trace,
  Answer,
}
use create_chain_substrate_n.Node.Action.{
  Failure, Action, pure, perform, panic, expect, spawn_task, continue, ◌>>=◌,
}

-- A call of a client crate, without its arguments.
pub data Kind : Type 0 where
  makes_telemetry_worker makes_parts makes_block_import makes_import_queue : Kind
  makes_network makes_offchain_workers spawns_rpc_tasks : Kind
  reads_slot_duration makes_author makes_voter : Kind
  spawns : Task → Kind

abbrev pub kind_of : {T : Types} → LibraryCall T → Kind
kind_of (telemetry_worker_new _) = makes_telemetry_worker
kind_of (new_full_parts _ _ _) = makes_parts
kind_of (block_import _ _ _ _) = makes_block_import
kind_of (import_queue _) = makes_import_queue
kind_of (build_network _) = makes_network
kind_of (offchain_workers_new _) = makes_offchain_workers
kind_of (spawn_tasks _) = spawns_rpc_tasks
kind_of (slot_duration _) = reads_slot_duration
kind_of (start_aura _) = makes_author
kind_of (run_grandpa_voter _) = makes_voter
kind_of (spawn _ task) = spawns task

module _ {T : Types} where
  -- The calls that were made, the first one first.
  abbrev pub kinds : Trace T → List Kind
  kinds [] = []
  kinds (c ∷ t) = kinds t ++ (kind_of c ∷ [])

  -- From the trace `t` an action with the calls `calls` came to this result and trace.
  abbrev pub AfterCalls :
      {A : Type 0} → List Kind → Trace T → Result (Failure T) A × Trace T → Type 0
  AfterCalls calls t (ok _, t') = kinds t' ≡ kinds t ++ calls
  AfterCalls calls t (err _, t') =
      (made : List Kind) × (left : List Kind) × (made ++ left ≡ calls)
      × (kinds t' ≡ kinds t ++ made)

pub record Makes {T : Types} {A : Type 0} (m : Action T A) (calls : List Kind) : Type 0 where
  pub at : (t : Trace T) → AfterCalls calls t (m t)

module _ {T : Types} {A : Type 0} where
  pub Makes-pure : (a : A) → Makes {T = T} (pure a) []
  unfolding pure
  Makes-pure a = record { at = λ t. sym (append-nil _) }

  -- A call is made whether it succeeds or fails.
  pub Makes-perform :
      (c : LibraryCall T) (answer : Answer T A) → Makes (perform c answer) (kind_of c ∷ [])
  unfolding perform
  Makes-perform c answer = record {
    at = λ t. elim (Result-cases (answer t)) [
      | inl (a, r) ↦ rw r refl
      | inr (x, r) ↦ rw r (kind_of c ∷ [], [], refl, refl)
    ];
  }

module _ {T : Types} where
  pub Makes-spawn_task :
      (tasks : T.TaskManager) (task : Task)
      → Makes (spawn_task {T = T} tasks task) (spawns task ∷ [])
  unfolding spawn_task
  Makes-spawn_task tasks task = record { at = λ t. refl }

module _ {T : Types} {B : Type 0} where
  -- What was made before comes first.
  After-shift :
      (first second : List Kind) (t t' : Trace T) (x : Result (Failure T) B × Trace T)
      → kinds t' ≡ kinds t ++ first
      → AfterCalls second t' x
      → AfterCalls (first ++ second) t x
  After-shift first second t t' (ok b, t'') e h =
      h ∙ ap (λ l. l ++ second) e ∙ append_assoc (kinds t) first second
  After-shift first second t t' (err x, t'') e (made, left, whole, h) = (
    first ++ made,
    left,
    append_assoc first made left ∙ ap (λ l. first ++ l) whole,
    h ∙ ap (λ l. l ++ made) e ∙ append_assoc (kinds t) first made,
  )

module _ {T : Types} {A B : Type 0} where
  After-continue :
      (first second : List Kind) (f : A → Action T B) (r : Result (Failure T) A) (t t' : Trace T)
      → ((a : A) → Makes (f a) second)
      → AfterCalls first t (r, t')
      → AfterCalls (first ++ second) t (continue r f t')
  After-continue first second f (ok a) t t' k e = After-shift first second t t' _ e ((k a).at t')
  After-continue first second f (err x) t t' k (made, left, whole, h) =
      (made, left ++ second, sym (append_assoc made left second) ∙ ap (λ l. l ++ second) whole, h)

  pub Makes-bind :
      {first second : List Kind} (m : Action T A) (f : A → Action T B)
      → Makes m first
      → ((a : A) → Makes (f a) second)
      → Makes (m >>= f) (first ++ second)
  unfolding ◌>>=◌
  Makes-bind {first} {second} m f h k = record {
    at = λ t. After-continue first second f (m t).0 t (m t).1 k (h.at t);
  }

  -- A call, and the code behind it.
  pub Makes-call :
      {calls : List Kind} (c : LibraryCall T) (answer : Answer T A) (f : A → Action T B)
      → ((a : A) → Makes (f a) calls)
      → Makes (perform c answer >>= f) (kind_of c ∷ calls)
  Makes-call c answer f k = Makes-bind _ f (Makes-perform c answer) k

  -- A last part that makes no call.
  pub Makes-last :
      {calls : List Kind} (m : Action T A) (f : A → Action T B)
      → Makes m calls
      → ((a : A) → Makes (f a) [])
      → Makes (m >>= f) calls
  Makes-last {calls} m f h k = subst (Makes (m >>= f)) (append-nil calls) (Makes-bind m f h k)

  Makes-stop :
      {calls : List Kind} (message : String) (f : A → Action T B)
      → Makes (panic message >>= f) calls
  unfolding ◌>>=◌
  Makes-stop {calls} message f = record { at = λ t. ([], calls, refl, sym (append-nil _)) }

  pub Makes-expect :
      {E : Type 0} {calls : List Kind} (r : Result E (Option A)) (message : String)
      (f : A → Action T B)
      → ((a : A) → Makes (f a) calls)
      → Makes (expect r message >>= f) calls
  unfolding expect
  Makes-expect (ok (some a)) message f k = Makes-bind _ f (Makes-pure a) k
  Makes-expect (ok none) message f k = Makes-stop message f
  Makes-expect (err x) message f k = Makes-stop message f

module _ {T : Types} {A : Type 0} where
  pub Makes-if :
      {calls : List Kind} (b : Bool) (m n : Action T A)
      → Makes m calls
      → Makes n []
      → Makes (if b then m else n) (if b then calls else [])
  Makes-if true m n h k = h
  Makes-if false m n h k = k
