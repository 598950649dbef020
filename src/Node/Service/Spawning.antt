-- ===== src/Node/Service/Spawning.antt =====
-- The tasks that `new_full` of node/src/service.rs hands to the task manager.
use mathlib.Core.List.{append_assoc}
use create_chain_substrate_n.Common.{
  ◌≡◌, refl, sym, ap, ◌∙◌, subst, Result, ok, err, Option, none, some, List, [], ◌∷◌, ◌++◌, not,
  if◌then◌else◌, arith,
}
use create_chain_substrate_n.Node.Types.{Types, Configuration, Task}
use create_chain_substrate_n.Node.Library.{Library, LibraryCall, spawn, Trace}
use create_chain_substrate_n.Node.Action.{Failure}
use create_chain_substrate_n.Node.Service.Partial.{telemetry_task, not_empty}
use create_chain_substrate_n.Node.Service.Full.{offchain_task, aura_task, grandpa_task, new_full}
use create_chain_substrate_n.Node.Service.Progress.{Kind, spawns, kind_of, kinds, AfterCalls}
use create_chain_substrate_n.Node.Service.Sequence.{planned_calls, new_full_sequence}

module _ {T : Types} where
  abbrev pub task_of : LibraryCall T → List Task
  task_of (spawn _ task) = task ∷ []
  task_of _ = []

  -- The tasks that were handed to the task manager, the first one first.
  abbrev pub spawned : Trace T → List Task
  spawned [] = []
  spawned (c ∷ t) = spawned t ++ task_of c

  -- From the trace `t` an action with the tasks `tasks` came to this result and trace.
  abbrev pub After : {A : Type 0} → List Task → Trace T → Result (Failure T) A × Trace T → Type 0
  After tasks t (ok _, t') = spawned t' ≡ spawned t ++ tasks
  After tasks t (err _, t') =
      (made : List Task) × (left : List Task) × (made ++ left ≡ tasks)
      × (spawned t' ≡ spawned t ++ made)

-- The tasks among some calls.
abbrev task_in : Kind → List Task
task_in (spawns task) = task ∷ []
task_in _ = []

abbrev tasks_in : List Kind → List Task
tasks_in [] = []
tasks_in (k ∷ rest) = task_in k ++ tasks_in rest

tasks_in-append : (xs ys : List Kind) → tasks_in (xs ++ ys) ≡ tasks_in xs ++ tasks_in ys
tasks_in-append [] ys = refl
tasks_in-append (x ∷ xs) ys =
    ap (λ l. task_in x ++ l) (tasks_in-append xs ys)
    ∙ sym (append_assoc (task_in x) (tasks_in xs) (tasks_in ys))

module _ {T : Types} where
  task_of-kind_of : (c : LibraryCall T) → tasks_in (kind_of c ∷ []) ≡ task_of c
  task_of-kind_of c = ground arith

  tasks_in-kinds : (t : Trace T) → tasks_in (kinds t) ≡ spawned t
  tasks_in-kinds [] = refl
  tasks_in-kinds (c ∷ t) =
      tasks_in-append (kinds t) (kind_of c ∷ [])
      ∙ ap (λ l. l ++ tasks_in (kind_of c ∷ [])) (tasks_in-kinds t)
      ∙ ap (λ l. spawned t ++ l) (task_of-kind_of c)

  -- The tasks of the calls that were made.
  After-AfterCalls :
      {A : Type 0} (calls : List Kind) (r : Result (Failure T) A) (t : Trace T)
      → AfterCalls calls [] (r, t)
      → After (tasks_in calls) [] (r, t)
  After-AfterCalls calls (ok a) t h = sym (tasks_in-kinds t) ∙ ap tasks_in h
  After-AfterCalls calls (err x) t (made, left, whole, h) = (
    tasks_in made,
    tasks_in left,
    sym (tasks_in-append made left) ∙ ap tasks_in whole,
    sym (tasks_in-kinds t) ∙ ap tasks_in h,
  )

abbrev telemetry_tasks {ℓ} : {A : Type ℓ} → Option A → List Task
telemetry_tasks none = []
telemetry_tasks (some _) = telemetry_task ∷ []

module _ {T : Types} (S : Library T) where
  -- The tasks that a configuration asks for, in their order.
  abbrev pub planned_tasks : Configuration T → List Task
  planned_tasks config =
      telemetry_tasks (not_empty S config.telemetry_endpoints)
      ++ ((if config.offchain_worker_enabled then offchain_task ∷ [] else [])
          ++ ((if S.is_authority config.role then aura_task ∷ [] else [])
              ++ (if not config.disable_grandpa then grandpa_task ∷ [] else [])))

  planned_calls-planned_tasks :
      (config : Configuration T) → tasks_in (planned_calls S config) ≡ planned_tasks config
  planned_calls-planned_tasks config = ground arith

  -- From no calls at all: if `new_full` returns, it has handed over exactly the tasks that the
  -- configuration asks for, in that order: the telemetry worker if there are endpoints, the
  -- off-chain workers if they are enabled, the author if the role is an authority, the GRANDPA
  -- voter unless it is disabled. If it fails at any point, it has handed over the first few of them.
  pub new_full_tasks :
      (config : Configuration T) → After (planned_tasks config) [] (new_full S config [])
  new_full_tasks config =
      subst (λ tasks. After tasks [] (new_full S config [])) (planned_calls-planned_tasks config)
        (After-AfterCalls (planned_calls S config) (new_full S config []).0 (new_full S config []).1
          (new_full_sequence S config))
