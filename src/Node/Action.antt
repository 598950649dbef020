-- ===== src/Node/Action.antt =====
-- The node's code between the calls: it makes calls, stops at the first error, and may panic.
use mathlib.Core.Path.{fun_ext}
use create_chain_substrate_n.Common.{◌≡◌, refl, String, Result, ok, err, Option, none, some, ◌∷◌}
use create_chain_substrate_n.Node.Types.{Types, Task}
use create_chain_substrate_n.Node.Library.{LibraryCall, spawn, Trace, Answer}

-- How code ends that does not return: with an error, or with a panic and its message.
pub data Failure (T : Types) : Type 0 where
  service : T.ServiceError → Failure T
  panicked : String → Failure T

abbrev pub Action : Types → Type 0 → Type 0
Action T A = Trace T → Result (Failure T) A × Trace T

module _ {T : Types} {A : Type 0} where
  unfoldable pub pure : A → Action T A
  pure a t = (ok a, t)

  unfoldable pub panic : String → Action T A
  panic message t = (err (panicked message), t)

  abbrev as_failure : Result T.ServiceError A → Result (Failure T) A
  as_failure (ok a) = ok a
  as_failure (err e) = err (service e)

  -- `call(…)?`
  unfoldable pub perform : LibraryCall T → Answer T A → Action T A
  perform c answer t = (as_failure (answer t), c ∷ t)

  -- `result.ok().flatten().expect(message)`
  unfoldable pub expect : {E : Type 0} → Result E (Option A) → String → Action T A
  unfolding pure panic
  expect (ok (some a)) message = pure a
  expect (ok none) message = panic message
  expect (err _) message = panic message

module _ {T : Types} where
  -- `task_manager.spawn_handle().spawn(…)` and its like: it does not fail.
  unfoldable pub spawn_task : T.TaskManager → Task → Action T (Unit {0})
  spawn_task tasks task t = (ok tt, spawn tasks task ∷ t)

module _ {T : Types} {A B : Type 0} where
  abbrev pub continue : Result (Failure T) A → (A → Action T B) → Action T B
  continue (ok a) f t = f a t
  continue (err e) f t = (err e, t)

  infixl 5 ◌>>=◌
  unfoldable pub ◌>>=◌ : Action T A → (A → Action T B) → Action T B
  unfolding pure panic perform expect spawn_task
  ◌>>=◌ m f t = let (r, t') = m t in continue r f t'

module _ {T : Types} {B : Type 0} where
  infixl 5 ◌>>◌
  abbrev pub ◌>>◌ : Action T (Unit {0}) → Action T B → Action T B
  m >> n = m >>= λ _. n

module _ {T : Types} {A B C : Type 0} where
  bind-continue :
      (f : A → Action T B) (g : B → Action T C) (r : Result (Failure T) A) (t : Trace T)
      → (continue r f >>= g) t ≡ continue r (λ a. f a >>= g) t
  unfolding ◌>>=◌
  bind-continue f g (ok a) t = refl
  bind-continue f g (err e) t = refl

  pub bind_assoc :
      (m : Action T A) (f : A → Action T B) (g : B → Action T C)
      → (m >>= f >>= g) ≡ (m >>= λ a. f a >>= g)
  unfolding ◌>>=◌
  bind_assoc m f g = fun_ext λ t. bind-continue f g (m t).0 (m t).1

module _ {T : Types} {A B : Type 0} where
  pub pure-bind : (a : A) (f : A → Action T B) → (pure a >>= f) ≡ f a
  unfolding ◌>>=◌
  pure-bind a f = refl
