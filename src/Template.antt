-- ===== src/Template.antt =====
-- The pallet of pallets/template/src/lib.rs: its storage item `Something`, its event, its errors
-- and its two dispatchable calls, over the part of FRAME that they use.
mod Frame
pub mod Requests
pub mod Calls
pub mod History
pub mod Totals
pub mod Outcomes
pub mod Benchmarks
pub mod Mock
pub mod Weights
pub mod Encoding
pub mod Tests
unfoldable pub use Frame.*
use create_chain_substrate_n.Common.{
  ℕ, ◌+◌, ◌-◌, ◌^◌, Result, Effect, Option, none, some, pure, fail, lift, gets, modify, ok_or,
  ◌>>=◌, ◌>>◌, ltb, if◌then◌else◌,
}

-- `u32::MAX`
abbrev pub u32_max : ℕ
u32_max = 2 ^ 32 - 1

-- `u32::checked_add`
abbrev pub checked_add : ℕ → ℕ → Option ℕ
checked_add a b = if ltb u32_max (a + b) then none else some (a + b)

module _ (T : Config) where
  abbrev pub Dispatch : Type 0 → Type 0
  Dispatch A = Effect T.State T.DispatchError A

  -- `DispatchResult`, for code that reads and writes the storage.
  abbrev pub DispatchResult : Type 0
  DispatchResult = Dispatch (Unit {0})

  -- The function that `#[pallet::generate_deposit]` makes.
  abbrev pub deposit_event : Event T.AccountId → DispatchResult
  deposit_event e = modify (T.system_deposit_event (T.into_runtime_event e))

  unfoldable pub do_something : T.OriginFor → ℕ → DispatchResult
  do_something origin something = do
    who ← lift (T.ensure_signed origin)
    modify (T.put something)
    deposit_event (something_stored something who)
    pure tt

  -- The arm `Some(old)` of the match in `cause_error`.
  abbrev pub increment : ℕ → DispatchResult
  increment old = do
    new ← lift (ok_or (checked_add old 1) (T.into_dispatch_error storage_overflow))
    modify (T.put new)
    pure tt

  unfoldable pub cause_error : T.OriginFor → DispatchResult
  cause_error origin = do
    _who ← lift (T.ensure_signed origin)
    value ← gets T.get
    elim value [ none ↦ fail (T.into_dispatch_error none_value) | some old ↦ increment old ]

  -- A call, dispatched to its function with the origin of the extrinsic.
  unfoldable pub dispatch : Call → T.OriginFor → DispatchResult
  unfolding do_something cause_error
  dispatch (do_something_call something) origin = do_something origin something
  dispatch cause_error_call origin = cause_error origin
