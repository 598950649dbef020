-- ===== src/Template/Frame.antt =====
-- What the pallet declares (`Event`, `Error`, `Call`), and what it takes from FRAME: origins,
-- storage, the deposit of events and the conversion of its errors.
use create_chain_substrate_n.Common.{ℕ, ◌≡◌, ◌≢◌, Result, Option, some, List, [], ◌∷◌, ◌++◌}

-- `enum Event<T: Config>`
pub data Event (AccountId : Type 0) : Type 0 where
  something_stored : (something : ℕ) → (who : AccountId) → Event AccountId

-- `enum Error<T>`
pub data Error : Type 0 where
  none_value storage_overflow : Error

-- The calls that `#[pallet::call]` makes of the two functions, with their arguments.
pub data Call : Type 0 where
  do_something_call : (something : ℕ) → Call
  cause_error_call : Call

-- `trait Config: frame_system::Config`, and the functions of FRAME that the pallet calls. `State`
-- is the chain's storage; `get` and `put` are those of `StorageValue<_, u32>` at `Something`.
pub record Config : Type 1 where
  pub AccountId : Type 0
  pub OriginFor : Type 0
  pub DispatchError : Type 0
  pub RuntimeEvent : Type 0
  pub State : Type 0
  pub ensure_signed : OriginFor → Result DispatchError AccountId
  pub get : State → Option ℕ
  pub put : ℕ → State → State
  pub into_runtime_event : Event AccountId → RuntimeEvent
  pub system_deposit_event : RuntimeEvent → State → State
  pub into_dispatch_error : Error → DispatchError

-- The documented behaviour of those functions. `block_number` and `events` read the state of
-- frame_system, which drops the events of the genesis block (number 0).
pub record IsLawful (T : Config) : Type 0 where
  pub block_number : T.State → ℕ
  pub events : T.State → List T.RuntimeEvent
  pub get-put : (n : ℕ) (s : T.State) → T.get (T.put n s) ≡ some n
  pub get-deposit :
      (e : T.RuntimeEvent) (s : T.State) → T.get (T.system_deposit_event e s) ≡ T.get s
  pub block_number-put : (n : ℕ) (s : T.State) → block_number (T.put n s) ≡ block_number s
  pub block_number-deposit :
      (e : T.RuntimeEvent) (s : T.State)
      → block_number (T.system_deposit_event e s) ≡ block_number s
  pub events-put : (n : ℕ) (s : T.State) → events (T.put n s) ≡ events s
  pub events-deposit :
      (e : T.RuntimeEvent) (s : T.State)
      → block_number s ≢ 0
      → events (T.system_deposit_event e s) ≡ events s ++ (e ∷ [])
  pub events-deposit_genesis :
      (e : T.RuntimeEvent) (s : T.State)
      → block_number s ≡ 0
      → events (T.system_deposit_event e s) ≡ events s
  pub into_dispatch_error-injective :
      T.into_dispatch_error none_value ≢ T.into_dispatch_error storage_overflow
