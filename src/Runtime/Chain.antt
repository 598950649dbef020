-- ===== src/Runtime/Chain.antt =====
-- Chains of blocks that `execute_block` of runtime/src/apis.rs accepts one after another, with the
-- pallets as runtime/src/lib.rs and runtime/src/configs/mod.rs put them together.
pub mod Time
pub mod Value
mod Tests
use create_chain_substrate_n.Common.{◌≢◌, All, ℕ, ◌+◌, ◌≡◌, true, ok, List, [], ◌∷◌, ◌++◌}
use create_chain_substrate_n.Template.{Config, IsLawful}
use create_chain_substrate_n.Template.Weights.{WeightApi}
use create_chain_substrate_n.Template.Requests.{Request, AllInRange, run}
use create_chain_substrate_n.Runtime.Genesis.{GenesisApi}
use create_chain_substrate_n.Runtime.Configs.{LimitsApi, TimeApi, accepts_block_time}
use create_chain_substrate_n.Runtime.Calls.{CallTypes, RuntimeCall, template_call, pallet_of, sudo}
use create_chain_substrate_n.Runtime.Apis.{FrameTypes, FrameApi, execute_block}

-- The calls that the runtime hands to the template pallet, with their origins.
abbrev pub template_requests :
    (T : Config) {K : CallTypes} → List (T.OriginFor × RuntimeCall K) → List (Request T)
template_requests T [] = []
template_requests T ((origin, template_call call) ∷ rest) =
    (origin, call) ∷ template_requests T rest
template_requests T (_ ∷ rest) = template_requests T rest

abbrev pub WithoutSudo : {O : Type 0} {K : CallTypes} → List (O × RuntimeCall K) → Type 0
WithoutSudo extrinsics = All (λ x. pallet_of x.1 ≢ sudo) extrinsics

-- The documented behaviour of the Executive on a block, where it accepts the block, its header has
-- a slot, and it has no call of pallet_sudo, which alone dispatches other calls and as the root.
-- Then the slot and the timestamp have passed the checks of pallet_aura and pallet_timestamp, and
-- are kept; the number is one more; and the calls are dispatched in turn, of which those of the
-- template pallet alone reach its storage, where the events are cleared before and the number is
-- set. Their arguments were decoded as `u32`.
pub record IsLawfulExecutive {G : GenesisApi} {W : WeightApi} {N : LimitsApi W} {F : FrameTypes}
    (E : FrameApi G W N F) (P : TimeApi) (K : CallTypes) {T : Config} (L : IsLawful T)
    : Type 1 where
  pub storage : F.State → T.State
  pub number : F.State → ℕ
  pub slot : F.State → ℕ
  pub now : F.State → ℕ
  pub HasSlot : F.LazyBlock → Type 0
  pub block_slot : F.LazyBlock → ℕ
  pub timestamp : F.LazyBlock → ℕ
  pub extrinsics : F.LazyBlock → List (T.OriginFor × RuntimeCall K)
  pub extrinsics-AllInRange : (b : F.LazyBlock) → AllInRange T (template_requests T (extrinsics b))
  -- the storage of the template pallet once the block is initialised
  pub initialized : F.LazyBlock → F.State → T.State
  pub get-initialized :
      (b : F.LazyBlock) (s : F.State) → T.get (initialized b s) ≡ T.get (storage s)
  pub block_number-initialized :
      (b : F.LazyBlock) (s : F.State) → L.block_number (initialized b s) ≡ number s + 1
  pub events-initialized : (b : F.LazyBlock) (s : F.State) → L.events (initialized b s) ≡ []
  pub execute_block_lem :
      (b : F.LazyBlock) (s s' : F.State)
      → HasSlot b
      → WithoutSudo (extrinsics b)
      → E.execute_block b s ≡ (ok tt, s')
      → (accepts_block_time P (slot s, now s) (block_slot b) (timestamp b) ≡ true)
        × (slot s' ≡ block_slot b)
        × (now s' ≡ timestamp b)
        × (number s' ≡ number s + 1)
        × (storage s' ≡ run T (template_requests T (extrinsics b)) (initialized b s))

module _ {G : GenesisApi} {W : WeightApi} {N : LimitsApi W} {F : FrameTypes} (E : FrameApi G W N F)
    {P : TimeApi} {K : CallTypes} {T : Config} {L : IsLawful T}
    (X : IsLawfulExecutive E P K L) where
  -- Its header has a slot, and it has no call of pallet_sudo.
  abbrev pub IsRegular : F.LazyBlock → Type 0
  IsRegular b = X.HasSlot b × WithoutSudo (X.extrinsics b)

  -- Its calls of the template pallet.
  abbrev pub requests : F.LazyBlock → List (Request T)
  requests b = template_requests T (X.extrinsics b)

  -- Regular blocks, the last first, that the runtime executes from one state to another.
  pub data Chain (s : F.State) : List F.LazyBlock → F.State → Type 0 where
    here : Chain s [] s
    next :
        {blocks : List F.LazyBlock} {t u : F.State} (b : F.LazyBlock)
        → Chain s blocks t
        → IsRegular b
        → execute_block E b t ≡ (ok tt, u)
        → Chain s (b ∷ blocks) u

  -- The calls of the template pallet in the blocks, the first one first.
  abbrev pub all_requests : List F.LazyBlock → List (Request T)
  all_requests [] = []
  all_requests (b ∷ blocks) = all_requests blocks ++ requests b
