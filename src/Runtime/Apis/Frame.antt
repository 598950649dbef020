-- ===== src/Runtime/Apis/Frame.antt =====
-- The functions of Substrate's crates that runtime/src/apis.rs calls, over the state of the chain.
-- Any of them may panic.
use create_chain_substrate_n.Common.{ℕ, String, Bool, Option, List, Result, Effect}
use create_chain_substrate_n.Template.Weights.{WeightApi}
use create_chain_substrate_n.Runtime.Genesis.{GenesisApi, Panic}
use create_chain_substrate_n.Runtime.Configs.{LimitsApi}

pub record FrameTypes : Type 1 where
  pub State : Type 0
  pub LazyBlock : Type 0
  pub Header : Type 0
  pub ExtrinsicInclusionMode : Type 0
  pub Extrinsic : Type 0
  pub ApplyExtrinsicResult : Type 0
  pub InherentData : Type 0
  pub CheckInherentsResult : Type 0
  pub TransactionSource : Type 0
  pub TransactionValidity : Type 0
  pub Hash : Type 0
  pub RuntimeMetadata : Type 0
  pub OpaqueMetadata : Type 0
  pub ViewFunctionId : Type 0
  pub ViewFunctionDispatchError : Type 0
  pub SlotDuration : Type 0
  pub SessionKeys : Type 0
  pub OpaqueGeneratedSessionKeys : Type 0
  pub KeyTypeId : Type 0
  pub EquivocationProof : Type 0
  pub OpaqueKeyOwnershipProof : Type 0
  pub RuntimeCall : Type 0
  pub RuntimeDispatchInfo : Type 0
  pub FeeDetails : Type 0
  pub BenchmarkLocation : Type 0
  pub BenchmarkList : Type 0
  pub StorageInfo : Type 0
  pub BenchmarkConfig : Type 0
  pub BenchmarkBatch : Type 0
  pub TrackedStorageKey : Type 0
  pub UpgradeCheckSelect : Type 0
  pub TryStateSelect : Type 0
  pub TryRuntimeError : Type 0

-- A call of the runtime: it may change the state, and may panic.
abbrev pub Api : FrameTypes → Type 0 → Type 0
Api F A = Effect F.State Panic A

pub record FrameApi (G : GenesisApi) (W : WeightApi) (N : LimitsApi W) (F : FrameTypes)
    : Type 0 where
  -- frame_executive
  pub execute_block : F.LazyBlock → Api F (Unit {0})
  pub initialize_block : F.Header → Api F F.ExtrinsicInclusionMode
  pub apply_extrinsic : F.Extrinsic → Api F F.ApplyExtrinsicResult
  pub finalize_block : Api F F.Header
  pub validate_transaction :
      F.TransactionSource → F.Extrinsic → F.Hash → Api F F.TransactionValidity
  pub offchain_worker : F.Header → Api F (Unit {0})
  pub try_runtime_upgrade : F.UpgradeCheckSelect → Api F (Result F.TryRuntimeError W.Weight)
  pub try_execute_block :
      F.LazyBlock → Bool → Bool → F.TryStateSelect → Api F (Result F.TryRuntimeError W.Weight)
  -- what the macros of the runtime make
  pub metadata : F.RuntimeMetadata
  pub opaque_metadata_new : F.RuntimeMetadata → F.OpaqueMetadata
  pub metadata_at_version : ℕ → Option F.OpaqueMetadata
  pub metadata_versions : List ℕ
  pub execute_view_function :
      F.ViewFunctionId → G.Bytes → Api F (Result F.ViewFunctionDispatchError G.Bytes)
  pub create_extrinsics : F.InherentData → Api F (List F.Extrinsic)
  pub check_extrinsics : F.InherentData → F.LazyBlock → Api F F.CheckInherentsResult
  pub generate : G.Bytes → Option G.Bytes → Api F F.SessionKeys
  pub session_keys_into : F.SessionKeys → F.OpaqueGeneratedSessionKeys
  pub decode_into_raw_public_keys : G.Bytes → Option (List (G.Bytes × F.KeyTypeId))
  -- the pallets
  pub from_millis : ℕ → F.SlotDuration
  pub aura_authorities : F.State → List G.AuraId
  pub grandpa_authorities : F.State → List (G.GrandpaId × ℕ)
  pub current_set_id : F.State → ℕ
  pub account_nonce : G.AccountId → F.State → ℕ
  pub query_info : F.Extrinsic → ℕ → Api F F.RuntimeDispatchInfo
  pub query_fee_details : F.Extrinsic → ℕ → Api F F.FeeDetails
  pub query_call_info : F.RuntimeCall → ℕ → Api F F.RuntimeDispatchInfo
  pub query_call_fee_details : F.RuntimeCall → ℕ → Api F F.FeeDetails
  pub weight_to_fee : W.Weight → Api F ℕ
  pub length_to_fee : ℕ → Api F ℕ
  pub max_block : N.BlockWeights → W.Weight
  -- the genesis builder's helpers
  pub build_state : G.Bytes → Api F (Result String (Unit {0}))
  pub get_preset :
      Option String → (String → Result Panic (Option G.Bytes)) → Result Panic (Option G.Bytes)
  -- frame_benchmarking
  pub baseline_bench : F.BenchmarkLocation
  pub system_bench : F.BenchmarkLocation
  pub system_extensions_bench : F.BenchmarkLocation
  pub balances_bench : F.BenchmarkLocation
  pub timestamp_bench : F.BenchmarkLocation
  pub sudo_bench : F.BenchmarkLocation
  pub template_bench : F.BenchmarkLocation
  pub list_benchmark : String → F.BenchmarkLocation → Bool → F.BenchmarkList
  pub storage_info : List F.StorageInfo
  pub whitelisted_storage_keys : List F.TrackedStorageKey
  pub add_benchmark :
      F.BenchmarkConfig
      → List F.TrackedStorageKey
      → String
      → F.BenchmarkLocation
      → Api F (Result String (List F.BenchmarkBatch))
  pub debug : F.TryRuntimeError → String
