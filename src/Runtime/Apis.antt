-- ===== src/Runtime/Apis.antt =====
-- The runtime APIs of runtime/src/apis.rs, and the list of benchmarks of runtime/src/benchmarks.rs.
-- Functions of two APIs that have one name carry the API's name as well.
mod Frame
pub mod Benchmarks
pub mod Dispatch
pub mod Genesis
pub mod Tests
unfoldable pub use Frame.*
use create_chain_substrate_n.Common.{
  ℕ, String, ◌<>◌, Bool, Option, none, some, List, [], ◌∷◌, ◌++◌, map, Result, ok, err, pure, fail,
  lift, gets, ◌>>=◌, ◌>>◌,
}
use create_chain_substrate_n.Template.Weights.{WeightApi}
use create_chain_substrate_n.Runtime.{RuntimeVersion, version as VERSION}
use create_chain_substrate_n.Runtime.Genesis.{
  GenesisApi, GenesisPatch, Panic, panic, get_preset as preset_of, preset_names as names_of_presets,
}
use create_chain_substrate_n.Runtime.Configs.{
  LimitsApi, TimeApi, aura_slot_duration, runtime_block_weights,
}

module _ {G : GenesisApi} {W : WeightApi} {N : LimitsApi W} {F : FrameTypes}
    (E : FrameApi G W N F) where
  -- sp_api::Core
  abbrev pub core_version : Api F RuntimeVersion
  core_version = pure VERSION

  abbrev pub execute_block : F.LazyBlock → Api F (Unit {0})
  execute_block block = E.execute_block block

  abbrev pub initialize_block : F.Header → Api F F.ExtrinsicInclusionMode
  initialize_block header = E.initialize_block header

  -- sp_api::Metadata
  abbrev pub metadata : Api F F.OpaqueMetadata
  metadata = pure (E.opaque_metadata_new E.metadata)

  abbrev pub metadata_at_version : ℕ → Api F (Option F.OpaqueMetadata)
  metadata_at_version v = pure (E.metadata_at_version v)

  abbrev pub metadata_versions : Api F (List ℕ)
  metadata_versions = pure E.metadata_versions

  -- RuntimeViewFunction
  abbrev pub execute_view_function :
      F.ViewFunctionId → G.Bytes → Api F (Result F.ViewFunctionDispatchError G.Bytes)
  execute_view_function id input = E.execute_view_function id input

  -- sp_block_builder::BlockBuilder
  abbrev pub apply_extrinsic : F.Extrinsic → Api F F.ApplyExtrinsicResult
  apply_extrinsic extrinsic = E.apply_extrinsic extrinsic

  abbrev pub finalize_block : Api F F.Header
  finalize_block = E.finalize_block

  abbrev pub inherent_extrinsics : F.InherentData → Api F (List F.Extrinsic)
  inherent_extrinsics inherents = E.create_extrinsics inherents

  abbrev pub check_inherents : F.LazyBlock → F.InherentData → Api F F.CheckInherentsResult
  check_inherents block inherents = E.check_extrinsics inherents block

  -- TaggedTransactionQueue
  abbrev pub validate_transaction :
      F.TransactionSource → F.Extrinsic → F.Hash → Api F F.TransactionValidity
  validate_transaction source tx block_hash = E.validate_transaction source tx block_hash

  -- OffchainWorkerApi
  abbrev pub offchain_worker : F.Header → Api F (Unit {0})
  offchain_worker header = E.offchain_worker header

  -- AuraApi
  abbrev pub aura_api_slot_duration : TimeApi → Api F F.SlotDuration
  aura_api_slot_duration P = pure (E.from_millis (aura_slot_duration P))

  abbrev pub authorities : Api F (List G.AuraId)
  authorities = gets E.aura_authorities

  -- sp_session::SessionKeys
  abbrev pub generate_session_keys : G.Bytes → Option G.Bytes → Api F F.OpaqueGeneratedSessionKeys
  generate_session_keys owner seed = do
    keys ← E.generate owner seed
    pure (E.session_keys_into keys)

  abbrev pub decode_session_keys : G.Bytes → Api F (Option (List (G.Bytes × F.KeyTypeId)))
  decode_session_keys bytes = pure (E.decode_into_raw_public_keys bytes)

  -- GrandpaApi
  abbrev pub grandpa_authorities : Api F (List (G.GrandpaId × ℕ))
  grandpa_authorities = gets E.grandpa_authorities

  abbrev pub current_set_id : Api F ℕ
  current_set_id = gets E.current_set_id

  abbrev pub submit_report_equivocation_unsigned_extrinsic :
      F.EquivocationProof → F.OpaqueKeyOwnershipProof → Api F (Option (Unit {0}))
  submit_report_equivocation_unsigned_extrinsic _ _ = pure none

  abbrev pub generate_key_ownership_proof :
      ℕ → G.GrandpaId → Api F (Option F.OpaqueKeyOwnershipProof)
  generate_key_ownership_proof _ _ = pure none

  -- AccountNonceApi
  abbrev pub account_nonce : G.AccountId → Api F ℕ
  account_nonce account = gets (E.account_nonce account)

  -- TransactionPaymentApi
  abbrev pub query_info : F.Extrinsic → ℕ → Api F F.RuntimeDispatchInfo
  query_info uxt len = E.query_info uxt len

  abbrev pub query_fee_details : F.Extrinsic → ℕ → Api F F.FeeDetails
  query_fee_details uxt len = E.query_fee_details uxt len

  abbrev pub query_weight_to_fee : W.Weight → Api F ℕ
  query_weight_to_fee weight = E.weight_to_fee weight

  abbrev pub query_length_to_fee : ℕ → Api F ℕ
  query_length_to_fee length_ = E.length_to_fee length_

  -- TransactionPaymentCallApi
  abbrev pub query_call_info : F.RuntimeCall → ℕ → Api F F.RuntimeDispatchInfo
  query_call_info call len = E.query_call_info call len

  abbrev pub query_call_fee_details : F.RuntimeCall → ℕ → Api F F.FeeDetails
  query_call_fee_details call len = E.query_call_fee_details call len

  abbrev pub call_query_weight_to_fee : W.Weight → Api F ℕ
  call_query_weight_to_fee weight = E.weight_to_fee weight

  abbrev pub call_query_length_to_fee : ℕ → Api F ℕ
  call_query_length_to_fee length_ = E.length_to_fee length_
