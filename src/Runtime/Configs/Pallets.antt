-- ===== src/Runtime/Configs/Pallets.antt =====
-- The configurations of the pallets in runtime/src/configs/mod.rs, by the parts that are values.
use create_chain_substrate_n.Common.{ℕ, Bool}
use create_chain_substrate_n.Template.Weights.{WeightApi}
use create_chain_substrate_n.Runtime.{
  RuntimeVersion, version as VERSION, max_authorities as MAX_AUTHORITIES,
  existential_deposit as EXISTENTIAL_DEPOSIT,
}
use create_chain_substrate_n.Runtime.Configs.{
  LimitsApi, TimeApi, runtime_block_weights, runtime_block_length,
  block_hash_count as BLOCK_HASH_COUNT, ss58_prefix as SS58_PREFIX,
  allow_multiple_blocks_per_slot as ALLOW_MULTIPLE, aura_slot_duration,
}

-- `frame_system::Config`
pub record SystemConfig (W : WeightApi) (N : LimitsApi W) : Type 0 where
  pub block_weights : N.BlockWeights
  pub block_length : N.BlockLength
  pub block_hash_count : ℕ
  pub db_weight : W.RuntimeDbWeight
  pub version : RuntimeVersion
  pub ss58_prefix : ℕ
  pub max_consumers : ℕ

abbrev pub system_config : (W : WeightApi) (N : LimitsApi W) → SystemConfig W N
system_config W N = record {
  block_weights = runtime_block_weights W N;
  block_length = runtime_block_length W N;
  block_hash_count = BLOCK_HASH_COUNT;
  db_weight = W.rocks_db_weight;
  version = VERSION;
  ss58_prefix = SS58_PREFIX;
  max_consumers = 16;
}

-- `pallet_aura::Config`
pub record AuraConfig : Type 0 where
  pub max_authorities : ℕ
  pub allow_multiple_blocks_per_slot : Bool
  pub slot_duration : ℕ

abbrev pub aura_config : TimeApi → AuraConfig
aura_config P = record {
  max_authorities = MAX_AUTHORITIES;
  allow_multiple_blocks_per_slot = ALLOW_MULTIPLE;
  slot_duration = aura_slot_duration P;
}

-- `pallet_grandpa::Config`
pub record GrandpaPalletConfig : Type 0 where
  pub max_authorities : ℕ
  pub max_nominators : ℕ
  pub max_set_id_session_entries : ℕ

abbrev pub grandpa_config : GrandpaPalletConfig
grandpa_config = record {
  max_authorities = MAX_AUTHORITIES;
  max_nominators = 0;
  max_set_id_session_entries = 0;
}

-- `pallet_balances::Config`; `MaxFreezes` is the number of reasons that the pallets declare.
pub record BalancesConfig : Type 0 where
  pub max_locks : ℕ
  pub existential_deposit : ℕ
  pub max_freezes : ℕ

abbrev pub balances_config : (freeze_reasons : ℕ) → BalancesConfig
balances_config freeze_reasons = record {
  max_locks = 50;
  existential_deposit = EXISTENTIAL_DEPOSIT;
  max_freezes = freeze_reasons;
}
