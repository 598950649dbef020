-- ===== src/Runtime.antt =====
-- The constants of runtime/src/lib.rs and of runtime/src/configs/mod.rs.
pub mod Genesis
pub mod Configs
pub mod Apis
pub mod Chain
pub mod Calls
pub mod Extensions
pub mod Build
pub mod Sample
mod Tests
use create_chain_substrate_n.Common.{ℕ, ◌*◌, ◌/◌, ◌%◌, ◌^◌, String, List, []}

-- `mod block_times`: a `u64` of milliseconds.
abbrev pub milli_secs_per_block : ℕ
milli_secs_per_block = 6000

abbrev pub slot_duration : ℕ
slot_duration = milli_secs_per_block

-- Times in blocks; `as BlockNumber` casts to `u32`.
abbrev pub minutes : ℕ
minutes = 60_000 / (milli_secs_per_block % 2 ^ 32)

abbrev pub hours : ℕ
hours = minutes * 60

abbrev pub days : ℕ
days = hours * 24

abbrev pub block_hash_count : ℕ
block_hash_count = 2400

-- Balances are `u128`.
abbrev pub unit : ℕ
unit = 1_000_000_000_000

abbrev pub milli_unit : ℕ
milli_unit = 1_000_000_000

abbrev pub micro_unit : ℕ
micro_unit = 1_000_000

abbrev pub existential_deposit : ℕ
existential_deposit = milli_unit

-- `MaxAuthorities` of pallet_aura and of pallet_grandpa.
abbrev pub max_authorities : ℕ
max_authorities = 32

-- `sp_version::RuntimeVersion`, without the list of APIs, and the constant `VERSION`.
pub record RuntimeVersion : Type 0 where
  pub spec_name : String
  pub impl_name : String
  pub authoring_version : ℕ
  pub spec_version : ℕ
  pub impl_version : ℕ
  pub transaction_version : ℕ
  pub system_version : ℕ

abbrev pub version : RuntimeVersion
version = record {
  spec_name = "solochain-template-runtime";
  impl_name = "solochain-template-runtime";
  authoring_version = 1;
  spec_version = 100;
  impl_version = 1;
  transaction_version = 1;
  system_version = 1;
}

-- `sp_version::NativeVersion`: the version, and the other authoring versions that can be used.
pub record NativeVersion : Type 0 where
  pub runtime_version : RuntimeVersion
  pub can_author_with : List ℕ

abbrev pub native_version : NativeVersion
native_version = record { runtime_version = version; can_author_with = [] }
