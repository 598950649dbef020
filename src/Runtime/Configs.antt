-- ===== src/Runtime/Configs.antt =====
-- The configuration of the pallets in runtime/src/configs/mod.rs, as far as the repository computes
-- it: block weights and lengths, and the times of pallet_timestamp and pallet_aura.
pub mod Room
pub mod Fees
pub mod Times
pub mod Pallets
pub mod Tests
use create_chain_substrate_n.Common.{
  ℕ, ◌+◌, ◌*◌, ◌/◌, ◌^◌, ◌≤◌, ◌≡◌, ◌↔◌, ◌⊎◌, ◌<◌, min, Bool, true, false, ◌&&◌,
}
use create_chain_substrate_n.Runtime.{slot_duration}
use create_chain_substrate_n.Template.Weights.{
  WeightApi, WeightInfo, IsLawfulApi, substrate_weight, u64_max,
}

-- What the file uses of frame_support and frame_system for the limits of a block.
pub record LimitsApi (W : WeightApi) : Type 1 where
  pub Perbill : Type 0
  pub BlockWeights : Type 0
  pub BlockLength : Type 0
  pub from_percent : ℕ → Perbill
  pub with_sensible_defaults : W.Weight → Perbill → BlockWeights
  pub max_with_normal_ratio : ℕ → Perbill → BlockLength
  pub weight_ref_time_per_second : ℕ

-- The documented behaviour: a weight of 10^12 is a second, a ratio is in parts of 10^9, and the
-- extrinsics of the normal class have at least that part of the block, rounded down.
pub record IsLawfulLimits {W : WeightApi} (L : IsLawfulApi W) (N : LimitsApi W) : Type 0 where
  pub parts : N.Perbill → ℕ
  pub normal_weight : N.BlockWeights → W.Weight
  pub normal_length : N.BlockLength → ℕ
  pub from_percent_lem : (p : ℕ) → p ≤ 100 → parts (N.from_percent p) ≡ p * 10_000_000
  pub second_lem : N.weight_ref_time_per_second ≡ 10 ^ 12
  pub ref_time_lem :
      (w : W.Weight) (r : N.Perbill)
      → L.ref_time w * parts r / 10 ^ 9 ≤ L.ref_time (normal_weight (N.with_sensible_defaults w r))
  pub proof_size_lem :
      (w : W.Weight) (r : N.Perbill)
      → L.proof_size w * parts r / 10 ^ 9
        ≤ L.proof_size (normal_weight (N.with_sensible_defaults w r))
  pub length_lem :
      (n : ℕ) (r : N.Perbill) → n * parts r / 10 ^ 9 ≤ normal_length (N.max_with_normal_ratio n r)

-- `BlockHashCount`
abbrev pub block_hash_count : ℕ
block_hash_count = 2400

-- `SS58Prefix`
abbrev pub ss58_prefix : ℕ
ss58_prefix = 42

module _ (W : WeightApi) (N : LimitsApi W) where
  abbrev pub normal_dispatch_ratio : N.Perbill
  normal_dispatch_ratio = N.from_percent 75

  abbrev pub runtime_block_weights : N.BlockWeights
  runtime_block_weights =
      N.with_sensible_defaults (W.from_parts (2 * N.weight_ref_time_per_second) u64_max)
        normal_dispatch_ratio

  abbrev pub runtime_block_length : N.BlockLength
  runtime_block_length = N.max_with_normal_ratio (5 * 1024 * 1024) normal_dispatch_ratio

-- `WeightInfo` of pallet_template, over `DbWeight = RocksDbWeight`.
abbrev pub template_weight_info : (W : WeightApi) → WeightInfo W
template_weight_info W = substrate_weight W W.rocks_db_weight

-- `MinimumPeriod` of pallet_timestamp, a `u64`.
abbrev pub minimum_period : ℕ
minimum_period = slot_duration / 2

-- `AllowMultipleBlocksPerSlot` of pallet_aura.
abbrev pub allow_multiple_blocks_per_slot : Bool
allow_multiple_blocks_per_slot = false

-- What the configuration uses of pallet_aura and pallet_timestamp: `MinimumPeriodTimesTwo`, by the
-- minimum period; the check of a block's slot against the last; and the check of a block's time
-- against the last time and, as `OnTimestampSet`, against its slot.
pub record TimeApi : Type 0 where
  pub minimum_period_times_two : ℕ → ℕ
  pub accepts_slot : (allow_multiple : Bool) (last slot : ℕ) → Bool
  pub accepts_time : (period last now : ℕ) → Bool
  pub on_timestamp_set : (slot_duration slot now : ℕ) → Bool

-- The documented behaviour: twice the period, in a `u64`; slots increase; times increase by the
-- period at least, unless there is no last time; and a time belongs to its slot.
pub record IsLawfulTime (P : TimeApi) : Type 0 where
  pub times_two_lem : (p : ℕ) → P.minimum_period_times_two p ≡ min (p * 2) u64_max
  pub accepts_slot_lem : (last slot : ℕ) → (P.accepts_slot false last slot ≡ true) ↔ (last < slot)
  pub accepts_time_lem :
      (period last now : ℕ)
      → (P.accepts_time period last now ≡ true) ↔ ((last ≡ 0) ⊎ (last + period ≤ now))
  pub on_timestamp_set_lem :
      (n slot now : ℕ) → 1 ≤ n → (P.on_timestamp_set n slot now ≡ true) ↔ (now / n ≡ slot)

module _ (P : TimeApi) where
  -- `SlotDuration` of pallet_aura.
  abbrev pub aura_slot_duration : ℕ
  aura_slot_duration = P.minimum_period_times_two minimum_period

  -- The checks of a block's slot and time, as the pallets are configured, after a block with the
  -- slot and the time `last`.
  abbrev pub accepts_block_time : (last : ℕ × ℕ) (slot now : ℕ) → Bool
  accepts_block_time last slot now =
      P.accepts_slot allow_multiple_blocks_per_slot last.0 slot
      && P.accepts_time minimum_period last.1 now
      && P.on_timestamp_set aura_slot_duration slot now
