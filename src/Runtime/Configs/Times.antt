-- ===== src/Runtime/Configs/Times.antt =====
-- The checks of a block's slot and time in runtime/src/configs/mod.rs, as conditions.
use create_chain_substrate_n.Common.{ℕ, ◌+◌, ◌/◌, ◌≤◌, ◌<◌, ◌≡◌, ◌↔◌, ◌⊎◌, true, arith}
use create_chain_substrate_n.Runtime.{slot_duration}
use create_chain_substrate_n.Runtime.Configs.{
  TimeApi, IsLawfulTime, aura_slot_duration, minimum_period, accepts_block_time,
}

module _ (P : TimeApi) (M : IsLawfulTime P) where
  -- The runtime's slots are as long as a block takes.
  pub aura_slot_duration_lem : aura_slot_duration P ≡ slot_duration
  aura_slot_duration_lem = M.times_two_lem minimum_period

  -- The three checks together.
  pub accepts_block_time_iff :
      (last : ℕ × ℕ) (slot now : ℕ)
      → (accepts_block_time P last slot now ≡ true) ↔ (
          (last.0 < slot)
          × ((last.1 ≡ 0) ⊎ (last.1 + minimum_period ≤ now))
          × (now / aura_slot_duration P ≡ slot))
  accepts_block_time_iff last slot now = ground (
    arith,
    M.accepts_slot_lem last.0 slot,
    M.accepts_time_lem minimum_period last.1 now,
    M.on_timestamp_set_lem (aura_slot_duration P) slot now (omega (arith, aura_slot_duration_lem)),
  )
