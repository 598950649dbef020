-- ===== src/Runtime/Chain/Time.antt =====
-- The time that blocks take, by the slots of runtime/src/configs/mod.rs and the constants of
-- runtime/src/lib.rs.
use create_chain_substrate_n.Common.{
  ℕ, ◌+◌, ◌*◌, ◌/◌, ◌≤◌, ◌<◌, ◌≡◌, ok, ap, sym, ◌∙◌, List, length, arith,
}
use create_chain_substrate_n.Template.{Config, IsLawful}
use create_chain_substrate_n.Template.Weights.{WeightApi}
use create_chain_substrate_n.Runtime.{slot_duration, minutes, hours, days}
use create_chain_substrate_n.Runtime.Genesis.{GenesisApi}
use create_chain_substrate_n.Runtime.Configs.{LimitsApi, TimeApi, IsLawfulTime}
use create_chain_substrate_n.Runtime.Configs.Times.{aura_slot_duration_lem, accepts_block_time_iff}
use create_chain_substrate_n.Runtime.Calls.{CallTypes}
use create_chain_substrate_n.Runtime.Apis.{FrameTypes, FrameApi, execute_block}
use create_chain_substrate_n.Runtime.Chain.{IsLawfulExecutive, IsRegular, Chain, here, next}

module _ {G : GenesisApi} {W : WeightApi} {N : LimitsApi W} {F : FrameTypes} {E : FrameApi G W N F}
    {P : TimeApi} {K : CallTypes} {T : Config} {L : IsLawful T} (M : IsLawfulTime P)
    (X : IsLawfulExecutive E P K L) where
  -- The time of the last block is in its slot; at genesis both are 0.
  abbrev pub IsInSlot : F.State → Type 0
  IsInSlot s = X.now s / slot_duration ≡ X.slot s

  -- What one block does to the slot, the time and the number.
  block_times :
      {t u : F.State} (b : F.LazyBlock)
      → IsRegular E X b
      → execute_block E b t ≡ (ok tt, u)
      → (X.slot t < X.slot u) × IsInSlot u × (X.number u ≡ X.number t + 1)
  block_times {t} {u} b regular done =
      let (accepted, slot, now, number, _) = X.execute_block_lem b t u regular.0 regular.1 done in
      let (later, _, fits) =
        (accepts_block_time_iff P M (X.slot t, X.now t) (X.block_slot b) (X.timestamp b)).0
          accepted in
      (
        omega (arith, later, slot),
        ap (λ n. n / slot_duration) now
            ∙ ap (λ d. X.timestamp b / d) (sym (aura_slot_duration_lem P M))
            ∙ fits
            ∙ sym slot,
        number,
      )

  pub Chain-IsInSlot :
      {s t : F.State} {blocks : List F.LazyBlock} → IsInSlot s → Chain E X s blocks t → IsInSlot t
  Chain-IsInSlot start here = start
  Chain-IsInSlot start (next b chain regular done) = (block_times b regular done).1

  -- Every block has a later slot than the one before, and one more as its number.
  pub Chain-grows :
      {s t : F.State} {blocks : List F.LazyBlock}
      → Chain E X s blocks t
      → (X.slot s + length blocks ≤ X.slot t) × (X.number t ≡ X.number s + length blocks)
  Chain-grows here = (omega arith, omega arith)
  Chain-grows (next b chain regular done) =
      let (later, _, number) = block_times b regular done in
      let (slot, count) = Chain-grows chain in
      (omega (arith, later, slot), omega (arith, number, count))

  -- As many regular blocks as `DAYS`, `HOURS` and `MINUTES` give for some days, hours and minutes,
  -- from a state whose time is in its slot, take that long and the slots that were missed, to less
  -- than one slot more or less: the first block may come anywhere in its slot, and so may the last.
  pub blocks_take_time :
      (d h m missed : ℕ) {s t : F.State} {blocks : List F.LazyBlock}
      → IsInSlot s
      → Chain E X s blocks t
      → length blocks ≡ d * days + h * hours + m * minutes
      → X.slot t ≡ X.slot s + length blocks + missed
      → let duration = (d * 24 * 60 + h * 60 + m) * 60_000 + missed * slot_duration in
        (X.now s + duration < X.now t + slot_duration)
        × (X.now t < X.now s + duration + slot_duration)
  blocks_take_time d h m missed start chain e slots =
      let end = Chain-IsInSlot start chain in
      (omega (arith, start, end, e, slots), omega (arith, start, end, e, slots))
