-- ===== src/Node/Service/Timing.antt =====
-- The times of the blocks that the author of node/src/service.rs makes, against the checks that the
-- runtime makes of them, as runtime/src/configs/mod.rs configures its pallets.
use create_chain_substrate_n.Common.{
  err, Result, ℕ, ◌+◌, ◌/◌, ◌%◌, ◌≤◌, ◌<◌, ◌≡◌, sym, ◌∙◌, ap, ◌↔◌, ◌⊎◌, true, ok, List, [], ◌∷◌,
  arith,
}
use create_chain_substrate_n.Runtime.{slot_duration}
use create_chain_substrate_n.Runtime.Configs.{
  TimeApi, IsLawfulTime, aura_slot_duration, minimum_period, accepts_block_time,
}
use create_chain_substrate_n.Runtime.Configs.Times.{aura_slot_duration_lem, accepts_block_time_iff}
use create_chain_substrate_n.Node.Types.{Types}
use create_chain_substrate_n.Node.Library.{Library}
use create_chain_substrate_n.Node.Service.Full.{author_inherents}

-- The documented behaviour of the client's clock: a slot is the time over the duration.
pub record IsLawfulClock {T : Types} (S : Library T) : Type 0 where
  pub millis : T.Timestamp → ℕ
  pub duration_millis : T.SlotDuration → ℕ
  pub slot_number : T.Slot → ℕ
  pub slot_lem :
      (t : T.Timestamp) (d : T.SlotDuration)
      → 1 ≤ duration_millis d
      → slot_number (S.from_timestamp_and_slot_duration t d) ≡ millis t / duration_millis d

module _ {T : Types} (S : Library T) (K : IsLawfulClock S) (P : TimeApi) (M : IsLawfulTime P)
    (duration : T.SlotDuration) where
  -- The runtime accepts a slot and a time, after a block with the slot and the time `last`.
  abbrev pub Accepts : (last : ℕ × ℕ) → Result T.ServiceError (T.Slot × T.Timestamp) → Type 0
  Accepts last (ok (slot, now)) =
      accepts_block_time P last (K.slot_number slot) (K.millis now) ≡ true
  Accepts last (err _) = ⊥

  -- It accepts what the author makes at a time.
  abbrev pub AcceptsAuthor : (last : ℕ × ℕ) → T.Timestamp → Type 0
  AcceptsAuthor last now = Accepts last (author_inherents S duration now)

  -- Each of the blocks, after the ones before it.
  abbrev pub AcceptsAuthors : (last : ℕ × ℕ) → List T.Timestamp → Type 0
  AcceptsAuthors last [] = Unit
  AcceptsAuthors last (now ∷ rest) =
      AcceptsAuthor last now × AcceptsAuthors (K.millis now / slot_duration, K.millis now) rest

  -- Each time is in a later slot than the one before, and in the first half of its slot.
  abbrev pub IsPunctual : (last : ℕ) → List T.Timestamp → Type 0
  IsPunctual last [] = Unit
  IsPunctual last (now ∷ rest) =
      (last / slot_duration < K.millis now / slot_duration)
      × (K.millis now % slot_duration ≤ minimum_period)
      × IsPunctual (K.millis now) rest

  module _ (read : K.duration_millis duration ≡ aura_slot_duration P) where
    -- An author that read the slot duration from the runtime makes, at any time, a slot and a time
    -- that the runtime accepts exactly if the slot is later than the last block's, and the time at
    -- least half a slot later than the last block's, if that had one: the slot always fits the time.
    pub author_accepted_iff :
        (last : ℕ × ℕ) (now : T.Timestamp)
        → AcceptsAuthor last now ↔ (
            (last.0 < K.millis now / slot_duration)
            × ((last.1 ≡ 0) ⊎ (last.1 + minimum_period ≤ K.millis now)))
    unfolding author_inherents
    author_accepted_iff last now =
        let length_ = read ∙ aura_slot_duration_lem P M in
        let s = K.slot_lem now duration (omega (arith, length_)) in
        let e = s ∙ ap (λ d. K.millis now / d) length_ in
        let (to, from) =
          accepts_block_time_iff P M last
            (K.slot_number (S.from_timestamp_and_slot_duration now duration)) (K.millis now) in
        (
          λ h. (rw e at (to h).0, (to h).1),
          λ h.
              from (rw e h.0, h.1, ap (λ d. K.millis now / d) (aura_slot_duration_lem P M) ∙ sym e),
        )
