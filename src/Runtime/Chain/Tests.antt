-- ===== src/Runtime/Chain/Tests.antt =====
-- A concrete chain with the checks of the times and the template pallet, and the theorems at it.
use create_chain_substrate_n.Common.{
  ℕ, zero, suc, ◌+◌, ◌*◌, ◌≤◌, ◌<◌, ◌≡◌, refl, ok, err, none, some, List, [], ◌∷◌, true, false,
  Bool, inr, if◌then◌else◌, arith, Effect, Result, ap, sym, ◌++◌,
}
use create_chain_substrate_n.Template.{
  do_something_call, cause_error_call, something_stored, dispatch,
}
use create_chain_substrate_n.Template.Requests.{Request, AllInRange, run}
use create_chain_substrate_n.Template.Tests.{
  RawOrigin, rocks, signed, root, Storage, test, test-IsLawful,
}
use create_chain_substrate_n.Template.Totals.{total, tally}
use create_chain_substrate_n.Runtime.{slot_duration}
use create_chain_substrate_n.Runtime.Sample.{keys}
use create_chain_substrate_n.Runtime.Genesis.{Panic, panic}
use create_chain_substrate_n.Runtime.Configs.{accepts_block_time}
use create_chain_substrate_n.Runtime.Configs.Times.{accepts_block_time_iff}
use create_chain_substrate_n.Runtime.Configs.Tests.{limits, times, times-IsLawful}
use create_chain_substrate_n.Runtime.Calls.{RuntimeCall, template_call, balances_call}
use create_chain_substrate_n.Runtime.Calls.Sample.{calls}
use create_chain_substrate_n.Runtime.Apis.Tests.{stub_frame, stub_types}
use create_chain_substrate_n.Runtime.Apis.{FrameApi}
use create_chain_substrate_n.Runtime.Chain.{
  IsLawfulExecutive, IsRegular, template_requests, Chain, here, next,
}
use create_chain_substrate_n.Runtime.Chain.Time.{blocks_take_time}
use create_chain_substrate_n.Runtime.Chain.Value.{seen, events_of, Chain-view}

record World : Type 0 where
  storage : Storage
  number : ℕ
  slot : ℕ
  now : ℕ

record Block : Type 0 where
  slot : ℕ
  time : ℕ
  extrinsics : List (RawOrigin × RuntimeCall calls)
  in_range : AllInRange test (template_requests test extrinsics)

abbrev initialized : Block → World → Storage
initialized b s = record { value = s.storage.value; number = s.number + 1; log = [] }

abbrev after : Block → World → World
after b s = record {
  storage = run test (template_requests test b.extrinsics) (initialized b s);
  number = s.number + 1;
  slot = b.slot;
  now = b.time;
}

abbrev execute : Block → Effect World Panic (Unit {0})
execute b s =
    if accepts_block_time times (s.slot, s.now) b.slot b.time
    then (ok tt, after b s)
    else (err (panic "the block is refused"), s)

abbrev world : FrameApi keys rocks limits (stub_types World Block)
world = stub_frame execute (λ s. []) (λ s. []) (λ bytes s. s)

execute_lem :
    (b : Block) (s s' : World)
    → execute b s ≡ (ok tt, s')
    → (accepts_block_time times (s.slot, s.now) b.slot b.time ≡ true)
      × (s'.slot ≡ b.slot)
      × (s'.now ≡ b.time)
      × (s'.number ≡ s.number + 1)
      × (s'.storage ≡ run test (template_requests test b.extrinsics) (initialized b s))
execute_lem b s s' done = go (accepts_block_time times (s.slot, s.now) b.slot b.time) done
  where
    go :
        (accepted : Bool)
        → ◌≡◌ {A = Result Panic (Unit {0}) × World}
            (if accepted then (ok tt, after b s) else (err (panic "the block is refused"), s))
            (ok tt, s')
        → (accepted ≡ true)
          × (s'.slot ≡ b.slot)
          × (s'.now ≡ b.time)
          × (s'.number ≡ s.number + 1)
          × (s'.storage ≡ run test (template_requests test b.extrinsics) (initialized b s))
    go true h =
        let e : after b s ≡ s' = ap (λ x. x.1) h in
        (
          refl,
          ap (λ w. w.slot) (sym e),
          ap (λ w. w.now) (sym e),
          ap (λ w. w.number) (sym e),
          ap (λ w. w.storage) (sym e),
        )
    go false h = cc

abbrev world-IsLawfulExecutive : IsLawfulExecutive world times calls test-IsLawful
world-IsLawfulExecutive = record {
  storage = λ s. s.storage;
  number = λ s. s.number;
  slot = λ s. s.slot;
  now = λ s. s.now;
  HasSlot = λ b. Unit;
  block_slot = λ b. b.slot;
  timestamp = λ b. b.time;
  extrinsics = λ b. b.extrinsics;
  extrinsics-AllInRange = λ b. b.in_range;
  initialized = initialized;
  get-initialized = λ b s. refl;
  block_number-initialized = λ b s. refl;
  events-initialized = λ b s. refl;
  execute_block_lem = λ b s s' _ _ done. execute_lem b s s' done;
}

-- The state at genesis, and after one block and two.
abbrev at_genesis : World
at_genesis = record {
  storage = record { value = none; number = 0; log = [] };
  number = 0;
  slot = 0;
  now = 0;
}

abbrev first : Block
first = record {
  slot = 100;
  time = 603_000;
  extrinsics =
      (signed 1, template_call (do_something_call 41))
      ∷ (signed 2, balances_call 5)
      ∷ (root, template_call (do_something_call 9))
      ∷ [];
  in_range = (omega arith, (omega arith, tt));
}

abbrev second : Block
second = record {
  slot = 101;
  time = 606_000;
  extrinsics =
      (signed 2, template_call cause_error_call)
      ∷ (signed 3, template_call (do_something_call 7))
      ∷ (signed 1, template_call cause_error_call)
      ∷ [];
  in_range = (tt, (omega arith, (tt, tt)));
}

abbrev calls_of : Block → List (Request test)
calls_of b = template_requests test b.extrinsics

first-IsRegular : IsRegular world world-IsLawfulExecutive first
first-IsRegular = (tt, ground arith)

second-IsRegular : IsRegular world world-IsLawfulExecutive second
second-IsRegular = (tt, ground arith)

two_blocks :
    Chain world world-IsLawfulExecutive at_genesis
      (second ∷ first ∷ [])
      (after second (after first at_genesis))
two_blocks = next second (next first here first-IsRegular refl) second-IsRegular refl

Chain-view_example : seen world-IsLawfulExecutive (after second (after first at_genesis)) ≡ (
  total (tally test (calls_of first ++ calls_of second) (none, 0)),
  events_of test (calls_of second),
)
Chain-view_example = Chain-view world-IsLawfulExecutive second tt two_blocks

-- One more signed `cause_error` after the last store, which is the one event of the block.
two_blocks_seen :
    seen world-IsLawfulExecutive (after second (after first at_genesis))
    ≡ (some 8, something_stored 7 3 ∷ [])
unfolding run dispatch
two_blocks_seen = refl

-- Empty blocks, one at the beginning of each slot.
abbrev tick : ℕ → Block
tick k = record { slot = 101 + k; time = 6000 * (101 + k); extrinsics = []; in_range = tt }

abbrev at : ℕ → World
at zero = after first at_genesis
at (suc k) = after (tick k) (at k)

abbrev ticks : ℕ → List Block
ticks zero = []
ticks (suc k) = tick k ∷ ticks k

at_times : (k : ℕ) → ((at k).slot ≡ 100 + k) × ((at k).now + 3000 ≤ 6000 * (101 + k))
at_times zero = (refl, omega arith)
at_times (suc k) = (omega arith, omega arith)

tick_accepted :
    (k : ℕ) → accepts_block_time times ((at k).slot, (at k).now) (101 + k) (6000 * (101 + k)) ≡ true
tick_accepted k =
    (accepts_block_time_iff times times-IsLawful ((at k).slot, (at k).now) (101 + k)
        (6000 * (101 + k))).1
      (omega (arith, at_times k), inr (omega (arith, at_times k)), omega arith)

ticking : (k : ℕ) → Chain world world-IsLawfulExecutive (at 0) (ticks k) (at k)
ticking zero = here
ticking (suc k) = next (tick k) (ticking k) (tt, tt) (rw (tick_accepted k) refl)

-- The ten blocks of a minute, in ten slots.
blocks_take_time_example :
    (603_000 + ((0 * 24 * 60 + 0 * 60 + 1) * 60_000 + 0 * slot_duration)
      < (at 10).now + slot_duration)
    × ((at 10).now
        < 603_000 + ((0 * 24 * 60 + 0 * 60 + 1) * 60_000 + 0 * slot_duration) + slot_duration)
blocks_take_time_example =
    blocks_take_time times-IsLawful world-IsLawfulExecutive 0 0 1 0 refl (ticking 10) refl refl
