-- ===== src/Runtime/Configs/Tests.antt =====
-- Concrete limits and checks of time, and the theorem about the room of a block at them.
use create_chain_substrate_n.Common.{
  ℕ, ◌+◌, ◌*◌, ◌/◌, ◌^◌, ◌≤◌, ◌<◌, ◌≡◌, ◌↔◌, ◌⊎◌, refl, List, [], ◌∷◌, min, true, false, ◌||◌, ◌&&◌,
  arith, ltb, leb, ◌==◌,
}
use create_chain_substrate_n.Template.Weights.{u64_max}
use create_chain_substrate_n.Template.Tests.{Parts, rocks, rocks-IsLawfulApi}
use create_chain_substrate_n.Runtime.Configs.{
  LimitsApi, IsLawfulLimits, TimeApi, IsLawfulTime, runtime_block_weights, template_weight_info,
}
use create_chain_substrate_n.Runtime.Configs.Room.{template_calls_fit}
use create_chain_substrate_n.Runtime.Configs.Fees.{
  FeeApi, IsLawfulFee, Paid, total_fee, calls_affordable,
}
use create_chain_substrate_n.Runtime.{existential_deposit}
use create_chain_substrate_n.Runtime.Genesis.{endowment}
use create_chain_substrate_n.Template.{do_something_call, cause_error_call}

-- A ratio is in parts of 10^9, and a limit is that of the normal class.
abbrev pub limits : LimitsApi rocks
limits = record {
  Perbill = ℕ;
  BlockWeights = Parts;
  BlockLength = ℕ;
  from_percent = λ p. p * 10_000_000;
  with_sensible_defaults = λ w r. record { time = w.time * r / 10 ^ 9; size = w.size * r / 10 ^ 9 };
  max_with_normal_ratio = λ n r. n * r / 10 ^ 9;
  weight_ref_time_per_second = 10 ^ 12;
}

pub le_refl : (n : ℕ) → n ≤ n
le_refl n = omega arith

abbrev pub limits-IsLawful : IsLawfulLimits rocks-IsLawfulApi limits
limits-IsLawful = record {
  parts = λ r. r;
  normal_weight = λ w. w;
  normal_length = λ n. n;
  from_percent_lem = λ p _. refl;
  second_lem = refl;
  ref_time_lem = λ w r. le_refl _;
  proof_size_lem = λ w r. le_refl _;
  length_lem = λ n r. le_refl _;
}

abbrev pub times : TimeApi
times = record {
  minimum_period_times_two = λ p. min (p * 2) u64_max;
  accepts_slot = λ multiple last slot. ltb last slot || (multiple && (slot == last));
  accepts_time = λ period last now. (last == 0) || leb (last + period) now;
  on_timestamp_set = λ n slot now. now / n == slot;
}

pub slots_grow : (last slot : ℕ) → (times.accepts_slot false last slot ≡ true) ↔ (last < slot)
slots_grow last slot = ground arith

pub times_grow :
    (period last now : ℕ)
    → (times.accepts_time period last now ≡ true) ↔ ((last ≡ 0) ⊎ (last + period ≤ now))
times_grow period last now = ground arith

pub times_fit :
    (n slot now : ℕ) → 1 ≤ n → (times.on_timestamp_set n slot now ≡ true) ↔ (now / n ≡ slot)
times_fit n slot now h = ground arith

abbrev pub times-IsLawful : IsLawfulTime times
times-IsLawful = record {
  times_two_lem = λ p. refl;
  accepts_slot_lem = slots_grow;
  accepts_time_lem = times_grow;
  on_timestamp_set_lem = times_fit;
}

-- 800 and 500 calls, with the published base weight of an extrinsic.
template_calls_fit_example :
    let base : Parts = record { time = 108_157_000; size = 0 } in
    let extension : Parts = record { time = 600_000_000; size = 20_000 } in
    let w = template_weight_info rocks in
    let limit = runtime_block_weights rocks limits in
    (800 * (w.do_something.time + extension.time + base.time)
        + 500 * (w.cause_error.time + extension.time + base.time)
      ≤ limit.time)
    × (800 * (w.do_something.size + extension.size + base.size)
          + 500 * (w.cause_error.size + extension.size + base.size)
        ≤ limit.size)
template_calls_fit_example =
    template_calls_fit rocks-IsLawfulApi limits-IsLawful (record { time = 108_157_000; size = 0 })
      (record { time = 600_000_000; size = 20_000 }) 800 500 refl refl (omega arith) (omega arith)
      (omega arith) (omega arith) (omega arith)

-- Whole multipliers, and the documented formula of the fee.
abbrev fees : FeeApi rocks
fees = record {
  Multiplier = ℕ;
  one = 1;
  genesis_multiplier = 1;
  const_fee_multiplier = λ m previous. m;
  identity_fee = λ w. w.time;
  compute_fee = λ c m base len weight tip.
      c.weight_to_fee base
      + c.length_to_fee (rocks.from_parts len 0)
      + m * c.weight_to_fee weight
      + tip;
}

abbrev fees-IsLawful : IsLawfulFee rocks-IsLawfulApi fees
fees-IsLawful = record {
  saturating_mul_int = λ m n. m * n;
  one_lem = λ n. omega arith;
  genesis_multiplier_lem = refl;
  const_fee_multiplier_lem = λ m previous. refl;
  identity_fee_lem = λ w. refl;
  compute_fee_lem = λ c m base len weight tip. le_refl _;
}

abbrev base : Parts
base = record { time = 108_157_000; size = 0 }

abbrev paid : List (Paid fees)
paid =
    record { block = 3; call = do_something_call 42; len = 120 }
    ∷ record { block = 9; call = cause_error_call; len = 116 }
    ∷ []

calls_affordable_example : total_fee fees base base paid + existential_deposit ≤ endowment
calls_affordable_example =
    calls_affordable fees-IsLawful base base paid refl refl (omega arith) (omega arith)
      (omega arith, (omega arith, tt)) (omega arith)
