-- ===== src/Runtime/Configs/Room.antt =====
-- The weights of the template pallet's calls against the limits of a block.
use create_chain_substrate_n.Common.{ℕ, ◌+◌, ◌*◌, ◌^◌, ◌≤◌, ◌≡◌, arith}
use create_chain_substrate_n.Runtime.Configs.{
  LimitsApi, IsLawfulLimits, runtime_block_weights, normal_dispatch_ratio, template_weight_info,
}
use create_chain_substrate_n.Template.Weights.{
  WeightApi, IsLawfulApi, u64_max, substrate_weight_parts,
}

pub mul_le : (n a b : ℕ) → a ≤ b → n * a ≤ n * b
mul_le n a b h = grind arith

-- `m` and `n` costs of at most `c`.
total_le : (m n a b c : ℕ) → a ≤ c → b ≤ c → m + n ≤ 1300 → m * a + n * b ≤ 1300 * c
total_le m n a b c ha hb h =
    omega (arith, mul_le m a c ha, mul_le n b c hb, mul_le c (m + n) 1300 h)

module _ {W : WeightApi} (L : IsLawfulApi W) {N : LimitsApi W} (M : IsLawfulLimits L N) where
  max_parts :
      let w = W.from_parts (2 * N.weight_ref_time_per_second) u64_max in
      (L.ref_time w ≡ 2 * 10 ^ 12) × (L.proof_size w ≡ u64_max)
  max_parts =
      let (time, size) =
        L.from_parts_lem (2 * N.weight_ref_time_per_second) u64_max (omega (arith, M.second_lem))
          (omega arith) in
      (omega (arith, time, M.second_lem), size)

  ratio_parts : M.parts (normal_dispatch_ratio W N) ≡ 750_000_000
  ratio_parts = M.from_percent_lem 75 (omega arith)

  -- Extrinsics of the normal class have at least 1.5 seconds of the block.
  normal_time : 15 * 10 ^ 11 ≤ L.ref_time (M.normal_weight (runtime_block_weights W N))
  normal_time =
      rw (max_parts.0, ratio_parts) at
        (M.ref_time_lem (W.from_parts (2 * N.weight_ref_time_per_second) u64_max)
          (normal_dispatch_ratio W N))

  normal_size : 10 ^ 19 ≤ L.proof_size (M.normal_weight (runtime_block_weights W N))
  normal_size = omega (
    arith,
    rw (max_parts.1, ratio_parts) at
        (M.proof_size_lem (W.from_parts (2 * N.weight_ref_time_per_second) u64_max)
          (normal_dispatch_ratio W N)),
  )

  -- The parts of what an extrinsic takes of a block: of its call, of its extensions, and of any.
  abbrev pub time_of : (call extension base : W.Weight) → ℕ
  time_of call extension base = L.ref_time call + L.ref_time extension + L.ref_time base

  abbrev pub size_of : (call extension base : W.Weight) → ℕ
  size_of call extension base = L.proof_size call + L.proof_size extension + L.proof_size base

  -- Over the documented costs of RocksDB, 25 and 100 microseconds for a read and a write, 1300 calls
  -- of the template pallet have room among the extrinsics of the normal class in one block, with a
  -- base weight of up to 0.11 milliseconds and 10,000 bytes, and with extensions of up to 0.9
  -- milliseconds and 50,000 bytes for each: neither the time nor the proof size of that class is
  -- exceeded, whichever of the two calls each of them is.
  pub template_calls_fit :
      (base extension : W.Weight) (stores increments : ℕ)
      → L.read W.rocks_db_weight ≡ 25_000_000
      → L.write W.rocks_db_weight ≡ 100_000_000
      → L.ref_time base ≤ 110_000_000
      → L.proof_size base ≤ 10_000
      → L.ref_time extension ≤ 900_000_000
      → L.proof_size extension ≤ 50_000
      → stores + increments ≤ 1300
      → let w = template_weight_info W in
        let limit = M.normal_weight (runtime_block_weights W N) in
        (stores * time_of w.do_something extension base
            + increments * time_of w.cause_error extension base
          ≤ L.ref_time limit)
        × (stores * size_of w.do_something extension base
              + increments * size_of w.cause_error extension base
            ≤ L.proof_size limit)
  template_calls_fit base extension stores increments r w t p et ep n =
      let (time, size, time', size') = substrate_weight_parts W L W.rocks_db_weight in
      let info = template_weight_info W in
      (
        omega (
          arith,
          normal_time,
          total_le stores increments (time_of info.do_something extension base)
              (time_of info.cause_error extension base) 1_141_000_000 (omega (arith, time))
              (omega (arith, time')) n,
        ),
        omega (
          arith,
          normal_size,
          total_le stores increments (size_of info.do_something extension base)
              (size_of info.cause_error extension base) 62_000 (omega (arith, size))
              (omega (arith, size')) n,
        ),
      )
