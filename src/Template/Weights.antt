-- ===== src/Template/Weights.antt =====
-- The weights of the pallet's calls (pallets/template/src/weights.rs), over the type `Weight` and
-- the database weights of FRAME.
use create_chain_substrate_n.Common.{ℕ, ◌+◌, ◌-◌, ◌*◌, ◌^◌, ◌≤◌, min, ◌≡◌, refl, arith}

-- `u64::MAX`
abbrev pub u64_max : ℕ
u64_max = 2 ^ 64 - 1

-- What the file uses of `Weight` and of `RuntimeDbWeight`, and the constant `RocksDbWeight`.
pub record WeightApi : Type 1 where
  pub Weight : Type 0
  pub RuntimeDbWeight : Type 0
  pub from_parts : ℕ → ℕ → Weight
  pub saturating_add : Weight → Weight → Weight
  pub reads : RuntimeDbWeight → ℕ → Weight
  pub writes : RuntimeDbWeight → ℕ → Weight
  pub rocks_db_weight : RuntimeDbWeight

-- The documented behaviour of those: a weight has two parts, both `u64`, that add up to at most
-- `u64::MAX`; a database access costs time and no proof size.
pub record IsLawfulApi (W : WeightApi) : Type 0 where
  pub ref_time : W.Weight → ℕ
  pub proof_size : W.Weight → ℕ
  pub read : W.RuntimeDbWeight → ℕ
  pub write : W.RuntimeDbWeight → ℕ
  pub from_parts_lem :
      (t p : ℕ)
      → t ≤ u64_max
      → p ≤ u64_max
      → (ref_time (W.from_parts t p) ≡ t) × (proof_size (W.from_parts t p) ≡ p)
  pub saturating_add_lem :
      (v w : W.Weight)
      → (ref_time (W.saturating_add v w) ≡ min (ref_time v + ref_time w) u64_max)
        × (proof_size (W.saturating_add v w) ≡ min (proof_size v + proof_size w) u64_max)
  pub reads_lem :
      (d : W.RuntimeDbWeight) (n : ℕ)
      → (ref_time (W.reads d n) ≡ min (read d * n) u64_max) × (proof_size (W.reads d n) ≡ 0)
  pub writes_lem :
      (d : W.RuntimeDbWeight) (n : ℕ)
      → (ref_time (W.writes d n) ≡ min (write d * n) u64_max) × (proof_size (W.writes d n) ≡ 0)

-- `trait WeightInfo`
pub record WeightInfo (W : WeightApi) : Type 0 where
  pub do_something : W.Weight
  pub cause_error : W.Weight

module _ (W : WeightApi) where
  open W use {from_parts, saturating_add, reads, writes, rocks_db_weight}

  -- `impl WeightInfo for SubstrateWeight<T>`, where `db` is `T::DbWeight::get()`.
  unfoldable pub substrate_weight : W.RuntimeDbWeight → WeightInfo W
  substrate_weight db = record {
    do_something = saturating_add (from_parts 9_000_000 0) (writes db 1);
    cause_error =
        saturating_add (saturating_add (from_parts 6_000_000 1489) (reads db 1)) (writes db 1);
  }

  -- `impl WeightInfo for ()`
  unfoldable pub unit_weight : WeightInfo W
  unit_weight = record {
    do_something = saturating_add (from_parts 9_000_000 0) (writes rocks_db_weight 1);
    cause_error =
        saturating_add (saturating_add (from_parts 6_000_000 1489) (reads rocks_db_weight 1))
          (writes rocks_db_weight 1);
  }

  -- Over the database weights of RocksDB, which the runtime uses, `SubstrateWeight` charges what
  -- the implementation for `()` charges, under which the mock runtime tests the pallet.
  substrate_weight-rocks_db : substrate_weight rocks_db_weight ≡ unit_weight
  unfolding substrate_weight unit_weight
  substrate_weight-rocks_db = refl

module _ (W : WeightApi) (L : IsLawfulApi W) (db : W.RuntimeDbWeight) where
  -- `do_something` is charged its measured time and one write, and no proof size; `cause_error`
  -- its measured time, one read and one write, and its estimated proof size. Neither time exceeds
  -- `u64::MAX`.
  pub substrate_weight_parts :
      let w = substrate_weight W db in
      (L.ref_time w.do_something ≡ min (9_000_000 + L.write db) u64_max)
      × (L.proof_size w.do_something ≡ 0)
      × (L.ref_time w.cause_error ≡ min (6_000_000 + L.read db + L.write db) u64_max)
      × (L.proof_size w.cause_error ≡ 1489)
  unfolding substrate_weight
  substrate_weight_parts = grind (
    arith,
    L.from_parts_lem 9_000_000 0 (omega arith) (omega arith),
    L.from_parts_lem 6_000_000 1489 (omega arith) (omega arith),
    L.saturating_add_lem,
    L.reads_lem,
    L.writes_lem,
  )
