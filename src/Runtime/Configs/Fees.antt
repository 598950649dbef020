-- ===== src/Runtime/Configs/Fees.antt =====
-- The fees of the template pallet's calls, as runtime/src/configs/mod.rs configures
-- pallet_transaction_payment, against the balances of the genesis presets.
use create_chain_substrate_n.Common.{
  ℕ, zero, suc, ◌+◌, ◌*◌, ◌^◌, ◌≤◌, ◌≡◌, List, [], ◌∷◌, length, arith, All,
}
use create_chain_substrate_n.Template.{Call, do_something_call, cause_error_call}
use create_chain_substrate_n.Template.Weights.{
  WeightApi, IsLawfulApi, WeightInfo, substrate_weight_parts,
}
use create_chain_substrate_n.Runtime.{existential_deposit}
use create_chain_substrate_n.Runtime.Genesis.{endowment}
use create_chain_substrate_n.Runtime.Configs.{template_weight_info}
use create_chain_substrate_n.Runtime.Configs.Room.{mul_le}

-- `pallet_transaction_payment::Config`, by the parts that a fee depends on.
pub record PaymentConfig (Weight Multiplier : Type 0) : Type 0 where
  pub operational_fee_multiplier : ℕ
  pub weight_to_fee : Weight → ℕ
  pub length_to_fee : Weight → ℕ
  pub fee_multiplier_update : Multiplier → Multiplier

-- What the file uses of frame_support and pallet_transaction_payment: `IdentityFee`, multipliers,
-- `ConstFeeMultiplier`, the multiplier at genesis, and the fee that the pallet computes from the
-- multiplier of the block, the base weight of an extrinsic, its length, its weight and the tip.
pub record FeeApi (W : WeightApi) : Type 1 where
  pub Multiplier : Type 0
  pub one : Multiplier
  pub genesis_multiplier : Multiplier
  pub const_fee_multiplier : Multiplier → Multiplier → Multiplier
  pub identity_fee : W.Weight → ℕ
  pub compute_fee :
      PaymentConfig W.Weight Multiplier
      → Multiplier
      → (base : W.Weight) (len : ℕ) (weight : W.Weight) (tip : ℕ) → ℕ

-- The documented behaviour: one unit of balance for one of time; a constant multiplier replaces
-- any other; the multiplier is one at genesis; and a fee is at most that for the base weight, that
-- for the length as a weight, the multiplied one for the weight, and the tip. It is less where the
-- weight is cut to the limit of a block.
pub record IsLawfulFee {W : WeightApi} (L : IsLawfulApi W) (A : FeeApi W) : Type 0 where
  pub saturating_mul_int : A.Multiplier → ℕ → ℕ
  pub one_lem : (n : ℕ) → saturating_mul_int A.one n ≡ n
  pub genesis_multiplier_lem : A.genesis_multiplier ≡ A.one
  pub const_fee_multiplier_lem : (m previous : A.Multiplier) → A.const_fee_multiplier m previous ≡ m
  pub identity_fee_lem : (w : W.Weight) → A.identity_fee w ≡ L.ref_time w
  pub compute_fee_lem :
      (c : PaymentConfig W.Weight A.Multiplier) (m : A.Multiplier) (base : W.Weight) (len : ℕ)
      (weight : W.Weight) (tip : ℕ)
      → A.compute_fee c m base len weight tip
        ≤ c.weight_to_fee base
          + c.length_to_fee (W.from_parts len 0)
          + saturating_mul_int m (c.weight_to_fee weight)
          + tip

-- `#[pallet::weight(…)]` of the two calls.
abbrev pub call_weight : {W : WeightApi} → WeightInfo W → Call → W.Weight
call_weight info (do_something_call _) = info.do_something
call_weight info cause_error_call = info.cause_error

module _ {W : WeightApi} (A : FeeApi W) where
  -- `FeeMultiplier`
  abbrev pub fee_multiplier : A.Multiplier
  fee_multiplier = A.one

  -- `impl pallet_transaction_payment::Config for Runtime`
  abbrev pub payment_config : PaymentConfig W.Weight A.Multiplier
  payment_config = record {
    operational_fee_multiplier = 5;
    weight_to_fee = A.identity_fee;
    length_to_fee = A.identity_fee;
    fee_multiplier_update = A.const_fee_multiplier fee_multiplier;
  }

  -- The multiplier after so many blocks, each of which updates it.
  abbrev pub multiplier_after : ℕ → A.Multiplier
  multiplier_after zero = A.genesis_multiplier
  multiplier_after (suc n) = payment_config.fee_multiplier_update (multiplier_after n)

  -- A call of the template pallet after so many blocks, in an extrinsic of some length.
  pub record Paid : Type 0 where
    pub block : ℕ
    pub call : Call
    pub len : ℕ

  -- The fee of such a call, without a tip; the extensions add to the weight.
  abbrev pub fee : (base extension : W.Weight) → Paid → ℕ
  fee base extension p =
      A.compute_fee payment_config (multiplier_after p.block) base p.len
        (W.saturating_add (call_weight (template_weight_info W) p.call) extension) 0

  abbrev pub total_fee : (base extension : W.Weight) → List Paid → ℕ
  total_fee base extension [] = 0
  total_fee base extension (p ∷ rest) = fee base extension p + total_fee base extension rest

module _ {W : WeightApi} {L : IsLawfulApi W} {A : FeeApi W} (F : IsLawfulFee L A) where
  multiplier_after-one : (n : ℕ) → multiplier_after A n ≡ A.one
  multiplier_after-one zero = F.genesis_multiplier_lem
  multiplier_after-one (suc n) = F.const_fee_multiplier_lem A.one (multiplier_after A n)

  multiplied : (n k : ℕ) → F.saturating_mul_int (multiplier_after A n) k ≡ k
  multiplied n k = rw (multiplier_after-one n) (F.one_lem k)

  -- The configured fee is the time of the base weight, of the call and of the extensions, and the
  -- length.
  fee-parts :
      (base extension : W.Weight) (p : Paid A)
      → p.len ≤ 5 * 1024 * 1024
      → fee A base extension p
        ≤ L.ref_time base
          + p.len
          + (L.ref_time (call_weight (template_weight_info W) p.call) + L.ref_time extension)
  fee-parts base extension p short =
      let weight = W.saturating_add (call_weight (template_weight_info W) p.call) extension in
      let len = W.from_parts p.len 0 in
      let at_most : fee A base extension p
          ≤ A.identity_fee base
            + A.identity_fee len
            + F.saturating_mul_int (multiplier_after A p.block) (A.identity_fee weight)
            + 0 =
        F.compute_fee_lem (payment_config A) (multiplier_after A p.block) base p.len weight 0 in
      omega (
        arith,
        at_most,
        multiplied p.block (A.identity_fee weight),
        F.identity_fee_lem base,
        F.identity_fee_lem len,
        F.identity_fee_lem weight,
        (L.from_parts_lem p.len 0 (omega arith) (omega arith)).0,
        (L.saturating_add_lem (call_weight (template_weight_info W) p.call) extension).0,
      )

  call_weight-time :
      (call : Call)
      → L.read W.rocks_db_weight ≡ 25_000_000
      → L.write W.rocks_db_weight ≡ 100_000_000
      → L.ref_time (call_weight (template_weight_info W) call) ≤ 131_000_000
  call_weight-time (do_something_call something) r w =
      omega (arith, (substrate_weight_parts W L W.rocks_db_weight).0)
  call_weight-time cause_error_call r w =
      let (_, _, time, _) = substrate_weight_parts W L W.rocks_db_weight in omega (arith, time)

  total_fee-bounded :
      (base extension : W.Weight) (paid : List (Paid A)) (c : ℕ)
      → All (λ p. fee A base extension p ≤ c) paid
      → total_fee A base extension paid ≤ length paid * c
  total_fee-bounded base extension [] c h = omega arith
  total_fee-bounded base extension (p ∷ rest) c (h, hs) =
      omega (arith, h, total_fee-bounded base extension rest c hs)

  -- Over the documented costs of RocksDB, an account that a preset endows can pay, from that balance
  -- alone, for 10^9 calls of the template pallet, whichever they are and after however many blocks,
  -- in extrinsics without a tip of up to 5 MiB, with a base weight of up to 0.11 milliseconds and
  -- extensions of up to 0.9 milliseconds, and it keeps the existential deposit.
  pub calls_affordable :
      (base extension : W.Weight) (paid : List (Paid A))
      → L.read W.rocks_db_weight ≡ 25_000_000
      → L.write W.rocks_db_weight ≡ 100_000_000
      → L.ref_time base ≤ 110_000_000
      → L.ref_time extension ≤ 900_000_000
      → All (λ p. p.len ≤ 5 * 1024 * 1024) paid
      → length paid ≤ 10 ^ 9
      → total_fee A base extension paid + existential_deposit ≤ endowment
  calls_affordable base extension paid r w b e short few = omega (
    arith,
    total_fee-bounded base extension paid 1_150_000_000 (each paid short),
    mul_le 1_150_000_000 (length paid) (10 ^ 9) few,
  )
    where
      each :
          (paid : List (Paid A))
          → All (λ p. p.len ≤ 5 * 1024 * 1024) paid
          → All (λ p. fee A base extension p ≤ 1_150_000_000) paid
      each [] h = tt
      each (p ∷ rest) (h, hs) =
          (omega (arith, fee-parts base extension p h, call_weight-time p.call r w), each rest hs)
