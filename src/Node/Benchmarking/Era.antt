-- ===== src/Node/Benchmarking/Era.antt =====
-- The period of the mortal era in node/src/benchmarking.rs.
use native.Mathlib.Nat.{pow-suc}
use mathlib.Core.Option.{some-injective, some-ne-none, none-ne-some}
use mathlib.Core.Bool.{true, false}
use create_chain_substrate_n.Common.{
  ℕ, zero, suc, ◌*◌, ◌/◌, ◌^◌, ◌≤◌, ◌<◌, ◌≡◌, refl, sym, ◌∙◌, ◌⊎◌, inl, inr, none, some, arith, leb,
  Bool-cases, Option-cases,
}
use create_chain_substrate_n.Template.{u32_max}
use create_chain_substrate_n.Node.Benchmarking.{power_from, checked_next_power_of_two, era_period}

doubled : (k p : ℕ) → 2 ^ k * (2 * p) ≡ 2 ^ suc k * p
doubled k p = rw pow-suc (omega arith)

power_from-here : (more p n : ℕ) → leb n p ≡ true → power_from (suc more) p n ≡ some p
unfolding power_from
power_from-here more p n e = rw (e, power_from)

power_from-next :
    (more p n : ℕ) → leb n p ≡ false → power_from (suc more) p n ≡ power_from more (2 * p) n
unfolding power_from
power_from-next more p n e = rw (e, power_from)

-- A power that was found is large enough, is `p` doubled some times, and is less than `2 * n`
-- unless it is `p`.
power_from-some :
    (more p n q : ℕ)
    → power_from more p n ≡ some q
    → (n ≤ q) × ((k : ℕ) × (q ≡ 2 ^ k * p)) × ((q ≡ p) ⊎ (q < 2 * n))
power_from-some zero p n q h = unfold power_from in cc
power_from-some (suc more) p n q h = elim (Bool-cases (leb n p)) [
  | inl e ↦
      let same : p ≡ q = some-injective p q (sym (power_from-here more p n e) ∙ h) in
      rw (← same) (ground arith, (0, omega arith), inl refl)
  | inr e ↦
      let (large, (k, power), small) =
        power_from-some more (2 * p) n q (sym (power_from-next more p n e) ∙ h) in
      (large, (suc k, power ∙ doubled k p), inr (ground arith))
]

-- If none was found, `p` doubled so many times is too small.
power_from-none : (more p n : ℕ) → power_from (suc more) p n ≡ none → 2 ^ more * p < n
power_from-none zero p n h = elim (Bool-cases (leb n p)) [
  | inl e ↦ absurd (some-ne-none p (sym (power_from-here 0 p n e) ∙ h))
  | inr e ↦ ground arith
]
power_from-none (suc more) p n h = elim (Bool-cases (leb n p)) [
  | inl e ↦ absurd (some-ne-none p (sym (power_from-here (suc more) p n e) ∙ h))
  | inr e ↦
      rw (← doubled more p)
        (power_from-none more (2 * p) n (sym (power_from-next (suc more) p n e) ∙ h))
]

le-doubled : (k p : ℕ) → p ≤ 2 ^ k * p
le-doubled zero p = omega arith
le-doubled (suc k) p = rw (← doubled k p) (omega (arith, le-doubled k (2 * p)))

power_from-le : (more p n q : ℕ) → power_from (suc more) p n ≡ some q → q ≤ 2 ^ more * p
power_from-le zero p n q h = elim (Bool-cases (leb n p)) [
  | inl e ↦ omega (arith, some-injective p q (sym (power_from-here 0 p n e) ∙ h))
  | inr e ↦ absurd (none-ne-some q (unfold power_from in (sym (power_from-next 0 p n e) ∙ h)))
]
power_from-le (suc more) p n q h = elim (Bool-cases (leb n p)) [
  | inl e ↦ omega (
    arith,
    le-doubled (suc more) p,
    some-injective p q (sym (power_from-here (suc more) p n e) ∙ h),
  )
  | inr e ↦
      rw (← doubled more p)
        (power_from-le more (2 * p) n q (sym (power_from-next (suc more) p n e) ∙ h))
]

-- Half of a power of two that is at least 2.
halved :
    (n q k : ℕ)
    → 2 ≤ n
    → n ≤ q
    → q ≡ 2 ^ k * 1
    → (q ≡ 1) ⊎ (q < 2 * n)
    → ((j : ℕ) × (q / 2 ≡ 2 ^ j)) × (q / 2 < n) × (n ≤ 2 * (q / 2))
halved n q zero low large power small = absurd (omega arith)
halved n q (suc k) low large power small =
    let even : q ≡ 2 ^ k * 2 = power ∙ rw pow-suc (omega arith) in
    ((k, omega arith), omega arith, omega arith)

-- For a chain that keeps from 2 to 2^31 block hashes, the period of the era is a power of two,
-- less than the number of hashes that are kept, and at least half of it: the hash of the block
-- that the era begins with is still there when the era ends.
pub era_period_bounds :
    (hashes : ℕ)
    → 2 ≤ hashes
    → hashes ≤ 2 ^ 31
    → ((k : ℕ) × (era_period hashes ≡ 2 ^ k))
      × (era_period hashes < hashes)
      × (hashes ≤ 2 * era_period hashes)
unfolding era_period
era_period_bounds hashes low high = elim (Option-cases (checked_next_power_of_two hashes)) [
  | inl e ↦ absurd (omega (arith, power_from-none 31 1 hashes e))
  | inr (q, e) ↦
      let (large, (k, power), small) = power_from-some 32 1 hashes q e in
      rw e (halved hashes q k low large power small)
]

-- Where the next power of two is no `u32`, the period is 2.
era_period_overflow : (hashes : ℕ) → 2 ^ 31 < hashes → hashes ≤ u32_max → era_period hashes ≡ 2
unfolding era_period
era_period_overflow hashes high word = elim (Option-cases (checked_next_power_of_two hashes)) [
  | inl e ↦ rw e
  | inr (q, e) ↦
      absurd (omega (arith, power_from-le 31 1 hashes q e, (power_from-some 32 1 hashes q e).0))
]
