-- ===== src/Template/Totals.antt =====
-- The value that a sequence of extrinsics for the pallet comes to, in closed form.
use create_chain_substrate_n.Common.{
  ℕ, ◌+◌, min, ◌≡◌, refl, ap, ◌∙◌, ◌≢◌, inl, inr, ok, err, Option, none, some, List, [], ◌∷◌, arith,
  Result-cases,
}
use create_chain_substrate_n.Template.{
  Config, IsLawful, Call, do_something_call, cause_error_call, u32_max,
}
use create_chain_substrate_n.Template.Requests.{Request, InRange, AllInRange, run}
use create_chain_substrate_n.Template.Calls.{IsU32}
use create_chain_substrate_n.Template.History.{
  View, view, effect, effects, run_refines, saturating_next,
}

-- The value that was stored last, and how often it was raised since.
abbrev pub Tally : Type 0
Tally = Option ℕ × ℕ

-- One addition of all that was raised, at most `u32::MAX`.
abbrev pub total : Tally → Option ℕ
total (none, k) = none
total (some n, k) = some (min (n + k) u32_max)

module _ (T : Config) where
  abbrev pub count : Request T → Tally → Tally
  count (origin, call) (value, k) = elim (T.ensure_signed origin) [
    | ok _ ↦ elim call [
      | do_something_call something ↦ (some something, 0)
      | cause_error_call ↦ (value, k + 1)
    ]
    | err _ ↦ (value, k)
  ]

  unfoldable pub tally : List (Request T) → Tally → Tally
  tally [] t = t
  tally (r ∷ rest) t = tally rest (count r t)

  saturating_next-total :
      (value : Option ℕ) (k : ℕ) → saturating_next (total (value, k)) ≡ total (value, k + 1)
  saturating_next-total none k = refl
  saturating_next-total (some n) k = ap some (ground arith)

  effect-count :
      (origin : T.OriginFor) (call : Call) (v : View T) (t : Tally)
      → v.0 ≡ total t
      → InRange call
      → (effect T (origin, call) v).0 ≡ total (count (origin, call) t)
  unfolding effect
  effect-count origin (do_something_call something) (value, events) (last, k) h range =
      elim (Result-cases (T.ensure_signed origin)) [
        | inl (who, e) ↦ rw (effect, count, e) (ap some (ground arith))
        | inr (x, e) ↦ rw (effect, count, e) h
      ]
  effect-count origin cause_error_call (value, events) (last, k) h range =
      elim (Result-cases (T.ensure_signed origin)) [
        | inl (who, e) ↦ rw (effect, count, e) (ap saturating_next h ∙ saturating_next-total last k)
        | inr (x, e) ↦ rw (effect, count, e) h
      ]

  pub effects-total :
      (requests : List (Request T)) (v : View T) (t : Tally)
      → v.0 ≡ total t
      → AllInRange T requests
      → (effects T requests v).0 ≡ total (tally requests t)
  unfolding effects tally
  effects-total [] v t h args = h
  effects-total ((origin, call) ∷ rest) v t h (arg, args) =
      effects-total rest (effect T (origin, call) v) (count (origin, call) t)
        (effect-count origin call v t h arg) args

module _ (T : Config) (L : IsLawful T) where
  pub total-start : (value : Option ℕ) → IsU32 value → value ≡ total (value, 0)
  total-start none range = refl
  total-start (some n) range = ap some (ground arith)

  -- Outside the genesis block, the value after any sequence of extrinsics is the one of the last
  -- signed `do_something`, or the one before if there is none, plus the number of signed
  -- `cause_error` calls since, in one addition that stops at `u32::MAX`; without a value there is
  -- none.
  pub run-total :
      (requests : List (Request T)) (s : T.State)
      → L.block_number s ≢ 0
      → IsU32 (T.get s)
      → AllInRange T requests
      → T.get (run T requests s) ≡ total (tally T requests (T.get s, 0))
  run-total requests s later range args =
      ap (λ v. v.0) (run_refines T L requests s later range args)
      ∙ effects-total T requests (view T L s) (T.get s, 0) (total-start (T.get s) range) args
