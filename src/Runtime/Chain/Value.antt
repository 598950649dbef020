-- ===== src/Runtime/Chain/Value.antt =====
-- The template pallet over a chain of blocks, against its specification without storage.
use mathlib.Core.List.{append_assoc, append-nil}
use create_chain_substrate_n.Common.{
  ◌≡◌, ◌≢◌, refl, ap, sym, ◌∙◌, ok, [], ◌∷◌, ◌++◌, List, arith, subst, err, inl, inr, Result-cases,
}
use create_chain_substrate_n.Template.{
  Config, IsLawful, something_stored, do_something_call, cause_error_call,
}
use create_chain_substrate_n.Template.Weights.{WeightApi}
use create_chain_substrate_n.Template.Requests.{Request}
use create_chain_substrate_n.Template.Calls.{IsU32}
use create_chain_substrate_n.Template.History.{View, view, effect, effects, run_refines, run-IsU32}
use create_chain_substrate_n.Template.Totals.{Tally, total, tally, effects-total, total-start}
use create_chain_substrate_n.Runtime.Genesis.{GenesisApi}
use create_chain_substrate_n.Runtime.Configs.{LimitsApi, TimeApi}
use create_chain_substrate_n.Runtime.Calls.{CallTypes}
use create_chain_substrate_n.Runtime.Apis.{FrameTypes, FrameApi, execute_block}
use create_chain_substrate_n.Runtime.Chain.{
  IsLawfulExecutive, IsRegular, requests, Chain, here, next, all_requests,
}

module _ (T : Config) where
  tally-append :
      (xs ys : List (Request T)) (t : Tally) → tally T (xs ++ ys) t ≡ tally T ys (tally T xs t)
  unfolding tally
  tally-append [] ys t = refl
  tally-append (x ∷ xs) ys t = tally-append xs ys _

  -- The events that calls leave behind: one for each signed `do_something`.
  abbrev event_of : Request T → List T.RuntimeEvent
  event_of (origin, do_something_call something) = elim (T.ensure_signed origin) [
    | ok who ↦ T.into_runtime_event (something_stored something who) ∷ []
    | err _ ↦ []
  ]
  event_of (origin, cause_error_call) = []

  abbrev pub events_of : List (Request T) → List T.RuntimeEvent
  events_of [] = []
  events_of (r ∷ rest) = event_of r ++ events_of rest

  effect-event : (r : Request T) (v : View T) → (effect T r v).1 ≡ v.1 ++ event_of r
  unfolding effect
  effect-event (origin, do_something_call something) (value, events) =
      elim (Result-cases (T.ensure_signed origin)) [
        | inl (who, e) ↦ rw (effect, event_of, e) refl
        | inr (x, e) ↦ rw (effect, event_of, e) (sym (append-nil events))
      ]
  effect-event (origin, cause_error_call) (value, events) =
      elim (Result-cases (T.ensure_signed origin)) [
        | inl (who, e) ↦ rw (effect, e) (sym (append-nil events))
        | inr (x, e) ↦ rw (effect, e) (sym (append-nil events))
      ]

  effects-events :
      (calls : List (Request T)) (v : View T) → (effects T calls v).1 ≡ v.1 ++ events_of calls
  unfolding effects
  effects-events [] v = sym (append-nil v.1)
  effects-events (r ∷ rest) v =
      effects-events rest (effect T r v)
      ∙ ap (λ l. l ++ events_of rest) (effect-event r v)
      ∙ append_assoc v.1 (event_of r) (events_of rest)

module _ {G : GenesisApi} {W : WeightApi} {N : LimitsApi W} {F : FrameTypes} {E : FrameApi G W N F}
    {P : TimeApi} {K : CallTypes} {T : Config} {L : IsLawful T}
    (X : IsLawfulExecutive E P K L) where
  -- What an observer of the pallet sees in a state of the chain.
  abbrev pub seen : F.State → View T
  seen s = view T L (X.storage s)

  -- One block: the calls take effect on the value before, and on no events.
  pub block_effects :
      {t u : F.State} (b : F.LazyBlock)
      → IsRegular E X b
      → execute_block E b t ≡ (ok tt, u)
      → IsU32 (seen t).0
      → seen u ≡ effects T (requests E X b) ((seen t).0, [])
  block_effects {t} {u} b regular done range =
      let (_, _, _, _, kept) = X.execute_block_lem b t u regular.0 regular.1 done in
      let s = X.initialized b t in
      let later : L.block_number s ≢ 0 = omega (arith, X.block_number-initialized b t) in
      let value = X.get-initialized b t in
      ap (view T L) kept
      ∙ run_refines T L (requests E X b) s later (subst IsU32 (sym value) range)
          (X.extrinsics-AllInRange b)
      ∙ ap (λ v. effects T (requests E X b) (v, L.events s)) value
      ∙ ap (λ l. effects T (requests E X b) ((seen t).0, l)) (X.events-initialized b t)

  block-IsU32 :
      {t u : F.State} (b : F.LazyBlock)
      → IsRegular E X b
      → execute_block E b t ≡ (ok tt, u)
      → IsU32 (seen t).0
      → IsU32 (seen u).0
  block-IsU32 {t} {u} b regular done range =
      let (_, _, _, _, kept) = X.execute_block_lem b t u regular.0 regular.1 done in
      subst (λ s. IsU32 (T.get s)) (sym kept)
        (run-IsU32 T L (requests E X b) (X.initialized b t)
          (subst IsU32 (sym (X.get-initialized b t)) range) (X.extrinsics-AllInRange b))

  pub Chain-IsU32 :
      {s t : F.State} {blocks : List F.LazyBlock}
      → IsU32 (seen s).0
      → Chain E X s blocks t
      → IsU32 (seen t).0
  Chain-IsU32 range here = range
  Chain-IsU32 range (next b chain regular done) =
      block-IsU32 b regular done (Chain-IsU32 range chain)

  Chain-value :
      {s t : F.State} {blocks : List F.LazyBlock}
      → IsU32 (seen s).0
      → Chain E X s blocks t
      → (seen t).0 ≡ total (tally T (all_requests E X blocks) ((seen s).0, 0))
  unfolding tally
  Chain-value {s} range here = total-start T L (seen s).0 range
  Chain-value {s} range (next {blocks = blocks} b chain regular done) =
      ap (λ v. v.0) (block_effects b regular done (Chain-IsU32 range chain))
      ∙ effects-total T (requests E X b) _ _ (Chain-value range chain) (X.extrinsics-AllInRange b)
      ∙ ap total (sym (tally-append T (all_requests E X blocks) (requests E X b) ((seen s).0, 0)))

  -- After any chain of regular blocks, that is with a slot and without a call of pallet_sudo, the
  -- value comes from the calls of the template pallet in all blocks in their order: it is that of the last signed `do_something`, or the one before if there is none, plus the
  -- number of signed `cause_error` calls since, in one addition that stops at `u32::MAX`. The
  -- events come from the last block alone: one for each of its signed `do_something` calls.
  pub Chain-view :
      {s t : F.State} {blocks : List F.LazyBlock} (b : F.LazyBlock)
      → IsU32 (seen s).0
      → Chain E X s (b ∷ blocks) t
      → seen t ≡ (
        total (tally T (all_requests E X (b ∷ blocks)) ((seen s).0, 0)),
        events_of T (requests E X b),
      )
  Chain-view {s} {t} b range (next {blocks = blocks} _ chain regular done) =
      ap (λ v. (v, (seen t).1)) (Chain-value range (next b chain regular done))
      ∙ ap (λ l. (total (tally T (all_requests E X (b ∷ blocks)) ((seen s).0, 0)), l))
          (ap (λ v. v.1) (block_effects b regular done (Chain-IsU32 range chain))
            ∙ effects-events T (requests E X b) _)
