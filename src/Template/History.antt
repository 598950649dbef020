-- ===== src/Template/History.antt =====
-- The pallet over a sequence of extrinsics, against a specification that knows no storage: a
-- value that saturates, and the list of events.
use create_chain_substrate_n.Common.{
  ℕ, zero, suc, ◌+◌, ◌≤◌, ◌<◌, min, ◌≡◌, refl, ap, ◌∙◌, ◌≢◌, inl, inr, ok, err, Option, none, some,
  List, [], ◌∷◌, ◌++◌, Bool, true, false, ◌||◌, arith, dec_lt, Result-cases, Option-cases,
  replicate,
}
use create_chain_substrate_n.Template.{
  Config, IsLawful, something_stored, Call, do_something_call, cause_error_call, dispatch, u32_max,
}
use create_chain_substrate_n.Template.Requests.{Request, AllInRange, run}
use create_chain_substrate_n.Template.Calls.{
  IsU32, do_something-signed, cause_error-below, cause_error-above, cause_error-none,
  dispatch_unsigned, dispatch-IsU32,
}

-- What an observer of the pallet sees: the value and the events.
abbrev pub View : Config → Type 0
View T = Option ℕ × List T.RuntimeEvent

-- One more, at most `u32::MAX`; nothing where there is nothing.
abbrev pub saturating_next : Option ℕ → Option ℕ
saturating_next none = none
saturating_next (some n) = some (min (n + 1) u32_max)

module _ (T : Config) where
  abbrev pub signed_effect : T.AccountId → Call → View T → View T
  signed_effect who (do_something_call something) (value, events) =
      (some something, events ++ (T.into_runtime_event (something_stored something who) ∷ []))
  signed_effect who cause_error_call (value, events) = (saturating_next value, events)

  -- The specification of one extrinsic.
  unfoldable pub effect : Request T → View T → View T
  effect (origin, call) v = elim (T.ensure_signed origin) [
    | ok who ↦ signed_effect who call v
    | err _ ↦ v
  ]

  unfoldable pub effects : List (Request T) → View T → View T
  unfolding effect
  effects [] v = v
  effects (r ∷ rest) v = effects rest (effect r v)

module _ (T : Config) (L : IsLawful T) where
  -- What an observer sees in a state.
  abbrev pub view : T.State → View T
  view s = (T.get s, L.events s)

  pub dispatch-block_number :
      (call : Call) (origin : T.OriginFor) (s : T.State)
      → L.block_number (dispatch T call origin s).1 ≡ L.block_number s
  unfolding dispatch
  dispatch-block_number (do_something_call something) origin s =
      elim (Result-cases (T.ensure_signed origin)) [
        | inl (who, e) ↦ rw e (L.block_number-deposit _ _ ∙ L.block_number-put something s)
        | inr (x, e) ↦ rw e
      ]
  dispatch-block_number cause_error_call origin s = grind (arith, L.block_number-put)

  at_max :
      (old : ℕ) (events : List T.RuntimeEvent)
      → old ≤ u32_max
      → ¬ (old < u32_max)
      → ◌≡◌ {A = View T} (some old, events) (saturating_next (some old), events)
  at_max old events range above = ground arith

  -- One dispatch shows an observer what the specification says.
  pub dispatch-effect :
      (call : Call) (origin : T.OriginFor) (s : T.State)
      → L.block_number s ≢ 0
      → IsU32 (T.get s)
      → view (dispatch T call origin s).1 ≡ effect T (origin, call) (view s)
  unfolding dispatch effect
  dispatch-effect (do_something_call something) origin s later range =
      elim (Result-cases (T.ensure_signed origin)) [
        | inl (who, e) ↦
            let event = T.into_runtime_event (something_stored something who) in
            let fresh : L.block_number (T.put something s) ≢ 0 =
              λ z. later (rw (← L.block_number-put something s) z) in
            rw (
              do_something-signed T origin s something e,
              effect,
              e,
              L.get-deposit event (T.put something s),
              L.get-put something s,
              L.events-deposit event (T.put something s) fresh,
              L.events-put something s,
            )
        | inr (x, e) ↦
            rw (dispatch_unsigned T origin s (do_something_call something) x e, effect, e)
      ]
  dispatch-effect cause_error_call origin s later range =
      elim (Result-cases (T.ensure_signed origin)) [
        | inl (who, e) ↦ elim (Option-cases (T.get s)) [
          | inl absent ↦ rw (cause_error-none T origin s e absent, effect, e, absent)
          | inr (old, stored) ↦ elim (dec_lt old u32_max) [
            | yes below ↦
                rw
                  (
                    cause_error-below T origin s e stored below,
                    effect,
                    e,
                    stored,
                    L.get-put (old + 1) s,
                    L.events-put (old + 1) s,
                  )
                  (ground arith)
            | no above ↦
                rw (cause_error-above T origin s e stored (omega arith), effect, e, stored)
                  (at_max old (L.events s) (rw stored at range) above)
          ]
        ]
        | inr (x, e) ↦ rw (dispatch_unsigned T origin s cause_error_call x e, effect, e)
      ]

  -- Outside the genesis block, any sequence of extrinsics, whatever their origins and failures,
  -- leaves the value and the events that the specification gives: a signed `do_something` sets the
  -- value and appends its event, a signed `cause_error` adds one up to `u32::MAX`, and nothing
  -- else counts.
  pub run_refines :
      (requests : List (Request T)) (s : T.State)
      → L.block_number s ≢ 0
      → IsU32 (T.get s)
      → AllInRange T requests
      → view (run T requests s) ≡ effects T requests (view s)
  unfolding run effects
  run_refines [] s later range args = refl
  run_refines ((origin, call) ∷ rest) s later range (arg, args) =
      let s' = (dispatch T call origin s).1 in
      run_refines rest s' (rw dispatch-block_number later)
        (dispatch-IsU32 T L origin s call arg range) args
      ∙ ap (effects T rest) (dispatch-effect call origin s later range)

  -- The stored value stays a `u32` over any sequence of extrinsics.
  pub run-IsU32 :
      (requests : List (Request T)) (s : T.State)
      → IsU32 (T.get s)
      → AllInRange T requests
      → IsU32 (T.get (run T requests s))
  unfolding run
  run-IsU32 [] s range args = range
  run-IsU32 ((origin, call) ∷ rest) s range (arg, args) =
      run-IsU32 rest _ (dispatch-IsU32 T L origin s call arg range) args

  -- `k` signed calls of `cause_error` on a stored value raise it by `k`, and no further than
  -- `u32::MAX`.
  run-increments :
      (k old : ℕ) (origin : T.OriginFor) (s : T.State) {who : T.AccountId}
      → T.ensure_signed origin ≡ ok who
      → T.get s ≡ some old
      → old ≤ u32_max
      → T.get (run T (replicate k (origin, cause_error_call)) s) ≡ some (min (old + k) u32_max)
  unfolding run dispatch
  run-increments zero old origin s signed stored range = rw stored (ground arith)
  run-increments (suc k) old origin s signed stored range = elim (dec_lt old u32_max) [
    | yes below ↦
        rw (cause_error-below T origin s signed stored below, run)
          (run-increments k (old + 1) origin (T.put (old + 1) s) signed (L.get-put _ s)
              (omega arith)
            ∙ ground arith)
    | no above ↦
        rw (cause_error-above T origin s signed stored (omega arith), run)
          (run-increments k old origin s signed stored range ∙ ground arith)
  ]

-- Whether the storage item is set.
abbrev pub is_some : Option ℕ → Bool
is_some none = false
is_some (some _) = true

module _ (T : Config) where
  -- Whether an extrinsic is a signed `do_something`.
  abbrev pub is_store : Request T → Bool
  is_store (origin, do_something_call _) = elim (T.ensure_signed origin) [
    | ok _ ↦ true
    | err _ ↦ false
  ]
  is_store (origin, cause_error_call) = false

  abbrev pub any_store : List (Request T) → Bool
  any_store [] = false
  any_store (r ∷ rest) = is_store r || any_store rest

module _ (T : Config) (L : IsLawful T) where
  dispatch-is_some :
      (call : Call) (origin : T.OriginFor) (s : T.State)
      → is_some (T.get (dispatch T call origin s).1)
        ≡ (is_some (T.get s) || is_store T (origin, call))
  unfolding dispatch
  dispatch-is_some (do_something_call something) origin s = grind (arith, L.get-deposit, L.get-put)
  dispatch-is_some cause_error_call origin s = grind (arith, L.get-put)

  -- A value is stored after a sequence of extrinsics exactly when one was stored before, or one of
  -- them is a signed `do_something`: no call ever clears the storage item.
  run-is_some :
      (requests : List (Request T)) (s : T.State)
      → is_some (T.get (run T requests s)) ≡ (is_some (T.get s) || any_store T requests)
  unfolding run
  run-is_some [] s = ground arith
  run-is_some ((origin, call) ∷ rest) s =
      run-is_some rest _ ∙ rw (dispatch-is_some call origin s) (ground arith)
