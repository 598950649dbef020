-- ===== src/Template/Outcomes.antt =====
-- What a sequence of extrinsics for the pallet returns, against a specification without storage.
use create_chain_substrate_n.Common.{
  ℕ, ◌≡◌, refl, ap, ◌∙◌, ◌≢◌, inl, inr, Result, ok, err, Option, none, some, List, [], ◌∷◌, arith,
  dec_lt, ltb, if◌then◌else◌, Result-cases, Option-cases,
}
use create_chain_substrate_n.Template.{
  Config, IsLawful, none_value, storage_overflow, Call, do_something_call, cause_error_call,
  dispatch, u32_max,
}
use create_chain_substrate_n.Template.Requests.{Request, AllInRange}
use create_chain_substrate_n.Template.Calls.{
  IsU32, do_something-signed, cause_error-below, cause_error-above, cause_error-none,
  dispatch_unsigned, dispatch-IsU32,
}
use create_chain_substrate_n.Template.History.{
  View, view, effect, dispatch-effect, dispatch-block_number,
}

module _ (T : Config) where
  abbrev pub Outcome : Type 0
  Outcome = Result T.DispatchError (Unit {0})

  -- The result of each extrinsic, dispatched in turn.
  unfoldable pub outcomes : List (Request T) → T.State → List Outcome
  outcomes [] s = []
  outcomes ((origin, call) ∷ rest) s =
      let (r, s') = dispatch T call origin s in r ∷ outcomes rest s'

  abbrev pub signed_outcome : Call → Option ℕ → Outcome
  signed_outcome (do_something_call something) value = ok tt
  signed_outcome cause_error_call none = err (T.into_dispatch_error none_value)
  signed_outcome cause_error_call (some n) =
      if ltb n u32_max then ok tt else err (T.into_dispatch_error storage_overflow)

  -- The specification of one result, by the stored value.
  unfoldable pub outcome : Request T → Option ℕ → Outcome
  outcome (origin, call) value = elim (T.ensure_signed origin) [
    | ok who ↦ signed_outcome call value
    | err e ↦ err e
  ]

  unfoldable pub expected : List (Request T) → View T → List Outcome
  unfolding outcome
  expected [] v = []
  expected (r ∷ rest) v = outcome r v.0 ∷ expected rest (effect T r v)

module _ (T : Config) (L : IsLawful T) where
  dispatch-outcome :
      (call : Call) (origin : T.OriginFor) (s : T.State)
      → IsU32 (T.get s)
      → (dispatch T call origin s).0 ≡ outcome T (origin, call) (T.get s)
  unfolding dispatch outcome
  dispatch-outcome (do_something_call something) origin s range =
      elim (Result-cases (T.ensure_signed origin)) [
        | inl (who, e) ↦ rw (do_something-signed T origin s something e, outcome, e)
        | inr (x, e) ↦
            rw (dispatch_unsigned T origin s (do_something_call something) x e, outcome, e)
      ]
  dispatch-outcome cause_error_call origin s range = elim (Result-cases (T.ensure_signed origin)) [
    | inl (who, e) ↦ elim (Option-cases (T.get s)) [
      | inl absent ↦ rw (cause_error-none T origin s e absent, outcome, e, absent)
      | inr (old, stored) ↦ elim (dec_lt old u32_max) [
        | yes below ↦
            rw (cause_error-below T origin s e stored below, outcome, e, stored) (ground arith)
        | no above ↦
            rw (cause_error-above T origin s e stored (omega arith), outcome, e, stored)
              (ground arith)
      ]
    ]
    | inr (x, e) ↦ rw (dispatch_unsigned T origin s cause_error_call x e, outcome, e)
  ]

  -- Outside the genesis block, each extrinsic of any sequence returns what the specification says
  -- by the value that the extrinsics before it leave: the error of `ensure_signed` if it is not
  -- signed; success for `do_something`; and for `cause_error` success below `u32::MAX`,
  -- `StorageOverflow` at it, and `NoneValue` without a value.
  pub outcomes_refine :
      (requests : List (Request T)) (s : T.State)
      → L.block_number s ≢ 0
      → IsU32 (T.get s)
      → AllInRange T requests
      → outcomes T requests s ≡ expected T requests (view T L s)
  unfolding outcomes expected
  outcomes_refine [] s later range args = refl
  outcomes_refine ((origin, call) ∷ rest) s later range (arg, args) =
      ap (λ l. (dispatch T call origin s).0 ∷ l)
        (outcomes_refine rest (dispatch T call origin s).1 (rw dispatch-block_number later)
            (dispatch-IsU32 T L origin s call arg range) args
          ∙ ap (expected T rest) (dispatch-effect T L call origin s later range))
      ∙ ap (λ r. r ∷ expected T rest (effect T (origin, call) (view T L s)))
          (dispatch-outcome call origin s range)
