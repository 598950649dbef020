-- ===== src/Template/Requests.antt =====
-- Sequences of extrinsics for the pallet, as blocks bring them: each is dispatched in turn, and
-- one that fails does not stop the next.
use create_chain_substrate_n.Common.{◌≤◌, List, [], ◌∷◌}
use create_chain_substrate_n.Template.{
  Config, Call, do_something_call, cause_error_call, dispatch, u32_max,
}

-- An extrinsic: its origin and its call.
abbrev pub Request : Config → Type 0
Request T = T.OriginFor × Call

-- The argument of a call is decoded as a `u32`.
abbrev pub InRange : Call → Type 0
InRange (do_something_call something) = something ≤ u32_max
InRange cause_error_call = Unit

abbrev pub AllInRange : (T : Config) → List (Request T) → Type 0
AllInRange T [] = Unit
AllInRange T ((_, call) ∷ rest) = InRange call × AllInRange T rest

unfoldable pub run : (T : Config) → List (Request T) → T.State → T.State
run T [] s = s
run T ((origin, call) ∷ rest) s = run T rest (dispatch T call origin s).1
