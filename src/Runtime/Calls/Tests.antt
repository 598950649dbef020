-- ===== src/Runtime/Calls/Tests.antt =====
-- The encoding of calls at concrete inputs.
use create_chain_substrate_n.Common.{none, ◌≡◌, refl, [], ◌∷◌, some, arith}
use create_chain_substrate_n.Template.{do_something_call, cause_error_call}
use create_chain_substrate_n.Template.Mock.Calls.{template_call as mock_template_call, mock_codec}
use create_chain_substrate_n.Runtime.Calls.{template_call, runtime_codec}
use create_chain_substrate_n.Runtime.Calls.RoundTrip.{template_calls_wire}
use create_chain_substrate_n.Runtime.Calls.Sample.{word, integers, calls}

-- The bytes of the pallet's calls in the runtime, and in the mock runtime.
template_bytes :
    ((runtime_codec integers calls).encode (template_call (do_something_call 300))
      ≡ 7 ∷ 0 ∷ 44 ∷ 1 ∷ 0 ∷ 0 ∷ [])
    × ((runtime_codec integers calls).encode (template_call cause_error_call) ≡ 7 ∷ 1 ∷ [])
    × ((mock_codec integers word).encode (mock_template_call cause_error_call) ≡ 1 ∷ 1 ∷ [])
template_bytes = (refl, refl, refl)

template_calls_wire_example :
    let C = runtime_codec integers calls in
    (C.encode (template_call (do_something_call 300)) ≡ 7 ∷ 0 ∷ 44 ∷ 1 ∷ 0 ∷ 0 ∷ [])
    × (C.decode (7 ∷ 0 ∷ 44 ∷ 1 ∷ 0 ∷ 0 ∷ 9 ∷ [])
        ≡ some (template_call (do_something_call 300), 9 ∷ []))
    × (C.encode (template_call cause_error_call) ≡ 7 ∷ 1 ∷ [])
    × (C.decode (7 ∷ 1 ∷ 9 ∷ []) ≡ some (template_call cause_error_call, 9 ∷ []))
    × (C.decode (7 ∷ 2 ∷ 9 ∷ []) ≡ none)
    × (C.decode (2 ∷ 9 ∷ []) ≡ none)
    × (C.decode (5 ∷ 9 ∷ []) ≡ none)
template_calls_wire_example =
    template_calls_wire integers calls 300 2 (9 ∷ []) (omega arith) (omega arith) (omega arith)
