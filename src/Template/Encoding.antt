-- ===== src/Template/Encoding.antt =====
-- The encoding of the pallet's calls, by the indices of pallets/template/src/lib.rs.

use create_chain_substrate_n.Common.{ℕ, ◌^◌, ◌<◌, ◌≡◌, refl, List, [], ◌∷◌, ◌++◌, some, arith}
use create_chain_substrate_n.Common.Codecs.{
  Codec, Integers, Decoder, pure, decode_at, decode_as, decode_as-encode, indexed_codec,
}
use create_chain_substrate_n.Template.{Call, do_something_call, cause_error_call}
use create_chain_substrate_n.Template.Requests.{InRange}

-- `#[pallet::call_index(…)]`
abbrev pub call_index : Call → ℕ
call_index (do_something_call something) = 0
call_index cause_error_call = 1

pub call_index_bound : (call : Call) → call_index call < 2 ^ 8
call_index_bound (do_something_call something) = omega arith
call_index_bound cause_error_call = omega arith

module _ (I : Integers) where
  abbrev pub encode_arguments : Call → List ℕ
  encode_arguments (do_something_call something) = I.u32.encode something
  encode_arguments cause_error_call = []

  abbrev pub decode_arguments : ℕ → Decoder Call
  decode_arguments =
      decode_at ((0, decode_as I.u32 do_something_call) ∷ (1, pure cause_error_call) ∷ [])

  pub arguments_read_back :
      (call : Call) (rest : List ℕ)
      → InRange call
      → decode_arguments (call_index call) (encode_arguments call ++ rest) ≡ some (call, rest)
  arguments_read_back (do_something_call something) rest range =
      decode_as-encode I.u32 do_something_call something rest
        (I.u32-IsValid something (omega arith))
  arguments_read_back cause_error_call rest range = refl

  -- The encoding that `#[pallet::call]` derives: the index, and the arguments.
  abbrev pub call_codec : Codec Call
  call_codec =
      indexed_codec I call_index encode_arguments decode_arguments call_index_bound
        arguments_read_back
