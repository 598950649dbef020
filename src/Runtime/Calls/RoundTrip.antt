-- ===== src/Runtime/Calls/RoundTrip.antt =====
-- The bytes that the runtime decodes as calls of the template pallet.
use create_chain_substrate_n.Common.{
  ℕ, ◌^◌, ◌<◌, ◌≤◌, ◌≡◌, refl, ap, ◌∙◌, List, [], ◌++◌, Option, some, none, arith,
}
use create_chain_substrate_n.Common.Codecs.{Integers, Decoder, bind-some, pure, ◌>>=◌}
use create_chain_substrate_n.Template.{Call, do_something_call, cause_error_call}
use create_chain_substrate_n.Template.Encoding.{call_codec, decode_arguments}
use create_chain_substrate_n.Runtime.Calls.{
  CallTypes, RuntimeCall, template_call, runtime_codec, decode_inner,
}

module _ (I : Integers) (K : CallTypes) where
  -- Behind one byte, the decoder of that index.
  behind :
      {A : Type 0} (d : ℕ → Decoder A) (n : ℕ) (bytes : List ℕ)
      → n < 2 ^ 8
      → (I.u8.decode >>= d) (I.u8.encode n ++ bytes) ≡ d n bytes
  behind d n bytes byte = bind-some I.u8.decode d (I.u8.decode-encode n bytes (I.u8-IsValid n byte))

  -- Behind the byte of the template pallet, what its calls are decoded from.
  nothing_behind :
      (bytes : List ℕ)
      → (call_codec I).decode bytes ≡ none
      → (runtime_codec I K).decode (I.u8.encode 7 ++ bytes) ≡ none
  nothing_behind bytes e =
      behind (decode_inner I K) 7 bytes (omega arith)
      ∙ ap
          (λ (x : Option (Call × List ℕ)). elim x [
            | some (c, rest) ↦ pure {A = RuntimeCall K} (template_call c) rest
            | none ↦ none
          ])
          e

  no_arguments : (index : ℕ) (bytes : List ℕ) → 2 ≤ index → decode_arguments I index bytes ≡ none
  no_arguments index bytes h = ground arith

  -- The format of the template pallet's calls on the wire: `do_something` of a `u32` is the bytes 7
  -- and 0 and the argument, `cause_error` the bytes 7 and 1, so they are encoded, and, whatever bytes
  -- are behind, so they are decoded. Behind the byte 7, every other index decodes as nothing; and so
  -- does every input that begins with 2 or 5, the indices of the pallets without calls.
  pub template_calls_wire :
      (something other : ℕ) (rest : List ℕ)
      → something < 2 ^ 32
      → 2 ≤ other
      → other < 2 ^ 8
      → let C = runtime_codec I K in
        let store = I.u8.encode 7 ++ (I.u8.encode 0 ++ I.u32.encode something) in
        let raise = I.u8.encode 7 ++ (I.u8.encode 1 ++ []) in
        (C.encode (template_call (do_something_call something)) ≡ store)
        × (C.decode (store ++ rest) ≡ some (template_call (do_something_call something), rest))
        × (C.encode (template_call cause_error_call) ≡ raise)
        × (C.decode (raise ++ rest) ≡ some (template_call cause_error_call, rest))
        × (C.decode (I.u8.encode 7 ++ (I.u8.encode other ++ rest)) ≡ none)
        × (C.decode (I.u8.encode 2 ++ rest) ≡ none)
        × (C.decode (I.u8.encode 5 ++ rest) ≡ none)
  template_calls_wire something other rest word index byte = (
    refl,
    (runtime_codec I K).decode-encode (template_call (do_something_call something)) rest
        (omega arith),
    refl,
    (runtime_codec I K).decode-encode (template_call cause_error_call) rest tt,
    nothing_behind (I.u8.encode other ++ rest)
        (behind (decode_arguments I) other rest byte ∙ no_arguments other rest index),
    behind (decode_inner I K) 2 rest (omega arith),
    behind (decode_inner I K) 5 rest (omega arith),
  )
