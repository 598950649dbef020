-- ===== src/Template/Mock/Calls.antt =====
-- The pallets of pallets/template/src/mock.rs, and the encoding of the mock runtime's calls.
use create_chain_substrate_n.Common.{ℕ, ◌^◌, ◌<◌, ◌≡◌, List, [], ◌∷◌, ◌++◌, some, arith}
use create_chain_substrate_n.Common.Codecs.{
  Codec, Integers, Decoder, decode_at, decode_as, decode_as-encode, indexed_codec,
}
use create_chain_substrate_n.Template.{Call}
use create_chain_substrate_n.Template.Encoding.{call_codec}

-- The calls of the mock runtime: those of frame_system, and those of the pallet.
pub data MockCall (SystemCall : Type 0) : Type 0 where
  system_call : SystemCall → MockCall SystemCall
  template_call : Call → MockCall SystemCall

module _ (I : Integers) {SystemCall : Type 0} (S : Codec SystemCall) where
  -- `#[runtime::pallet_index(…)]` of the pallet that a call belongs to.
  abbrev pub mock_index : MockCall SystemCall → ℕ
  mock_index (system_call _) = 0
  mock_index (template_call _) = 1

  abbrev pub IsValidMock : MockCall SystemCall → Type 0
  IsValidMock (system_call c) = S.IsValid c
  IsValidMock (template_call c) = (call_codec I).IsValid c

  abbrev pub encode_mock : MockCall SystemCall → List ℕ
  encode_mock (system_call c) = S.encode c
  encode_mock (template_call c) = (call_codec I).encode c

  abbrev pub decode_mock : ℕ → Decoder (MockCall SystemCall)
  decode_mock =
      decode_at ((0, decode_as S system_call) ∷ (1, decode_as (call_codec I) template_call) ∷ [])

  pub mock_index_bound : (c : MockCall SystemCall) → mock_index c < 2 ^ 8
  mock_index_bound (system_call c) = omega arith
  mock_index_bound (template_call c) = omega arith

  pub mock_read_back :
      (c : MockCall SystemCall) (rest : List ℕ)
      → IsValidMock c
      → decode_mock (mock_index c) (encode_mock c ++ rest) ≡ some (c, rest)
  mock_read_back (system_call c) rest valid = decode_as-encode S system_call c rest valid
  mock_read_back (template_call c) rest valid =
      decode_as-encode (call_codec I) template_call c rest valid

  abbrev pub mock_codec : Codec (MockCall SystemCall)
  mock_codec = indexed_codec I mock_index encode_mock decode_mock mock_index_bound mock_read_back
