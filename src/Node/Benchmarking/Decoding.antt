-- ===== src/Node/Benchmarking/Decoding.antt =====
-- What the runtime decodes from the opaque extrinsics that the builders of
-- node/src/benchmarking.rs hand to the tool for benchmarks.
use create_chain_substrate_n.Common.{
  ℕ, ◌^◌, ◌<◌, ◌≡◌, sym, ap, subst, ◌∙◌, ok, some, List, [], ◌++◌, String, arith,
}
use create_chain_substrate_n.Common.Codecs.{Codec, Integers}
use create_chain_substrate_n.Runtime.Calls.{
  RuntimeCall, system_call, balances_call, IsValidCall, pallet_of, pallet_name,
}
use create_chain_substrate_n.Runtime.Extensions.{nonce_of, tip_of}
use create_chain_substrate_n.Node.Benchmarking.{
  BenchmarkApi, PayloadCodec, UncheckedExtrinsic, build_remark, build_transfer,
}
use create_chain_substrate_n.Node.Benchmarking.Builders.{
  ExtrinsicBuilder, remark_builder, transfer_keep_alive_builder, pallet, OpaqueApi, opaque, build,
}
use create_chain_substrate_n.Node.Benchmarking.Extrinsics.{
  IsLawfulSigning, IsSignedBy, create_benchmark_extrinsic-IsSignedBy,
}

-- The documented behaviour of the encodings: an extrinsic is read back if its call, its nonce as a
-- `u32` and its tip as a `u128` are; and an opaque extrinsic is encoded as the one that it was made
-- of. The tool finds a builder by the name of its pallet in lower case.
pub record IsLawfulOpaque (I : Integers) {B : BenchmarkApi} (O : OpaqueApi B) : Type 1 where
  pub codec : Codec (UncheckedExtrinsic B)
  pub codec-IsValid :
      (x : UncheckedExtrinsic B)
      → IsValidCall I B.calls x.call
      → nonce_of x.extension < 2 ^ 32
      → tip_of x.extension < 2 ^ 128
      → codec.IsValid x
  pub remark-IsValid : B.calls.system_codec.IsValid (B.remark [])
  pub transfer-IsValid :
      (dest : B.AccountId) (value : ℕ)
      → value < 2 ^ 128
      → B.calls.balances_codec.IsValid (B.transfer_keep_alive dest value)
  pub encode_opaque : O.OpaqueExtrinsic → List ℕ
  pub encode_opaque-into : (x : UncheckedExtrinsic B) → encode_opaque (O.into x) ≡ codec.encode x
  pub to_lowercase : String → String
  pub to_lowercase-system : to_lowercase "System" ≡ "system"
  pub to_lowercase-balances : to_lowercase "Balances" ≡ "balances"

module _ {Client AccountId : Type 0} where
  abbrev pub client_of : ExtrinsicBuilder Client AccountId → Client
  client_of (remark_builder client) = client
  client_of (transfer_keep_alive_builder client _ _) = client

  -- The amount is a `u128`.
  abbrev pub InRange : ExtrinsicBuilder Client AccountId → Type 0
  InRange (remark_builder _) = Unit
  InRange (transfer_keep_alive_builder _ _ value) = value < 2 ^ 128

-- The call that a builder is for.
abbrev pub call_of :
    (B : BenchmarkApi) → ExtrinsicBuilder B.Client B.AccountId → RuntimeCall B.calls
call_of B (remark_builder _) = system_call (B.remark [])
call_of B (transfer_keep_alive_builder _ dest value) =
    balances_call (B.transfer_keep_alive dest value)

module _ {B : BenchmarkApi} (payload : PayloadCodec B) (S : IsLawfulSigning B) {O : OpaqueApi B}
    {I : Integers} (L : IsLawfulOpaque I O) where
  call_of-IsValid :
      (b : ExtrinsicBuilder B.Client B.AccountId) → InRange b → IsValidCall I B.calls (call_of B b)
  call_of-IsValid (remark_builder _) range = L.remark-IsValid
  call_of-IsValid (transfer_keep_alive_builder _ dest value) range =
      L.transfer-IsValid dest value range

  -- A builder makes its extrinsic, and makes it opaque.
  build-IsSignedBy :
      (b : ExtrinsicBuilder B.Client B.AccountId) (nonce : ℕ) {hash : B.Hash}
      → B.block_hash (client_of b) 0 ≡ ok (some hash)
      → (x : UncheckedExtrinsic B) × (build B payload O b nonce ≡ ok (ok (O.into x)))
        × IsSignedBy B payload S (client_of b) B.bob (call_of B b) nonce hash x
  unfolding build build_remark build_transfer
  build-IsSignedBy (remark_builder client) nonce found =
      let (x, e, signed) =
        create_benchmark_extrinsic-IsSignedBy B payload S client B.bob (system_call (B.remark []))
          nonce found in
      (x, ap (opaque B payload O) e, signed)
  build-IsSignedBy (transfer_keep_alive_builder client dest value) nonce found =
      let (x, e, signed) =
        create_benchmark_extrinsic-IsSignedBy B payload S client B.bob
          (balances_call (B.transfer_keep_alive dest value)) nonce found in
      (x, ap (opaque B payload O) e, signed)

  pallet_name-pallet :
      (b : ExtrinsicBuilder B.Client B.AccountId)
      → L.to_lowercase (pallet_name (pallet_of (call_of B b))) ≡ pallet b
  pallet_name-pallet (remark_builder _) = L.to_lowercase-system
  pallet_name-pallet (transfer_keep_alive_builder _ _ _) = L.to_lowercase-balances

  -- A builder whose client finds block 0 and whose amount is a `u128` builds, at every nonce that
  -- is a `u32`, an opaque extrinsic. With any bytes behind it, the runtime decodes it, leaves those
  -- bytes, and has the extrinsic of `Bob` for the builder's call, well signed and with that nonce;
  -- and the pallet of that call has, in lower case, the name that the builder is listed under.
  pub builders_decoded :
      (b : ExtrinsicBuilder B.Client B.AccountId) (nonce : ℕ) {hash : B.Hash} (rest : List ℕ)
      → InRange b
      → nonce < 2 ^ 32
      → B.block_hash (client_of b) 0 ≡ ok (some hash)
      → (o : O.OpaqueExtrinsic) × (build B payload O b nonce ≡ ok (ok o))
        × (x : UncheckedExtrinsic B) × (L.codec.decode (L.encode_opaque o ++ rest) ≡ some (x, rest))
        × IsSignedBy B payload S (client_of b) B.bob (call_of B b) nonce hash x
        × (L.to_lowercase (pallet_name (pallet_of x.call)) ≡ pallet b)
  builders_decoded b nonce {hash} rest range small found =
      let (x, built, signed) = build-IsSignedBy b nonce found in
      let valid : L.codec.IsValid x =
        L.codec-IsValid x
          (subst (IsValidCall I B.calls) (sym signed.carries_call) (call_of-IsValid b range))
          (omega (arith, signed.carries_nonce)) (omega (arith, signed.no_tip)) in
      (
        O.into x,
        built,
        x,
        ap (λ bytes. L.codec.decode (bytes ++ rest)) (L.encode_opaque-into x)
            ∙ L.codec.decode-encode x rest valid,
        signed,
        ap (λ call. L.to_lowercase (pallet_name (pallet_of call))) signed.carries_call
            ∙ pallet_name-pallet b,
      )
