-- ===== src/Node/Benchmarking/Tests.antt =====
-- The theorems about the benchmarks' extrinsics in the runtime, at a concrete chain and codec.

use create_chain_substrate_n.Common.{
  List, [], ◌∷◌, ◌++◌, ap, ◌∙◌, Bool, true, false, String, ◌==ₛ◌, ℕ, ◌+◌, ◌≤◌, ◌<◌, ◌≡◌, refl, ok,
  Option, none, some, arith, ◌==◌, ◌&&◌, ltb, leb, if◌then◌else◌, ◌||◌,
}
use create_chain_substrate_n.Runtime.{version}
use create_chain_substrate_n.Common.Codecs.{Codec, Decoder, bind-encode, ◌>>=◌}
use create_chain_substrate_n.Runtime.Calls.{
  RuntimeCall, balances_call, IsValidCall, runtime_codec, pallet_of, pallet_name,
}
use create_chain_substrate_n.Runtime.Calls.Sample.{integers, calls}
use create_chain_substrate_n.Node.Benchmarking.Builders.{
  ExtrinsicBuilder, transfer_keep_alive_builder, OpaqueApi, build,
}
use create_chain_substrate_n.Node.Benchmarking.Extrinsics.{IsSignedBy}
use create_chain_substrate_n.Node.Benchmarking.Decoding.{IsLawfulOpaque, builders_decoded}
use create_chain_substrate_n.Runtime.Configs.{block_hash_count}
use create_chain_substrate_n.Runtime.Extensions.{
  Extension, authorize_call, check_non_zero_sender, check_spec_version, check_tx_version,
  check_genesis, check_era, check_nonce, check_weight, charge_transaction_payment,
  check_metadata_hash, weight_reclaim, Explicit, Implicit, TxExtension, era_of, nonce_of, tip_of,
}
use create_chain_substrate_n.Node.Benchmarking.{UncheckedExtrinsic, build_remark, build_transfer}
use create_chain_substrate_n.Node.Benchmarking.Acceptance.{
  CheckApi, IsLawfulCheck, IsAccepted, builders-IsAccepted,
}
use create_chain_substrate_n.Node.Tests.{bench, coded, verify-sign, bench-IsLawfulSigning}

-- The hash of a block: 5 for block 0, and 6 for any other.
abbrev chain : ℕ → ℕ
chain n = if n == 0 then 5 else 6

abbrev kept : ℕ → ℕ → Option ℕ
kept s n = if (n == 0) || (ltb n s && leb s (n + block_hash_count)) then some (chain n) else none

-- What an extension adds in a block: an era is its period and the block where it was born.
abbrev added : ℕ → (e : Extension) → Explicit (ℕ × ℕ) e → Option (Implicit ℕ e)
added s authorize_call _ = some tt
added s check_non_zero_sender _ = some tt
added s check_spec_version _ = some version.spec_version
added s check_tx_version _ = some version.transaction_version
added s check_genesis _ = kept s 0
added s check_era era = kept s era.1
added s check_nonce _ = some tt
added s check_weight _ = some tt
added s charge_transaction_payment _ = some tt
added s check_metadata_hash enabled = if enabled then none else some none
added s weight_reclaim _ = some tt

-- The state is a block's number.
abbrev checks : CheckApi bench
checks = record {
  State = ℕ;
  number = λ s. s;
  block_hash = kept;
  birth = λ era n. era.1;
  implicit = added;
  verify = λ s m a. (s.0 == a) && (s.1 == m);
}

kept_recent : (s n : ℕ) → n < s → s ≤ n + block_hash_count → kept s n ≡ some (chain n)
kept_recent s n h k = ground arith

abbrev checks-IsLawful : IsLawfulCheck checks
checks-IsLawful = record {
  chain = chain;
  kept_lem = kept_recent;
  genesis_lem = λ s h. refl;
  birth_lem = λ k current n _ _ _ _. refl;
  authorize_call_lem = λ s. refl;
  check_non_zero_sender_lem = λ s. refl;
  check_spec_version_lem = λ s. refl;
  check_tx_version_lem = λ s. refl;
  check_genesis_lem = λ s. refl;
  check_era_lem = λ s era. refl;
  check_nonce_lem = λ s nonce. refl;
  check_weight_lem = λ s. refl;
  charge_transaction_payment_lem = λ s tip. refl;
  check_metadata_hash_lem = λ s. refl;
  weight_reclaim_lem = λ s. refl;
  verify-sign = verify-sign;
}

builders-IsAccepted_example :
    ((x : UncheckedExtrinsic bench) × (build_remark bench coded 1 4 ≡ ok x)
      × IsAccepted coded checks 3000 x)
    × ((y : UncheckedExtrinsic bench) × (build_transfer bench coded 1 8 70 4 ≡ ok y)
        × IsAccepted coded checks 3000 y)
builders-IsAccepted_example =
    builders-IsAccepted coded checks checks-IsLawful 1 3000 refl refl (omega arith) (omega arith) 8
      70 4

-- An extrinsic is encoded as its call, and its parts that carry a value.
abbrev tuple : ℕ × ℕ → ℕ → ℕ → Bool → TxExtension (ℕ × ℕ)
tuple era nonce tip enabled =
    (tt, (tt, (tt, (tt, (tt, (era, (nonce, (tt, (tip, (enabled, (tt, tt)))))))))))

abbrev enabled_of : TxExtension (ℕ × ℕ) → Bool
enabled_of (_, (_, (_, (_, (_, (_, (_, (_, (_, (enabled, _)))))))))) = enabled

abbrev encode_parts : UncheckedExtrinsic bench → List ℕ
encode_parts x =
    (if enabled_of x.extension then 1 else 0)
    ∷ x.signer
    ∷ x.signature.0
    ∷ x.signature.1
    ∷ (era_of x.extension).0
    ∷ (era_of x.extension).1
    ∷ nonce_of x.extension
    ∷ tip_of x.extension
    ∷ []

abbrev decode_parts : RuntimeCall calls → Decoder (UncheckedExtrinsic bench)
decode_parts call (e ∷ a ∷ s ∷ m ∷ p ∷ b ∷ n ∷ t ∷ rest) = some (
  record { call = call; signer = a; signature = (s, m); extension = tuple (p, b) n t (e == 1) },
  rest,
)
decode_parts call _ = none

parts_read_back :
    (x : UncheckedExtrinsic bench) (rest : List ℕ)
    → decode_parts x.call (encode_parts x ++ rest) ≡ some (x, rest)
parts_read_back x rest =
    ap
      (λ e. some (
        record {
          call = x.call;
          signer = x.signer;
          signature = x.signature;
          extension = tuple (era_of x.extension) (nonce_of x.extension) (tip_of x.extension) e;
        },
        rest,
      ))
      (flag (enabled_of x.extension))
  where
    flag : (e : Bool) → ((if e then 1 else 0) == 1) ≡ e
    flag true = refl
    flag false = refl

extrinsic_read_back :
    (x : UncheckedExtrinsic bench) (rest : List ℕ)
    → IsValidCall integers calls x.call
    → ((runtime_codec integers calls).decode >>= decode_parts)
        (((runtime_codec integers calls).encode x.call ++ encode_parts x) ++ rest)
      ≡ some (x, rest)
extrinsic_read_back x rest valid =
    bind-encode (runtime_codec integers calls) decode_parts x.call (encode_parts x) rest valid
    ∙ parts_read_back x rest

abbrev extrinsic_codec : Codec (UncheckedExtrinsic bench)
extrinsic_codec = record {
  IsValid = λ x. IsValidCall integers calls x.call;
  encode = λ x. (runtime_codec integers calls).encode x.call ++ encode_parts x;
  decode = (runtime_codec integers calls).decode >>= decode_parts;
  decode-encode = extrinsic_read_back;
}

-- An opaque extrinsic is its bytes.
abbrev opaque_bytes : OpaqueApi bench
opaque_bytes = record { OpaqueExtrinsic = List ℕ; into = extrinsic_codec.encode }

abbrev to_lowercase : String → String
to_lowercase name =
    if name ==ₛ "System" then "system" else (if name ==ₛ "Balances" then "balances" else name)

abbrev opaque_bytes-IsLawful : IsLawfulOpaque integers opaque_bytes
opaque_bytes-IsLawful = record {
  codec = extrinsic_codec;
  codec-IsValid = λ x valid _ _. valid;
  remark-IsValid = tt;
  transfer-IsValid = λ dest value range. tt;
  encode_opaque = λ bytes. bytes;
  encode_opaque-into = λ x. refl;
  to_lowercase = to_lowercase;
  to_lowercase-system = refl;
  to_lowercase-balances = refl;
}

abbrev transfers : ExtrinsicBuilder ℕ ℕ
transfers = transfer_keep_alive_builder 1 8 70

builders_decoded_example :
    (o : List ℕ) × (build bench coded opaque_bytes transfers 4 ≡ ok (ok o))
    × (x : UncheckedExtrinsic bench) × (extrinsic_codec.decode (o ++ 9 ∷ []) ≡ some (x, 9 ∷ []))
    × IsSignedBy bench coded bench-IsLawfulSigning 1 2 (balances_call 78) 4 5 x
    × (to_lowercase (pallet_name (pallet_of x.call)) ≡ "balances")
builders_decoded_example =
    builders_decoded coded bench-IsLawfulSigning opaque_bytes-IsLawful transfers 4 (9 ∷ [])
      (omega arith) (omega arith) refl
