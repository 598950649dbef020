-- ===== src/Node/Benchmarking.antt =====
-- The extrinsics of node/src/benchmarking.rs, over the client, the keys and the codec.
pub mod Era
pub mod Extrinsics
pub mod Acceptance
pub mod Builders
pub mod Decoding
mod Tests
use create_chain_substrate_n.Common.{
  ℕ, zero, suc, ◌*◌, ◌/◌, ◌%◌, ◌^◌, ◌≡◌, ◌≤◌, Bool, true, false, Result, ok, err, Option, none,
  some, List, [], String, ◌<>◌, leb, if◌then◌else◌, map_err,
}
use create_chain_substrate_n.Runtime.{version}
use create_chain_substrate_n.Runtime.Configs.{block_hash_count}
use create_chain_substrate_n.Runtime.Genesis.{Panic, panic}
use create_chain_substrate_n.Runtime.Calls.{CallTypes, RuntimeCall, system_call, balances_call}
use create_chain_substrate_n.Runtime.Extensions.{TxExtension, TxImplicit}

-- `u32::checked_next_power_of_two`: the first of the 32 powers of two that is large enough.
unfoldable pub power_from : ℕ → ℕ → ℕ → Option ℕ
power_from zero p n = none
power_from (suc more) p n = elim (leb n p) [ true ↦ some p | false ↦ power_from more (2 * p) n ]

abbrev pub checked_next_power_of_two : ℕ → Option ℕ
checked_next_power_of_two = power_from 32 1

-- `.map(|c| c / 2).unwrap_or(2) as u64`
abbrev pub half_or_two : Option ℕ → ℕ
half_or_two none = 2
half_or_two (some c) = c / 2

-- The period of the mortal era, from the number of block hashes that the chain keeps.
unfoldable pub era_period : ℕ → ℕ
era_period hashes = half_or_two (checked_next_power_of_two hashes)

-- What the file uses of other crates, and the calls of the runtime's other pallets.
pub record BenchmarkApi : Type 1 where
  pub calls : CallTypes
  pub Client : Type 0
  pub ClientError : Type 0
  pub Hash : Type 0
  pub Pair : Type 0
  pub Public : Type 0
  pub AccountId : Type 0
  pub Signature : Type 0
  pub Era : Type 0
  pub Bytes : Type 0
  pub InherentData : Type 0
  pub InherentError : Type 0
  pub block_hash : Client → ℕ → Result ClientError (Option Hash)
  pub best_hash : Client → Hash
  pub best_number : Client → ℕ
  pub mortal : ℕ → ℕ → Era
  pub public : Pair → Public
  pub account_id : Public → AccountId
  pub sign : Pair → Bytes → Signature
  pub bob : Pair
  pub remark : List ℕ → calls.SystemCall
  pub transfer_keep_alive : AccountId → ℕ → calls.BalancesCall
  pub inherent_data_new : InherentData
  pub provide_timestamp : ℕ → InherentData → Result InherentError InherentData
  pub debug : InherentError → String

-- `runtime::UncheckedExtrinsic`, signed.
pub record UncheckedExtrinsic (B : BenchmarkApi) : Type 0 where
  pub call : RuntimeCall B.calls
  pub signer : B.AccountId
  pub signature : B.Signature
  pub extension : TxExtension B.Era

-- `using_encoded` of a `SignedPayload`.
abbrev pub PayloadCodec : BenchmarkApi → Type 0
PayloadCodec B = RuntimeCall B.calls → TxExtension B.Era → TxImplicit B.Hash → B.Bytes

module _ (B : BenchmarkApi) where
  -- The rest of `create_benchmark_extrinsic` behind `.ok().flatten().expect(…)`.
  abbrev pub with_genesis :
      {A : Type 0} → Result B.ClientError (Option B.Hash) → (B.Hash → A) → Result Panic A
  with_genesis (ok (some hash)) f = ok (f hash)
  with_genesis (ok none) f = err (panic "Genesis block exists; qed")
  with_genesis (err _) f = err (panic "Genesis block exists; qed")

  unfoldable pub inherent_benchmark_data : Result String B.InherentData
  inherent_benchmark_data =
      map_err (λ e. "creating inherent data: " <> B.debug e)
        (B.provide_timestamp 0 B.inherent_data_new)

module _ (B : BenchmarkApi) (payload : PayloadCodec B) where
  -- The third argument of `SignedPayload::from_raw`.
  abbrev pub implicit_data : B.Client → B.Hash → TxImplicit B.Hash
  implicit_data client genesis_hash = (
    tt,
    (
      tt,
      (
        version.spec_version,
        (
          version.transaction_version,
          (genesis_hash, (B.best_hash client, (tt, (tt, (tt, (none, (tt, tt))))))),
        ),
      ),
    ),
  )

  -- The tuple `tx_ext`; the period is cast to `u64`.
  abbrev pub tx_extension : B.Client → ℕ → TxExtension B.Era
  tx_extension client nonce = (
    tt,
    (
      tt,
      (
        tt,
        (
          tt,
          (
            tt,
            (
              B.mortal (era_period block_hash_count) (B.best_number client),
              (nonce, (tt, (0, (false, (tt, tt))))),
            ),
          ),
        ),
      ),
    ),
  )

  abbrev pub signed_extrinsic :
      B.Client → B.Pair → RuntimeCall B.calls → ℕ → B.Hash → UncheckedExtrinsic B
  signed_extrinsic client sender call nonce genesis_hash =
      let extension = tx_extension client nonce in
      record {
        call = call;
        signer = B.account_id (B.public sender);
        signature = B.sign sender (payload call extension (implicit_data client genesis_hash));
        extension = extension;
      }

  unfoldable pub create_benchmark_extrinsic :
      B.Client → B.Pair → RuntimeCall B.calls → ℕ → Result Panic (UncheckedExtrinsic B)
  create_benchmark_extrinsic client sender call nonce =
      with_genesis B (B.block_hash client 0) (signed_extrinsic client sender call nonce)

  -- What `RemarkBuilder::build` makes opaque.
  unfoldable pub build_remark : B.Client → ℕ → Result Panic (UncheckedExtrinsic B)
  build_remark client nonce =
      create_benchmark_extrinsic client B.bob (system_call (B.remark [])) nonce

  -- What `TransferKeepAliveBuilder::build` makes opaque.
  unfoldable pub build_transfer :
      B.Client → B.AccountId → ℕ → ℕ → Result Panic (UncheckedExtrinsic B)
  build_transfer client dest value nonce =
      create_benchmark_extrinsic client B.bob (balances_call (B.transfer_keep_alive dest value))
        nonce
