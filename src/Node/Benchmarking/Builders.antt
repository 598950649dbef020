-- ===== src/Node/Benchmarking/Builders.antt =====
-- The builders of node/src/benchmarking.rs as the tool for benchmarks uses them: by the names of
-- their pallet and extrinsic, and by the opaque extrinsics that they build.
use create_chain_substrate_n.Common.{ℕ, Result, ok, err, String}
use create_chain_substrate_n.Runtime.Genesis.{Panic}
use create_chain_substrate_n.Node.Benchmarking.{
  BenchmarkApi, PayloadCodec, UncheckedExtrinsic, build_remark, build_transfer,
}

-- `RemarkBuilder` and `TransferKeepAliveBuilder`, by their fields.
pub data ExtrinsicBuilder (Client AccountId : Type 0) : Type 0 where
  remark_builder : Client → ExtrinsicBuilder Client AccountId
  transfer_keep_alive_builder : Client → AccountId → ℕ → ExtrinsicBuilder Client AccountId

module _ {Client AccountId : Type 0} where
  -- `fn pallet`
  abbrev pub pallet : ExtrinsicBuilder Client AccountId → String
  pallet (remark_builder _) = "system"
  pallet (transfer_keep_alive_builder _ _ _) = "balances"

  -- `fn extrinsic`
  abbrev pub extrinsic : ExtrinsicBuilder Client AccountId → String
  extrinsic (remark_builder _) = "remark"
  extrinsic (transfer_keep_alive_builder _ _ _) = "transfer_keep_alive"

-- `sp_runtime::OpaqueExtrinsic`, and the conversion to it.
pub record OpaqueApi (B : BenchmarkApi) : Type 1 where
  pub OpaqueExtrinsic : Type 0
  pub into : UncheckedExtrinsic B → OpaqueExtrinsic

module _ (B : BenchmarkApi) (payload : PayloadCodec B) (O : OpaqueApi B) where
  -- `let extrinsic: OpaqueExtrinsic = ….into(); Ok(extrinsic)`
  abbrev pub opaque :
      Result Panic (UncheckedExtrinsic B) → Result Panic (Result String O.OpaqueExtrinsic)
  opaque (ok x) = ok (ok (O.into x))
  opaque (err p) = err p

  -- `fn build`
  unfoldable pub build :
      ExtrinsicBuilder B.Client B.AccountId → ℕ → Result Panic (Result String O.OpaqueExtrinsic)
  build (remark_builder client) nonce = opaque (build_remark B payload client nonce)
  build (transfer_keep_alive_builder client dest value) nonce =
      opaque (build_transfer B payload client dest value nonce)
