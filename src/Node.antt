-- ===== src/Node.antt =====
-- The node binary of node/src: chain specifications, the RPC extensions, the extrinsics of the
-- benchmarks, and the service, over the parts of Substrate that it puts together.
pub mod ChainSpec
pub mod Rpc
pub mod Benchmarking
pub mod Types
pub mod Library
pub mod Action
pub mod Service
pub mod Command
mod Tests
