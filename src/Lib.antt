-- ===== src/Lib.antt =====
-- A Substrate solochain node: its template pallet, its runtime and its node binary.
--
-- The parts. The node binary (node/src) starts a chain from a specification, which names a genesis
-- preset of the runtime (runtime/src); the runtime puts the pallets together, among them the
-- template pallet (pallets/template/src). What is not in this repository, that is Substrate's
-- crates, is a parameter: the functions the code calls are fields of a record, and what the code
-- relies on is a named law.
--
-- Common: Rust's `Result`, code that returns early with `?`, lists, Boolean tests.
--
-- Template (pallets/template/src/lib.rs): `do_something` and `cause_error` as functions on a
-- storage that FRAME gives (`Config` and its laws, in Template/Frame), so that writes before an
-- error would stay unless the code comes to its check first. `dispatch` is the choice of a call.
-- Template/Requests runs sequences of extrinsics, Template/Calls has the theorems on single calls,
-- Template/History and Template/Outcomes those on sequences, against a specification without
-- storage, and Template/Totals the value in closed form. Template/Weights is weights.rs,
-- Template/Benchmarks is benchmarking.rs, and Template/Mock is tests.rs with the storage and the
-- calls of mock.rs, where the assertions of FRAME are parameters. Template/Encoding is the encoding
-- of the calls by their indices.
--
-- Runtime (runtime/src/lib.rs): the constants and the version. Runtime/Calls has the pallets with
-- their indices and the calls that are derived for them, whose encoding is in Common/Codecs an
-- index and what it decides; Runtime/Extensions has the tuple `TxExtension`. Runtime/Build is
-- runtime/build.rs and node/build.rs. Runtime/Genesis is genesis_config_presets.rs:
-- `testnet_genesis`, the two presets, `get_preset` and `preset_names`, over the keyring and the
-- conversion to JSON. Runtime/Configs is runtime/src/configs/mod.rs: the limits of a block, the
-- weights of the template pallet, and the times of pallet_timestamp and pallet_aura;
-- Runtime/Configs/Pallets has the other configurations, and Runtime/Configs/Fees that of
-- pallet_transaction_payment. Runtime/Apis is runtime/src/apis.rs, each function of an API over the
-- state of the chain, with the functions of frame_executive and of the pallets as fields of
-- `FrameApi`; Runtime/Apis/Genesis is its genesis builder, and Runtime/Apis/Benchmarks its
-- benchmarks, over the list of runtime/src/benchmarks.rs, and the API of try-runtime;
-- Runtime/Apis/Dispatch takes it to the pallets of the runtime. Runtime/Chain has the chains of
-- blocks that `execute_block` accepts, as a step relation, with the calls of each block, of which
-- it hands those of the template pallet to that pallet: Runtime/Chain/Time follows their slots and
-- times, and Runtime/Chain/Value the template pallet. `u128` and `u32` values are native numbers
-- with their bounds stated; `1u128 << 60` is 2 ^ 60.
--
-- Node (node/src): Node/ChainSpec is chain_spec.rs with `load_spec` of command.rs, Node/Rpc is
-- rpc.rs, Node/Benchmarking is benchmarking.rs, and Node/Service is service.rs. The service is code
-- that makes calls of the client crates: a call that can fail or has an effect is recorded in a
-- trace, and its result may be any function of the calls before it; the reading of block 0's hash,
-- the building of the transaction pool and the registration of metrics are functions of their
-- arguments and not in the trace; Node/Types has the values passed on, Node/Library the calls,
-- Node/Action the sequencing with `?` and panics. Its three conditional blocks are functions of
-- their own, `start_offchain_workers`, `start_authoring` and `start_grandpa_voter`, in the order of
-- the source. Node/Service/Progress has the rules on the calls that code makes,
-- Node/Service/Sequence applies them to `new_full`, and Node/Service/Spawning reads the tasks off
-- its calls; Node/Service/FailFast has the rules on errors, for Node/Service/Failing.
--
-- Node/Command is `run` of node/src/command.rs, with the command line of cli.rs in
-- Node/Command/CommandLine and the texts of `SubstrateCli` in Node/Command/Description. The runner
-- of sc_cli is a parameter: its law in Node/Command/Steps is that it runs a closure at its
-- configuration, and then what the closure gives. `from_service` runs code of the service from an
-- empty trace, since a process runs such code once. Node/Command/Tasks joins it with
-- Node/Service/Spawning: the tasks of a node that is run.
--
-- How the parts meet: Node/ChainSpec/Starting takes a specification of the node through the genesis
-- builder of the runtime to the state that it builds; Node/Service/Timing holds the times of the
-- node's author against the checks of the runtime's pallets; Node/Benchmarking/Acceptance holds the
-- node's extrinsics against the extensions, the versions and the kept hashes of the runtime, and
-- Node/Benchmarking/Decoding the opaque extrinsics of Node/Benchmarking/Builders against the
-- encoding of the runtime's calls; and Runtime/Configs/Room holds the weights of the template
-- pallet against the limits of a block, and Runtime/Configs/Fees its fees against the balances at
-- genesis.
--
-- Fuel: the search for the next power of two (`power_from`) has 32 steps, one for each power of two
-- that a `u32` holds; the bounds of the period are proved with it.
--
-- Not modelled: the opaque types, the session keys, and what macros make of the runtime beside its
-- calls, which are aliases of and code over types of other crates, with the types that the
-- configurations of the pallets only name; the scripts of the environment. node/src/main.rs only
-- calls `run`. Asynchronous code is not run: a future that is spawned is a call with its task's
-- name, group and kind.
pub mod Common
pub mod Template
pub mod Runtime
pub mod Node
