-- ===== src/Runtime/Apis/Tests.antt =====
-- A concrete chain state, which holds the genesis of a preset, and the benchmarks of the APIs at it.
use create_chain_substrate_n.Common.{
  ℕ, ◌≡◌, refl, String, none, some, [], ◌∷◌, ok, err, pure, Effect, List, if◌then◌else◌, ◌==ₛ◌,
  eq_iff, ◌≢◌, arith,
}
use create_chain_substrate_n.Template.Tests.{rocks}
use create_chain_substrate_n.Runtime.Genesis.{Panic}
use create_chain_substrate_n.Runtime.Sample.{Patch, keys, to_value}
use create_chain_substrate_n.Runtime.Configs.Tests.{limits}
use create_chain_substrate_n.Runtime.Apis.{FrameTypes, FrameApi}
use create_chain_substrate_n.Runtime.Apis.Genesis.{IsLawfulBuilding}
use create_chain_substrate_n.Runtime.Apis.Benchmarks.{IsLawfulBenchmarking, dispatch_benchmark}
use create_chain_substrate_n.Runtime.Calls.{aura, balances, sudo}
use create_chain_substrate_n.Runtime.Apis.Dispatch.{dispatch_benchmark_one}

-- Types over a state and blocks; a benchmark's list, batch and configuration are names.
abbrev pub stub_types : (State LazyBlock : Type 0) → FrameTypes
stub_types State LazyBlock = record {
  State = State;
  LazyBlock = LazyBlock;
  Header = ℕ;
  ExtrinsicInclusionMode = ℕ;
  Extrinsic = ℕ;
  ApplyExtrinsicResult = ℕ;
  InherentData = ℕ;
  CheckInherentsResult = ℕ;
  TransactionSource = ℕ;
  TransactionValidity = ℕ;
  Hash = ℕ;
  RuntimeMetadata = ℕ;
  OpaqueMetadata = ℕ;
  ViewFunctionId = ℕ;
  ViewFunctionDispatchError = ℕ;
  SlotDuration = ℕ;
  SessionKeys = ℕ;
  OpaqueGeneratedSessionKeys = ℕ;
  KeyTypeId = ℕ;
  EquivocationProof = ℕ;
  OpaqueKeyOwnershipProof = ℕ;
  RuntimeCall = ℕ;
  RuntimeDispatchInfo = ℕ;
  FeeDetails = ℕ;
  BenchmarkLocation = ℕ;
  BenchmarkList = String;
  StorageInfo = ℕ;
  BenchmarkConfig = String;
  BenchmarkBatch = String;
  TrackedStorageKey = ℕ;
  UpgradeCheckSelect = ℕ;
  TryStateSelect = ℕ;
  TryRuntimeError = String;
}

-- A frame that executes blocks, reads authorities and builds states as it is told.
abbrev pub stub_frame :
    {State LazyBlock : Type 0}
    → (execute : LazyBlock → Effect State Panic (Unit {0})) → (aura_keys : State → List keys.AuraId)
    → (grandpa : State → List (keys.GrandpaId × ℕ)) → (build : Patch → State → State)
    → FrameApi keys rocks limits (stub_types State LazyBlock)
stub_frame execute aura_keys grandpa build = record {
  execute_block = execute;
  initialize_block = λ header. pure 0;
  apply_extrinsic = λ x. pure 0;
  finalize_block = pure 0;
  validate_transaction = λ source x hash. pure 0;
  offchain_worker = λ header. pure tt;
  try_runtime_upgrade = λ checks. pure (err "no try-runtime");
  try_execute_block = λ block root signature select. pure (err "no try-runtime");
  metadata = 0;
  opaque_metadata_new = λ m. m;
  metadata_at_version = λ v. none;
  metadata_versions = [];
  execute_view_function = λ id input. pure (err 0);
  create_extrinsics = λ inherents. pure [];
  check_extrinsics = λ inherents block. pure 0;
  generate = λ owner seed. pure 0;
  session_keys_into = λ k. k;
  decode_into_raw_public_keys = λ bytes. none;
  from_millis = λ n. n;
  aura_authorities = aura_keys;
  grandpa_authorities = grandpa;
  current_set_id = λ s. 0;
  account_nonce = λ account s. 0;
  query_info = λ x len. pure 0;
  query_fee_details = λ x len. pure 0;
  query_call_info = λ call len. pure 0;
  query_call_fee_details = λ call len. pure 0;
  weight_to_fee = λ w. pure w.time;
  length_to_fee = λ n. pure n;
  max_block = λ w. w;
  build_state = λ bytes s. (ok (ok tt), build bytes s);
  get_preset = λ id f. elim id [ some name ↦ f name | none ↦ ok (some ([], [], [], none)) ];
  baseline_bench = 0;
  system_bench = 1;
  system_extensions_bench = 2;
  balances_bench = 3;
  timestamp_bench = 4;
  sudo_bench = 5;
  template_bench = 6;
  list_benchmark = λ name location extra. name;
  storage_info = [];
  whitelisted_storage_keys = [];
  add_benchmark = λ config keys_ name location. pure (
      if name ==ₛ config
      then (if name ==ₛ "pallet_balances" then err "stopped" else ok (name ∷ []))
      else ok []);
  debug = λ e. e;
}

-- The state is the genesis that it holds.
abbrev pub plain_types : FrameTypes
plain_types = stub_types Patch ℕ

abbrev pub plain_frame : FrameApi keys rocks limits plain_types
plain_frame = stub_frame (λ block. pure tt) (λ s. s.1) (λ s. s.2) (λ bytes s. bytes)

-- What is written is read back.
pub read_back :
    (v b : Patch) (s : Patch)
    → keys.to_string v ≡ ok b
    → plain_frame.build_state b s ≡ (ok (ok tt), v)
read_back v b s e = cc

abbrev pub plain_frame-IsLawfulBuilding : IsLawfulBuilding plain_frame to_value
plain_frame-IsLawfulBuilding = record {
  default_preset = ([], [], [], none);
  get_preset_some = λ id f. refl;
  get_preset_none = λ f. refl;
  built = λ patch s. to_value patch;
  build_state_lem = λ patch b s e _ _. read_back (to_value patch) b s e;
  aura_lem = λ patch s. refl;
  grandpa_lem = λ patch s. refl;
}

other_benchmark :
    (config name : String) (s : Patch)
    → name ≢ config
    → plain_frame.add_benchmark config [] name 0 s ≡ (ok (ok []), s)
other_benchmark config name s differ = ground (arith, eq_iff name config)

abbrev plain_frame-IsLawfulBenchmarking : IsLawfulBenchmarking plain_frame
plain_frame-IsLawfulBenchmarking = record {
  listed_name = λ l. l;
  pallet_of = λ c. c;
  list_benchmark_lem = λ name location extra. refl;
  add_benchmark_other = λ config keys_ name location s differ. other_benchmark config name s differ;
}

dispatch_benchmark_one_example :
    dispatch_benchmark plain_frame "pallet_sudo" ([], [], [], none)
    ≡ (ok (ok ("pallet_sudo" ∷ [])), ([], [], [], none))
dispatch_benchmark_one_example =
    dispatch_benchmark_one plain_frame plain_frame-IsLawfulBenchmarking "pallet_sudo" sudo
      ([], [], [], none) refl

-- An error ends it, and a pallet without benchmarks runs nothing.
balances_stopped :
    dispatch_benchmark plain_frame "pallet_balances" ([], [], [], none)
    ≡ (ok (err "stopped"), ([], [], [], none))
balances_stopped =
    dispatch_benchmark_one plain_frame plain_frame-IsLawfulBenchmarking "pallet_balances" balances
      ([], [], [], none) refl

aura_without_benchmarks :
    dispatch_benchmark plain_frame "pallet_aura" ([], [], [], none)
    ≡ (ok (ok []), ([], [], [], none))
aura_without_benchmarks =
    dispatch_benchmark_one plain_frame plain_frame-IsLawfulBenchmarking "pallet_aura" aura
      ([], [], [], none) refl
