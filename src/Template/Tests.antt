-- ===== src/Template/Tests.antt =====
-- A concrete frame for the pallet, its unit tests, and its theorems at concrete inputs.

use create_chain_substrate_n.Common.{
  ℕ, ◌+◌, ◌<◌, min, ◌≡◌, refl, ◌≢◌, Result, ok, err, Option, none, some, List, [], ◌∷◌, ◌++◌, arith,
  ◌==◌, if◌then◌else◌, ◌↔◌, ◌*◌,
}
use create_chain_substrate_n.Template.{
  Config, IsLawful, Event, something_stored, Error, none_value, storage_overflow, do_something_call,
  cause_error_call, cause_error, dispatch, u32_max,
}
use create_chain_substrate_n.Template.Requests.{Request, run}
use create_chain_substrate_n.Template.Calls.{cause_error_outcomes, dispatch_atomic}
use create_chain_substrate_n.Template.History.{effects, run_refines}
use create_chain_substrate_n.Template.Outcomes.{outcomes, expected, outcomes_refine}
use create_chain_substrate_n.Template.Totals.{total, tally, run-total}
use create_chain_substrate_n.Template.Weights.{WeightApi, IsLawfulApi, u64_max}

-- Origins of frame_system: the root, a signer, or none.
pub data RawOrigin : Type 0 where
  root unsigned : RawOrigin
  signed : ℕ → RawOrigin

pub data DispatchError : Type 0 where
  bad_origin : DispatchError
  module_error : Error → DispatchError

pub record Storage : Type 0 where
  pub value : Option ℕ
  pub number : ℕ
  pub log : List (Event ℕ)

abbrev ensure_signed : RawOrigin → Result DispatchError ℕ
ensure_signed (signed who) = ok who
ensure_signed root = err bad_origin
ensure_signed unsigned = err bad_origin

abbrev pub test : Config
test = record {
  AccountId = ℕ;
  OriginFor = RawOrigin;
  DispatchError = DispatchError;
  RuntimeEvent = Event ℕ;
  State = Storage;
  ensure_signed = ensure_signed;
  get = λ s. s.value;
  put = λ n s. record s { value = some n };
  into_runtime_event = λ e. e;
  system_deposit_event = λ e s. if s.number == 0 then s else record s { log = s.log ++ (e ∷ []) };
  into_dispatch_error = module_error;
}

-- Event deposit leaves the rest of the storage alone.
pub deposit_keeps :
    (e : Event ℕ) (s : Storage)
    → let s' = test.system_deposit_event e s in (s'.value ≡ s.value) × (s'.number ≡ s.number)
deposit_keeps e s = ground arith

pub deposit_logs :
    (e : Event ℕ) (s : Storage)
    → s.number ≢ 0
    → (test.system_deposit_event e s).log ≡ s.log ++ (e ∷ [])
deposit_logs e s later = ground arith

pub deposit_drops :
    (e : Event ℕ) (s : Storage) → s.number ≡ 0 → (test.system_deposit_event e s).log ≡ s.log
deposit_drops e s genesis = ground arith

pub errors_apart : module_error none_value ≢ module_error storage_overflow
errors_apart h = cc

abbrev pub test-IsLawful : IsLawful test
test-IsLawful = record {
  block_number = λ s. s.number;
  events = λ s. s.log;
  get-put = λ n s. refl;
  get-deposit = λ e s. (deposit_keeps e s).0;
  block_number-put = λ n s. refl;
  block_number-deposit = λ e s. (deposit_keeps e s).1;
  events-put = λ n s. refl;
  events-deposit = deposit_logs;
  events-deposit_genesis = deposit_drops;
  into_dispatch_error-injective = errors_apart;
}

-- A storage without a value in block 1.
abbrev fresh : Storage
fresh = record { value = none; number = 1; log = [] }

abbrev at_max : Storage
at_max = record { value = some u32_max; number = 7; log = [] }

-- A block of extrinsics: some signed, some not, one that fails.
abbrev requests : List (Request test)
requests =
    (signed 1, cause_error_call)
    ∷ (signed 2, do_something_call 41)
    ∷ (root, do_something_call 9)
    ∷ (signed 3, cause_error_call)
    ∷ []

cause_error_outcomes_example :
    let r = (cause_error test (signed 1) at_max).0 in
    ((r ≡ ok tt) ↔ ((old : ℕ) × (some u32_max ≡ some old) × (old < u32_max)))
    × ((r ≡ err (module_error none_value)) ↔ (some u32_max ≡ none))
    × ((r ≡ err (module_error storage_overflow)) ↔ (some u32_max ≡ some u32_max))
cause_error_outcomes_example =
    cause_error_outcomes test test-IsLawful (signed 1) at_max refl (omega arith)

dispatch_atomic_example : (dispatch test cause_error_call (signed 1) at_max).1 ≡ at_max
unfolding dispatch
dispatch_atomic_example =
    dispatch_atomic test cause_error_call (signed 1) at_max (module_error storage_overflow) refl

run_refines_example :
    ((run test requests fresh).value, (run test requests fresh).log)
    ≡ effects test requests (none, [])
run_refines_example = run_refines test test-IsLawful requests fresh (omega arith) tt (omega arith)

outcomes_refine_example : outcomes test requests fresh ≡ expected test requests (none, [])
outcomes_refine_example =
    outcomes_refine test test-IsLawful requests fresh (omega arith) tt (omega arith)

run-total_example : (run test requests fresh).value ≡ total (tally test requests (none, 0))
run-total_example = run-total test test-IsLawful requests fresh (omega arith) tt (omega arith)

-- What its extrinsics return.
outcomes-requests :
    outcomes test requests fresh
    ≡ err (module_error none_value) ∷ ok tt ∷ err bad_origin ∷ ok tt ∷ []
unfolding outcomes dispatch
outcomes-requests = refl

-- Its last store, and one increment since.
tally-requests : tally test requests (none, 0) ≡ (some 41, 1)
unfolding tally
tally-requests = refl

-- What the sequence comes to.
run-requests :
    run test requests fresh
    ≡ record { value = some 42; number = 1; log = something_stored 41 2 ∷ [] }
unfolding run dispatch
run-requests = refl

abbrev pub Parts : Type 0
Parts = record { time : ℕ; size : ℕ }

-- Weights as pairs of numbers, and the published costs of RocksDB in picoseconds.
abbrev pub rocks : WeightApi
rocks = record {
  Weight = Parts;
  RuntimeDbWeight = record { read : ℕ; write : ℕ };
  from_parts = λ t p. record { time = t; size = p };
  saturating_add =
      λ v w. record { time = min (v.time + w.time) u64_max; size = min (v.size + w.size) u64_max };
  reads = λ d n. record { time = min (d.read * n) u64_max; size = 0 };
  writes = λ d n. record { time = min (d.write * n) u64_max; size = 0 };
  rocks_db_weight = record { read = 25_000_000; write = 100_000_000 };
}

abbrev pub rocks-IsLawfulApi : IsLawfulApi rocks
rocks-IsLawfulApi = record {
  ref_time = λ w. w.time;
  proof_size = λ w. w.size;
  read = λ d. d.read;
  write = λ d. d.write;
  from_parts_lem = λ t p _ _. (refl, refl);
  saturating_add_lem = λ v w. (refl, refl);
  reads_lem = λ d n. (refl, refl);
  writes_lem = λ d n. (refl, refl);
}
