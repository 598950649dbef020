-- ===== src/Node/Tests.antt =====
-- Concrete chain specifications, RPC modules and clients, and the theorems at them.
use create_chain_substrate_n.Common.{
  ℕ, ◌+◌, ◌*◌, ◌^◌, ◌<◌, ◌≤◌, ◌≡◌, ◌≢◌, ◌↔◌, refl, Result, ok, err, Option, none, some, List, [],
  ◌∷◌, ◌++◌, Bool, true, false, String, arith, eq_iff, IsIn, inl, inr, ◌==◌, Bool-cases,
  if◌then◌else◌, ◌==ₛ◌, sym, ◌∙◌, false≢true, ◌&&◌,
}
use create_chain_substrate_n.Runtime.Genesis.{Panic, panic}
use create_chain_substrate_n.Runtime.Sample.{keys}
use create_chain_substrate_n.Runtime.Calls.{RuntimeCall, system_call, balances_call}
use create_chain_substrate_n.Runtime.Calls.Sample.{calls}
use create_chain_substrate_n.Runtime.Extensions.{nonce_of}
use create_chain_substrate_n.Node.ChainSpec.{ChainSpecApi, IsLawfulBuilder, load_spec}
use create_chain_substrate_n.Node.ChainSpec.Loading.{load_spec_other}
use create_chain_substrate_n.Node.Rpc.{
  RpcApi, IsLawfulRpc, AreApart, create_full, create_full_methods,
}
use create_chain_substrate_n.Node.Benchmarking.{
  BenchmarkApi, PayloadCodec, era_period, create_benchmark_extrinsic, power_from,
}
use create_chain_substrate_n.Node.Benchmarking.Era.{era_period_bounds}
use create_chain_substrate_n.Node.Benchmarking.Extrinsics.{
  IsLawfulSigning, create_benchmark_extrinsic_panics,
}

-- A builder is the record of its settings.
abbrev pub Made : Type 0
Made = record {
  name : Option String;
  id : Option String;
  chain_type : Option ℕ;
  preset : Option String;
}

abbrev pub specs : ChainSpecApi
specs = record {
  Code = ℕ;
  ChainType = ℕ;
  Builder = Made;
  ChainSpec = Made;
  development = 0;
  local = 1;
  builder = λ code. record { name = none; id = none; chain_type = none; preset = none };
  with_name =
      λ n b. record { name = some n; id = b.id; chain_type = b.chain_type; preset = b.preset };
  with_id =
      λ i b. record { name = b.name; id = some i; chain_type = b.chain_type; preset = b.preset };
  with_chain_type =
      λ t b. record { name = b.name; id = b.id; chain_type = some t; preset = b.preset };
  with_genesis_config_preset_name =
      λ p b. record { name = b.name; id = b.id; chain_type = b.chain_type; preset = some p };
  build = λ b. b;
  from_json_file = λ path. err path;
}

abbrev pub specs-IsLawfulBuilder : IsLawfulBuilder specs
specs-IsLawfulBuilder = record {
  settings = λ b. record { name = b.name; id = b.id; chain_type = b.chain_type; preset = b.preset };
  settings_of =
      λ b. record { name = b.name; id = b.id; chain_type = b.chain_type; preset = b.preset };
  with_name_lem = λ n b. refl;
  with_id_lem = λ i b. refl;
  with_chain_type_lem = λ t b. refl;
  with_genesis_config_preset_name_lem = λ p b. refl;
  build_lem = λ b. refl;
}

load_spec_other_example :
    (IsIn {A = String} "spec.json" ("dev" ∷ "" ∷ "local" ∷ [])
      → load_spec specs none keys "spec.json" ≡ err "Development wasm not available")
    × ((¬ IsIn {A = String} "spec.json" ("dev" ∷ "" ∷ "local" ∷ []))
        → load_spec specs none keys "spec.json" ≡ err "spec.json")
load_spec_other_example = load_spec_other specs specs-IsLawfulBuilder keys none "spec.json"

abbrev systems : List String
systems = "system_accountNextIndex" ∷ "system_dryRun" ∷ []

abbrev payments : List String
payments = "payment_queryInfo" ∷ []

-- Modules that share no method: the system module has its names, the payment module one.
abbrev is_in : String → List String → Bool
is_in y [] = false
is_in y (x ∷ xs) = if y ==ₛ x then true else is_in y xs

abbrev clashes : List String → List String → Bool
clashes xs [] = false
clashes xs (y ∷ ys) = if is_in y xs then true else clashes xs ys

abbrev modules : RpcApi
modules = record {
  Client = ℕ;
  Pool = ℕ;
  RpcModule = List String;
  RegisterMethodError = ℕ;
  new = [];
  merge = λ m n. if clashes m n then err 0 else ok (m ++ n);
  system_rpc = λ client pool. systems;
  transaction_payment_rpc = λ client. payments;
}

is_in-IsIn : (y : String) (xs : List String) → is_in y xs ≡ true → IsIn y xs
is_in-IsIn y [] h = cc
is_in-IsIn y (x ∷ xs) h = ground (arith, eq_iff y x, is_in-IsIn y xs)

IsIn-is_in : (y : String) (xs : List String) → IsIn y xs → is_in y xs ≡ true
IsIn-is_in y [] h = elim h [ ]
IsIn-is_in y (x ∷ xs) (inl e) = ground (arith, eq_iff y x)
IsIn-is_in y (x ∷ xs) (inr m) = ground (arith, eq_iff y x, IsIn-is_in y xs m)

clashes-AreApart : (xs ys : List String) → clashes xs ys ≡ false → AreApart xs ys
clashes-AreApart xs [] h = tt
clashes-AreApart xs (y ∷ ys) h = elim (Bool-cases (is_in y xs)) [
  | inl e ↦ absurd (ground arith)
  | inr e ↦
      (λ m. absurd (false≢true (sym e ∙ IsIn-is_in y xs m)), clashes-AreApart xs ys (ground arith))
]

AreApart-clashes : (xs ys : List String) → AreApart xs ys → clashes xs ys ≡ false
AreApart-clashes xs [] h = refl
AreApart-clashes xs (y ∷ ys) (n, h) = elim (Bool-cases (is_in y xs)) [
  | inl e ↦ absurd (n (is_in-IsIn y xs e))
  | inr e ↦ rw e (AreApart-clashes xs ys h)
]

merge_apart :
    (m n : List String)
    → AreApart m n
    → (k : List String) × (modules.merge m n ≡ ok k) × (k ≡ m ++ n)
merge_apart m n h = (m ++ n, rw (AreApart-clashes m n h), refl)

merge_clash : (m n : List String) → (¬ AreApart m n) → (e : ℕ) × (modules.merge m n ≡ err e)
merge_clash m n h = elim (Bool-cases (clashes m n)) [
  | inl e ↦ (0, rw e)
  | inr e ↦ absurd (h (clashes-AreApart m n e))
]

abbrev modules-IsLawfulRpc : IsLawfulRpc modules
modules-IsLawfulRpc = record {
  methods = λ m. m;
  methods-new = refl;
  merge_apart = merge_apart;
  merge_clash = merge_clash;
}

create_full_methods_example :
    (AreApart systems payments
      → (m : List String) × (create_full modules (record { client = 1; pool = 2 }) ≡ ok m)
        × (m ≡ systems ++ payments))
    × ((¬ AreApart systems payments)
        → (e : ℕ) × (create_full modules (record { client = 1; pool = 2 }) ≡ err e))
create_full_methods_example =
    create_full_methods modules modules-IsLawfulRpc (record { client = 1; pool = 2 })

-- Keys, texts and hashes are numbers; a signature is the pair and the text; client 0 has no block.
abbrev pub bench : BenchmarkApi
bench = record {
  calls = calls;
  Client = ℕ;
  ClientError = ℕ;
  Hash = ℕ;
  Pair = ℕ;
  Public = ℕ;
  AccountId = ℕ;
  Signature = ℕ × ℕ;
  Era = ℕ × ℕ;
  Bytes = ℕ;
  InherentData = List ℕ;
  InherentError = String;
  block_hash = λ client number. if client == 0 then ok none else ok (some 5);
  best_hash = λ client. 6;
  best_number = λ client. 1000;
  mortal = λ period current. (period, current);
  public = λ p. p;
  account_id = λ p. p;
  sign = λ p m. (p, m);
  bob = 2;
  remark = λ bytes. 0;
  transfer_keep_alive = λ dest value. dest + value;
  inherent_data_new = [];
  provide_timestamp = λ time data_. ok (time ∷ data_);
  debug = λ e. e;
}

-- Calls of the system and of the balances are numbers.
abbrev code_of : RuntimeCall calls → ℕ
code_of (system_call c) = c
code_of (balances_call c) = c
code_of _ = 0

abbrev pub coded : PayloadCodec bench
coded call extension (_, (_, (spec_version, (_, (genesis_hash, (era_hash, _)))))) =
    code_of call + nonce_of extension + spec_version + genesis_hash + era_hash

pub verify-sign : (p m : ℕ) → (let s = bench.sign p m in (s.0 == p) && (s.1 == m)) ≡ true
verify-sign p m = ground arith

abbrev pub bench-IsLawfulSigning : IsLawfulSigning bench
bench-IsLawfulSigning = record {
  verify = λ s m p. (s.0 == p) && (s.1 == m);
  verify-sign = verify-sign;
}

era_period_bounds_example :
    ((k : ℕ) × (era_period 2400 ≡ 2 ^ k)) × (era_period 2400 < 2400) × (2400 ≤ 2 * era_period 2400)
era_period_bounds_example = era_period_bounds 2400 (omega arith) (omega arith)

era_period_of_runtime : era_period 2400 ≡ 2048
unfolding era_period power_from
era_period_of_runtime = refl

create_benchmark_extrinsic_panics_example :
    (((p : Panic) × (create_benchmark_extrinsic bench coded 0 3 (balances_call 9) 4 ≡ err p))
      ↔ ((hash : ℕ) → ◌≢◌ {A = Result ℕ (Option ℕ)} (ok none) (ok (some hash))))
    × ((create_benchmark_extrinsic bench coded 0 3 (balances_call 9) 4
          ≡ err (panic "Genesis block exists; qed"))
        ↔ ((hash : ℕ) → ◌≢◌ {A = Result ℕ (Option ℕ)} (ok none) (ok (some hash))))
create_benchmark_extrinsic_panics_example =
    create_benchmark_extrinsic_panics bench coded 0 3 (balances_call 9) 4
