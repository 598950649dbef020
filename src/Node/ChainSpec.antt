-- ===== src/Node/ChainSpec.antt =====
-- The chain specifications of node/src/chain_spec.rs, and `load_spec` of node/src/command.rs,
-- which chooses one by its identifier.
pub mod Loading
pub mod Starting
mod Tests
use create_chain_substrate_n.Common.{
  ◌≡◌, Result, ok, err, Option, none, some, String, ◌==ₛ◌, if◌then◌else◌, ok_or, Bool, ◌||◌,
}
use create_chain_substrate_n.Runtime.Genesis.{GenesisApi}

-- What the files use of `sc_service::GenericChainSpec` and its builder, the runtime's code, and the
-- reader of chain specifications in JSON. `WASM_BINARY`, which the build generates, is an argument.
pub record ChainSpecApi : Type 1 where
  pub Code : Type 0
  pub ChainType : Type 0
  pub Builder : Type 0
  pub ChainSpec : Type 0
  pub development : ChainType
  pub local : ChainType
  pub builder : Code → Builder
  pub with_name : String → Builder → Builder
  pub with_id : String → Builder → Builder
  pub with_chain_type : ChainType → Builder → Builder
  pub with_genesis_config_preset_name : String → Builder → Builder
  pub build : Builder → ChainSpec
  pub from_json_file : String → Result String ChainSpec

-- What a builder has collected. The documented behaviour: each method sets its own part.
pub record Settings (C : ChainSpecApi) : Type 0 where
  pub name : Option String
  pub id : Option String
  pub chain_type : Option C.ChainType
  pub preset : Option String

pub record IsLawfulBuilder (C : ChainSpecApi) : Type 0 where
  pub settings : C.Builder → Settings C
  pub settings_of : C.ChainSpec → Settings C
  pub with_name_lem :
      (n : String) (b : C.Builder)
      → settings (C.with_name n b) ≡ record (settings b) { name = some n }
  pub with_id_lem :
      (i : String) (b : C.Builder) → settings (C.with_id i b) ≡ record (settings b) { id = some i }
  pub with_chain_type_lem :
      (t : C.ChainType) (b : C.Builder)
      → settings (C.with_chain_type t b) ≡ record (settings b) { chain_type = some t }
  pub with_genesis_config_preset_name_lem :
      (p : String) (b : C.Builder)
      → settings (C.with_genesis_config_preset_name p b) ≡ record (settings b) { preset = some p }
  pub build_lem : (b : C.Builder) → settings_of (C.build b) ≡ settings b

-- The rest of an expression behind `?`.
abbrev then_ok : {A B : Type 0} → Result String A → (A → B) → Result String B
then_ok (ok a) f = ok (f a)
then_ok (err e) f = err e

module _ (C : ChainSpecApi) (wasm_binary : Option C.Code) (G : GenesisApi) where
  open C use {
    builder, with_name, with_id, with_chain_type, with_genesis_config_preset_name, build,
    from_json_file,
  }

  unfoldable pub development_chain_spec : Result String C.ChainSpec
  development_chain_spec = then_ok (ok_or wasm_binary "Development wasm not available") λ code.
      build (
        with_genesis_config_preset_name G.dev_runtime_preset
          (with_chain_type C.development (with_id "dev" (with_name "Development" (builder code)))))

  unfoldable pub local_chain_spec : Result String C.ChainSpec
  local_chain_spec = then_ok (ok_or wasm_binary "Development wasm not available") λ code. build (
      with_genesis_config_preset_name G.local_testnet_runtime_preset (
        with_chain_type C.local
          (with_id "local_testnet" (with_name "Local Testnet" (builder code)))))

  unfoldable pub load_spec : String → Result String C.ChainSpec
  load_spec id =
      if id ==ₛ "dev"
      then development_chain_spec
      else if (id ==ₛ "") || (id ==ₛ "local")
      then local_chain_spec
      else from_json_file id
