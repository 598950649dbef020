-- ===== src/Runtime/Build.antt =====
-- The build scripts runtime/build.rs and node/build.rs, over the crates that they call.
use create_chain_substrate_n.Common.{
  ℕ, ◌^◌, ◌≡◌, refl, ap, ◌∙◌, Option, none, some, Bool, true, false, String, if◌then◌else◌,
}
use create_chain_substrate_n.Runtime.{unit}

-- The features of the runtime's crate that its script tests.
record Features : Type 0 where
  std : Bool
  metadata_hash : Bool

-- substrate_wasm_builder and substrate_build_script_utils, over what a build leaves behind.
pub record BuildApi : Type 1 where
  pub Output : Type 0
  pub WasmBuilder : Type 0
  pub init_with_defaults : WasmBuilder
  pub enable_metadata_hash : String → ℕ → WasmBuilder → WasmBuilder
  pub build : WasmBuilder → Output → Output
  pub build_using_defaults : Output → Output
  pub generate_cargo_keys : Output → Output
  pub rerun_if_git_head_changed : Output → Output

-- Their documented behaviour: a build leaves the code of the runtime, with the hash of its metadata
-- for a token and its decimals exactly if the builder has one.
pub record IsLawfulBuild (W : BuildApi) : Type 0 where
  pub hash_of : W.WasmBuilder → Option (String × ℕ)
  pub init_with_defaults_lem : hash_of W.init_with_defaults ≡ none
  pub enable_metadata_hash_lem :
      (token : String) (decimals : ℕ) (b : W.WasmBuilder)
      → hash_of (W.enable_metadata_hash token decimals b) ≡ some (token, decimals)
  -- the code that was built last, by its hash
  pub code : W.Output → Option (Option (String × ℕ))
  pub build_lem : (b : W.WasmBuilder) (o : W.Output) → code (W.build b o) ≡ some (hash_of b)
  pub build_using_defaults_lem :
      (o : W.Output) → W.build_using_defaults o ≡ W.build W.init_with_defaults o

-- The decimals given to `enable_metadata_hash`.
abbrev token_decimals : ℕ
token_decimals = 12

module _ (W : BuildApi) where
  -- The two versions of `main` in runtime/build.rs with `std`.
  abbrev build_wasm : Bool → W.Output → W.Output
  build_wasm true = W.build (W.enable_metadata_hash "UNIT" token_decimals W.init_with_defaults)
  build_wasm false = W.build_using_defaults

  -- `main` in runtime/build.rs.
  abbrev build_runtime : Features → W.Output → W.Output
  build_runtime features output =
      if features.std then build_wasm features.metadata_hash output else output

  -- `main` in node/build.rs.
  abbrev build_node : W.Output → W.Output
  build_node output = W.rerun_if_git_head_changed (W.generate_cargo_keys output)

-- The hash of the metadata that the features ask for.
abbrev hash_for : Bool → Option (String × ℕ)
hash_for true = some ("UNIT", token_decimals)
hash_for false = none

-- A token of these decimals is the `UNIT` of runtime/src/lib.rs.
token_decimals-unit : unit ≡ 10 ^ token_decimals
token_decimals-unit = refl

module _ (W : BuildApi) (L : IsLawfulBuild W) where
  build_wasm-code :
      (hash : Bool) (o : W.Output) → L.code (build_wasm W hash o) ≡ some (hash_for hash)
  build_wasm-code true o =
      L.build_lem _ o ∙ ap some (L.enable_metadata_hash_lem "UNIT" token_decimals _)
  build_wasm-code false o =
      ap L.code (L.build_using_defaults_lem o) ∙ L.build_lem _ o ∙ ap some L.init_with_defaults_lem

  -- With `std`, the script leaves the code of the runtime, with the hash of its metadata exactly if
  -- that feature is enabled; without `std` it leaves all as it was.
  build_runtime-code :
      (features : Features) (o : W.Output)
      → L.code (build_runtime W features o)
        ≡ (if features.std then some (hash_for features.metadata_hash) else L.code o)
  build_runtime-code features o =
      elim features.std
        as (λ std.
          L.code (if std then build_wasm W features.metadata_hash o else o)
          ≡ (if std then some (hash_for features.metadata_hash) else L.code o)) [
            | true ↦ build_wasm-code features.metadata_hash o
            | false ↦ refl
          ]
