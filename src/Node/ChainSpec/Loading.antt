-- ===== src/Node/ChainSpec/Loading.antt =====
-- What `load_spec` of node/src/command.rs gives, and that the genesis presets that the built-in
-- specifications name are presets of the runtime.
use create_chain_substrate_n.Common.{
  ◌≡◌, ap, Result, ok, err, Option, none, some, String, eq_iff, arith, IsIn, [], ◌∷◌,
}
use create_chain_substrate_n.Runtime.Genesis.{GenesisApi, GenesisPatch, IsLawfulGenesis, get_preset}
use create_chain_substrate_n.Runtime.Genesis.Presets.{get_preset_bytes}
use create_chain_substrate_n.Node.ChainSpec.{
  ChainSpecApi, Settings, IsLawfulBuilder, development_chain_spec, local_chain_spec, load_spec,
}

module _ (C : ChainSpecApi) (L : IsLawfulBuilder C) (G : GenesisApi) where
  -- The settings of the specification of a result; a result with an error has none.
  abbrev pub HasSettings : Settings C → Result String C.ChainSpec → Type 0
  HasSettings expected (ok spec) = L.settings_of spec ≡ expected
  HasSettings expected (err e) = ⊥

  abbrev pub development_settings : Settings C
  development_settings = record {
    name = some "Development";
    id = some "dev";
    chain_type = some C.development;
    preset = some G.dev_runtime_preset;
  }

  abbrev pub local_settings : Settings C
  local_settings = record {
    name = some "Local Testnet";
    id = some "local_testnet";
    chain_type = some C.local;
    preset = some G.local_testnet_runtime_preset;
  }

  build_lem :
      (p n i : String) (t : C.ChainType) (code : C.Code)
      → L.settings_of (
          C.build (
            C.with_genesis_config_preset_name p
              (C.with_chain_type t (C.with_id i (C.with_name n (C.builder code))))))
        ≡ record { name = some n; id = some i; chain_type = some t; preset = some p }
  build_lem p n i t code = rw (
    L.build_lem, L.with_genesis_config_preset_name_lem, L.with_chain_type_lem, L.with_id_lem,
    L.with_name_lem,
  )

  -- With the runtime's code, `dev` loads the development specification, and the empty identifier
  -- and `local` load the local one, each with its name, identifier, chain type and genesis preset.
  pub load_spec_settings :
      (code : C.Code)
      → HasSettings development_settings (load_spec C (some code) G "dev")
        × HasSettings local_settings (load_spec C (some code) G "")
        × HasSettings local_settings (load_spec C (some code) G "local")
  unfolding load_spec development_chain_spec local_chain_spec
  load_spec_settings code = (build_lem _ _ _ _ _, build_lem _ _ _ _ _, build_lem _ _ _ _ _)

  -- Without the runtime's code the three built-in identifiers are refused with one message. Any
  -- other identifier is taken for the path of a file, with or without the code.
  pub load_spec_other :
      (wasm_binary : Option C.Code) (id : String)
      → (IsIn id ("dev" ∷ "" ∷ "local" ∷ [])
          → load_spec C none G id ≡ err "Development wasm not available")
        × ((¬ IsIn id ("dev" ∷ "" ∷ "local" ∷ []))
            → load_spec C wasm_binary G id ≡ C.from_json_file id)
  unfolding load_spec development_chain_spec local_chain_spec
  load_spec_other wasm_binary id = (
    λ m. ground (arith, eq_iff id "dev", eq_iff id "", eq_iff id "local"),
    λ n. ground (arith, eq_iff id "dev", eq_iff id "", eq_iff id "local"),
  )

  -- A loaded specification names a genesis preset of the runtime.
  abbrev pub NamesPreset : (GenesisPatch G → G.Value) → Result String C.ChainSpec → Type 0
  NamesPreset to_value (ok spec) =
      (p : String) × (b : G.Bytes) × ((L.settings_of spec).preset ≡ some p)
      × (get_preset G to_value p ≡ ok (some b))
  NamesPreset to_value (err e) = ⊥

module _ (C : ChainSpecApi) (L : IsLawfulBuilder C) (G : GenesisApi) (M : IsLawfulGenesis G) where
  -- With the runtime's code, each built-in identifier loads a specification whose genesis preset
  -- the runtime knows: `get_preset` returns its bytes, without a panic.
  load_spec-NamesPreset :
      (to_value : GenesisPatch G → G.Value) (code : C.Code)
      → NamesPreset C L G to_value (load_spec C (some code) G "dev")
        × NamesPreset C L G to_value (load_spec C (some code) G "")
        × NamesPreset C L G to_value (load_spec C (some code) G "local")
  unfolding load_spec development_chain_spec local_chain_spec
  load_spec-NamesPreset to_value code =
      let ((b, _, dev), (c, _, local)) = get_preset_bytes G M to_value in
      let spec = load_spec_settings C L G code in
      (
        (G.dev_runtime_preset, b, ap (λ s. s.preset) spec.0, dev),
        (G.local_testnet_runtime_preset, c, ap (λ s. s.preset) spec.1, local),
        (G.local_testnet_runtime_preset, c, ap (λ s. s.preset) spec.2, local),
      )
