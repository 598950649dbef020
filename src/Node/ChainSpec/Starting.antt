-- ===== src/Node/ChainSpec/Starting.antt =====
-- From a specification that `load_spec` of node/src/command.rs loads to the state of the chain's
-- block 0, through the genesis builder's API of runtime/src/apis.rs.
use create_chain_substrate_n.Common.{ℕ, ◌≡◌, Result, ok, err, some, String, List}
use create_chain_substrate_n.Template.Weights.{WeightApi}
use create_chain_substrate_n.Runtime.Genesis.{GenesisApi, GenesisPatch}
use create_chain_substrate_n.Runtime.Configs.{LimitsApi}
use create_chain_substrate_n.Runtime.Apis.{FrameTypes, FrameApi}
use create_chain_substrate_n.Runtime.Apis.Genesis.{BuildsTo}
use create_chain_substrate_n.Node.ChainSpec.{ChainSpecApi, IsLawfulBuilder}

module _ {C : ChainSpecApi} (L : IsLawfulBuilder C) {G : GenesisApi} {W : WeightApi}
    {N : LimitsApi W} {F : FrameTypes} (E : FrameApi G W N F)
    (to_value : GenesisPatch G → G.Value) where
  -- The specification names a preset, and the runtime, asked for it, gives what it then builds,
  -- without an error, into a state with these authorities.
  abbrev pub Starts :
      List G.AuraId → List (G.GrandpaId × ℕ) → F.State → Result String C.ChainSpec → Type 0
  Starts aura grandpa s (ok spec) =
      (p : String) × ((L.settings_of spec).preset ≡ some p) × BuildsTo E to_value p aura grandpa s
  Starts aura grandpa s (err e) = ⊥
