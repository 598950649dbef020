-- ===== src/Runtime/Apis/Genesis.antt =====
-- The genesis builder's API of runtime/src/apis.rs: presets, and the state that they are built into.
use create_chain_substrate_n.Common.{
  ℕ, ◌≡◌, refl, sym, ◌∙◌, ap, ◌↔◌, String, Option, none, some, List, [], ◌∷◌, Result, ok, pure,
  lift, IsIn,
}
use create_chain_substrate_n.Template.Weights.{WeightApi}
use create_chain_substrate_n.Runtime.Genesis as Presets
use create_chain_substrate_n.Runtime.Genesis.{
  GenesisApi, GenesisPatch, IsLawfulGenesis, Panic, development_config_genesis,
  local_config_genesis,
}
use create_chain_substrate_n.Runtime.Genesis.Presets.{get_preset_listed, get_preset_bytes}
use create_chain_substrate_n.Runtime.Genesis.Endowment.{
  IsValidEndowment, HasValidAuthorities, presets-IsValidEndowment, presets-HasValidAuthorities,
}
use create_chain_substrate_n.Runtime.Configs.{LimitsApi}
use create_chain_substrate_n.Runtime.Apis.{
  FrameTypes, FrameApi, Api, authorities, grandpa_authorities,
}

module _ {G : GenesisApi} {W : WeightApi} {N : LimitsApi W} {F : FrameTypes}
    (E : FrameApi G W N F) where
  unfoldable pub build_state : G.Bytes → Api F (Result String (Unit {0}))
  build_state config = E.build_state config

  unfoldable pub get_preset : (GenesisPatch G → G.Value) → Option String → Api F (Option G.Bytes)
  get_preset to_value id = lift (E.get_preset id (Presets.get_preset G to_value))

  unfoldable pub preset_names : Api F (List String)
  preset_names = pure (Presets.preset_names G)

-- The documented behaviour of the helpers: a preset that is named is looked up, and the one without
-- a name is the default configuration; the bytes of a patch are parsed back, and, if the pallets
-- accept it, the state of the chain then holds it, whatever the state was.
pub record IsLawfulBuilding {G : GenesisApi} {W : WeightApi} {N : LimitsApi W} {F : FrameTypes}
    (E : FrameApi G W N F) (to_value : GenesisPatch G → G.Value) : Type 0 where
  pub default_preset : G.Bytes
  pub get_preset_some :
      (id : String) (f : String → Result Panic (Option G.Bytes)) → E.get_preset (some id) f ≡ f id
  pub get_preset_none :
      (f : String → Result Panic (Option G.Bytes)) → E.get_preset none f ≡ ok (some default_preset)
  pub built : GenesisPatch G → F.State → F.State
  pub build_state_lem :
      (patch : GenesisPatch G) (b : G.Bytes) (s : F.State)
      → G.to_string (to_value patch) ≡ ok b
      → IsValidEndowment patch.balances
      → HasValidAuthorities patch
      → E.build_state b s ≡ (ok (ok tt), built patch s)
  pub aura_lem :
      (patch : GenesisPatch G) (s : F.State)
      → E.aura_authorities (built patch s) ≡ patch.aura_authorities
  pub grandpa_lem :
      (patch : GenesisPatch G) (s : F.State)
      → E.grandpa_authorities (built patch s) ≡ patch.grandpa_authorities

module _ {G : GenesisApi} {W : WeightApi} {N : LimitsApi W} {F : FrameTypes} (E : FrameApi G W N F)
    (to_value : GenesisPatch G → G.Value) where
  -- From any state, the API gives bytes for a name, builds them, and then knows these authorities.
  abbrev pub BuildsTo : String → List G.AuraId → List (G.GrandpaId × ℕ) → F.State → Type 0
  BuildsTo id aura grandpa s =
      (b : G.Bytes) × (s' : F.State) × (get_preset E to_value (some id) s ≡ (ok (some b), s))
      × (build_state E b s ≡ (ok (ok tt), s'))
      × (authorities E s' ≡ (ok aura, s'))
      × (grandpa_authorities E s' ≡ (ok grandpa, s'))

  module _ (L : IsLawfulGenesis G) (M : IsLawfulBuilding E to_value) where
    patch-BuildsTo :
        (id : String) (patch : GenesisPatch G) (s : F.State)
        → (b : G.Bytes) × (G.to_string (to_value patch) ≡ ok b)
          × (Presets.get_preset G to_value id ≡ ok (some b))
        → IsValidEndowment patch.balances
        → HasValidAuthorities patch
        → BuildsTo id patch.aura_authorities patch.grandpa_authorities s
    unfolding get_preset build_state
    patch-BuildsTo id patch s (b, written, found) endowed voted = (
      b,
      M.built patch s,
      ap (λ r. (r, s)) (M.get_preset_some id (Presets.get_preset G to_value) ∙ found),
      M.build_state_lem patch b s written endowed voted,
      ap (λ l. (ok l, M.built patch s)) (M.aura_lem patch s),
      ap (λ l. (ok l, M.built patch s)) (M.grandpa_lem patch s),
    )

    -- What the API gives for the name of a preset, it builds without an error, on any state. The
    -- authorities are then, for Aura and with one vote for GRANDPA, `Alice` after the development
    -- preset, and `Alice` and `Bob` after the local one.
    pub presets_build :
        (s : F.State)
        → BuildsTo G.dev_runtime_preset
            (G.aura_id G.alice ∷ [])
            ((G.grandpa_id G.ed_alice, 1) ∷ [])
            s
          × BuildsTo G.local_testnet_runtime_preset
              (G.aura_id G.alice ∷ G.aura_id G.bob ∷ [])
              ((G.grandpa_id G.ed_alice, 1) ∷ (G.grandpa_id G.ed_bob, 1) ∷ [])
              s
    unfolding development_config_genesis local_config_genesis
    presets_build s =
        let (dev, local) = get_preset_bytes G L to_value in
        let (endowed, endowed') = presets-IsValidEndowment G L in
        let (voted, voted') = presets-HasValidAuthorities G L in
        (
          patch-BuildsTo G.dev_runtime_preset (development_config_genesis G) s dev endowed voted,
          patch-BuildsTo G.local_testnet_runtime_preset (local_config_genesis G) s local endowed'
              voted',
        )

    -- The names that the API lists are those for which it gives the bytes of a preset; without a
    -- name it gives the default configuration. It never panics, and leaves the state alone.
    get_preset_outcomes :
        (id : String) (s : F.State)
        → (IsIn id (Presets.preset_names G)
            ↔ ((b : G.Bytes) × (get_preset E to_value (some id) s ≡ (ok (some b), s))))
          × (get_preset E to_value none s ≡ (ok (some M.default_preset), s))
          × (preset_names E s ≡ (ok (Presets.preset_names G), s))
    unfolding get_preset preset_names
    get_preset_outcomes id s =
        let f = Presets.get_preset G to_value in
        let ((to, from), _) = get_preset_listed G L to_value id in
        (
          (
            λ m. let (b, e) = from m in (b, ap (λ r. (r, s)) (M.get_preset_some id f ∙ e)),
            λ (b, e). to (b, sym (M.get_preset_some id f) ∙ ap (λ x. x.0) e),
          ),
          ap (λ r. (r, s)) (M.get_preset_none f),
          refl,
        )
