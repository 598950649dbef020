-- ===== src/Runtime/Tests.antt =====
-- The theorems about the genesis presets at a concrete keyring, and a build of the runtime.
use create_chain_substrate_n.Common.{
  All, ◌*◌, ◌^◌, ◌≡◌, ◌≢◌, ◌↔◌, refl, ok, none, some, ℕ, Option, String, [], ◌∷◌, map, arith, IsIn,
}
use create_chain_substrate_n.Runtime.Genesis.{
  testnet_genesis, development_config_genesis, local_config_genesis, get_preset, preset_names,
}
use create_chain_substrate_n.Runtime.Sample.{
  Patch, alice, bob, charlie, alice_stash, bob_stash, one, two, keys, keys-IsLawfulGenesis,
  to_value,
}
use create_chain_substrate_n.Runtime.Genesis.Endowment.{
  IsValidEndowment, HasValidAuthorities, total_issuance, testnet_genesis-IsValidEndowment,
  local_config_genesis-endows, presets-IsValidEndowment, presets-HasValidAuthorities,
}
use create_chain_substrate_n.Runtime.Genesis.Presets.{get_preset_listed}
use create_chain_substrate_n.Runtime.Build.{BuildApi, IsLawfulBuild}

testnet_genesis-IsValidEndowment_example :
    let patch = testnet_genesis keys ((alice, bob) ∷ []) (charlie ∷ one ∷ []) two in
    (map (λ b. b.0) patch.balances ≡ charlie ∷ one ∷ [])
    × All (λ b. b.1 ≡ 2 ^ 60) patch.balances
    × (total_issuance patch.balances ≡ 2 * 2 ^ 60)
    × IsValidEndowment patch.balances
testnet_genesis-IsValidEndowment_example =
    testnet_genesis-IsValidEndowment keys ((alice, bob) ∷ []) (charlie ∷ one ∷ []) two (grind arith)
      (omega arith)

local_config_genesis-endows_example :
    IsIn charlie (map (λ b. b.0) (local_config_genesis keys).balances)
    ↔ ((charlie ≢ one) × (charlie ≢ two))
local_config_genesis-endows_example = local_config_genesis-endows keys keys-IsLawfulGenesis charlie

presets-IsValidEndowment_example :
    IsValidEndowment (development_config_genesis keys).balances
    × IsValidEndowment (local_config_genesis keys).balances
presets-IsValidEndowment_example = presets-IsValidEndowment keys keys-IsLawfulGenesis

presets-HasValidAuthorities_example :
    HasValidAuthorities (development_config_genesis keys)
    × HasValidAuthorities (local_config_genesis keys)
presets-HasValidAuthorities_example = presets-HasValidAuthorities keys keys-IsLawfulGenesis

get_preset_listed_example :
    (((b : Patch) × (get_preset keys to_value "staging" ≡ ok (some b)))
      ↔ IsIn "staging" (preset_names keys))
    × ((get_preset keys to_value "staging" ≡ ok none) ↔ (¬ IsIn "staging" (preset_names keys)))
get_preset_listed_example = get_preset_listed keys keys-IsLawfulGenesis to_value "staging"

-- The local preset leaves out the last two entries.
local_accounts :
    map (λ b. b.0) (local_config_genesis keys).balances
    ≡ alice ∷ bob ∷ charlie ∷ alice_stash ∷ bob_stash ∷ []
unfolding local_config_genesis
local_accounts = refl

-- A builder is its hash, and a build leaves it.
abbrev plain_build : BuildApi
plain_build = record {
  Output = Option (Option (String × ℕ));
  WasmBuilder = Option (String × ℕ);
  init_with_defaults = none;
  enable_metadata_hash = λ token decimals b. some (token, decimals);
  build = λ b o. some b;
  build_using_defaults = λ o. some none;
  generate_cargo_keys = λ o. o;
  rerun_if_git_head_changed = λ o. o;
}

plain_build-IsLawfulBuild : IsLawfulBuild plain_build
plain_build-IsLawfulBuild = record {
  hash_of = λ b. b;
  init_with_defaults_lem = refl;
  enable_metadata_hash_lem = λ token decimals b. refl;
  code = λ o. o;
  build_lem = λ b o. refl;
  build_using_defaults_lem = λ o. refl;
}
