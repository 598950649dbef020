-- ===== src/Runtime/Genesis.antt =====
-- The genesis presets of runtime/src/genesis_config_presets.rs, over the keyring of sp_keyring,
-- the names of sp_genesis_builder, and the conversion to JSON.
pub mod Endowment
pub mod Presets
use create_chain_substrate_n.Common.{
  ℕ, ◌*◌, ◌%◌, ◌^◌, ◌≡◌, ◌≢◌, ◌↔◌, ◌≤◌, Result, ok, err, Option, none, some, List, [], ◌∷◌, map,
  Bool, true, not, ◌&&◌, String, ◌==ₛ◌, if◌then◌else◌, filter, length, IsIn, AllDistinct,
}

-- What the file uses of other crates. `Value` is serde_json's, `Bytes` is `Vec<u8>`; an account
-- and an authority key are made of a key of a keyring.
pub record GenesisApi : Type 1 where
  pub Sr25519Keyring : Type 0
  pub Ed25519Keyring : Type 0
  pub AccountId : Type 0
  pub AuraId : Type 0
  pub GrandpaId : Type 0
  pub Value : Type 0
  pub Bytes : Type 0
  pub SerdeError : Type 0
  pub alice : Sr25519Keyring
  pub bob : Sr25519Keyring
  pub alice_stash : Sr25519Keyring
  pub bob_stash : Sr25519Keyring
  pub one : Sr25519Keyring
  pub two : Sr25519Keyring
  pub iter : List Sr25519Keyring
  pub eq : Sr25519Keyring → Sr25519Keyring → Bool
  pub ed_alice : Ed25519Keyring
  pub ed_bob : Ed25519Keyring
  pub to_account_id : Sr25519Keyring → AccountId
  pub aura_id : Sr25519Keyring → AuraId
  pub grandpa_id : Ed25519Keyring → GrandpaId
  pub dev_runtime_preset : String
  pub local_testnet_runtime_preset : String
  pub to_string : Value → Result SerdeError Bytes

-- `build_struct_json_patch!(RuntimeGenesisConfig { … })`: the fields that the file gives.
pub record GenesisPatch (G : GenesisApi) : Type 0 where
  pub balances : List (G.AccountId × ℕ)
  pub aura_authorities : List G.AuraId
  pub grandpa_authorities : List (G.GrandpaId × ℕ)
  pub sudo_key : Option G.AccountId

-- A panic of `expect`, with its message.
pub data Panic : Type 0 where
  panic : String → Panic

-- `1u128 << 60`
abbrev pub endowment : ℕ
endowment = 1 * 2 ^ 60 % 2 ^ 128

module _ (G : GenesisApi) where
  unfoldable pub testnet_genesis :
      List (G.AuraId × G.GrandpaId) → List G.AccountId → G.AccountId → GenesisPatch G
  testnet_genesis initial_authorities endowed_accounts root = record {
    balances = map (λ k. (k, endowment)) endowed_accounts;
    aura_authorities = map (λ x. x.0) initial_authorities;
    grandpa_authorities = map (λ x. (x.1, 1)) initial_authorities;
    sudo_key = some root;
  }

  unfoldable pub development_config_genesis : GenesisPatch G
  unfolding testnet_genesis
  development_config_genesis =
      testnet_genesis ((G.aura_id G.alice, G.grandpa_id G.ed_alice) ∷ [])
        (G.to_account_id G.alice
          ∷ G.to_account_id G.bob
          ∷ G.to_account_id G.alice_stash
          ∷ G.to_account_id G.bob_stash
          ∷ [])
        (G.to_account_id G.alice)

  -- The test of the filter in `local_config_genesis`.
  abbrev pub is_endowed : G.Sr25519Keyring → Bool
  is_endowed v = not (G.eq v G.one) && not (G.eq v G.two)

  unfoldable pub local_config_genesis : GenesisPatch G
  unfolding testnet_genesis
  local_config_genesis =
      testnet_genesis
        ((G.aura_id G.alice, G.grandpa_id G.ed_alice)
          ∷ (G.aura_id G.bob, G.grandpa_id G.ed_bob)
          ∷ [])
        (map G.to_account_id (filter is_endowed G.iter)) (G.to_account_id G.alice)

module _ (G : GenesisApi) where
  -- `Some(serde_json::to_string(&patch).expect(…).into_bytes())`
  abbrev pub encoded : Result G.SerdeError G.Bytes → Result Panic (Option G.Bytes)
  encoded (ok bytes) = ok (some bytes)
  encoded (err _) = err (panic "serialization to json is expected to work. qed.")

module _ (G : GenesisApi) (to_value : GenesisPatch G → G.Value) where
  unfoldable pub get_preset : String → Result Panic (Option G.Bytes)
  get_preset id =
      if id ==ₛ G.dev_runtime_preset
      then encoded G (G.to_string (to_value (development_config_genesis G)))
      else if id ==ₛ G.local_testnet_runtime_preset
      then encoded G (G.to_string (to_value (local_config_genesis G)))
      else ok none

module _ (G : GenesisApi) where
  unfoldable pub preset_names : List String
  preset_names = G.dev_runtime_preset ∷ G.local_testnet_runtime_preset ∷ []

-- The documented behaviour: `iter` lists each of the few variants of the keyring once, `==` is
-- derived, keys and accounts of different variants differ, the two presets have different names,
-- and a JSON value can always be written.
pub record IsLawfulGenesis (G : GenesisApi) : Type 0 where
  pub eq_iff : (v w : G.Sr25519Keyring) → (G.eq v w ≡ true) ↔ (v ≡ w)
  pub iter_all : (v : G.Sr25519Keyring) → IsIn v G.iter
  pub iter-AllDistinct : AllDistinct G.iter
  pub iter_short : length G.iter ≤ 256
  pub variants_differ :
      AllDistinct (G.alice ∷ G.bob ∷ G.alice_stash ∷ G.bob_stash ∷ G.one ∷ G.two ∷ [])
  pub to_account_id-injective :
      (v w : G.Sr25519Keyring) → G.to_account_id v ≡ G.to_account_id w → v ≡ w
  pub aura_id-injective : (v w : G.Sr25519Keyring) → G.aura_id v ≡ G.aura_id w → v ≡ w
  pub grandpa_id-differ : G.grandpa_id G.ed_alice ≢ G.grandpa_id G.ed_bob
  pub preset_names_differ : G.dev_runtime_preset ≢ G.local_testnet_runtime_preset
  pub to_string_total : (v : G.Value) → (b : G.Bytes) × (G.to_string v ≡ ok b)
