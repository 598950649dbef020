-- ===== src/Runtime/Sample.antt =====
-- A concrete keyring with seven entries, for the tests of the genesis presets.
use create_chain_substrate_n.Common.{
  ◌==◌, ℕ, ◌≤◌, ◌≡◌, ◌≢◌, ◌↔◌, refl, ok, List, Option, [], ◌∷◌, Bool, true, String, inl, inr, arith,
  length, IsIn, AllDistinct, eq_iff,
}
use create_chain_substrate_n.Runtime.Genesis.{GenesisApi, GenesisPatch, IsLawfulGenesis}

pub data Keyring : Type 0 where
  alice bob charlie alice_stash bob_stash one two : Keyring

abbrev pub number : Keyring → ℕ
number alice = 0
number bob = 1
number charlie = 2
number alice_stash = 3
number bob_stash = 4
number one = 5
number two = 6

abbrev pub keyring_eq : Keyring → Keyring → Bool
keyring_eq v w = number v == number w

pub keyring_eq_iff : (v w : Keyring) → (keyring_eq v w ≡ true) ↔ (v ≡ w)
keyring_eq_iff v w = ground arith

-- A patch as a value: balances, authorities of both kinds, and the sudo key.
abbrev pub Patch : Type 0
Patch = List (Keyring × ℕ) × List Keyring × List (Keyring × ℕ) × Option Keyring

-- The accounts and keys are the entries themselves, and a JSON value is the patch.
abbrev pub keys : GenesisApi
keys = record {
  Sr25519Keyring = Keyring;
  Ed25519Keyring = Keyring;
  AccountId = Keyring;
  AuraId = Keyring;
  GrandpaId = Keyring;
  Value = Patch;
  Bytes = Patch;
  SerdeError = ⊥;
  alice = alice;
  bob = bob;
  alice_stash = alice_stash;
  bob_stash = bob_stash;
  one = one;
  two = two;
  iter = alice ∷ bob ∷ charlie ∷ alice_stash ∷ bob_stash ∷ one ∷ two ∷ [];
  eq = keyring_eq;
  ed_alice = alice;
  ed_bob = bob;
  to_account_id = λ k. k;
  aura_id = λ k. k;
  grandpa_id = λ k. k;
  dev_runtime_preset = "development";
  local_testnet_runtime_preset = "local_testnet";
  to_string = λ v. ok v;
}

pub iter_all : (v : Keyring) → IsIn v keys.iter
iter_all alice = inl refl
iter_all bob = inr (inl refl)
iter_all charlie = inr (inr (inl refl))
iter_all alice_stash = inr (inr (inr (inl refl)))
iter_all bob_stash = inr (inr (inr (inr (inl refl))))
iter_all one = inr (inr (inr (inr (inr (inl refl)))))
iter_all two = inr (inr (inr (inr (inr (inr (inl refl))))))

pub iter-AllDistinct : AllDistinct keys.iter
iter-AllDistinct = grind arith

pub variants_differ : AllDistinct (alice ∷ bob ∷ alice_stash ∷ bob_stash ∷ one ∷ two ∷ [])
variants_differ = grind arith

pub names_differ : ◌≢◌ {A = String} "development" "local_testnet"
names_differ = ground (arith, eq_iff "development" "local_testnet")

pub alice-ne-bob : Keyring.alice ≢ Keyring.bob
alice-ne-bob h = cc

pub few : length keys.iter ≤ 256
few = omega arith

abbrev pub keys-IsLawfulGenesis : IsLawfulGenesis keys
keys-IsLawfulGenesis = record {
  eq_iff = keyring_eq_iff;
  iter_all = iter_all;
  iter-AllDistinct = iter-AllDistinct;
  iter_short = few;
  variants_differ = variants_differ;
  to_account_id-injective = λ v w e. e;
  aura_id-injective = λ v w e. e;
  grandpa_id-differ = alice-ne-bob;
  preset_names_differ = names_differ;
  to_string_total = λ v. (v, refl);
}

abbrev pub to_value : GenesisPatch keys → Patch
to_value patch = (patch.balances, patch.aura_authorities, patch.grandpa_authorities, patch.sudo_key)
