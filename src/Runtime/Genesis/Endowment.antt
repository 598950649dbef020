-- ===== src/Runtime/Genesis/Endowment.antt =====
-- The balances and the authorities of a genesis preset, against the checks that pallet_balances,
-- pallet_aura and pallet_grandpa make when they build the genesis state.
use create_chain_substrate_n.Common.{
  ℕ, ◌+◌, ◌*◌, ◌-◌, ◌^◌, ◌≤◌, ◌≡◌, refl, sym, ap, ◌∙◌, ◌↔◌, ◌≢◌, subst, List, [], ◌∷◌, map, true,
  inl, inr, arith, filter, length, length-map, length-filter, All, IsIn, AllDistinct, IsIn-map,
  IsIn-map_iff, AllDistinct-map, AllDistinct-filter, AllDistinct-append_left, IsIn-filter,
  Bool-cases,
}
use create_chain_substrate_n.Runtime.{existential_deposit, max_authorities}
use create_chain_substrate_n.Runtime.Genesis.{
  GenesisApi, GenesisPatch, IsLawfulGenesis, endowment, is_endowed, testnet_genesis,
  development_config_genesis, local_config_genesis,
}

-- The sum of all balances.
abbrev pub total_issuance : {A : Type 0} → List (A × ℕ) → ℕ
total_issuance [] = 0
total_issuance ((_, balance) ∷ rest) = balance + total_issuance rest

-- What pallet_balances asserts of its genesis: no account twice, no balance below the existential
-- deposit; and the issuance is a `u128`.
pub record IsValidEndowment {A : Type 0} (balances : List (A × ℕ)) : Type 0 where
  pub distinct : AllDistinct (map (λ b. b.0) balances)
  pub existing : All (λ b. existential_deposit ≤ b.1) balances
  pub bounded : total_issuance balances ≤ 2 ^ 128 - 1

-- What pallet_aura and pallet_grandpa ask: not more than `MaxAuthorities`, none twice; here also
-- that there is one, that each has one vote, and that both lists are as long.
pub record HasValidAuthorities {G : GenesisApi} (patch : GenesisPatch G) : Type 0 where
  pub aura_distinct : AllDistinct patch.aura_authorities
  pub grandpa_distinct : AllDistinct (map (λ a. a.0) patch.grandpa_authorities)
  pub present : 1 ≤ length patch.aura_authorities
  pub bounded : length patch.aura_authorities ≤ max_authorities
  pub same_length : length patch.grandpa_authorities ≡ length patch.aura_authorities
  pub one_vote : All (λ a. a.1 ≡ 1) patch.grandpa_authorities

module _ {A : Type 0} where
  map-endowed :
      (n : ℕ) (accounts : List A)
      → map {A = A × ℕ} (λ b. b.0) (map (λ k. (k, n)) accounts) ≡ accounts
  map-endowed n [] = refl
  map-endowed n (k ∷ accounts) = ap (λ l. k ∷ l) (map-endowed n accounts)

  All-endowed :
      (n m : ℕ) (accounts : List A)
      → m ≤ n
      → All (λ b. m ≤ b.1) (map {B = A × ℕ} (λ k. (k, n)) accounts)
  All-endowed n m [] h = tt
  All-endowed n m (k ∷ accounts) h = (h, All-endowed n m accounts h)

  All-endowment :
      (accounts : List A) → All (λ b. b.1 ≡ 2 ^ 60) (map {B = A × ℕ} (λ k. (k, endowment)) accounts)
  All-endowment [] = tt
  All-endowment (k ∷ accounts) = (omega arith, All-endowment accounts)

  total_issuance-endowed :
      (n : ℕ) (accounts : List A)
      → total_issuance (map {B = A × ℕ} (λ k. (k, n)) accounts) ≡ length accounts * n
  total_issuance-endowed n [] = grind arith
  total_issuance-endowed n (k ∷ accounts) = grind (arith, total_issuance-endowed n accounts)

  -- What `testnet_genesis` makes of a list of accounts.
  endowed-IsValidEndowment :
      (accounts : List A)
      → AllDistinct accounts
      → length accounts ≤ 2 ^ 67
      → IsValidEndowment (map {B = A × ℕ} (λ k. (k, endowment)) accounts)
  endowed-IsValidEndowment accounts u short = record {
    distinct = subst AllDistinct (sym (map-endowed endowment accounts)) u;
    existing = All-endowed endowment existential_deposit accounts (omega arith);
    bounded = omega (arith, total_issuance-endowed endowment accounts);
  }

module _ {A B : Type 0} where
  map-voters :
      (l : List (A × B)) → map {A = B × ℕ} (λ a. a.0) (map (λ x. (x.1, 1)) l) ≡ map (λ x. x.1) l
  map-voters [] = refl
  map-voters (x ∷ l) = ap (λ r. x.1 ∷ r) (map-voters l)

  All-voters : (l : List (A × B)) → All (λ a. a.1 ≡ 1) (map {B = B × ℕ} (λ x. (x.1, 1)) l)
  All-voters [] = tt
  All-voters (x ∷ l) = (refl, All-voters l)

module _ (G : GenesisApi) (authorities : List (G.AuraId × G.GrandpaId))
    (accounts : List G.AccountId) (root : G.AccountId) where
  -- `testnet_genesis` endows exactly the accounts that it is given, in order, with 2^60 each, so
  -- that the issuance is 2^60 times their number. If they are distinct and at most 2^67, no account
  -- is listed twice, no balance is below the existential deposit, and the issuance is a `u128`.
  pub testnet_genesis-IsValidEndowment :
      AllDistinct accounts
      → length accounts ≤ 2 ^ 67
      → let patch = testnet_genesis G authorities accounts root in
        (map (λ b. b.0) patch.balances ≡ accounts)
        × All (λ b. b.1 ≡ 2 ^ 60) patch.balances
        × (total_issuance patch.balances ≡ length accounts * 2 ^ 60)
        × IsValidEndowment patch.balances
  unfolding testnet_genesis
  testnet_genesis-IsValidEndowment u short = (
    map-endowed endowment accounts,
    All-endowment accounts,
    total_issuance-endowed endowment accounts,
    endowed-IsValidEndowment accounts u short,
  )

  testnet_genesis-HasValidAuthorities :
      AllDistinct (map (λ x. x.0) authorities)
      → AllDistinct (map (λ x. x.1) authorities)
      → 1 ≤ length authorities
      → length authorities ≤ max_authorities
      → HasValidAuthorities (testnet_genesis G authorities accounts root)
  unfolding testnet_genesis
  testnet_genesis-HasValidAuthorities aura grandpa some_ few = record {
    aura_distinct = aura;
    grandpa_distinct = subst AllDistinct (sym (map-voters authorities)) grandpa;
    present = omega (arith, length-map (λ (x : G.AuraId × G.GrandpaId). x.0) authorities);
    bounded = omega (arith, length-map (λ (x : G.AuraId × G.GrandpaId). x.0) authorities);
    same_length = length-map _ authorities ∙ sym (length-map _ authorities);
    one_vote = All-voters authorities;
  }

module _ (G : GenesisApi) where
  -- The keyring entries that the development preset endows, and those of the local preset.
  abbrev developers : List G.Sr25519Keyring
  developers = G.alice ∷ G.bob ∷ G.alice_stash ∷ G.bob_stash ∷ []

  abbrev testers : List G.Sr25519Keyring
  testers = filter (is_endowed G) G.iter

module _ (G : GenesisApi) (L : IsLawfulGenesis G) where
  is_endowed_iff : (v : G.Sr25519Keyring) → (is_endowed G v ≡ true) ↔ ((v ≢ G.one) × (v ≢ G.two))
  is_endowed_iff v = (
    λ h. (
      λ e. absurd (ground (arith, (L.eq_iff v G.one).1 e)),
      λ e. absurd (ground (arith, (L.eq_iff v G.two).1 e)),
    ),
    λ (n1, n2). elim (Bool-cases (G.eq v G.one)) [
      | inl y ↦ absurd (n1 ((L.eq_iff v G.one).0 y))
      | inr y ↦ elim (Bool-cases (G.eq v G.two)) [
        | inl z ↦ absurd (n2 ((L.eq_iff v G.two).0 z))
        | inr z ↦ rw (y, z)
      ]
    ],
  )

  -- The local preset endows the account of a keyring entry exactly when the entry is neither `One`
  -- nor `Two`.
  pub local_config_genesis-endows :
      (v : G.Sr25519Keyring)
      → IsIn (G.to_account_id v) (map (λ b. b.0) (local_config_genesis G).balances)
        ↔ ((v ≢ G.one) × (v ≢ G.two))
  unfolding local_config_genesis
  local_config_genesis-endows v =
      let endowed = map G.to_account_id (filter (is_endowed G) G.iter) in
      rw (map-endowed endowment endowed) (
        λ m.
            let (w, m', e) = (IsIn-map_iff G.to_account_id (G.to_account_id v) _).0 m in
            let t = (IsIn-filter (is_endowed G) w G.iter).0 m' in
            (is_endowed_iff v).0 (ap (is_endowed G) (L.to_account_id-injective v w e) ∙ t.1),
        λ h.
            IsIn-map G.to_account_id v _
              ((IsIn-filter (is_endowed G) v G.iter).1 (L.iter_all v, (is_endowed_iff v).1 h)),
      )

  -- The first four variants differ.
  developers-AllDistinct : AllDistinct (developers G)
  developers-AllDistinct =
      AllDistinct-append_left (developers G) (G.one ∷ G.two ∷ []) L.variants_differ

  -- The genesis of both presets passes the checks of pallet_balances: no account is listed twice,
  -- no balance is below the existential deposit, and the issuance is a `u128`.
  pub presets-IsValidEndowment :
      IsValidEndowment (development_config_genesis G).balances
      × IsValidEndowment (local_config_genesis G).balances
  unfolding development_config_genesis local_config_genesis
  presets-IsValidEndowment = (
    endowed-IsValidEndowment (map G.to_account_id (developers G))
        (AllDistinct-map G.to_account_id (developers G) L.to_account_id-injective
          developers-AllDistinct)
        (omega arith),
    endowed-IsValidEndowment (map G.to_account_id (testers G))
        (AllDistinct-map G.to_account_id (testers G) L.to_account_id-injective
          (AllDistinct-filter (is_endowed G) G.iter L.iter-AllDistinct))
        (omega (
          arith,
          length-map G.to_account_id (filter (is_endowed G) G.iter),
          length-filter (is_endowed G) G.iter,
          L.iter_short,
        )),
  )

  one_each : {A : Type 0} {a b : A} → a ≢ b → AllDistinct (a ∷ b ∷ [])
  one_each differ = (λ m. elim m [ inl e ↦ differ e | inr m' ↦ m' ], (λ m. m, tt))

  -- Both presets name at least one and at most `MaxAuthorities` authorities, each once, and the
  -- same number for Aura and for GRANDPA, where each has one vote.
  pub presets-HasValidAuthorities :
      HasValidAuthorities (development_config_genesis G)
      × HasValidAuthorities (local_config_genesis G)
  unfolding development_config_genesis local_config_genesis
  presets-HasValidAuthorities = (
    testnet_genesis-HasValidAuthorities G ((G.aura_id G.alice, G.grandpa_id G.ed_alice) ∷ [])
        (map G.to_account_id (developers G)) _ (λ m. m, tt) (λ m. m, tt) (omega arith)
        (omega arith),
    testnet_genesis-HasValidAuthorities G
        ((G.aura_id G.alice, G.grandpa_id G.ed_alice)
          ∷ (G.aura_id G.bob, G.grandpa_id G.ed_bob)
          ∷ [])
        (map G.to_account_id (testers G)) _
        (one_each (λ e. (L.variants_differ).0 (inl (L.aura_id-injective G.alice G.bob e))))
        (one_each L.grandpa_id-differ) (omega arith) (omega arith),
  )
