-- ===== src/Runtime/Genesis/Presets.antt =====
-- Which presets there are, what they serialise, and who holds the sudo key.
use create_chain_substrate_n.Common.{
  ◌≡◌, refl, sym, ◌∙◌, ◌↔◌, ◌≢◌, Result, ok, Option, none, some, String, map, inl, inr, IsIn,
  Bool-cases, ◌==ₛ◌, eq_iff, false, false≢true,
}
use create_chain_substrate_n.Runtime.Genesis.{
  GenesisApi, GenesisPatch, IsLawfulGenesis, Panic, encoded, get_preset, preset_names,
  development_config_genesis, local_config_genesis,
}
use create_chain_substrate_n.Runtime.Genesis.Endowment.{local_config_genesis-endows}

-- A result tells whether an identifier is listed.
abbrev Tells : {B : Type 0} → Result Panic (Option B) → Type 0 → Type 0
Tells {B} r P = (((b : B) × (r ≡ ok (some b))) ↔ P) × ((r ≡ ok none) ↔ (¬ P))

listed : {B P : Type 0} {r : Result Panic (Option B)} (b : B) → r ≡ ok (some b) → P → Tells r P
listed b e p = ((λ _. p, λ _. (b, e)), (λ h. cc, λ n. absurd (n p)))

unlisted : {B P : Type 0} {r : Result Panic (Option B)} → r ≡ ok none → ¬ P → Tells r P
unlisted e n = ((λ (b, h). cc, λ p. absurd (n p)), (λ _. n, λ _. e))

==ₛ-eq_false : {s t : String} → s ≢ t → (s ==ₛ t) ≡ false
==ₛ-eq_false {s} {t} n = elim (Bool-cases (s ==ₛ t)) [
  | inl e ↦ absurd (n ((eq_iff s t).0 e))
  | inr e ↦ e
]

module _ (G : GenesisApi) (L : IsLawfulGenesis G) (to_value : GenesisPatch G → G.Value) where
  encoded_total :
      (v : G.Value)
      → (b : G.Bytes) × (G.to_string v ≡ ok b) × (encoded G (G.to_string v) ≡ ok (some b))
  encoded_total v = let (b, e) = L.to_string_total v in (b, e, rw e)

  -- The development preset serialises the development genesis, and the local one the local
  -- genesis; neither panics.
  pub get_preset_bytes :
      ((b : G.Bytes) × (G.to_string (to_value (development_config_genesis G)) ≡ ok b)
        × (get_preset G to_value G.dev_runtime_preset ≡ ok (some b)))
      × ((b : G.Bytes) × (G.to_string (to_value (local_config_genesis G)) ≡ ok b)
          × (get_preset G to_value G.local_testnet_runtime_preset ≡ ok (some b)))
  unfolding get_preset
  get_preset_bytes =
      let (b, e, f) = encoded_total (to_value (development_config_genesis G)) in
      let (c, g, h) = encoded_total (to_value (local_config_genesis G)) in
      (
        (b, e, rw ((eq_iff G.dev_runtime_preset G.dev_runtime_preset).1 refl) f),
        (
          c,
          g,
          rw
              (
                ==ₛ-eq_false (λ e'. L.preset_names_differ (sym e')),
                (eq_iff G.local_testnet_runtime_preset G.local_testnet_runtime_preset).1 refl,
              )
              h,
        ),
      )

  -- For every identifier `get_preset` returns without a panic: some bytes exactly when
  -- `preset_names` lists the identifier, and `None` exactly when it does not.
  pub get_preset_listed :
      (id : String)
      → (((b : G.Bytes) × (get_preset G to_value id ≡ ok (some b))) ↔ IsIn id (preset_names G))
        × ((get_preset G to_value id ≡ ok none) ↔ (¬ IsIn id (preset_names G)))
  unfolding get_preset preset_names
  get_preset_listed id = elim (Bool-cases (id ==ₛ G.dev_runtime_preset)) [
    | inl dev ↦
        let (b, _, f) = encoded_total (to_value (development_config_genesis G)) in
        rw dev (listed b f (inl ((eq_iff id _).0 dev)))
    | inr other ↦ elim (Bool-cases (id ==ₛ G.local_testnet_runtime_preset)) [
      | inl local ↦
          let (b, _, f) = encoded_total (to_value (local_config_genesis G)) in
          rw (other, local) (listed b f (inr (inl ((eq_iff id _).0 local))))
      | inr neither ↦
          rw (other, neither)
            (unlisted refl λ m. elim m [
              | inl e ↦ false≢true (sym other ∙ (eq_iff id _).1 e)
              | inr m' ↦ elim m' [
                | inl e ↦ false≢true (sym neither ∙ (eq_iff id _).1 e)
                | inr m'' ↦ m''
              ]
            ])
    ]
  ]

module _ (G : GenesisApi) (L : IsLawfulGenesis G) where
  -- Both presets give the sudo key to the account of `Alice`, and endow that account.
  presets_endow_root :
      let root = G.to_account_id G.alice in
      let dev = development_config_genesis G in
      let local = local_config_genesis G in
      (dev.sudo_key ≡ some root)
      × IsIn root (map (λ b. b.0) dev.balances)
      × (local.sudo_key ≡ some root)
      × IsIn root (map (λ b. b.0) local.balances)
  unfolding development_config_genesis local_config_genesis
  presets_endow_root = (
    refl,
    inl refl,
    refl,
    (local_config_genesis-endows G L G.alice).1 (
      λ e. L.variants_differ.0 (inr (inr (inr (inl e)))),
      λ e. L.variants_differ.0 (inr (inr (inr (inr (inl e))))),
    ),
  )
