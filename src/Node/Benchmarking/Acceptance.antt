-- ===== src/Node/Benchmarking/Acceptance.antt =====
-- The extrinsics of node/src/benchmarking.rs against the checks that the runtime makes of what is
-- signed, with the versions and the kept block hashes of runtime/src.
use create_chain_substrate_n.Common.{
  ℕ, ◌+◌, ◌^◌, ◌≤◌, ◌<◌, ◌≡◌, sym, ap, ◌∙◌, Bool, true, false, ok, Option, none, some, List, [],
  ◌∷◌, arith,
}
use create_chain_substrate_n.Runtime.{version}
use create_chain_substrate_n.Runtime.Configs.{block_hash_count}
use create_chain_substrate_n.Runtime.Calls.{RuntimeCall, system_call, balances_call}
use create_chain_substrate_n.Runtime.Extensions.{
  Extension, authorize_call, check_non_zero_sender, check_spec_version, check_tx_version,
  check_genesis, check_era, check_nonce, check_weight, charge_transaction_payment,
  check_metadata_hash, weight_reclaim, tx_extensions, Explicit, Implicit, Tuple, TxImplicit, era_of,
}
use create_chain_substrate_n.Node.Benchmarking.{
  BenchmarkApi, PayloadCodec, UncheckedExtrinsic, era_period, power_from, signed_extrinsic,
  create_benchmark_extrinsic, build_remark, build_transfer, implicit_data, tx_extension,
}

-- What a block of the runtime checks an extrinsic with: the state has the number of the block, and
-- the hashes of the blocks before; the extensions add what is signed but not sent.
pub record CheckApi (B : BenchmarkApi) : Type 1 where
  pub State : Type 0
  pub number : State → ℕ
  pub block_hash : State → ℕ → Option B.Hash
  pub birth : B.Era → ℕ → ℕ
  pub implicit : State → (e : Extension) → Explicit B.Era e → Option (Implicit B.Hash e)
  pub verify : B.Signature → B.Bytes → B.AccountId → Bool

-- The documented behaviour: the hashes of `block_hash_count` blocks are kept, and that of block 0;
-- a mortal era with a period of up to 4096 was born at its block; what each extension adds, that is
-- the runtime's versions, the hash of block 0, and that of the block at which the era was born,
-- where these are kept; and an account verifies what its pair signs.
pub record IsLawfulCheck {B : BenchmarkApi} (X : CheckApi B) : Type 0 where
  pub chain : ℕ → B.Hash
  pub kept_lem :
      (s : X.State) (n : ℕ)
      → n < X.number s
      → X.number s ≤ n + block_hash_count
      → X.block_hash s n ≡ some (chain n)
  pub genesis_lem : (s : X.State) → 1 ≤ X.number s → X.block_hash s 0 ≡ some (chain 0)
  pub birth_lem :
      (k current n : ℕ)
      → 2 ≤ k
      → k ≤ 12
      → current ≤ n
      → n < current + 2 ^ k
      → X.birth (B.mortal (2 ^ k) current) n ≡ current
  pub authorize_call_lem : (s : X.State) → X.implicit s authorize_call tt ≡ some tt
  pub check_non_zero_sender_lem : (s : X.State) → X.implicit s check_non_zero_sender tt ≡ some tt
  pub check_spec_version_lem :
      (s : X.State) → X.implicit s check_spec_version tt ≡ some version.spec_version
  pub check_tx_version_lem :
      (s : X.State) → X.implicit s check_tx_version tt ≡ some version.transaction_version
  pub check_genesis_lem : (s : X.State) → X.implicit s check_genesis tt ≡ X.block_hash s 0
  pub check_era_lem :
      (s : X.State) (era : B.Era)
      → X.implicit s check_era era ≡ X.block_hash s (X.birth era (X.number s))
  pub check_nonce_lem : (s : X.State) (nonce : ℕ) → X.implicit s check_nonce nonce ≡ some tt
  pub check_weight_lem : (s : X.State) → X.implicit s check_weight tt ≡ some tt
  pub charge_transaction_payment_lem :
      (s : X.State) (tip : ℕ) → X.implicit s charge_transaction_payment tip ≡ some tt
  pub check_metadata_hash_lem : (s : X.State) → X.implicit s check_metadata_hash false ≡ some none
  pub weight_reclaim_lem : (s : X.State) → X.implicit s weight_reclaim tt ≡ some tt
  pub verify-sign :
      (p : B.Pair) (m : B.Bytes) → X.verify (B.sign p m) m (B.account_id (B.public p)) ≡ true

abbrev pub both : {A C : Type 0} → Option A → Option C → Option (A × C)
both (some a) (some c) = some (a, c)
both (some a) none = none
both none _ = none

module _ {B : BenchmarkApi} (payload : PayloadCodec B) (X : CheckApi B) where
  -- What the extensions of a tuple add together, if all of them have it.
  abbrev pub implicits :
      X.State
      → (es : List Extension) → Tuple (Explicit B.Era) es
      → Option (Tuple (Implicit B.Hash) es)
  implicits s [] parts = some tt
  implicits s (e ∷ es) (part, parts) = both (X.implicit s e part) (implicits s es parts)

  -- A block knows what was signed, and the signature verifies.
  abbrev pub IsAccepted : X.State → UncheckedExtrinsic B → Type 0
  IsAccepted s x =
      (i : TxImplicit B.Hash) × (implicits s tx_extensions x.extension ≡ some i)
      × (X.verify x.signature (payload x.call x.extension i) x.signer ≡ true)

  module _ (L : IsLawfulCheck X) (client : B.Client) (s : X.State)
      (genesis : B.block_hash client 0 ≡ ok (some (L.chain 0)))
      (best : B.best_hash client ≡ L.chain (B.best_number client))
      (later : B.best_number client < X.number s)
      (alive : X.number s < B.best_number client + 2048) where
    tx_extension-birth :
        (nonce : ℕ)
        → X.birth (era_of (tx_extension B payload client nonce)) (X.number s) ≡ B.best_number client
    unfolding era_period power_from
    tx_extension-birth nonce =
        L.birth_lem 11 (B.best_number client) (X.number s) (omega arith) (omega arith) (omega arith)
          (omega arith)

    -- What the extensions add in the block is what the node signed.
    tx_extension-implicits :
        (nonce : ℕ)
        → implicits s tx_extensions (tx_extension B payload client nonce)
          ≡ some (implicit_data B payload client (L.chain 0))
    tx_extension-implicits nonce =
        let born : X.implicit s check_era (era_of (tx_extension B payload client nonce))
            ≡ some (B.best_hash client) =
          L.check_era_lem s _
          ∙ ap (X.block_hash s) (tx_extension-birth nonce)
          ∙ L.kept_lem s (B.best_number client) later (omega arith)
          ∙ ap some (sym best) in
        rw (
          L.authorize_call_lem s,
          L.check_non_zero_sender_lem s,
          L.check_spec_version_lem s,
          L.check_tx_version_lem s,
          L.check_genesis_lem s ∙ L.genesis_lem s (omega arith),
          born,
          L.check_nonce_lem s nonce,
          L.check_weight_lem s,
          L.charge_transaction_payment_lem s 0,
          L.check_metadata_hash_lem s,
          L.weight_reclaim_lem s,
        )

    signed_extrinsic-IsAccepted :
        (sender : B.Pair) (call : RuntimeCall B.calls) (nonce : ℕ)
        → IsAccepted s (signed_extrinsic B payload client sender call nonce (L.chain 0))
    signed_extrinsic-IsAccepted sender call nonce = (
      implicit_data B payload client (L.chain 0),
      tx_extension-implicits nonce,
      L.verify-sign sender _,
    )

    -- For a client whose best block and genesis block are of the chain, both builders make, at every
    -- nonce, an extrinsic whose signature verifies in each of the 2047 blocks after the best block,
    -- with what the runtime's extensions add there.
    pub builders-IsAccepted :
        (dest : B.AccountId) (value nonce : ℕ)
        → ((x : UncheckedExtrinsic B) × (build_remark B payload client nonce ≡ ok x)
            × IsAccepted s x)
          × ((y : UncheckedExtrinsic B) × (build_transfer B payload client dest value nonce ≡ ok y)
              × IsAccepted s y)
    unfolding build_remark build_transfer create_benchmark_extrinsic
    builders-IsAccepted dest value nonce = (
      (
        signed_extrinsic B payload client B.bob (system_call (B.remark [])) nonce (L.chain 0),
        rw genesis,
        signed_extrinsic-IsAccepted B.bob (system_call (B.remark [])) nonce,
      ),
      (
        signed_extrinsic B payload client B.bob (balances_call (B.transfer_keep_alive dest value))
            nonce (L.chain 0),
        rw genesis,
        signed_extrinsic-IsAccepted B.bob (balances_call (B.transfer_keep_alive dest value)) nonce,
      ),
    )
