-- ===== src/Node/Benchmarking/Extrinsics.antt =====
-- What the builders of node/src/benchmarking.rs make, and when they panic.
use create_chain_substrate_n.Common.{
  ℕ, ◌≡◌, ◌≢◌, refl, ◌↔◌, Bool, true, Result, ok, err, Option, none, some, [], ◌<>◌, map_err,
}
use create_chain_substrate_n.Runtime.Configs.{block_hash_count}
use create_chain_substrate_n.Runtime.Genesis.{Panic, panic}
use create_chain_substrate_n.Runtime.Calls.{RuntimeCall, system_call, balances_call}
use create_chain_substrate_n.Runtime.Extensions.{era_of, nonce_of, tip_of}
use create_chain_substrate_n.Node.Benchmarking.{
  BenchmarkApi, PayloadCodec, UncheckedExtrinsic, era_period, with_genesis, signed_extrinsic,
  create_benchmark_extrinsic, build_remark, build_transfer, inherent_benchmark_data,
}

-- The documented behaviour of signatures: what a pair signs, its public key verifies.
pub record IsLawfulSigning (B : BenchmarkApi) : Type 0 where
  pub verify : B.Signature → B.Bytes → B.Public → Bool
  pub verify-sign : (p : B.Pair) (m : B.Bytes) → verify (B.sign p m) m (B.public p) ≡ true

module _ (B : BenchmarkApi) (payload : PayloadCodec B) (L : IsLawfulSigning B) where
  -- An extrinsic of a sender that a runtime would accept at the best block of a client: it carries
  -- the call and the nonce, names the sender's account, pays no tip, lives for the period of the
  -- kept block hashes from the best block, and its signature verifies under the sender's key for
  -- its own call and extension, the runtime's versions, the genesis hash and the best hash.
  pub record IsSignedBy (client : B.Client) (sender : B.Pair) (call : RuntimeCall B.calls)
      (nonce : ℕ) (genesis_hash : B.Hash) (x : UncheckedExtrinsic B) : Type 0 where
    pub carries_call : x.call ≡ call
    pub names_sender : x.signer ≡ B.account_id (B.public sender)
    pub carries_nonce : nonce_of x.extension ≡ nonce
    pub no_tip : tip_of x.extension ≡ 0
    pub lives : era_of x.extension ≡ B.mortal (era_period block_hash_count) (B.best_number client)
    pub verifies :
        L.verify x.signature
          (payload x.call x.extension (
            tt,
            (
              tt,
              (100, (1, (genesis_hash, (B.best_hash client, (tt, (tt, (tt, (none, (tt, tt))))))))),
            ),
          ))
          (B.public sender)
        ≡ true

  -- With a genesis block, `create_benchmark_extrinsic` returns an extrinsic of the sender that the
  -- runtime's checks of the signed data accept.
  pub create_benchmark_extrinsic-IsSignedBy :
      (client : B.Client) (sender : B.Pair) (call : RuntimeCall B.calls) (nonce : ℕ) {hash : B.Hash}
      → B.block_hash client 0 ≡ ok (some hash)
      → (x : UncheckedExtrinsic B) × (create_benchmark_extrinsic B payload client sender call nonce
          ≡ ok x)
        × IsSignedBy client sender call nonce hash x
  unfolding create_benchmark_extrinsic
  create_benchmark_extrinsic-IsSignedBy client sender call nonce {hash} found = (
    signed_extrinsic B payload client sender call nonce hash,
    rw found,
    record {
      carries_call = refl;
      names_sender = refl;
      carries_nonce = refl;
      no_tip = refl;
      lives = refl;
      verifies = L.verify-sign sender _;
    },
  )

  -- With a genesis block, both builders of the benchmarks succeed at every nonce: with an empty
  -- remark, and with the transfer of the builder's value to its destination, each signed by `Bob`.
  builders-IsSignedBy :
      (client : B.Client) (dest : B.AccountId) (value nonce : ℕ) {hash : B.Hash}
      → B.block_hash client 0 ≡ ok (some hash)
      → ((x : UncheckedExtrinsic B) × (build_remark B payload client nonce ≡ ok x)
          × IsSignedBy client B.bob (system_call (B.remark [])) nonce hash x)
        × ((y : UncheckedExtrinsic B) × (build_transfer B payload client dest value nonce ≡ ok y)
            × IsSignedBy client B.bob
                (balances_call (B.transfer_keep_alive dest value))
                nonce
                hash
                y)
  unfolding build_remark build_transfer
  builders-IsSignedBy client dest value nonce found = (
    create_benchmark_extrinsic-IsSignedBy client B.bob (system_call (B.remark [])) nonce found,
    create_benchmark_extrinsic-IsSignedBy client B.bob
        (balances_call (B.transfer_keep_alive dest value)) nonce found,
  )

module _ (B : BenchmarkApi) {A : Type 0} (f : B.Hash → A) where
  abbrev NotFound : Result B.ClientError (Option B.Hash) → Type 0
  NotFound r = (hash : B.Hash) → r ≢ ok (some hash)

  with_genesis-panics :
      (r : Result B.ClientError (Option B.Hash))
      → (((p : Panic) × (with_genesis B r f ≡ err p)) ↔ NotFound r)
        × ((with_genesis B r f ≡ err (panic "Genesis block exists; qed")) ↔ NotFound r)
  with_genesis-panics (ok (some hash)) = (
    (λ (p, h). cc, λ missing. absurd (missing hash refl)),
    (λ h. cc, λ missing. absurd (missing hash refl)),
  )
  with_genesis-panics (ok none) = ((λ _ hash h. cc, λ _. (_, refl)), (λ _ hash h. cc, λ _. refl))
  with_genesis-panics (err _) = ((λ _ hash h. cc, λ _. (_, refl)), (λ _ hash h. cc, λ _. refl))

module _ (B : BenchmarkApi) (payload : PayloadCodec B) where
  -- `create_benchmark_extrinsic` panics, with whatever message, exactly when the client does not
  -- find the hash of block 0, whether it found no block or met an error; and exactly then it panics
  -- with the message of the missing genesis block.
  pub create_benchmark_extrinsic_panics :
      (client : B.Client) (sender : B.Pair) (call : RuntimeCall B.calls) (nonce : ℕ)
      → (((p : Panic) × (create_benchmark_extrinsic B payload client sender call nonce ≡ err p))
          ↔ ((hash : B.Hash) → B.block_hash client 0 ≢ ok (some hash)))
        × ((create_benchmark_extrinsic B payload client sender call nonce
              ≡ err (panic "Genesis block exists; qed"))
            ↔ ((hash : B.Hash) → B.block_hash client 0 ≢ ok (some hash)))
  unfolding create_benchmark_extrinsic
  create_benchmark_extrinsic_panics client sender call nonce =
      with_genesis-panics B _ (B.block_hash client 0)

module _ {A : Type 0} where
  map_err-ok :
      {E F : Type 0} (g : E → F) (r : Result E A) (a : A) → (map_err g r ≡ ok a) ↔ (r ≡ ok a)
  map_err-ok g (ok b) a = (λ h. cc, λ h. cc)
  map_err-ok g (err e) a = (λ h. cc, λ h. cc)

module _ (B : BenchmarkApi) where
  -- The inherent data of the benchmarks are those with the timestamp 0; an error of the provider is
  -- passed on, with a text in front.
  inherent_benchmark_data_outcomes :
      ((d : B.InherentData)
        → (inherent_benchmark_data B ≡ ok d) ↔ (B.provide_timestamp 0 B.inherent_data_new ≡ ok d))
      × ((e : B.InherentError)
          → B.provide_timestamp 0 B.inherent_data_new ≡ err e
          → inherent_benchmark_data B ≡ err ("creating inherent data: " <> B.debug e))
  unfolding inherent_benchmark_data
  inherent_benchmark_data_outcomes =
      (λ d. map_err-ok _ (B.provide_timestamp 0 B.inherent_data_new) d, λ e failed. rw failed)
