-- ===== src/Runtime/Extensions.antt =====
-- `TxExtension` of runtime/src/lib.rs: what an extrinsic carries beside its call, in the order of
-- the extensions.
use create_chain_substrate_n.Common.{ℕ, Bool, Option, List, [], ◌∷◌}

-- The extensions of frame_system, pallet_transaction_payment and frame_metadata_hash_extension.
pub data Extension : Type 0 where
  authorize_call check_non_zero_sender check_spec_version check_tx_version : Extension
  check_genesis check_era check_nonce check_weight : Extension
  charge_transaction_payment check_metadata_hash weight_reclaim : Extension

-- `TxExtension`
abbrev pub tx_extensions : List Extension
tx_extensions =
    authorize_call ∷ check_non_zero_sender ∷ check_spec_version ∷ check_tx_version ∷ check_genesis
    ∷ check_era ∷ check_nonce ∷ check_weight ∷ charge_transaction_payment ∷ check_metadata_hash
    ∷ weight_reclaim ∷ []

-- What an extension sends: an era, a nonce, a tip, or whether there is a hash of the metadata.
abbrev pub Explicit : (Era : Type 0) → Extension → Type 0
Explicit Era check_era = Era
Explicit Era check_nonce = ℕ
Explicit Era charge_transaction_payment = ℕ
Explicit Era check_metadata_hash = Bool
Explicit Era _ = Unit

-- What an extension adds to what is signed, and does not send: a version, the hash of a block, or
-- that of the metadata.
abbrev pub Implicit : (Hash : Type 0) → Extension → Type 0
Implicit Hash check_spec_version = ℕ
Implicit Hash check_tx_version = ℕ
Implicit Hash check_genesis = Hash
Implicit Hash check_era = Hash
Implicit Hash check_metadata_hash = Option Hash
Implicit Hash _ = Unit

-- A tuple with one part for each extension.
abbrev pub Tuple : (Extension → Type 0) → List Extension → Type 0
Tuple Part [] = Unit
Tuple Part (e ∷ rest) = Part e × Tuple Part rest

abbrev pub TxExtension : (Era : Type 0) → Type 0
TxExtension Era = Tuple (Explicit Era) tx_extensions

abbrev pub TxImplicit : (Hash : Type 0) → Type 0
TxImplicit Hash = Tuple (Implicit Hash) tx_extensions

-- The parts of the tuple that carry a value.
abbrev pub era_of : {Era : Type 0} → TxExtension Era → Era
era_of (_, (_, (_, (_, (_, (era, _)))))) = era

abbrev pub nonce_of : {Era : Type 0} → TxExtension Era → ℕ
nonce_of (_, (_, (_, (_, (_, (_, (nonce, _))))))) = nonce

abbrev pub tip_of : {Era : Type 0} → TxExtension Era → ℕ
tip_of (_, (_, (_, (_, (_, (_, (_, (_, (tip, _))))))))) = tip
