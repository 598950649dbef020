-- ===== src/Runtime/Calls.antt =====
-- The pallets that runtime/src/lib.rs puts together, and the encoding of the runtime's calls.
pub mod RoundTrip
pub mod Sample
mod Tests
use create_chain_substrate_n.Common.{
  ℕ, ◌^◌, ◌<◌, ◌≡◌, refl, List, [], ◌∷◌, ◌++◌, some, String, arith,
}
use create_chain_substrate_n.Common.Codecs.{
  Codec, Integers, Decoder, decode_at, decode_as, decode_as-encode, indexed_codec,
}
use create_chain_substrate_n.Template.{Call}
use create_chain_substrate_n.Template.Encoding.{call_codec}

-- The pallets of `mod runtime`.
pub data Pallet : Type 0 where
  system timestamp aura grandpa balances transaction_payment sudo template : Pallet

-- `#[runtime::pallet_index(…)]`
abbrev pub pallet_index : Pallet → ℕ
pallet_index system = 0
pallet_index timestamp = 1
pallet_index aura = 2
pallet_index grandpa = 3
pallet_index balances = 4
pallet_index transaction_payment = 5
pallet_index sudo = 6
pallet_index template = 7

-- The names of the pallets in `mod runtime`.
abbrev pub pallet_name : Pallet → String
pallet_name system = "System"
pallet_name timestamp = "Timestamp"
pallet_name aura = "Aura"
pallet_name grandpa = "Grandpa"
pallet_name balances = "Balances"
pallet_name transaction_payment = "TransactionPayment"
pallet_name sudo = "Sudo"
pallet_name template = "Template"

-- The crates of the pallets in `mod runtime`.
abbrev pub crate_name : Pallet → String
crate_name system = "frame_system"
crate_name timestamp = "pallet_timestamp"
crate_name aura = "pallet_aura"
crate_name grandpa = "pallet_grandpa"
crate_name balances = "pallet_balances"
crate_name transaction_payment = "pallet_transaction_payment"
crate_name sudo = "pallet_sudo"
crate_name template = "pallet_template"

-- The calls of the other pallets, with their encodings; pallet_aura and
-- pallet_transaction_payment have none.
pub record CallTypes : Type 1 where
  pub SystemCall : Type 0
  pub TimestampCall : Type 0
  pub GrandpaCall : Type 0
  pub BalancesCall : Type 0
  pub SudoCall : Type 0
  pub system_codec : Codec SystemCall
  pub timestamp_codec : Codec TimestampCall
  pub grandpa_codec : Codec GrandpaCall
  pub balances_codec : Codec BalancesCall
  pub sudo_codec : Codec SudoCall

-- `RuntimeCall`, which `#[runtime::derive(…)]` makes of the pallets.
pub data RuntimeCall (K : CallTypes) : Type 0 where
  system_call : K.SystemCall → RuntimeCall K
  timestamp_call : K.TimestampCall → RuntimeCall K
  grandpa_call : K.GrandpaCall → RuntimeCall K
  balances_call : K.BalancesCall → RuntimeCall K
  sudo_call : K.SudoCall → RuntimeCall K
  template_call : Call → RuntimeCall K

abbrev pub pallet_of : {K : CallTypes} → RuntimeCall K → Pallet
pallet_of (system_call _) = system
pallet_of (timestamp_call _) = timestamp
pallet_of (grandpa_call _) = grandpa
pallet_of (balances_call _) = balances
pallet_of (sudo_call _) = sudo
pallet_of (template_call _) = template

pub pallet_index_bound : (p : Pallet) → pallet_index p < 2 ^ 8
pallet_index_bound p = ground arith

module _ (I : Integers) (K : CallTypes) where
  -- Of a call, the arguments of its pallet.
  abbrev pub IsValidCall : RuntimeCall K → Type 0
  IsValidCall (system_call c) = K.system_codec.IsValid c
  IsValidCall (timestamp_call c) = K.timestamp_codec.IsValid c
  IsValidCall (grandpa_call c) = K.grandpa_codec.IsValid c
  IsValidCall (balances_call c) = K.balances_codec.IsValid c
  IsValidCall (sudo_call c) = K.sudo_codec.IsValid c
  IsValidCall (template_call c) = (call_codec I).IsValid c

  abbrev pub encode_inner : RuntimeCall K → List ℕ
  encode_inner (system_call c) = K.system_codec.encode c
  encode_inner (timestamp_call c) = K.timestamp_codec.encode c
  encode_inner (grandpa_call c) = K.grandpa_codec.encode c
  encode_inner (balances_call c) = K.balances_codec.encode c
  encode_inner (sudo_call c) = K.sudo_codec.encode c
  encode_inner (template_call c) = (call_codec I).encode c

  abbrev pub variants : List (ℕ × Decoder (RuntimeCall K))
  variants =
      (pallet_index system, decode_as K.system_codec system_call)
      ∷ (pallet_index timestamp, decode_as K.timestamp_codec timestamp_call)
      ∷ (pallet_index grandpa, decode_as K.grandpa_codec grandpa_call)
      ∷ (pallet_index balances, decode_as K.balances_codec balances_call)
      ∷ (pallet_index sudo, decode_as K.sudo_codec sudo_call)
      ∷ (pallet_index template, decode_as (call_codec I) template_call)
      ∷ []

  abbrev pub decode_inner : ℕ → Decoder (RuntimeCall K)
  decode_inner = decode_at variants

  pub inner_read_back :
      (call : RuntimeCall K) (rest : List ℕ)
      → IsValidCall call
      → decode_inner (pallet_index (pallet_of call)) (encode_inner call ++ rest) ≡ some (call, rest)
  inner_read_back (system_call c) rest valid =
      decode_as-encode K.system_codec system_call c rest valid
  inner_read_back (timestamp_call c) rest valid =
      decode_as-encode K.timestamp_codec timestamp_call c rest valid
  inner_read_back (grandpa_call c) rest valid =
      decode_as-encode K.grandpa_codec grandpa_call c rest valid
  inner_read_back (balances_call c) rest valid =
      decode_as-encode K.balances_codec balances_call c rest valid
  inner_read_back (sudo_call c) rest valid = decode_as-encode K.sudo_codec sudo_call c rest valid
  inner_read_back (template_call c) rest valid =
      decode_as-encode (call_codec I) template_call c rest valid

  -- The encoding that is derived for the runtime's calls: the index of the pallet, and its call.
  abbrev pub runtime_codec : Codec (RuntimeCall K)
  runtime_codec =
      indexed_codec I (λ c. pallet_index (pallet_of c)) encode_inner decode_inner
        (λ c. pallet_index_bound (pallet_of c)) inner_read_back
