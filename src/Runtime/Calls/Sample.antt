-- ===== src/Runtime/Calls/Sample.antt =====
-- The integers of parity-scale-codec, and concrete calls of the other pallets.
use create_chain_substrate_n.Common.{
  ℕ, ◌+◌, ◌*◌, ◌/◌, ◌%◌, ◌^◌, ◌<◌, ◌≡◌, refl, List, [], ◌∷◌, ◌++◌, some, none, ap, arith,
}
use create_chain_substrate_n.Common.Codecs.{Codec, Integers, Decoder}
use create_chain_substrate_n.Runtime.Calls.{CallTypes}

abbrev pub byte : Codec ℕ
byte = record {
  IsValid = λ n. n < 2 ^ 8;
  encode = λ n. n ∷ [];
  decode = λ bytes. elim bytes [ [] ↦ none | b ∷ rest ↦ some (b, rest) ];
  decode-encode = λ n rest h. refl;
}

-- Four bytes, the lowest first.
abbrev pub encode_word : ℕ → List ℕ
encode_word n = n % 256 ∷ n / 256 % 256 ∷ n / 65_536 % 256 ∷ n / 16_777_216 ∷ []

abbrev pub decode_word : Decoder ℕ
decode_word (a ∷ b ∷ c ∷ d ∷ rest) = some (a + 256 * b + 65_536 * c + 16_777_216 * d, rest)
decode_word _ = none

pub word_read_back :
    (n : ℕ) (rest : List ℕ) → n < 2 ^ 32 → decode_word (encode_word n ++ rest) ≡ some (n, rest)
word_read_back n rest h = ap (λ m. some (m, rest)) (omega arith)

abbrev pub word : Codec ℕ
word = record {
  IsValid = λ n. n < 2 ^ 32;
  encode = encode_word;
  decode = decode_word;
  decode-encode = word_read_back;
}

abbrev pub integers : Integers
integers = record { u8 = byte; u32 = word; u8-IsValid = λ n h. h; u32-IsValid = λ n h. h }

-- A number as it is.
abbrev pub number : Codec ℕ
number = record {
  IsValid = λ n. Unit;
  encode = λ n. n ∷ [];
  decode = λ bytes. elim bytes [ [] ↦ none | b ∷ rest ↦ some (b, rest) ];
  decode-encode = λ n rest h. refl;
}

-- The other pallets have one call each, with a number as its argument.
abbrev pub calls : CallTypes
calls = record {
  SystemCall = ℕ;
  TimestampCall = ℕ;
  GrandpaCall = ℕ;
  BalancesCall = ℕ;
  SudoCall = ℕ;
  system_codec = number;
  timestamp_codec = number;
  grandpa_codec = number;
  balances_codec = number;
  sudo_codec = number;
}
