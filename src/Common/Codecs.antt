-- ===== src/Common/Codecs.antt =====
-- Encodings in the manner of parity-scale-codec: a decoder takes the bytes of one value off the
-- front, and fails where they are none.
use Prim.Native.Nat.{ℕ, ◌<◌, ◌^◌}
use mathlib.Core.Path.{◌≡◌, ap, ◌∙◌}
use mathlib.Core.List.{List, [], ◌∷◌, ◌++◌, append_assoc}
use create_chain_substrate_n.Common.Tests.{◌==◌, if◌then◌else◌}
use mathlib.Core.Option.{Option, none, some}

abbrev pub Decoder : Type 0 → Type 0
Decoder A = List ℕ → Option (A × List ℕ)

abbrev pub pure : {A : Type 0} → A → Decoder A
pure a bytes = some (a, bytes)

abbrev pub fail : {A : Type 0} → Decoder A
fail bytes = none

infixl 5 ◌>>=◌
abbrev pub ◌>>=◌ : {A B : Type 0} → Decoder A → (A → Decoder B) → Decoder B
◌>>=◌ d f bytes = elim (d bytes) [ some (a, rest) ↦ f a rest | none ↦ none ]

-- A decoder behind one whose value is known.
pub bind-some :
    {A B : Type 0} (d : Decoder A) (f : A → Decoder B) {a : A} {bytes rest : List ℕ}
    → d bytes ≡ some (a, rest)
    → (d >>= f) bytes ≡ f a rest
bind-some {A} d f e =
    ap (λ (x : Option (A × List ℕ)). elim x [ some (a, rest) ↦ f a rest | none ↦ none ]) e

-- `Encode` and `Decode` of a type: what is valid is read back.
pub record Codec (A : Type 0) : Type 1 where
  pub IsValid : A → Type 0
  pub encode : A → List ℕ
  pub decode : Decoder A
  pub decode-encode :
      (a : A) (rest : List ℕ) → IsValid a → decode (encode a ++ rest) ≡ some (a, rest)

-- Decoding behind a value of a codec.
pub bind-encode :
    {A B : Type 0} (C : Codec A) (f : A → Decoder B) (a : A) (next rest : List ℕ)
    → C.IsValid a
    → (C.decode >>= f) ((C.encode a ++ next) ++ rest) ≡ f a (next ++ rest)
bind-encode C f a next rest valid =
    ap (C.decode >>= f) (append_assoc (C.encode a) next rest)
    ∙ bind-some C.decode f {bytes = C.encode a ++ (next ++ rest)}
        (C.decode-encode a (next ++ rest) valid)

-- A value of a variant.
abbrev pub decode_as : {A B : Type 0} → Codec A → (A → B) → Decoder B
decode_as C variant = C.decode >>= λ a. pure (variant a)

pub decode_as-encode :
    {A B : Type 0} (C : Codec A) (variant : A → B) (a : A) (rest : List ℕ)
    → C.IsValid a
    → decode_as C variant (C.encode a ++ rest) ≡ some (variant a, rest)
decode_as-encode C variant a rest valid =
    bind-some C.decode (λ a. pure (variant a)) (C.decode-encode a rest valid)

-- The decoder that a table has for an index.
abbrev pub decode_at : {A : Type 0} → List (ℕ × Decoder A) → ℕ → Decoder A
decode_at [] n = fail
decode_at ((k, d) ∷ table) n = if n == k then d else decode_at table n

-- The integers of parity-scale-codec that the pallets use.
pub record Integers : Type 1 where
  pub u8 : Codec ℕ
  pub u32 : Codec ℕ
  pub u8-IsValid : (n : ℕ) → n < 2 ^ 8 → u8.IsValid n
  pub u32-IsValid : (n : ℕ) → n < 2 ^ 32 → u32.IsValid n

-- An index in front of what it decides, as an enumeration is encoded.
module _ (I : Integers) {A : Type 0} (index : A → ℕ) (encode_rest : A → List ℕ)
    (decode_rest : ℕ → Decoder A) {IsValid : A → Type 0} (byte : (a : A) → index a < 2 ^ 8)
    (back : (a : A) (rest : List ℕ)
      → IsValid a
      → decode_rest (index a) (encode_rest a ++ rest) ≡ some (a, rest)) where
  pub indexed_back :
      (a : A) (rest : List ℕ)
      → IsValid a
      → (I.u8.decode >>= decode_rest) ((I.u8.encode (index a) ++ encode_rest a) ++ rest)
        ≡ some (a, rest)
  indexed_back a rest valid =
      bind-encode I.u8 decode_rest (index a) (encode_rest a) rest (I.u8-IsValid (index a) (byte a))
      ∙ back a rest valid

  abbrev pub indexed_codec : Codec A
  indexed_codec = record {
    IsValid = IsValid;
    encode = λ a. I.u8.encode (index a) ++ encode_rest a;
    decode = I.u8.decode >>= decode_rest;
    decode-encode = indexed_back;
  }
