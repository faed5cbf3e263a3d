-- ===== src/Utf8/Encoding.antt =====
-- Decoding gives back an encoded rune.
use mathlib.Core.Path.{subst}
use claude_code_socket_trans.Utf8.Ascii.{decode_rune_ascii}
use claude_code_socket_trans.Utf8.{encode_rune, decode_rune}
use claude_code_socket_trans.Base.{
  ℕ, ◌<◌, Bytes, if◌then◌else◌, ◌≡◌, ◌⊎◌, ltb, ◌≤◌, ◌∷◌, [], arith, ◌+◌, ◌/◌, ◌%◌, ◌++◌, Bool-cases,
  inl, inr, All,
}

-- A rune that has an encoding: no surrogate, and below 0x110000.
pub record IsScalar (r : ℕ) : Type 0 where
  pub in_range : r < 0x110000
  pub no_surrogate : (r < 0xd800) ⊎ (0xe000 ≤ r)

-- The bytes of an encoded rune.
abbrev pub rune_width : ℕ → ℕ
rune_width r = if ltb r 0x80 then 1 else if ltb r 0x800 then 2 else if ltb r 0x10000 then 3 else 4

-- The first byte of an encoded rune, and the others.
abbrev pub first_byte : ℕ → ℕ
first_byte r =
    if ltb r 0x80
    then r
    else if ltb r 0x800
    then 0xc0 + r / 64
    else if ltb r 0x10000
    then 0xe0 + r / 4096
    else 0xf0 + r / 262144

abbrev pub other_bytes : ℕ → Bytes
other_bytes r =
    if ltb r 0x80
    then []
    else if ltb r 0x800
    then (0x80 + r % 64) ∷ []
    else if ltb r 0x10000
    then (0x80 + r / 64 % 64) ∷ (0x80 + r % 64) ∷ []
    else (0x80 + r / 4096 % 64) ∷ (0x80 + r / 64 % 64) ∷ (0x80 + r % 64) ∷ []

pub first_byte_ge : (r : ℕ) → 0x80 ≤ r → 0x80 ≤ first_byte r
first_byte_ge r h = ground arith

pub encode_rune-bytes : (r : ℕ) → encode_rune r ≡ first_byte r ∷ other_bytes r
unfolding encode_rune
encode_rune-bytes r = ground arith

decode_encoded_two :
    (r : ℕ) (s : Bytes)
    → 0x80 ≤ r
    → r < 0x800
    → decode_rune (0xc0 + r / 64) ((0x80 + r % 64) ∷ s) ≡ record { rune = r; width = 2 }
unfolding decode_rune
decode_encoded_two r s h k = ground arith

decode_encoded_three :
    (r : ℕ) (s : Bytes)
    → 0x800 ≤ r
    → r < 0x10000
    → (r < 0xd800) ⊎ (0xe000 ≤ r)
    → decode_rune (0xe0 + r / 4096) ((0x80 + r / 64 % 64) ∷ (0x80 + r % 64) ∷ s)
      ≡ record { rune = r; width = 3 }
unfolding decode_rune
decode_encoded_three r s h k l = ground arith

decode_encoded_four :
    (r : ℕ) (s : Bytes)
    → 0x10000 ≤ r
    → r < 0x110000
    → decode_rune
        (0xf0 + r / 262144)
        ((0x80 + r / 4096 % 64) ∷ (0x80 + r / 64 % 64) ∷ (0x80 + r % 64) ∷ s)
      ≡ record { rune = r; width = 4 }
unfolding decode_rune
decode_encoded_four r s h k = ground arith

pub decode_rune-encoded :
    (r : ℕ) (s : Bytes)
    → IsScalar r
    → decode_rune (first_byte r) (other_bytes r ++ s) ≡ record { rune = r; width = rune_width r }
decode_rune-encoded r s h = elim (Bool-cases (ltb r 0x80)) [
  | inl t ↦ rw t (decode_rune_ascii r s (ground arith))
  | inr f ↦ rw f (elim (Bool-cases (ltb r 0x800)) [
    | inl t ↦ rw t (decode_encoded_two r s (ground arith) (ground arith))
    | inr f' ↦ rw f' (elim (Bool-cases (ltb r 0x10000)) [
      | inl t ↦ rw t (decode_encoded_three r s (ground arith) (ground arith) h.no_surrogate)
      | inr f'' ↦ rw f'' (decode_encoded_four r s (ground arith) h.in_range)
    ])
  ])
]

-- A text that is made of encoded runes.
pub data IsUtf8 : Bytes → Type 0 where
  empty : IsUtf8 []
  next_rune : (r : ℕ) {s : Bytes} → IsScalar r → IsUtf8 s → IsUtf8 (encode_rune r ++ s)

-- ASCII is UTF-8.
pub ascii-IsUtf8 : (s : Bytes) → All (λ c. c < 0x80) s → IsUtf8 s
unfolding encode_rune
ascii-IsUtf8 [] _ = empty
ascii-IsUtf8 (c ∷ s) (h, hs) =
    subst (λ w. IsUtf8 (w ++ s)) one
      (next_rune c (record { in_range = omega arith; no_surrogate = inl (omega arith) })
        (ascii-IsUtf8 s hs))
  where
    one : encode_rune c ≡ c ∷ []
    one = ground arith
