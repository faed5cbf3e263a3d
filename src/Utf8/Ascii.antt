-- ===== src/Utf8/Ascii.antt =====
-- ASCII runes are the single bytes below 0x80, and no other rune has such a byte.
use claude_code_socket_trans.Base.{ℕ, All, Bytes, ◌≤◌, ◌<◌, arith, ◌∷◌, ◌≡◌, []}
use claude_code_socket_trans.Utf8.{decode_rune, encode_rune, decode_two, decode_three, decode_four}

decode_two_wide : (b : ℕ) (s : Bytes) → 0xc2 ≤ b → 0x80 ≤ (decode_two b s).rune
decode_two_wide b [] h = omega arith
decode_two_wide b (c ∷ s) h = ground arith

decode_three_wide : (b : ℕ) (s : Bytes) → 0xe0 ≤ b → 0x80 ≤ (decode_three b s).rune
decode_three_wide b [] h = omega arith
decode_three_wide b (c ∷ []) h = omega arith
decode_three_wide b (c ∷ d ∷ s) h = ground arith

decode_four_wide : (b : ℕ) (s : Bytes) → 0xf0 ≤ b → 0x80 ≤ (decode_four b s).rune
decode_four_wide b [] h = omega arith
decode_four_wide b (c ∷ []) h = omega arith
decode_four_wide b (c ∷ d ∷ []) h = omega arith
decode_four_wide b (c ∷ d ∷ e ∷ s) h = ground arith

pub decode_rune_wide : (b : ℕ) (s : Bytes) → 0x80 ≤ b → 0x80 ≤ (decode_rune b s).rune
unfolding decode_rune
decode_rune_wide b s h =
    ground (arith, decode_two_wide b s, decode_three_wide b s, decode_four_wide b s)

pub decode_rune_ascii :
    (b : ℕ) (s : Bytes) → b < 0x80 → decode_rune b s ≡ record { rune = b; width = 1 }
unfolding decode_rune
decode_rune_ascii b s h = ground arith

-- The encoding of a rune that is not ASCII has no ASCII byte.
pub encode_rune_wide : (r : ℕ) → 0x80 ≤ r → All (λ c. 0x80 ≤ c) (encode_rune r)
unfolding encode_rune
encode_rune_wide r h = ground arith
