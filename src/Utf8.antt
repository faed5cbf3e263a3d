-- ===== src/Utf8.antt =====
-- What the code uses of packages unicode/utf8 and unicode: runes, their encoding, the classes that
-- `unicode.IsControl` and `unicode.IsSpace` name, and `strings.TrimSpace`.
pub mod Ascii
pub mod Encoding
pub mod Scalar
mod Tests
use claude_code_socket_trans.Base.{
  ℕ, zero, suc, Bool, leb, not, if◌then◌else◌, Bytes, ltb, ◌||◌, codes, ◌∷◌, ◌&&◌, ◌==◌, ◌-◌, [],
  ◌++◌, ◌≡◌, ◌*◌, ◌+◌, take, refl, ◌/◌, ◌%◌,
}

-- A rune with the number of bytes it was decoded from.
pub record Decoded : Type 0 where
  pub rune : ℕ
  pub width : ℕ

abbrev pub rune_error : ℕ
rune_error = 0xfffd

abbrev invalid : Decoded
invalid = record { rune = rune_error; width = 1 }

abbrev pub between : ℕ → ℕ → ℕ → Bool
between lo hi c = leb lo c && leb c hi

abbrev is_continuation : ℕ → Bool
is_continuation = between 0x80 0xbf

-- `utf8.RuneStart(b)`
abbrev pub rune_start : ℕ → Bool
rune_start b = not (is_continuation b)

-- The range that the second byte of a sequence must lie in, by its first byte.
abbrev second_from : ℕ → ℕ
second_from b = if b == 0xe0 then 0xa0 else if b == 0xf0 then 0x90 else 0x80

abbrev second_to : ℕ → ℕ
second_to b = if b == 0xed then 0x9f else if b == 0xf4 then 0x8f else 0xbf

abbrev decode_two : ℕ → Bytes → Decoded
decode_two b (c ∷ s) =
    if is_continuation c then record { rune = (b - 0xc0) * 64 + (c - 0x80); width = 2 } else invalid
decode_two b [] = invalid

abbrev decode_three : ℕ → Bytes → Decoded
decode_three b (c ∷ d ∷ s) =
    if between (second_from b) (second_to b) c && is_continuation d
    then record { rune = (b - 0xe0) * 4096 + (c - 0x80) * 64 + (d - 0x80); width = 3 }
    else invalid
decode_three b _ = invalid

abbrev decode_four : ℕ → Bytes → Decoded
decode_four b (c ∷ d ∷ e ∷ s) =
    if between (second_from b) (second_to b) c && is_continuation d && is_continuation e
    then record {
      rune = (b - 0xf0) * 262144 + (c - 0x80) * 4096 + (d - 0x80) * 64 + (e - 0x80);
      width = 4;
    }
    else invalid
decode_four b _ = invalid

-- `utf8.DecodeRuneInString`, of a text that begins with the byte `b`.
unfoldable pub decode_rune : ℕ → Bytes → Decoded
decode_rune b s =
    if ltb b 0x80
    then record { rune = b; width = 1 }
    else if between 0xc2 0xdf b
    then decode_two b s
    else if between 0xe0 0xef b
    then decode_three b s
    else if between 0xf0 0xf4 b
    then decode_four b s
    else invalid

-- `utf8.AppendRune`, for the runes that decoding gives.
unfoldable pub encode_rune : ℕ → Bytes
encode_rune r =
    if ltb r 0x80
    then r ∷ []
    else if ltb r 0x800
    then (0xc0 + r / 64) ∷ (0x80 + r % 64) ∷ []
    else if ltb r 0x10000
    then (0xe0 + r / 4096) ∷ (0x80 + r / 64 % 64) ∷ (0x80 + r % 64) ∷ []
    else (0xf0 + r / 262144) ∷ (0x80 + r / 4096 % 64) ∷ (0x80 + r / 64 % 64) ∷ (0x80 + r % 64) ∷ []

-- `unicode.IsControl`
unfoldable pub is_control : ℕ → Bool
is_control r = ltb r 0x20 || between 0x7f 0x9f r

-- `unicode.IsSpace`
unfoldable pub is_space : ℕ → Bool
is_space r =
    between 9 13 r
    || r == 0x20
    || r == 0x85
    || r == 0xa0
    || r == 0x1680
    || between 0x2000 0x200a r
    || r == 0x2028
    || r == 0x2029
    || r == 0x202f
    || r == 0x205f
    || r == 0x3000

-- `strings.Map` with the function that drops control characters. A byte that begins no rune becomes
-- the encoding of U+FFFD. The first argument counts the bytes of the current rune still to pass.
unfoldable pub drop_controls : ℕ → Bytes → Bytes
drop_controls skip [] = []
drop_controls (suc skip) (c ∷ s) = drop_controls skip s
drop_controls zero (c ∷ s) =
    let d = decode_rune c s in
    let rest = drop_controls (d.width - 1) s in
    if is_control d.rune then rest else encode_rune d.rune ++ rest

-- `strings.TrimLeftFunc(s, unicode.IsSpace)`
unfoldable pub trim_left : ℕ → Bytes → Bytes
trim_left skip [] = []
trim_left (suc skip) (c ∷ s) = trim_left skip s
trim_left zero (c ∷ s) =
    let d = decode_rune c s in
    let rest = trim_left (d.width - 1) s in if is_space d.rune then rest else c ∷ s

-- Puts a space's bytes back only if something that stays follows it.
abbrev pub keep_space : Bytes → Bytes → Bytes
keep_space space [] = []
keep_space space (c ∷ s) = space ++ (c ∷ s)

-- `strings.TrimRightFunc(s, unicode.IsSpace)`, read from the left: decoding from either end finds
-- the same runes, since no continuation byte begins a rune.
unfoldable pub trim_right : ℕ → Bytes → Bytes
trim_right skip [] = []
trim_right (suc skip) (c ∷ s) = trim_right skip s
trim_right zero (c ∷ s) =
    let d = decode_rune c s in
    let rest = trim_right (d.width - 1) s in
    let bytes = c ∷ take (d.width - 1) s in
    if is_space d.rune then keep_space bytes rest else bytes ++ rest

-- `strings.TrimSpace`
unfoldable pub trim_space : Bytes → Bytes
unfolding trim_left trim_right decode_rune is_space
trim_space s = trim_right 0 (trim_left 0 s)
