-- ===== src/Json/Strings.antt =====
-- encoding/json: the strings of a text, as its scanner accepts and `unquote` reads them.
use claude_code_socket_trans.Addr.{unhex}
use claude_code_socket_trans.Wire.Decoding.{number_of, short_piece, short_escape}
use claude_code_socket_trans.Utf8.{Decoded, encode_rune, rune_error, decode_rune}
use claude_code_socket_trans.Base.{
  Bytes, ℕ, Option, Bool, ◌-◌, some, none, if◌then◌else◌, ◌∷◌, ◌==◌, leb, ltb, ◌*◌, drop, ◌++◌, suc,
  ◌&&◌, ◌+◌, [], zero,
}

-- The number of the four hexadecimal digits at the front of a text.
unfoldable pub hex_four : Bytes → Option ℕ
hex_four (h ∷ i ∷ j ∷ k ∷ t) = number_of (unhex h) (unhex i) (unhex j) (unhex k)
hex_four _ = none

-- The number of a `\u` escape at the front of a text, if there is one.
unfoldable pub escaped_unit : Bytes → Option ℕ
escaped_unit (c ∷ d ∷ t) = if c == b'\\' && d == b'u' then hex_four t else none
escaped_unit _ = none

abbrev pub is_surrogate : ℕ → Bool
is_surrogate r = leb 0xd800 r && ltb r 0xe000

-- `utf16.DecodeRune`, where the two are a pair.
abbrev pub is_pair : ℕ → ℕ → Bool
is_pair r s = ltb r 0xdc00 && leb 0xdc00 s && ltb s 0xe000

abbrev pub paired : ℕ → ℕ → ℕ
paired r s = (r - 0xd800) * 0x400 + (s - 0xdc00) + 0x10000

-- What stands at a place of a string: the bytes that it gives, and how many bytes behind the first it
-- takes. A surrogate that is half of no pair gives U+FFFD.
abbrev pub surrogate_piece : ℕ → Option ℕ → Bytes × ℕ
surrogate_piece r none = (encode_rune rune_error, 5)
surrogate_piece r (some s) =
    if is_pair r s then (encode_rune (paired r s), 11) else (encode_rune rune_error, 5)

abbrev pub unit_piece : Option ℕ → Bytes → Option (Bytes × ℕ)
unit_piece none t = none
unit_piece (some r) t =
    if is_surrogate r
    then some (surrogate_piece r (escaped_unit (drop 4 t)))
    else some (encode_rune r, 5)

abbrev pub escape_piece : Bytes → Option (Bytes × ℕ)
escape_piece [] = none
escape_piece (e ∷ t) = if e == b'u' then unit_piece (hex_four t) t else short_piece (short_escape e)

abbrev pub rune_piece : Decoded → Bytes × ℕ
rune_piece d = (encode_rune d.rune, d.width - 1)

-- A byte that begins no rune gives U+FFFD.
unfoldable pub string_piece : ℕ → Bytes → Option (Bytes × ℕ)
string_piece c t =
    if c == b'\\'
    then escape_piece t
    else if ltb c 0x20
    then none
    else if ltb c 0x80
    then some (c ∷ [], 0)
    else some (rune_piece (decode_rune c t))

abbrev pub behind : Bytes → Option (Bytes × ℕ) → Option (Bytes × ℕ)
behind w none = none
behind w (some (s, n)) = some (w ++ s, suc n)

-- A string behind its opening quote: what it denotes, and the number of its bytes, with the closing
-- quote. The first argument counts the bytes still to pass.
unfoldable pub string_body : ℕ → Bytes → Option (Bytes × ℕ)
string_body skip [] = none
string_body (suc skip) (c ∷ t) = behind [] (string_body skip t)
string_body zero (c ∷ t) =
    if c == b'"'
    then some ([], 1)
    else elim (string_piece c t) [ none ↦ none | some (w, skip) ↦ behind w (string_body skip t) ]
