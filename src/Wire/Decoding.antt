-- ===== src/Wire/Decoding.antt =====
-- The strings of JSON, read as RFC 8259 says: a reference for what `json.Marshal` writes.
use claude_code_socket_trans.Utf8.{encode_rune}
use claude_code_socket_trans.Addr.{unhex}
use claude_code_socket_trans.Base.{
  ℕ, Option, Bytes, if◌then◌else◌, some, none, ◌∷◌, ◌==◌, ◌*◌, leb, [], ◌++◌, suc, ◌||◌, ◌+◌, ◌&&◌,
  ltb, ◌is◌, zero,
}

-- The byte that a short escape names.
unfoldable pub short_escape : ℕ → Option ℕ
short_escape e =
    if e == b'"' || e == b'\\' || e == b'/'
    then some e
    else if e == b'b'
    then some 8
    else if e == b'f'
    then some 12
    else if e == b'n'
    then some 10
    else if e == b'r'
    then some 13
    else if e == b't'
    then some 9
    else none

abbrev pub number_of : Option ℕ → Option ℕ → Option ℕ → Option ℕ → Option ℕ
number_of (some a) (some b) (some c) (some d) = some (a * 4096 + b * 256 + c * 16 + d)
number_of _ _ _ _ = none

-- What stands at a place of a string: the bytes that it means, and how many bytes behind the first it
-- takes.
abbrev pub rune_piece : Option ℕ → Option (Bytes × ℕ)
rune_piece none = none
rune_piece (some r) = if leb 0xd800 r && ltb r 0xe000 then none else some (encode_rune r, 5)

unfoldable pub unicode_piece : Bytes → Option (Bytes × ℕ)
unicode_piece (h ∷ i ∷ j ∷ k ∷ t) = rune_piece (number_of (unhex h) (unhex i) (unhex j) (unhex k))
unicode_piece _ = none

abbrev pub short_piece : Option ℕ → Option (Bytes × ℕ)
short_piece none = none
short_piece (some c) = some (c ∷ [], 1)

abbrev pub escape_piece : Bytes → Option (Bytes × ℕ)
escape_piece [] = none
escape_piece (e ∷ t) = if e == b'u' then unicode_piece t else short_piece (short_escape e)

unfoldable pub piece : ℕ → Bytes → Option (Bytes × ℕ)
piece c t = if c == b'\\' then escape_piece t else if ltb c 0x20 then none else some (c ∷ [], 0)

abbrev pub in_front : Bytes → Option Bytes → Option Bytes
in_front w none = none
in_front w (some s) = some (w ++ s)

-- The rest of a string behind its opening quote, which the closing one must end. The first argument
-- counts the bytes still to pass.
unfoldable pub string_rest : ℕ → Bytes → Option Bytes
string_rest skip [] = none
string_rest (suc skip) (c ∷ t) = string_rest skip t
string_rest zero (c ∷ t) =
    if c == b'"'
    then (if t is [] then some [] else none)
    else elim (piece c t) [ none ↦ none | some (w, skip) ↦ in_front w (string_rest skip t) ]

unfoldable pub decoded_string : Bytes → Option Bytes
decoded_string [] = none
decoded_string (c ∷ t) = if c == b'"' then string_rest 0 t else none
