-- ===== src/Json/Tests.antt =====
-- Runs of the reading of JSON.
use claude_code_socket_trans.Json.Tokens.{is_number_byte, number_front}
use claude_code_socket_trans.Base.{has_prefix}
use claude_code_socket_trans.Wire.Decoding.{short_escape}
use claude_code_socket_trans.Json.Strings.{hex_four, escaped_unit}
use claude_code_socket_trans.Addr.{unhex}
use claude_code_socket_trans.Json.{
  append_item, array, append_field, item, field, null, object, boolean, no_fields, no_items, text,
}
use claude_code_socket_trans.Utf8.{decode_rune, encode_rune}
use claude_code_socket_trans.Decimal.{span_digits, is_digit}
use claude_code_socket_trans.Json.Strings.{string_body, string_piece}
use claude_code_socket_trans.Json.Structs.{
  names_field, unmarshal_map, fold_name, any_number, as_map, has_field,
}
use claude_code_socket_trans.Json.Reader.{read_json, run, step}
use claude_code_socket_trans.Json.Tokens.{tokens, is_number, token_at, is_unsigned, string}
use claude_code_socket_trans.Base.{
  Bytes, ◌∷◌, ◌++◌, [], bytes_dec, codes, ◌≡◌, some, none, true, false, refl,
}

abbrev quoted : Bytes → Bytes
quoted s = b'"' ∷ (s ++ (b'"' ∷ []))

escapes : tokens 0 (quoted (codes "a\\n\\u0041\\/")) ≡ some (string (codes "a\nA/") ∷ [])
unfolding tokens token_at string_body string_piece short_escape hex_four unhex encode_rune
escapes = refl

-- A surrogate pair is one rune, and a lone half is replaced.
surrogate_pair :
    tokens 0 (quoted (codes "\\ud83d\\ude00")) ≡ some (string (0xf0 ∷ 0x9f ∷ 0x98 ∷ 0x80 ∷ []) ∷ [])
unfolding tokens token_at string_body string_piece hex_four unhex escaped_unit encode_rune
surrogate_pair = refl

lone_surrogate :
    tokens 0 (quoted (codes "\\ud83dx")) ≡ some (string (0xef ∷ 0xbf ∷ 0xbd ∷ b'x' ∷ []) ∷ [])
unfolding tokens token_at string_body string_piece hex_four unhex escaped_unit encode_rune
lone_surrogate = refl

-- A byte that is not UTF-8 is replaced, and a control character is refused.
bad_byte : tokens 0 (quoted (0xff ∷ [])) ≡ some (string (0xef ∷ 0xbf ∷ 0xbd ∷ []) ∷ [])
unfolding tokens token_at string_body string_piece decode_rune encode_rune
bad_byte = refl

bare_line_break : tokens 0 (quoted (b'\n' ∷ [])) ≡ none
unfolding tokens token_at string_body string_piece
bare_line_break = refl

numbers :
    (is_number (codes "-0.5e+10") ≡ true)
    × (is_number (codes "01") ≡ false)
    × (is_number (codes "1.") ≡ false)
    × (is_number (codes "-") ≡ false)
unfolding is_number is_unsigned span_digits is_digit bytes_dec
numbers = (refl, refl, refl, refl)

trailing_comma : read_json any_number (codes "[1,]") ≡ none
unfolding read_json run step tokens token_at is_number_byte is_number number_front
trailing_comma = refl

two_values : read_json any_number (codes "{} {}") ≡ none
unfolding read_json run step tokens token_at
two_values = refl

nested :
    read_json any_number (codes " [ null, [true] ] ")
    ≡ some (array (item null (item (array (item (boolean true) no_items)) no_items)))
unfolding read_json run step tokens token_at append_item has_prefix
nested = refl

-- The long s folds to an s, and the names of a struct's fields are found in any case.
folded : names_field (b'p' ∷ b'e' ∷ b'e' ∷ b'r' ∷ codes "TOKEN") (codes "peerToken") ≡ true
unfolding names_field fold_name decode_rune bytes_dec
folded = refl

long_s : names_field (0xc5 ∷ 0xbf ∷ codes "tatus") (codes "status") ≡ true
unfolding names_field fold_name decode_rune bytes_dec encode_rune
long_s = refl

last_member_stays :
    unmarshal_map (λ s. none) (codes "{\"a\":\"1\",\"b\":{},\"a\":\"2\"}")
    ≡ some (field (codes "b") (object no_fields) (field (codes "a") (text (codes "2")) no_fields))
unfolding unmarshal_map read_json run step tokens token_at string_body string_piece as_map has_field
    append_field bytes_dec
last_member_stays = refl
