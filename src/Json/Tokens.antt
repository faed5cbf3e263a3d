-- ===== src/Json/Tokens.antt =====
-- encoding/json: the tokens of a text.
use claude_code_socket_trans.Json.{null, Json, boolean}
use claude_code_socket_trans.Json.Strings.{string_body}
use claude_code_socket_trans.Decimal.{is_digit, span_digits}
use claude_code_socket_trans.Base.{
  ℕ, Bytes, Option, Bool, ◌∷◌, some, if◌then◌else◌, List, ◌==◌, ◌||◌, [], false, true, ◌&&◌, length,
  suc, not, none, ◌is◌, codes, has_prefix, zero,
}

pub data Token : Type 0 where
  begin_object end_object begin_array end_array colon comma : Token
  literal : Json → Token
  numeral : Bytes → Token
  string : Bytes → Token

abbrev pub is_white : ℕ → Bool
is_white c = c == b' ' || c == b'\t' || c == b'\r' || c == b'\n'

unfoldable pub is_number_byte : ℕ → Bool
unfolding is_digit
is_number_byte c = is_digit c || c == b'-' || c == b'+' || c == b'.' || c == b'e' || c == b'E'

-- The longest front of a text that holds number bytes only.
unfoldable pub number_front : Bytes → Bytes
unfolding is_number_byte
number_front [] = []
number_front (c ∷ t) = let rest = number_front t in if is_number_byte c then c ∷ rest else []

abbrev pub is_exponent : Bytes → Bool
is_exponent [] = false
is_exponent (c ∷ t) =
    let (ds, rest) = span_digits (if c == b'-' || c == b'+' then t else c ∷ t) in
    not (ds is []) && rest is []

-- What may stand behind the digits of a number: an exponent or nothing.
abbrev pub is_scaled : Bytes → Bool
is_scaled [] = true
is_scaled (c ∷ t) = (c == b'e' || c == b'E') && is_exponent t

abbrev pub is_fraction : Bytes → Bool
is_fraction [] = true
is_fraction (c ∷ t) =
    if c == b'.'
    then (let (ds, rest) = span_digits t in not (ds is []) && is_scaled rest)
    else is_scaled (c ∷ t)

-- The digits before the point: a single zero, or digits that do not begin with one.
abbrev pub is_whole : Bytes → Bool
is_whole [] = false
is_whole (c ∷ ds) = not (c == b'0') || ds is []

unfoldable pub is_unsigned : Bytes → Bool
unfolding span_digits
is_unsigned s = let (ds, rest) = span_digits s in is_whole ds && is_fraction rest

unfoldable pub is_number : Bytes → Bool
unfolding is_unsigned
is_number [] = false
is_number (c ∷ t) = if c == b'-' then is_unsigned t else is_unsigned (c ∷ t)

-- A token, and how many bytes behind the first it takes.
abbrev pub string_token : Option (Bytes × ℕ) → Option (Token × ℕ)
string_token none = none
string_token (some (s, n)) = some (string s, n)

abbrev pub number_token : Bytes → Bytes → Option (Token × ℕ)
number_token s behind_first = if is_number s then some (numeral s, length behind_first) else none

abbrev pub word_token : Bytes → Bytes → Json → Option (Token × ℕ)
word_token word t v = if has_prefix t word then some (literal v, length word) else none

unfoldable pub token_at : ℕ → Bytes → Option (Token × ℕ)
token_at c t =
    if c == b'{'
    then some (begin_object, 0)
    else if c == b'}'
    then some (end_object, 0)
    else if c == b'['
    then some (begin_array, 0)
    else if c == b']'
    then some (end_array, 0)
    else if c == b':'
    then some (colon, 0)
    else if c == b','
    then some (comma, 0)
    else if c == b'"'
    then string_token (string_body 0 t)
    else if c == b'n'
    then word_token (codes "ull") t null
    else if c == b't'
    then word_token (codes "rue") t (boolean true)
    else if c == b'f'
    then word_token (codes "alse") t (boolean false)
    else if is_number_byte c
    then number_token (c ∷ number_front t) (number_front t)
    else none

abbrev pub in_front : Token → Option (List Token) → Option (List Token)
in_front tok none = none
in_front tok (some toks) = some (tok ∷ toks)

abbrev pub continued : Option (Option (Token × ℕ)) → (ℕ → Option (List Token)) → Option (List Token)
continued none next = next 0
continued (some none) next = none
continued (some (some (tok, skip))) next = in_front tok (next skip)

abbrev pub visible_token : ℕ → Bytes → Option (Option (Token × ℕ))
visible_token c t = if is_white c then none else some (token_at c t)

-- The first argument counts the bytes still to pass.
unfoldable pub tokens : ℕ → Bytes → Option (List Token)
tokens skip [] = some []
tokens (suc skip) (c ∷ t) = tokens skip t
tokens zero (c ∷ t) = continued (visible_token c t) (λ skip. tokens skip t)
