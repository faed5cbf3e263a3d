-- ===== src/Message/Envelope.antt =====
-- message.go: the attribution envelope, `wrapEnvelope`, `sanitizeName` and `escapeBody`, with the
-- verb `%q`, which is `strconv.Quote`.
use claude_code_socket_trans.Base.{
  ℕ, Bool, Bytes, ◌==◌, has_prefix, if◌then◌else◌, bytes_dec, codes, ◌||◌, ◌∷◌, suc, ltb, leb, [],
  ◌is◌, get_elem?, length, ◌+◌, ◌/◌, ◌++◌, ◌&&◌, take, ◌-◌, ◌^◌, ◌%◌, zero, none, true, some, false,
}
use claude_code_socket_trans.Utf8.{
  decode_rune, encode_rune, trim_space, drop_controls, Decoded, rune_error, rune_start, is_control,
}

abbrev pub envelope_tag : Bytes
envelope_tag = codes "cross-session-message"

-- The class of `fromNameRe`.
unfoldable pub breaks_quoting : ℕ → Bool
breaks_quoting c = c == b'"' || c == b'<' || c == b'>' || c == b'\n' || c == b'\r'

-- `fromNameRe.ReplaceAllString(name, "")`: the class is ASCII, so bytes may be read for runes.
unfoldable pub drop_breaking : Bytes → Bytes
unfolding breaks_quoting
drop_breaking [] = []
drop_breaking (c ∷ s) = let rest = drop_breaking s in if breaks_quoting c then rest else c ∷ rest

abbrev pub max_from_name : ℕ
max_from_name = 200

-- `for cut > 0 && !utf8.RuneStart(name[cut]) { cut-- }`
unfoldable pub cut_before : Bytes → ℕ → ℕ
cut_before name zero = zero
cut_before name (suc cut) =
    let less = cut_before name cut in
    elim (get_elem? name (suc cut)) [
      | none ↦ suc cut
      | some b ↦ if rune_start b then suc cut else less
    ]

unfoldable pub limit_name : Bytes → Bytes
unfolding cut_before
limit_name name =
    if ltb max_from_name (length name)
    then trim_space (take (cut_before name max_from_name) name)
    else name

unfoldable pub sanitize_name : Bytes → Bytes
unfolding drop_breaking drop_controls encode_rune is_control limit_name trim_space
sanitize_name name = limit_name (trim_space (drop_controls 0 (drop_breaking name)))

-- `strings.ReplaceAll(s, old, new)` for a non-empty `old`. The first argument counts the bytes of an
-- occurrence still to pass.
unfoldable pub replace_all : Bytes → Bytes → ℕ → Bytes → Bytes
unfolding has_prefix
replace_all old new skip [] = []
replace_all old new (suc skip) (c ∷ s) = replace_all old new skip s
replace_all old new zero (c ∷ s) = elim (has_prefix (c ∷ s) old) [
  | true ↦ new ++ replace_all old new (length old - 1) s
  | false ↦ c ∷ replace_all old new zero s
]

abbrev pub closing : Bytes
closing = codes "</cross-session-message"

abbrev pub neutral : Bytes
neutral = codes "<\\/cross-session-message"

unfoldable pub escape_body : Bytes → Bytes
unfolding replace_all
escape_body body = replace_all closing neutral 0 body

-- A digit of the verb `%x`.
unfoldable pub hex_lower : ℕ → ℕ
hex_lower n = if leb n 9 then b'0' + n else b'a' + (n - 10)

-- The low `k` hexadecimal digits of a number.
unfoldable pub hex_digits : ℕ → ℕ → Bytes
unfolding hex_lower
hex_digits zero n = []
hex_digits (suc k) n = hex_lower (n / 16 ^ k % 16) ∷ hex_digits k n

-- The escapes of `strconv` for a rune that is not printable.
abbrev pub escaped_rune : ℕ → Bytes
escaped_rune r =
    if r == 7
    then codes "\\a"
    else if r == 8
    then codes "\\b"
    else if r == 12
    then codes "\\f"
    else if r == 10
    then codes "\\n"
    else if r == 13
    then codes "\\r"
    else if r == 9
    then codes "\\t"
    else if r == 11
    then codes "\\v"
    else if ltb r 0x20 || r == 0x7f
    then codes "\\x" ++ hex_digits 2 r
    else if ltb r 0x10000
    then codes "\\u" ++ hex_digits 4 r
    else codes "\\U" ++ hex_digits 8 r

module _ (is_print_wide : ℕ → Bool) where
  -- `strconv.IsPrint`
  unfoldable pub is_print : ℕ → Bool
  is_print r = if ltb r 0x7f then leb 0x20 r else is_print_wide r

  -- What `strconv.Quote` writes for one rune, and for a byte that begins none.
  unfoldable pub quote_rune : ℕ → Decoded → Bytes
  unfolding is_print hex_digits encode_rune
  quote_rune c d =
      if d.rune == rune_error && d.width == 1
      then codes "\\x" ++ hex_digits 2 c
      else if d.rune == b'"' || d.rune == b'\\'
      then b'\\' ∷ d.rune ∷ []
      else if is_print d.rune
      then encode_rune d.rune
      else escaped_rune d.rune

  unfoldable pub quote_from : ℕ → Bytes → Bytes
  quote_from skip [] = []
  quote_from (suc skip) (c ∷ s) = quote_from skip s
  quote_from zero (c ∷ s) = let d = decode_rune c s in quote_rune c d ++ quote_from (d.width - 1) s

  -- The verb `%q`.
  unfoldable pub quote : Bytes → Bytes
  unfolding quote_from quote_rune decode_rune
  quote s = b'"' ∷ (quote_from 0 s ++ b'"' ∷ [])

  -- The attributes, in the order that the receiver compares: from, then from-name.
  unfoldable pub attributes : Bytes → Bytes → Bytes
  unfolding quote bytes_dec
  attributes from clean =
      (if from is [] then [] else codes " from=" ++ quote from)
      ++ (if clean is [] then [] else codes " from-name=" ++ quote clean)

  unfoldable pub wrap_envelope : Bytes → Bytes → Bytes → Bytes
  wrap_envelope from name body =
      codes "<"
      ++ (envelope_tag
          ++ (attributes from (sanitize_name name)
              ++ (codes ">\n"
                  ++ (escape_body body ++ (codes "\n</" ++ (envelope_tag ++ codes ">"))))))
