-- ===== src/Wire/RoundTrip/Strings.antt =====
-- The strings that `json.Marshal` writes are read back by `json.Unmarshal`.
use mathlib.Core.Path.{ap₂, subst}
use claude_code_socket_trans.Utf8.{encode_rune, Decoded, decode_rune, rune_error}
use claude_code_socket_trans.Wire.{json_ascii, encode_rune, json_wide, json_from}
use claude_code_socket_trans.Wire.Strings.{
  unhex-hex_lower, json_ascii-cases, four_digits, encode_rune-ascii, json_rune, json_wide-cases,
  spelled_error, chosen_first, chosen_second, json_from-encoded,
}
use claude_code_socket_trans.Wire.Decoding.{short_escape}
use claude_code_socket_trans.Utf8.Encoding.{
  rune_width, IsScalar, first_byte, other_bytes, encode_rune-bytes, IsUtf8, decode_rune-encoded,
  next_rune, empty, first_byte_ge,
}
use claude_code_socket_trans.Message.Envelope.{hex_digits}
use claude_code_socket_trans.Json.Strings.{string_body, string_piece, hex_four, behind, rune_piece}
use claude_code_socket_trans.Base.{
  Bytes, Option, ℕ, some, ◌≡◌, length, ◌≢◌, ◌<◌, ◌≤◌, ◌++◌, ◌+◌, [], suc, ◌∷◌, ◌⊎◌, ◌-◌, ap, ◌/◌,
  arith, codes, ◌==◌, none, ◌∙◌, false, ◌%◌, leb, refl, append-nil, inl, ◌&&◌, ltb, inr, sym,
  append_assoc, Bool-cases, length-append,
}

-- A piece of a string that gives `w` and takes `n` bytes, in front of the rest.
abbrev pub gives : Bytes → ℕ → Option (Bytes × ℕ) → Option (Bytes × ℕ)
gives w n none = none
gives w n (some (s, m)) = some (w ++ s, n + m)

gives-zero : (x : Option (Bytes × ℕ)) → x ≡ gives [] 0 x
gives-zero none = refl
gives-zero (some (s, m)) = ap (λ n. some (s, n)) (omega arith)

behind-gives :
    (w v : Bytes) (n : ℕ) (x : Option (Bytes × ℕ))
    → behind w (gives v n x) ≡ gives (w ++ v) (suc n) x
behind-gives w v n none = refl
behind-gives w v n (some (s, m)) = ap₂ (λ u k. some (u, k)) (sym (append_assoc w v s)) (omega arith)

string_body-passed :
    (a u : Bytes) → string_body (length a) (a ++ u) ≡ gives [] (length a) (string_body 0 u)
unfolding string_body
string_body-passed [] u = gives-zero (string_body 0 u)
string_body-passed (c ∷ a) u =
    ap (behind []) (string_body-passed a u) ∙ behind-gives [] [] (length a) (string_body 0 u)

string_body-piece :
    (c : ℕ) (w a u : Bytes)
    → c ≢ b'"'
    → string_piece c (a ++ u) ≡ some (w, length a)
    → string_body 0 (c ∷ (a ++ u)) ≡ gives w (suc (length a)) (string_body 0 u)
unfolding string_body
string_body-piece c w a u n e =
    let f : (c == b'"') ≡ false = ground arith in
    rw f (
      rw e (
        ap (behind w) (string_body-passed a u)
        ∙ behind-gives w [] (length a) (string_body 0 u)
        ∙ ap (λ v. gives v (suc (length a)) (string_body 0 u)) (append-nil w)))

-- The pieces that `json.Marshal` writes.
string_piece-short :
    (e c : ℕ) (u : Bytes)
    → e ≢ b'u'
    → short_escape e ≡ some c
    → string_piece b'\\' (e ∷ u) ≡ some (c ∷ [], 1)
unfolding string_piece
string_piece-short e c u n h = let f : (e == b'u') ≡ false = ground arith in rw f (rw h refl)

hex_four-hex_digits : (r : ℕ) (u : Bytes) → r < 0x10000 → hex_four (hex_digits 4 r ++ u) ≡ some r
unfolding hex_four hex_digits
hex_four-hex_digits r u h = rw (unhex-hex_lower (r / 4096 % 16) (omega arith)) (
    rw (unhex-hex_lower (r / 256 % 16) (omega arith)) (
      rw (unhex-hex_lower (r / 16 % 16) (omega arith))
        (rw (unhex-hex_lower (r / 1 % 16) (omega arith)) (ap some (four_digits r h)))))

string_piece-unicode :
    (r : ℕ) (u : Bytes)
    → r < 0x10000
    → (r < 0xd800) ⊎ (0xe000 ≤ r)
    → string_piece b'\\' (b'u' ∷ (hex_digits 4 r ++ u)) ≡ some (encode_rune r, 5)
unfolding string_piece
string_piece-unicode r u h n =
    let f : (leb 0xd800 r && ltb r 0xe000) ≡ false = ground arith in
    rw (hex_four-hex_digits r u h) (rw f refl)

string_piece-plain :
    (c : ℕ) (u : Bytes) → 0x20 ≤ c → c < 0x80 → c ≢ b'\\' → string_piece c u ≡ some (c ∷ [], 0)
unfolding string_piece
string_piece-plain c u h l n = ground arith

-- The bytes of a piece, and what they give.
abbrev Gives : Bytes → Bytes → Type 0
Gives a w = (u : Bytes) → string_body 0 (a ++ u) ≡ gives w (length a) (string_body 0 u)

unicode-Gives :
    (r : ℕ)
    → r < 0x10000
    → (r < 0xd800) ⊎ (0xe000 ≤ r)
    → Gives (codes "\\u" ++ hex_digits 4 r) (encode_rune r)
unfolding hex_digits
unicode-Gives r h n u =
    string_body-piece b'\\' (encode_rune r) (b'u' ∷ hex_digits 4 r) u (λ e. cc)
      (string_piece-unicode r u h n)

Gives-along : {a b w v : Bytes} → a ≡ b → w ≡ v → Gives b v → Gives a w
Gives-along {b} {w} p q g = subst (λ a. Gives a w) (sym p) (subst (Gives b) (sym q) g)

short-Gives : (e c : ℕ) → e ≢ b'u' → short_escape e ≡ some c → Gives (b'\\' ∷ e ∷ []) (c ∷ [])
short-Gives e c n k u =
    string_body-piece b'\\' (c ∷ []) (e ∷ []) u (λ e. cc) (string_piece-short e c u n k)

plain-Gives : (c : ℕ) → 0x20 ≤ c → c < 0x80 → c ≢ b'"' → c ≢ b'\\' → Gives (c ∷ []) (c ∷ [])
plain-Gives c a h b d u = string_body-piece c (c ∷ []) [] u b (string_piece-plain c u a h d)

json_ascii-Gives : (c : ℕ) → c < 0x80 → Gives (json_ascii c) (encode_rune c)
json_ascii-Gives c h = elim (json_ascii-cases c h) [
  | inl (e, q, n, k) ↦ Gives-along q (encode_rune-ascii c h) (short-Gives e c n k)
  | inr (inl q) ↦ Gives-along q refl (unicode-Gives c (omega arith) (inl (omega arith)))
  | inr (inr (q, a, b, d)) ↦ Gives-along q (encode_rune-ascii c h) (plain-Gives c a h b d)
]

length-other_bytes : (r : ℕ) → rune_width r - 1 ≡ length (other_bytes r)
length-other_bytes r = ground arith

string_piece-wide :
    (c : ℕ) (u : Bytes) (d : Decoded)
    → 0x80 ≤ c
    → decode_rune c u ≡ d
    → string_piece c u ≡ some (rune_piece d)
unfolding string_piece
string_piece-wide c u d h e =
    let backslash : (c == b'\\') ≡ false = ground arith in
    let control : ltb c 0x20 ≡ false = ground arith in
    let ascii : ltb c 0x80 ≡ false = ground arith in
    rw backslash (rw control (rw ascii (rw e refl)))

encode_rune-Gives : (r : ℕ) → IsScalar r → 0x80 ≤ r → Gives (encode_rune r) (encode_rune r)
encode_rune-Gives r h w = Gives-along (encode_rune-bytes r) refl (λ u.
    let ge = first_byte_ge r w in
    string_body-piece (first_byte r) (encode_rune r) (other_bytes r) u (omega (arith, ge)) (
      string_piece-wide (first_byte r) (other_bytes r ++ u) _ ge (decode_rune-encoded r u h)
      ∙ ap (λ n. some (encode_rune r, n)) (length-other_bytes r)))

json_wide-Gives :
    (r width : ℕ)
    → IsScalar r
    → 0x80 ≤ r
    → Gives (json_wide (record { rune = r; width = width })) (encode_rune r)
json_wide-Gives r width h w = elim (json_wide-cases r width) [
  | inl (q, e) ↦
      Gives-along (q ∙ spelled_error) (ap encode_rune e)
        (unicode-Gives rune_error (omega arith) (inr (omega arith)))
  | inr (inl (q, l)) ↦ Gives-along q refl (unicode-Gives r (omega arith) (inl (omega arith)))
  | inr (inr q) ↦ Gives-along q refl (encode_rune-Gives r h w)
]

json_rune-Gives : (r : ℕ) → IsScalar r → Gives (json_rune r) (encode_rune r)
json_rune-Gives r h = elim (Bool-cases (ltb r 0x80)) [
  | inl b ↦ Gives-along (chosen_first _ _ b) refl (json_ascii-Gives r (ground arith))
  | inr f ↦
      Gives-along (chosen_second _ _ f) refl (json_wide-Gives r (rune_width r) h (ground arith))
]

string_body-end : (u : Bytes) → string_body 0 (b'"' ∷ u) ≡ some ([], 1)
unfolding string_body
string_body-end u = refl

pub string_body-json_from :
    {s : Bytes}
    → IsUtf8 s
    → (u : Bytes)
    → string_body 0 (json_from 0 s ++ (b'"' ∷ u)) ≡ some (s, suc (length (json_from 0 s)))
string_body-json_from empty u = unfold json_from in string_body-end u
string_body-json_from (next_rune r {s} h t) u =
    ap (λ w. string_body 0 (w ++ (b'"' ∷ u))) q
    ∙ ap (string_body 0) (append_assoc (json_rune r) (json_from 0 s) (b'"' ∷ u))
    ∙ json_rune-Gives r h (json_from 0 s ++ (b'"' ∷ u))
    ∙ ap (gives (encode_rune r) (length (json_rune r))) (string_body-json_from t u)
    ∙ ap (λ n. some (encode_rune r ++ s, n))
        (omega (arith, ap length q, length-append (json_rune r) (json_from 0 s)))
  where
    q : json_from 0 (encode_rune r ++ s) ≡ json_rune r ++ json_from 0 s
    q = json_from-encoded r s h
