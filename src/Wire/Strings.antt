-- ===== src/Wire/Strings.antt =====
-- The strings that `json.Marshal` writes decode to the texts they were made of.
use mathlib.Core.Path.{ap₂}
use claude_code_socket_trans.Utf8.Encoding.{
  IsScalar, rune_width, encode_rune-bytes, other_bytes, first_byte, IsUtf8, decode_rune-encoded,
  next_rune, empty,
}
use claude_code_socket_trans.Utf8.Ascii.{encode_rune_wide}
use claude_code_socket_trans.Wire.{json_ascii, json_wide, json_from, json_string}
use claude_code_socket_trans.Utf8.{encode_rune, rune_error, Decoded, decode_rune}
use claude_code_socket_trans.Message.Envelope.{hex_lower, hex_digits}
use claude_code_socket_trans.Addr.{unhex}
use claude_code_socket_trans.Wire.Decoding.{
  string_rest, in_front, piece, unicode_piece, short_escape, rune_piece, decoded_string,
}
use claude_code_socket_trans.Base.{
  Option, ℕ, Bytes, ◌≡◌, All, [], ◌∷◌, ◌≤◌, ◌≢◌, ◌<◌, some, arith, ◌++◌, ◌∙◌, ◌⊎◌, none, ap, codes,
  refl, ◌==◌, ◌/◌, false, ◌%◌, ◌*◌, ◌+◌, inl, Bool-cases, inr, ◌&&◌, ◌||◌, ltb, sym, if◌then◌else◌,
  bytes_dec, ◌-◌, append_assoc, Bool, true,
}

in_front-nil : (x : Option Bytes) → x ≡ in_front [] x
in_front-nil none = refl
in_front-nil (some s) = refl

in_front-append :
    (c : ℕ) (w : Bytes) (x : Option Bytes) → in_front (c ∷ []) (in_front w x) ≡ in_front (c ∷ w) x
in_front-append c w none = refl
in_front-append c w (some s) = refl

string_rest-plain :
    (c : ℕ) (t : Bytes)
    → 0x20 ≤ c
    → c ≢ b'"'
    → c ≢ b'\\'
    → string_rest 0 (c ∷ t) ≡ in_front (c ∷ []) (string_rest 0 t)
unfolding string_rest piece
string_rest-plain c t h n m = ground arith

string_rest-wide :
    (w t : Bytes) → All (λ c. 0x80 ≤ c) w → string_rest 0 (w ++ t) ≡ in_front w (string_rest 0 t)
string_rest-wide [] t _ = in_front-nil (string_rest 0 t)
string_rest-wide (c ∷ w) t (h, hs) =
    string_rest-plain c (w ++ t) (omega arith) (omega arith) (omega arith)
    ∙ ap (in_front (c ∷ [])) (string_rest-wide w t hs)
    ∙ in_front-append c w (string_rest 0 t)

string_rest-short :
    (e c : ℕ) (t : Bytes)
    → e ≢ b'u'
    → short_escape e ≡ some c
    → string_rest 0 (b'\\' ∷ e ∷ t) ≡ in_front (c ∷ []) (string_rest 0 t)
unfolding string_rest piece
string_rest-short e c t n h = let f : (e == b'u') ≡ false = ground arith in rw f (rw h refl)

pub unhex-hex_lower : (x : ℕ) → x < 16 → unhex (hex_lower x) ≡ some x
unfolding unhex hex_lower
unhex-hex_lower x h = ground arith

pub four_digits :
    (r : ℕ)
    → r < 0x10000
    → r / 4096 % 16 * 4096 + r / 256 % 16 * 256 + r / 16 % 16 * 16 + r / 1 % 16 ≡ r
four_digits r h = omega arith

rune_piece-scalar :
    (r : ℕ) → (r < 0xd800) ⊎ (0xe000 ≤ r) → rune_piece (some r) ≡ some (encode_rune r, 5)
rune_piece-scalar r n = ground arith

unicode_piece-hex_digits :
    (r : ℕ) (t : Bytes)
    → r < 0x10000
    → (r < 0xd800) ⊎ (0xe000 ≤ r)
    → unicode_piece (hex_digits 4 r ++ t) ≡ some (encode_rune r, 5)
unfolding unicode_piece hex_digits
unicode_piece-hex_digits r t h n = rw (unhex-hex_lower (r / 4096 % 16) (omega arith)) (
    rw (unhex-hex_lower (r / 256 % 16) (omega arith)) (
      rw (unhex-hex_lower (r / 16 % 16) (omega arith)) (
        rw (unhex-hex_lower (r / 1 % 16) (omega arith))
          (ap (λ v. rune_piece (some v)) (four_digits r h) ∙ rune_piece-scalar r n))))

string_rest-unicode :
    (r : ℕ) (t : Bytes)
    → r < 0x10000
    → (r < 0xd800) ⊎ (0xe000 ≤ r)
    → string_rest 0 (codes "\\u" ++ (hex_digits 4 r ++ t))
      ≡ in_front (encode_rune r) (string_rest 0 t)
unfolding string_rest piece hex_digits
string_rest-unicode r t h n = rw (unicode_piece-hex_digits r t h n) refl

-- The escapes of an ASCII byte, and a byte that needs none.
pub json_ascii-cases :
    (c : ℕ)
    → c < 0x80
    → ((e : ℕ) × (json_ascii c ≡ b'\\' ∷ e ∷ []) × (e ≢ b'u') × (short_escape e ≡ some c))
      ⊎ ((json_ascii c ≡ codes "\\u" ++ hex_digits 4 c)
          ⊎ ((json_ascii c ≡ c ∷ []) × (0x20 ≤ c) × (c ≢ b'"') × (c ≢ b'\\')))
unfolding json_ascii short_escape
json_ascii-cases c h = elim (Bool-cases (c == b'"' || c == b'\\')) [
  | inl t ↦ inl (c, ground arith, ground arith, ground arith)
  | inr quoting ↦ rw quoting (elim (Bool-cases (c == 8)) [
    | inl t ↦ inl (b'b', ground arith, ground arith, ground arith)
    | inr f ↦ rw f (elim (Bool-cases (c == 12)) [
      | inl t ↦ inl (b'f', ground arith, ground arith, ground arith)
      | inr f ↦ rw f (elim (Bool-cases (c == 10)) [
        | inl t ↦ inl (b'n', ground arith, ground arith, ground arith)
        | inr f ↦ rw f (elim (Bool-cases (c == 13)) [
          | inl t ↦ inl (b'r', ground arith, ground arith, ground arith)
          | inr f ↦ rw f (elim (Bool-cases (c == 9)) [
            | inl t ↦ inl (b't', ground arith, ground arith, ground arith)
            | inr f ↦ rw f (elim (Bool-cases (ltb c 0x20 || c == b'<' || c == b'>' || c == b'&')) [
              | inl t ↦ inr (inl (rw t refl))
              | inr f ↦ inr (inr (rw f refl, ground arith, ground arith, ground arith))
            ])
          ])
        ])
      ])
    ])
  ])
]

pub encode_rune-ascii : (c : ℕ) → c < 0x80 → encode_rune c ≡ c ∷ []
unfolding encode_rune
encode_rune-ascii c h = ground arith

json_ascii-decoded :
    (c : ℕ) (t : Bytes)
    → c < 0x80
    → string_rest 0 (json_ascii c ++ t) ≡ in_front (encode_rune c) (string_rest 0 t)
json_ascii-decoded c t h = elim (json_ascii-cases c h) [
  | inl (e, q, n, k) ↦ rw q (rw (encode_rune-ascii c h) (string_rest-short e c t n k))
  | inr (inl q) ↦ rw q (string_rest-unicode c t (omega arith) (inl (omega arith)))
  | inr (inr (q, a, b, d)) ↦ rw q (rw (encode_rune-ascii c h) (string_rest-plain c t a b d))
]

pub spelled_error : codes "\\ufffd" ≡ codes "\\u" ++ hex_digits 4 rune_error
unfolding hex_digits hex_lower
spelled_error = refl

-- The ways to write a rune that is not ASCII.
pub json_wide-cases :
    (r width : ℕ)
    → let w = json_wide (record { rune = r; width = width }) in
      ((w ≡ codes "\\ufffd") × (r ≡ rune_error))
      ⊎ (((w ≡ codes "\\u" ++ hex_digits 4 r) × (r < 0xd800)) ⊎ (w ≡ encode_rune r))
unfolding json_wide
json_wide-cases r width = elim (Bool-cases (r == rune_error && width == 1)) [
  | inl b ↦ inl (rw b refl, ground arith)
  | inr f ↦ elim (Bool-cases (r == 0x2028 || r == 0x2029)) [
    | inl b ↦ inr (inl (rw f (rw b refl), ground arith))
    | inr g ↦ inr (inr (rw f (rw g refl)))
  ]
]

json_wide-decoded :
    (r width : ℕ) (t : Bytes)
    → 0x80 ≤ r
    → string_rest 0 (json_wide (record { rune = r; width = width }) ++ t)
      ≡ in_front (encode_rune r) (string_rest 0 t)
unfolding json_wide
json_wide-decoded r width t h = elim (Bool-cases (r == rune_error && width == 1)) [
  | inl b ↦
      let e : r ≡ rune_error = ground arith in
      rw b (
        ap (λ w. string_rest 0 (w ++ t)) spelled_error
        ∙ string_rest-unicode rune_error t (omega arith) (inr (omega arith))
        ∙ ap (λ x. in_front (encode_rune x) (string_rest 0 t)) (sym e))
  | inr f ↦ rw f (elim (Bool-cases (r == 0x2028 || r == 0x2029)) [
    | inl b ↦ rw b (string_rest-unicode r t (ground arith) (inl (ground arith)))
    | inr f' ↦ rw f' (string_rest-wide (encode_rune r) t (encode_rune_wide r h))
  ])
]

json_from-step :
    (b : ℕ) (s : Bytes) (d : Decoded)
    → decode_rune b s ≡ d
    → json_from 0 (b ∷ s)
      ≡ (if ltb b 0x80 then json_ascii b else json_wide d) ++ json_from (d.width - 1) s
unfolding json_from
json_from-step b s d e = rw e refl

-- What `json.Marshal` writes for a rune.
abbrev pub json_rune : ℕ → Bytes
json_rune r =
    if ltb r 0x80 then json_ascii r else json_wide (record { rune = r; width = rune_width r })

json_from-other_bytes :
    (r : ℕ) (s : Bytes) → json_from (rune_width r - 1) (other_bytes r ++ s) ≡ json_from 0 s
unfolding json_from
json_from-other_bytes r s = elim (Bool-cases (ltb r 0x80)) [
  | inl t ↦ rw t refl
  | inr f ↦ rw f (elim (Bool-cases (ltb r 0x800)) [
    | inl t ↦ rw t refl
    | inr f' ↦
        rw f' (elim (Bool-cases (ltb r 0x10000)) [ inl t ↦ rw t refl | inr f'' ↦ rw f'' refl ])
  ])
]

pub chosen_first : {b : Bool} (x y : Bytes) → b ≡ true → (if b then x else y) ≡ x
chosen_first x y e = rw e refl

pub chosen_second : {b : Bool} (x y : Bytes) → b ≡ false → (if b then x else y) ≡ y
chosen_second x y e = rw e refl

pub first_byte_wide : (r : ℕ) → ltb r 0x80 ≡ false → ltb (first_byte r) 0x80 ≡ false
first_byte_wide r f = ground arith

first_byte-json_rune :
    (r : ℕ) (w : Bytes)
    → w ≡ json_wide (record { rune = r; width = rune_width r })
    → (if ltb (first_byte r) 0x80 then json_ascii (first_byte r) else w) ≡ json_rune r
first_byte-json_rune r w e = elim (Bool-cases (ltb r 0x80)) [
  | inl t ↦ rw t (chosen_first _ _ t)
  | inr f ↦ chosen_second _ _ (first_byte_wide r f) ∙ e ∙ sym (chosen_second _ _ f)
]

pub json_from-encoded :
    (r : ℕ) (s : Bytes)
    → IsScalar r
    → json_from 0 (encode_rune r ++ s) ≡ json_rune r ++ json_from 0 s
json_from-encoded r s h =
    ap (λ w. json_from 0 (w ++ s)) (encode_rune-bytes r)
    ∙ json_from-step (first_byte r) (other_bytes r ++ s) _ (decode_rune-encoded r s h)
    ∙ ap₂ ◌++◌ (first_byte-json_rune r _ refl) (json_from-other_bytes r s)

json_rune-decoded :
    (r : ℕ) (t : Bytes)
    → string_rest 0 (json_rune r ++ t) ≡ in_front (encode_rune r) (string_rest 0 t)
json_rune-decoded r t = elim (Bool-cases (ltb r 0x80)) [
  | inl b ↦ rw b (json_ascii-decoded r t (ground arith))
  | inr f ↦
      ap (λ w. string_rest 0 (w ++ t)) (chosen_second _ _ f)
      ∙ json_wide-decoded r (rune_width r) t (ground arith)
]

string_rest-json_from :
    {s : Bytes} → IsUtf8 s → string_rest 0 (json_from 0 s ++ (b'"' ∷ [])) ≡ some s
unfolding string_rest json_from bytes_dec
string_rest-json_from empty = refl
string_rest-json_from (next_rune r {s} h u) =
    ap (λ w. string_rest 0 (w ++ (b'"' ∷ []))) (json_from-encoded r s h)
    ∙ ap (string_rest 0) (append_assoc (json_rune r) (json_from 0 s) (b'"' ∷ []))
    ∙ json_rune-decoded r (json_from 0 s ++ (b'"' ∷ []))
    ∙ ap (in_front (encode_rune r)) (string_rest-json_from u)

-- The string that `json.Marshal` writes for a UTF-8 text decodes to that text.
pub decoded_string-json_string : (s : Bytes) → IsUtf8 s → decoded_string (json_string s) ≡ some s
unfolding decoded_string json_string
decoded_string-json_string s u = string_rest-json_from u
