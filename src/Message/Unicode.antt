-- ===== src/Message/Unicode.antt =====
-- When the content of a frame is UTF-8.
pub mod Frames
use claude_code_socket_trans.Wire.Objects.{IsUtf8Frame}
use claude_code_socket_trans.Addr.Grammar.{valid_address_iff}
use claude_code_socket_trans.Message.Uuid.{new_uuid, format_uuid}
use claude_code_socket_trans.Message.Accepted.{IsPriority, frame-Carries, frame-IsSendable}
use claude_code_socket_trans.Os.{Os}
use claude_code_socket_trans.Message.Frame.{
  Message, content_of, UserFrame, frame, priority_next, priority_now, priority_later,
}
use claude_code_socket_trans.Addr.{valid_address, scheme}
use claude_code_socket_trans.Message.Verbatim.{IsVisible, IsEncoded-IsVisible}
use claude_code_socket_trans.Message.Version.{is_hex, Follows, uuid_template, format_uuid-Follows}
use claude_code_socket_trans.Utf8.Ascii.{encode_rune_wide}
use claude_code_socket_trans.Wire.Strings.{encode_rune-ascii}
use claude_code_socket_trans.Message.Escape.{replaced, replace_all_copy, replace_all_match}
use mathlib.Core.Path.{subst}
use claude_code_socket_trans.Utf8.Scalar.{IsUtf8-append, decode_rune-IsScalar, rune-IsUtf8}
use claude_code_socket_trans.Utf8.{Decoded, decode_rune, rune_error, encode_rune}
use claude_code_socket_trans.Utf8.Encoding.{
  IsUtf8, empty, IsScalar, ascii-IsUtf8, next_rune, encode_rune-bytes, first_byte_ge,
}
use claude_code_socket_trans.Message.Envelope.{
  hex_digits, hex_lower, escaped_rune, quote_rune, quote_from, quote, attributes, is_print,
  replace_all, closing, neutral, escape_body, wrap_envelope, envelope_tag, sanitize_name,
}
use claude_code_socket_trans.Base.{
  Bytes, ℕ, All, Bool, ◌<◌, suc, arith, if◌then◌else◌, ◌≡◌, ◌is◌, ◌∷◌, zero, [], codes, Bool-cases,
  ◌++◌, ◌==◌, ◌-◌, is-cases, ltb, inl, ◌&&◌, inr, ◌||◌, has_prefix, take, true, ◌≤◌, length, false,
  ap, refl, sym, ◌⊎◌, ◌∙◌, some, ok, AllBytes, ok_injective,
}

abbrev pub Ascii : Bytes → Type 0
Ascii = All (λ c. c < 0x80)

hex_digits-Ascii : (k n : ℕ) → Ascii (hex_digits k n)
unfolding hex_digits hex_lower
hex_digits-Ascii zero n = tt
hex_digits-Ascii (suc k) n = (ground arith, hex_digits-Ascii k n)

escaped_rune-Ascii : (r : ℕ) → Ascii (escaped_rune r)
escaped_rune-Ascii r =
    ground (arith, hex_digits-Ascii 2 r, hex_digits-Ascii 4 r, hex_digits-Ascii 8 r)

module _ (is_print_wide : ℕ → Bool) where
  quote_rune-IsUtf8 :
      (c : ℕ) (d : Decoded) → IsScalar d.rune → IsUtf8 (quote_rune is_print_wide c d)
  unfolding quote_rune
  quote_rune-IsUtf8 c d h = elim (Bool-cases (d.rune == rune_error && d.width == 1)) [
    | inl t ↦ rw t (
        ascii-IsUtf8 (codes "\\x" ++ hex_digits 2 c)
          (omega arith, (omega arith, hex_digits-Ascii 2 c)))
    | inr f ↦ rw f (elim (Bool-cases (d.rune == b'"' || d.rune == b'\\')) [
      | inl t ↦ rw t (ascii-IsUtf8 (b'\\' ∷ d.rune ∷ []) (omega arith, (ground arith, tt)))
      | inr f ↦ rw f (elim (Bool-cases (is_print is_print_wide d.rune)) [
        | inl t ↦ rw t (rune-IsUtf8 d.rune h)
        | inr f ↦ rw f (ascii-IsUtf8 (escaped_rune d.rune) (escaped_rune-Ascii d.rune))
      ])
    ])
  ]

  quote_from-IsUtf8 : (skip : ℕ) (s : Bytes) → IsUtf8 (quote_from is_print_wide skip s)
  unfolding quote_from
  quote_from-IsUtf8 zero [] = empty
  quote_from-IsUtf8 (suc skip) [] = empty
  quote_from-IsUtf8 (suc skip) (c ∷ s) = quote_from-IsUtf8 skip s
  quote_from-IsUtf8 zero (c ∷ s) =
      IsUtf8-append (quote_rune-IsUtf8 c (decode_rune c s) (decode_rune-IsScalar c s))
        (quote_from-IsUtf8 ((decode_rune c s).width - 1) s)

  quote-IsUtf8 : (s : Bytes) → IsUtf8 (quote is_print_wide s)
  unfolding quote
  quote-IsUtf8 s =
      IsUtf8-append (ascii-IsUtf8 (b'"' ∷ []) (omega arith))
        (IsUtf8-append (quote_from-IsUtf8 0 s) (ascii-IsUtf8 (b'"' ∷ []) (omega arith)))

  attribute-IsUtf8 :
      (key s : Bytes) → Ascii key → IsUtf8 (if s is [] then [] else key ++ quote is_print_wide s)
  attribute-IsUtf8 key s h = elim (is-cases s []) [
    | inl (t, _) ↦ rw t empty
    | inr (f, _) ↦ rw f (IsUtf8-append (ascii-IsUtf8 key h) (quote-IsUtf8 s))
  ]

  attributes-IsUtf8 : (from clean : Bytes) → IsUtf8 (attributes is_print_wide from clean)
  unfolding attributes
  attributes-IsUtf8 from clean =
      IsUtf8-append (attribute-IsUtf8 (codes " from=") from (omega arith))
        (attribute-IsUtf8 (codes " from-name=") clean (omega arith))

prefix-Ascii : (p s : Bytes) → Ascii p → has_prefix s p ≡ true → Ascii (take (length p) s)
unfolding has_prefix
prefix-Ascii [] s h e = tt
prefix-Ascii (b ∷ p) [] h e = tt
prefix-Ascii (b ∷ p) (c ∷ s) (h, hs) e = (ground arith, prefix-Ascii p s hs (ground arith))

no_prefix : (c : ℕ) (s : Bytes) → 0x80 ≤ c → has_prefix (c ∷ s) closing ≡ false
unfolding has_prefix
no_prefix c s h = ground arith

replaced-wide : (w s : Bytes) → All (λ c. 0x80 ≤ c) w → replaced 0 (w ++ s) ≡ w ++ replaced 0 s
replaced-wide [] s _ = refl
replaced-wide (c ∷ w) s (h, hs) =
    replace_all_copy closing neutral c (w ++ s) (no_prefix c (w ++ s) h)
    ∙ ap (◌∷◌ c) (replaced-wide w s hs)

closing-Ascii : Ascii closing
closing-Ascii = omega arith

neutral-IsUtf8 : IsUtf8 neutral
neutral-IsUtf8 = ascii-IsUtf8 neutral (omega arith)

replaced-skip : (skip c : ℕ) (s : Bytes) → replaced skip s ≡ replaced (suc skip) (c ∷ s)
unfolding replace_all
replaced-skip skip c s = refl

replaced-next :
    (c : ℕ) (s : Bytes)
    → c < 0x80
    → ((skip : ℕ) → Ascii (take skip s) → IsUtf8 (replaced skip s))
    → (skip : ℕ) → Ascii (take skip (c ∷ s))
    → IsUtf8 (replaced skip (c ∷ s))
replaced-next c s l more (suc skip) (_, h) = subst IsUtf8 (replaced-skip skip c s) (more skip h)
replaced-next c s l more zero h = elim (Bool-cases (has_prefix (c ∷ s) closing)) [
  | inl t ↦ subst IsUtf8 (sym (replace_all_match closing neutral c s t)) (
      IsUtf8-append neutral-IsUtf8
        (more (length closing - 1) (prefix-Ascii closing (c ∷ s) closing-Ascii t).1))
  | inr f ↦
      subst IsUtf8 (sym (replace_all_copy closing neutral c s f))
        (IsUtf8-append (ascii-IsUtf8 (c ∷ []) (l, tt)) (more 0 tt))
]

wide_front :
    (r : ℕ) (s : Bytes) → 0x80 ≤ r → (skip : ℕ) → Ascii (take skip (encode_rune r ++ s)) → skip ≡ 0
wide_front r s h zero a = refl
wide_front r s h (suc skip) a =
    let b = subst (λ w. Ascii (take (suc skip) (w ++ s))) (encode_rune-bytes r) a in
    absurd (omega (arith, first_byte_ge r h, b.0))

replaced-IsUtf8 :
    {s : Bytes} → IsUtf8 s → (skip : ℕ) → Ascii (take skip s) → IsUtf8 (replaced skip s)
unfolding replace_all
replaced-IsUtf8 empty zero h = empty
replaced-IsUtf8 empty (suc skip) h = empty
replaced-IsUtf8 (next_rune r {s = s} k u) skip h =
    rune_first (Bool-cases (ltb r 0x80)) (λ n. replaced-IsUtf8 u n)
  where
    rune_first :
        (ltb r 0x80 ≡ true) ⊎ (ltb r 0x80 ≡ false)
        → ((n : ℕ) → Ascii (take n s) → IsUtf8 (replaced n s))
        → IsUtf8 (replaced skip (encode_rune r ++ s))
    rune_first (inl t) more =
        let e = encode_rune-ascii r (ground arith) in
        subst (λ w. IsUtf8 (replaced skip (w ++ s))) (sym e)
          (replaced-next r s (ground arith) more skip (subst (λ w. Ascii (take skip (w ++ s))) e h))
    rune_first (inr f) more =
        let wide : 0x80 ≤ r = ground arith in
        subst (λ n. IsUtf8 (replaced n (encode_rune r ++ s))) (sym (wide_front r s wide skip h))
          (subst IsUtf8 (sym (replaced-wide (encode_rune r) s (encode_rune_wide r wide)))
            (next_rune r k (more 0 tt)))

escape_body-IsUtf8 : (body : Bytes) → IsUtf8 body → IsUtf8 (escape_body body)
unfolding escape_body
escape_body-IsUtf8 body u = replaced-IsUtf8 u 0 tt

pub wrap_envelope-IsUtf8 :
    (is_print_wide : ℕ → Bool) (from name body : Bytes)
    → IsUtf8 body
    → IsUtf8 (wrap_envelope is_print_wide from name body)
unfolding wrap_envelope
wrap_envelope-IsUtf8 is_print_wide from name body u =
    IsUtf8-append (ascii-IsUtf8 (codes "<" ++ envelope_tag) (omega arith)) (
      IsUtf8-append (attributes-IsUtf8 is_print_wide from (sanitize_name name)) (
        IsUtf8-append (ascii-IsUtf8 (codes ">\n") (omega arith)) (
          IsUtf8-append (escape_body-IsUtf8 body u)
            (ascii-IsUtf8 (codes "\n</" ++ (envelope_tag ++ codes ">")) (omega arith)))))
