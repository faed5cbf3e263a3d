-- ===== src/Message/Closing.antt =====
-- An envelope ends once: its attributes and its body hold no closing tag.
use claude_code_socket_trans.Utf8.{encode_rune, decode_rune, Decoded}
use claude_code_socket_trans.Base.{
  ℕ, Bool, Lacks, suc, Bytes, arith, ◌≢◌, ◌∷◌, All-append, zero, if◌then◌else◌, ◌-◌, [], ◌++◌, ◌≡◌,
  ◌is◌, codes, has_prefix, true, ◌∙◌, false, refl,
}
use claude_code_socket_trans.Message.Envelope.{
  quote, quote_from, quote_rune, hex_digits, attributes, escaped_rune, closing, wrap_envelope,
  sanitize_name, envelope_tag,
}
use claude_code_socket_trans.Message.Escape.{
  occurrences, occurrences_miss, occurrences-Lacks, closing_rest, occurrences-escape_body,
}
use claude_code_socket_trans.Message.Clean.{
  All-mono, IsClean, IsClean-ne_less, sanitize_name-IsClean,
}
use claude_code_socket_trans.Utf8.Ascii.{decode_rune_wide, decode_rune_ascii}
use native.Mathlib.Decide.{dec_lt}

hex_digits-Lacks : (k n : ℕ) → Lacks b'<' (hex_digits k n)
unfolding hex_digits
hex_digits-Lacks zero n = tt
hex_digits-Lacks (suc k) n = (ground arith, hex_digits-Lacks k n)

escaped_rune-Lacks : (r : ℕ) → Lacks b'<' (escaped_rune r)
escaped_rune-Lacks r =
    ground (arith, hex_digits-Lacks 2 r, hex_digits-Lacks 4 r, hex_digits-Lacks 8 r)

encode_rune-Lacks : (r : ℕ) → r ≢ b'<' → Lacks b'<' (encode_rune r)
unfolding encode_rune
encode_rune-Lacks r h = ground arith

rune-ne : (c : ℕ) (s : Bytes) → c ≢ b'<' → (decode_rune c s).rune ≢ b'<'
rune-ne c s h = elim (dec_lt c 0x80) [
  | yes small ↦ rw (decode_rune_ascii c s small) h
  | no wide ↦ omega (arith, decode_rune_wide c s (omega arith))
]

clean-Lacks : (name : Bytes) → Lacks b'<' (sanitize_name name)
clean-Lacks name =
    All-mono IsClean _ IsClean-ne_less (sanitize_name name) (sanitize_name-IsClean name)

opening :
    (s : Bytes)
    → occurrences closing (b'<' ∷ (envelope_tag ++ s)) ≡ occurrences closing (envelope_tag ++ s)
unfolding has_prefix
opening s = occurrences_miss closing b'<' (envelope_tag ++ s) refl

ending : occurrences closing (b'\n' ∷ (codes "</" ++ (envelope_tag ++ codes ">"))) ≡ 1
unfolding occurrences
ending = refl

module _ (is_print_wide : ℕ → Bool) where
  quote_rune-Lacks :
      (c : ℕ) (d : Decoded) → d.rune ≢ b'<' → Lacks b'<' (quote_rune is_print_wide c d)
  unfolding quote_rune
  quote_rune-Lacks c d h =
      ground (arith, escaped_rune-Lacks d.rune, encode_rune-Lacks d.rune h, hex_digits-Lacks 2 c)

  quote_from-Lacks :
      (skip : ℕ) (s : Bytes) → Lacks b'<' s → Lacks b'<' (quote_from is_print_wide skip s)
  unfolding quote_from
  quote_from-Lacks zero [] _ = tt
  quote_from-Lacks (suc skip) [] _ = tt
  quote_from-Lacks (suc skip) (c ∷ s) (_, hs) = quote_from-Lacks skip s hs
  quote_from-Lacks zero (c ∷ s) (h, hs) =
      All-append _ _ _ (quote_rune-Lacks c (decode_rune c s) (rune-ne c s h))
        (quote_from-Lacks ((decode_rune c s).width - 1) s hs)

  quote-Lacks : (s : Bytes) → Lacks b'<' s → Lacks b'<' (quote is_print_wide s)
  unfolding quote
  quote-Lacks s h = (omega arith, All-append _ _ _ (quote_from-Lacks 0 s h) (omega arith))

  attributes-Lacks :
      (from clean : Bytes)
      → Lacks b'<' from
      → Lacks b'<' clean
      → Lacks b'<' (attributes is_print_wide from clean)
  unfolding attributes
  attributes-Lacks from clean hf hc =
      All-append _ _ _ (one (from is []) (codes " from=") _ (omega arith) (quote-Lacks from hf))
        (one (clean is []) (codes " from-name=") _ (omega arith) (quote-Lacks clean hc))
    where
      one :
          (b : Bool) (label s : Bytes)
          → Lacks b'<' label
          → Lacks b'<' s
          → Lacks b'<' (if b then [] else label ++ s)
      one true label s _ _ = tt
      one false label s hl hs = All-append (λ c. c ≢ b'<') label s hl hs

  -- The closing tag stands exactly once in an envelope, whatever the name and the body hold, if the
  -- reply address has no "<".
  pub wrap_envelope-closing :
      (from name body : Bytes)
      → Lacks b'<' from
      → occurrences closing (wrap_envelope is_print_wide from name body) ≡ 1
  unfolding wrap_envelope
  wrap_envelope-closing from name body h =
      opening _
      ∙ occurrences-Lacks b'<' closing_rest envelope_tag _ (omega arith)
      ∙ occurrences-Lacks b'<' closing_rest (attributes is_print_wide from (sanitize_name name)) _
          (attributes-Lacks from (sanitize_name name) h (clean-Lacks name))
      ∙ occurrences-Lacks b'<' closing_rest (codes ">\n") _ (omega arith)
      ∙ occurrences-escape_body body (codes "</" ++ (envelope_tag ++ codes ">"))
      ∙ ending
