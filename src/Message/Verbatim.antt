-- ===== src/Message/Verbatim.antt =====
-- What `%q` prints of a reply address.
use claude_code_socket_trans.Utf8.{encode_rune}
use claude_code_socket_trans.Utf8.Ascii.{decode_rune_ascii}
use claude_code_socket_trans.Base.{
  ℕ, Bool, Bytes, ◌∷◌, All, Lacks, ◌≤◌, ◌≡◌, if◌then◌else◌, length, ◌<◌, true, some, ◌==◌,
  Bool-cases, [], ◌≢◌, inl, ◌++◌, refl, inr, sym, All-append, ap, ◌∙◌, false, codes,
}
use claude_code_socket_trans.Message.Envelope.{quote, quote_from, quote_rune, is_print}
use claude_code_socket_trans.Addr.{valid_address, addr_safe, unhex, scheme}
use claude_code_socket_trans.Addr.Grammar.{IsEncoded, valid_address_iff, done, safe, escape}
use mathlib.Core.Path.{ap₂, subst}
use native.Mathlib.Omega.{arith}

-- A printable ASCII character that is no quotation mark.
abbrev pub IsVisible : ℕ → Type 0
IsVisible c = (0x20 ≤ c) × (c < 0x7f) × (c ≢ b'"')

addr_safe-IsVisible : (c : ℕ) → addr_safe c ≡ true → IsVisible c
unfolding addr_safe
addr_safe-IsVisible c h = ground arith

unhex-IsVisible : (c : ℕ) {v : ℕ} → unhex c ≡ some v → IsVisible c
unfolding unhex
unhex-IsVisible c h = ground arith

pub IsEncoded-IsVisible : {s : Bytes} → IsEncoded s → All IsVisible s
IsEncoded-IsVisible done = tt
IsEncoded-IsVisible (safe {c} h e) = (addr_safe-IsVisible c h, IsEncoded-IsVisible e)
IsEncoded-IsVisible (escape {h} {l} p q e) =
    (omega arith, (unhex-IsVisible h p, (unhex-IsVisible l q, IsEncoded-IsVisible e)))

-- Backslashes doubled.
unfoldable pub doubled : Bytes → Bytes
doubled [] = []
doubled (c ∷ s) = let rest = doubled s in if c == b'\\' then c ∷ c ∷ rest else c ∷ rest

length-le-doubled : (s : Bytes) → length s ≤ length (doubled s)
unfolding doubled
length-le-doubled [] = omega arith
length-le-doubled (c ∷ s) = ground (arith, length-le-doubled s)

pub doubled-Lacks : (s : Bytes) → Lacks b'\\' s → doubled s ≡ s
unfolding doubled
doubled-Lacks [] _ = refl
doubled-Lacks (c ∷ s) (h, hs) = ground (arith, doubled-Lacks s hs)

pub Lacks-doubled : (s : Bytes) → length (doubled s) ≡ length s → Lacks b'\\' s
unfolding doubled
Lacks-doubled [] h = tt
Lacks-doubled (c ∷ s) h = elim (Bool-cases (c == b'\\')) [
  | inl t ↦ absurd (let k = rw t at h in omega (arith, length-le-doubled s, k))
  | inr f ↦ (ground arith, Lacks-doubled s (let k = rw f at h in omega (arith, k)))
]

pub valid_address-IsVisible : (addr : Bytes) → valid_address addr ≡ true → All IsVisible addr
valid_address-IsVisible addr v =
    let (s, e, d) = (valid_address_iff addr).0 v in
    subst (All IsVisible) (sym e)
      (All-append IsVisible scheme s (omega arith) (IsEncoded-IsVisible d))

pub visible-Lacks : (s : Bytes) → All IsVisible s → Lacks b'"' s
visible-Lacks [] _ = tt
visible-Lacks (c ∷ s) ((_, _, n), hs) = (n, visible-Lacks s hs)

pub doubled-IsVisible : (s : Bytes) → All IsVisible s → All IsVisible (doubled s)
unfolding doubled
doubled-IsVisible [] _ = tt
doubled-IsVisible (c ∷ s) (h, hs) = elim (Bool-cases (c == b'\\')) [
  | inl t ↦ rw t (h, (h, doubled-IsVisible s hs))
  | inr f ↦ rw f (h, doubled-IsVisible s hs)
]

module _ (is_print_wide : ℕ → Bool) where
  quote_rune-visible :
      (c : ℕ)
      → IsVisible c
      → quote_rune is_print_wide c (record { rune = c; width = 1 })
        ≡ (if c == b'\\' then c ∷ c ∷ [] else c ∷ [])
  unfolding quote_rune is_print encode_rune
  quote_rune-visible c h = ground arith

  quote_from-step :
      (c : ℕ) (s : Bytes)
      → c < 0x80
      → quote_from is_print_wide 0 (c ∷ s)
        ≡ quote_rune is_print_wide c (record { rune = c; width = 1 })
          ++ quote_from is_print_wide 0 s
  unfolding quote_from
  quote_from-step c s h = rw (decode_rune_ascii c s h) refl

  quote_from-doubled : (s : Bytes) → All IsVisible s → quote_from is_print_wide 0 s ≡ doubled s
  unfolding quote_from doubled
  quote_from-doubled [] _ = refl
  quote_from-doubled (c ∷ s) (h, hs) =
      quote_from-step c s (omega arith)
      ∙ ap₂ ◌++◌ (quote_rune-visible c h) (quote_from-doubled s hs)
      ∙ joined (c == b'\\')
    where
      joined :
          (b : Bool)
          → (if b then c ∷ c ∷ [] else c ∷ []) ++ doubled s
            ≡ (if b then c ∷ c ∷ doubled s else c ∷ doubled s)
      joined true = refl
      joined false = refl

  -- What %q prints of an address that validAddress accepts.
  pub quote-doubled :
      (addr : Bytes)
      → valid_address addr ≡ true
      → quote is_print_wide addr ≡ b'"' ∷ (doubled addr ++ (b'"' ∷ []))
  unfolding quote
  quote-doubled addr v =
      ap (λ t. b'"' ∷ (t ++ (b'"' ∷ []))) (quote_from-doubled addr (valid_address-IsVisible addr v))

pub cons_injective : {c d : ℕ} {x y : Bytes} → c ∷ x ≡ d ∷ y → (c ≡ d) × (x ≡ y)
cons_injective e = (cc, cc)

-- The first quotation mark of a text decides what stands before it.
pub before_quote :
    (x y u v : Bytes) → Lacks b'"' x → Lacks b'"' y → x ++ (b'"' ∷ u) ≡ y ++ (b'"' ∷ v) → x ≡ y
before_quote [] [] u v _ _ e = refl
before_quote [] (d ∷ y) u v _ (h, _) e = absurd (h (sym (cons_injective e).0))
before_quote (c ∷ x) [] u v (h, _) _ e = absurd (h (cons_injective e).0)
before_quote (c ∷ x) (d ∷ y) u v (_, hx) (_, hy) e =
    let (p, q) = cons_injective e in ap₂ ◌∷◌ p (before_quote x y u v hx hy q)

-- The content of a message from `addr` shows this address as it is.
abbrev pub Shows : Bytes → Bytes → Type 0
Shows addr content =
    (rest : Bytes) × (content ≡ codes "<cross-session-message from=\"" ++ (addr ++ (b'"' ∷ rest)))
