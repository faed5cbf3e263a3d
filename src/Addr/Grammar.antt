-- ===== src/Addr/Grammar.antt =====
-- The form of a "uds:" address, and what `validAddress` accepts.
use mathlib.Core.Path.{subst}
use claude_code_socket_trans.Base.{
  Bytes, Bool-cases, Option-cases, ◌≡◌, ◌∙◌, [], ℕ, true, some, ◌∷◌, arith, Option, drop, false,
  none, refl, suc, ◌==◌, inl, ◌++◌, inr, ◌↔◌, ==_iff, sym, has_prefix, zero, has_prefix-drop,
}
use claude_code_socket_trans.Addr.{
  addr_safe, valid_from, hex_pair, unhex, percent, valid_address, byte_of, scheme,
}

-- Safe bytes, and a `%` with two hexadecimal digits.
pub data IsEncoded : Bytes → Type 0 where
  done : IsEncoded []
  safe : {c : ℕ} {s : Bytes} → addr_safe c ≡ true → IsEncoded s → IsEncoded (c ∷ s)
  escape :
      {h l a b : ℕ} {s : Bytes}
      → unhex h ≡ some a
      → unhex l ≡ some b
      → IsEncoded s
      → IsEncoded (percent ∷ h ∷ l ∷ s)

valid_from-escape :
    (h l a b : ℕ) (s : Bytes)
    → unhex h ≡ some a
    → unhex l ≡ some b
    → valid_from 0 (percent ∷ h ∷ l ∷ s) ≡ valid_from 0 s
unfolding valid_from hex_pair
valid_from-escape h l a b s p q = ground arith

valid_from-safe : (c : ℕ) (s : Bytes) → addr_safe c ≡ true → valid_from 0 (c ∷ s) ≡ valid_from 0 s
unfolding valid_from
valid_from-safe c s h = ground arith

pub valid_from_complete : {s : Bytes} → IsEncoded s → valid_from 0 s ≡ true
valid_from_complete done = unfold valid_from in refl
valid_from_complete (safe {c} {s} h e) = valid_from-safe c s h ∙ valid_from_complete e
valid_from_complete (escape {h} {l} {a} {b} {s} p q e) =
    valid_from-escape h l a b s p q ∙ valid_from_complete e

Escaped : Bytes → Type 0
Escaped (h ∷ l ∷ s) = (a b : ℕ) × (unhex h ≡ some a) × (unhex l ≡ some b)
Escaped _ = ⊥

byte_of-eq-some :
    (x y : Option ℕ) (v : ℕ) → byte_of x y ≡ some v → (a b : ℕ) × (x ≡ some a) × (y ≡ some b)
byte_of-eq-some (some a) (some b) v e = (a, b, refl, refl)
byte_of-eq-some (some a) none v e = cc
byte_of-eq-some none y v e = cc

escape_after :
    (s : Bytes) (v : ℕ) → hex_pair s ≡ some v → IsEncoded (drop 2 s) → IsEncoded (percent ∷ s)
unfolding hex_pair
escape_after [] v e r = cc
escape_after (h ∷ []) v e r = cc
escape_after (h ∷ l ∷ s) v e r =
    let (a, b, p, q) = byte_of-eq-some (unhex h) (unhex l) v e in escape p q r

refused_byte :
    (c : ℕ) (s : Bytes)
    → addr_safe c ≡ false
    → (c == percent) ≡ false
    → valid_from 0 (c ∷ s) ≡ false
unfolding valid_from
refused_byte c s p q = ground arith

refused_escape : (s : Bytes) → hex_pair s ≡ none → valid_from 0 (percent ∷ s) ≡ false
unfolding valid_from
refused_escape s e = ground arith

accepted_escape :
    (s : Bytes) (v : ℕ) → hex_pair s ≡ some v → valid_from 0 (percent ∷ s) ≡ valid_from 2 s
unfolding valid_from
accepted_escape s v e = ground arith

pub valid_from_sound : (skip : ℕ) (s : Bytes) → valid_from skip s ≡ true → IsEncoded (drop skip s)
valid_from_sound zero [] h = done
valid_from_sound (suc skip) [] h = done
valid_from_sound (suc skip) (c ∷ s) h = valid_from_sound skip s (unfold valid_from in h)
valid_from_sound zero (c ∷ s) h = elim (Bool-cases (addr_safe c)) [
  | inl e ↦ safe e (valid_from_sound zero s (cc (valid_from-safe c s e)))
  | inr e ↦ elim (Bool-cases (c == percent)) [
    | inr f ↦ cc (refused_byte c s e f)
    | inl f ↦ elim (Option-cases (hex_pair s)) [
      | inl g ↦ cc ((==_iff c percent).0 f, refused_escape s g)
      | inr (v, g) ↦
          subst (λ d. IsEncoded (d ∷ s)) (sym ((==_iff c percent).0 f))
            (escape_after s v g
              (valid_from_sound 2 s (cc ((==_iff c percent).0 f, accepted_escape s v g))))
    ]
  ]
]

accepted_parts :
    (addr : Bytes)
    → valid_address addr ≡ true
    → (has_prefix addr scheme ≡ true) × (valid_from 0 (drop 4 addr) ≡ true)
unfolding valid_address
accepted_parts addr h = ground arith

-- validAddress accepts exactly the texts that are "uds:" followed by safe bytes and percent escapes
-- of two hex digits.
pub valid_address_iff :
    (addr : Bytes)
    → (valid_address addr ≡ true) ↔ ((s : Bytes) × (addr ≡ scheme ++ s) × IsEncoded s)
valid_address_iff addr = (
  λ h.
      let (p, v) = accepted_parts addr h in
      (drop 4 addr, has_prefix-drop scheme addr p, valid_from_sound 0 (drop 4 addr) v),
  λ (s, e, r). unfold valid_address has_prefix in rw e (valid_from_complete r),
)
