-- ===== src/Message/Escape.antt =====
-- A body cannot close its own envelope.
use claude_code_socket_trans.Base.{
  ℕ, refl, has_prefix, Bytes, ◌∷◌, ◌≢◌, Lacks, if◌then◌else◌, ◌++◌, suc, ◌≡◌, [], true, false,
  arith, codes, Bool-cases, inl, inr, zero, ◌∙◌, length, ◌⊎◌, ◌-◌,
}
use claude_code_socket_trans.Message.Envelope.{replace_all, closing, neutral, escape_body}

-- The number of positions at which `p` stands in a text.
unfoldable pub occurrences : Bytes → Bytes → ℕ
unfolding has_prefix
occurrences p [] = 0
occurrences p (c ∷ s) =
    let rest = occurrences p s in if has_prefix (c ∷ s) p then suc rest else rest

-- Behind a replaced text stands a byte `e`. What is found at its front, and holds neither `e` nor the
-- first byte of `old` and `new`, stands at the front of the original.
module _ (old new : Bytes) (b e : ℕ) where
  replaced_front_cons :
      (d : ℕ) (p : Bytes) (c : ℕ) (s t : Bytes)
      → d ≢ b
      → has_prefix (replace_all (b ∷ old) (b ∷ new) 0 (c ∷ s) ++ (e ∷ t)) (d ∷ p) ≡ true
      → (c ≡ d) × (has_prefix (replace_all (b ∷ old) (b ∷ new) 0 s ++ (e ∷ t)) p ≡ true)
  unfolding replace_all
  replaced_front_cons d p c s t h f = ground arith

  replaced_front :
      (p s t : Bytes)
      → Lacks b p
      → Lacks e p
      → has_prefix (replace_all (b ∷ old) (b ∷ new) 0 s ++ (e ∷ t)) p ≡ true
      → has_prefix s p ≡ true
  unfolding has_prefix
  replaced_front [] s t _ _ h = refl
  replaced_front (d ∷ p) [] t _ (he, _) h = unfold replace_all in ground arith
  replaced_front (d ∷ p) (c ∷ s) t (hd, hp) (_, hq) h =
      let (same, rest) = replaced_front_cons d p c s t hd h in
      ground (arith, replaced_front p s t hp hq rest)

  kept_front :
      (c : ℕ) (s t : Bytes)
      → Lacks b old
      → Lacks e old
      → has_prefix (c ∷ s) (b ∷ old) ≡ false
      → has_prefix (c ∷ (replace_all (b ∷ old) (b ∷ new) 0 s ++ (e ∷ t))) (b ∷ old) ≡ false
  unfolding has_prefix
  kept_front c s t hb he h = ground (arith, replaced_front old s t hb he)

pub occurrences_miss :
    (p : Bytes) (c : ℕ) (s : Bytes)
    → has_prefix (c ∷ s) p ≡ false
    → occurrences p (c ∷ s) ≡ occurrences p s
unfolding occurrences
occurrences_miss p c s h = rw h

other_first : (b : ℕ) (p : Bytes) (c : ℕ) (s : Bytes) → c ≢ b → has_prefix (c ∷ s) (b ∷ p) ≡ false
unfolding has_prefix
other_first b p c s h = ground arith

-- No occurrence begins in a text without its first byte.
pub occurrences-Lacks :
    (b : ℕ) (p s t : Bytes) → Lacks b s → occurrences (b ∷ p) (s ++ t) ≡ occurrences (b ∷ p) t
occurrences-Lacks b p [] t _ = refl
occurrences-Lacks b p (c ∷ s) t (h, hs) =
    occurrences_miss (b ∷ p) c (s ++ t) (other_first b p c (s ++ t) h)
    ∙ occurrences-Lacks b p s t hs

abbrev pub closing_rest : Bytes
closing_rest = codes "/cross-session-message"

abbrev neutral_rest : Bytes
neutral_rest = codes "\\/cross-session-message"

occurrences-neutral : (t : Bytes) → occurrences closing (neutral ++ t) ≡ occurrences closing t
occurrences-neutral t =
    occurrences_miss closing b'<' (neutral_rest ++ t) (unfold has_prefix in refl)
    ∙ occurrences-Lacks b'<' closing_rest neutral_rest t (omega arith)

abbrev pub replaced : ℕ → Bytes → Bytes
replaced skip s = replace_all closing neutral skip s

pub replace_all_match :
    (old new : Bytes) (c : ℕ) (s : Bytes)
    → has_prefix (c ∷ s) old ≡ true
    → replace_all old new 0 (c ∷ s) ≡ new ++ replace_all old new (length old - 1) s
unfolding replace_all
replace_all_match old new c s h = ground arith

pub replace_all_copy :
    (old new : Bytes) (c : ℕ) (s : Bytes)
    → has_prefix (c ∷ s) old ≡ false
    → replace_all old new 0 (c ∷ s) ≡ c ∷ replace_all old new 0 s
unfolding replace_all
replace_all_copy old new c s h = ground arith

occurrences-replaced :
    (skip : ℕ) (s t : Bytes)
    → occurrences closing (replaced skip s ++ (b'\n' ∷ t)) ≡ occurrences closing (b'\n' ∷ t)
occurrences-replaced zero [] t = unfold replace_all in refl
occurrences-replaced (suc skip) [] t = unfold replace_all in refl
occurrences-replaced (suc skip) (c ∷ s) t = passed (occurrences-replaced skip s t)
  where
    passed :
        occurrences closing (replaced skip s ++ (b'\n' ∷ t)) ≡ occurrences closing (b'\n' ∷ t)
        → occurrences closing (replaced (suc skip) (c ∷ s) ++ (b'\n' ∷ t))
          ≡ occurrences closing (b'\n' ∷ t)
    passed ih = unfold replace_all in ih
occurrences-replaced zero (c ∷ s) t =
    split (Bool-cases (has_prefix (c ∷ s) closing)) (occurrences-replaced 22 s t)
      (occurrences-replaced zero s t)
  where
    split :
        (has_prefix (c ∷ s) closing ≡ true) ⊎ (has_prefix (c ∷ s) closing ≡ false)
        → occurrences closing (replaced 22 s ++ (b'\n' ∷ t)) ≡ occurrences closing (b'\n' ∷ t)
        → occurrences closing (replaced 0 s ++ (b'\n' ∷ t)) ≡ occurrences closing (b'\n' ∷ t)
        → occurrences closing (replaced 0 (c ∷ s) ++ (b'\n' ∷ t)) ≡ occurrences closing (b'\n' ∷ t)
    split (inl e) after _ =
        rw (replace_all_match closing neutral c s e)
          (occurrences-neutral (replaced 22 s ++ (b'\n' ∷ t)) ∙ after)
    split (inr e) _ next = rw (replace_all_copy closing neutral c s e) (
        occurrences_miss closing c _
          (kept_front closing_rest neutral_rest b'<' b'\n' c s t (omega arith) (omega arith) e)
        ∙ next)

-- Behind a line break, an escaped body adds no occurrence of the closing tag to the text that
-- follows.
pub occurrences-escape_body :
    (body t : Bytes)
    → occurrences closing (escape_body body ++ (b'\n' ∷ t)) ≡ occurrences closing (b'\n' ∷ t)
unfolding escape_body
occurrences-escape_body body t = occurrences-replaced 0 body t
