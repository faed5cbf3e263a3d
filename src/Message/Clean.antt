-- ===== src/Message/Clean.antt =====
-- What the envelope's attributes hold: the effect of `sanitizeName` on the bytes of a name.
use native.Mathlib.Decide.{dec_lt}
use claude_code_socket_trans.Base.{
  ℕ, Bool, All, ◌≡◌, ◌≤◌, Bytes, false, arith, ◌≢◌, ◌∷◌, ◌-◌, [], List, true, ◌<◌, inl, inr,
  Bool-cases, ◌++◌, All-append, suc, take, if◌then◌else◌, zero, ltb, length,
}
use claude_code_socket_trans.Message.Envelope.{
  sanitize_name, breaks_quoting, drop_breaking, limit_name, cut_before, max_from_name,
}
use claude_code_socket_trans.Utf8.{
  drop_controls, decode_rune, is_control, encode_rune, trim_left, trim_right, trim_space, is_space,
  keep_space,
}
use claude_code_socket_trans.Utf8.Ascii.{decode_rune_ascii, encode_rune_wide, decode_rune_wide}

-- A byte that neither breaks the quoting nor is an ASCII control character.
pub record IsClean (c : ℕ) : Type 0 where
  pub quotable : breaks_quoting c ≡ false
  pub not_low : 0x20 ≤ c
  pub not_delete : c ≢ 0x7f

wide-IsClean : (c : ℕ) → 0x80 ≤ c → IsClean c
unfolding breaks_quoting
wide-IsClean c h = ground arith

drop_breaking_lem : (s : Bytes) → All (λ c. breaks_quoting c ≡ false) (drop_breaking s)
unfolding drop_breaking
drop_breaking_lem [] = tt
drop_breaking_lem (c ∷ s) = ground (arith, drop_breaking_lem s)

pub All-mono {ℓ κ μ} :
    {A : Type ℓ} (P : A → Type κ) (Q : A → Type μ)
    → ((a : A) → P a → Q a)
    → (xs : List A) → All P xs
    → All Q xs
All-mono P Q f [] _ = tt
All-mono P Q f (x ∷ xs) (p, ps) = (f x p, All-mono P Q f xs ps)

kept_ascii :
    (c : ℕ)
    → c < 0x80
    → breaks_quoting c ≡ false
    → is_control c ≡ false
    → All IsClean (encode_rune c)
unfolding is_control encode_rune
kept_ascii c h b k = ground arith

kept_rune :
    (c : ℕ) (s : Bytes)
    → breaks_quoting c ≡ false
    → is_control (decode_rune c s).rune ≡ false
    → All IsClean (encode_rune (decode_rune c s).rune)
kept_rune c s b k = elim (dec_lt c 0x80) [
  | yes h ↦ rw (decode_rune_ascii c s h) (kept_ascii c h b (rw (decode_rune_ascii c s h) at k))
  | no h ↦ All-mono _ _ wide-IsClean _ (encode_rune_wide _ (decode_rune_wide c s (omega arith)))
]

drop_controls-control :
    (c : ℕ) (s : Bytes)
    → is_control (decode_rune c s).rune ≡ true
    → drop_controls 0 (c ∷ s) ≡ drop_controls ((decode_rune c s).width - 1) s
unfolding drop_controls
drop_controls-control c s e = rw e

drop_controls-rune :
    (c : ℕ) (s : Bytes)
    → is_control (decode_rune c s).rune ≡ false
    → drop_controls 0 (c ∷ s)
      ≡ encode_rune (decode_rune c s).rune ++ drop_controls ((decode_rune c s).width - 1) s
unfolding drop_controls
drop_controls-rune c s e = rw e

drop_controls_step :
    (c : ℕ) (s : Bytes)
    → breaks_quoting c ≡ false
    → All IsClean (drop_controls ((decode_rune c s).width - 1) s)
    → All IsClean (drop_controls 0 (c ∷ s))
drop_controls_step c s h rest = elim (Bool-cases (is_control (decode_rune c s).rune)) [
  | inl e ↦ rw (drop_controls-control c s e) rest
  | inr e ↦ rw (drop_controls-rune c s e) (All-append IsClean _ _ (kept_rune c s h e) rest)
]

drop_controls-IsClean :
    (skip : ℕ) (s : Bytes)
    → All (λ c. breaks_quoting c ≡ false) s
    → All IsClean (drop_controls skip s)
drop_controls-IsClean zero [] _ = unfold drop_controls in tt
drop_controls-IsClean (suc skip) [] _ = unfold drop_controls in tt
drop_controls-IsClean (suc skip) (c ∷ s) (h, hs) = pass (drop_controls-IsClean skip s hs)
  where
    pass : All IsClean (drop_controls skip s) → All IsClean (drop_controls (suc skip) (c ∷ s))
    pass ih = unfold drop_controls in ih
drop_controls-IsClean zero (c ∷ s) (h, hs) =
    drop_controls_step c s h (drop_controls-IsClean ((decode_rune c s).width - 1) s hs)

module _ {ℓ} (P : ℕ → Type ℓ) where
  All-trim_left : (skip : ℕ) (s : Bytes) → All P s → All P (trim_left skip s)
  unfolding trim_left
  All-trim_left zero [] _ = tt
  All-trim_left (suc skip) [] _ = tt
  All-trim_left (suc skip) (c ∷ s) (_, hs) = All-trim_left skip s hs
  All-trim_left zero (c ∷ s) (h, hs) =
      choose (is_space (decode_rune c s).rune) (All-trim_left ((decode_rune c s).width - 1) s hs)
    where
      choose :
          (b : Bool)
          → All P (trim_left ((decode_rune c s).width - 1) s)
          → All P (if b then trim_left ((decode_rune c s).width - 1) s else c ∷ s)
      choose true rest = rest
      choose false rest = (h, hs)

  All-take : (n : ℕ) (s : Bytes) → All P s → All P (take n s)
  All-take zero s _ = tt
  All-take (suc n) [] _ = tt
  All-take (suc n) (c ∷ s) (h, hs) = (h, All-take n s hs)

  All-keep_space : (u s : Bytes) → All P u → All P s → All P (keep_space u s)
  All-keep_space u [] _ _ = tt
  All-keep_space u (c ∷ s) hu hs = All-append P u (c ∷ s) hu hs

  All-trim_right : (skip : ℕ) (s : Bytes) → All P s → All P (trim_right skip s)
  unfolding trim_right
  All-trim_right zero [] _ = tt
  All-trim_right (suc skip) [] _ = tt
  All-trim_right (suc skip) (c ∷ s) (_, hs) = All-trim_right skip s hs
  All-trim_right zero (c ∷ s) (h, hs) =
      choose (is_space (decode_rune c s).rune) (h, All-take ((decode_rune c s).width - 1) s hs)
        (All-trim_right ((decode_rune c s).width - 1) s hs)
    where
      choose :
          (b : Bool)
          → All P (c ∷ take ((decode_rune c s).width - 1) s)
          → All P (trim_right ((decode_rune c s).width - 1) s)
          → All P (
              if b
              then keep_space
                  (c ∷ take ((decode_rune c s).width - 1) s)
                  (trim_right ((decode_rune c s).width - 1) s)
              else (c ∷ take ((decode_rune c s).width - 1) s)
                ++ trim_right ((decode_rune c s).width - 1) s)
      choose true hu rest =
          All-keep_space (c ∷ take ((decode_rune c s).width - 1) s)
            (trim_right ((decode_rune c s).width - 1) s) hu rest
      choose false hu rest =
          All-append P (c ∷ take ((decode_rune c s).width - 1) s)
            (trim_right ((decode_rune c s).width - 1) s) hu rest

  All-trim_space : (s : Bytes) → All P s → All P (trim_space s)
  unfolding trim_space
  All-trim_space s h = All-trim_right 0 _ (All-trim_left 0 s h)

  All-limit_name : (s : Bytes) → All P s → All P (limit_name s)
  unfolding limit_name
  All-limit_name s h = choose (ltb max_from_name (length s))
    where
      choose :
          (b : Bool) → All P (if b then trim_space (take (cut_before s max_from_name) s) else s)
      choose true = All-trim_space _ (All-take (cut_before s max_from_name) s h)
      choose false = h

-- What sanitizeName leaves holds no byte that breaks the quoting and no ASCII control character.
pub sanitize_name-IsClean : (name : Bytes) → All IsClean (sanitize_name name)
unfolding sanitize_name
sanitize_name-IsClean name =
    All-limit_name IsClean _
      (All-trim_space IsClean _ (drop_controls-IsClean 0 _ (drop_breaking_lem name)))

pub IsClean-ne_less : (c : ℕ) → IsClean c → c ≢ b'<'
unfolding breaks_quoting
IsClean-ne_less c k = ground arith
