-- ===== src/Message/Length.antt =====
-- The length of a sanitized name.
use claude_code_socket_trans.Message.Clean.{IsClean, sanitize_name-IsClean}
use claude_code_socket_trans.Base.{
  ℕ, length, Bytes, ◌≤◌, take, arith, ◌+◌, drop, suc, ◌≡◌, ◌∷◌, length-append, zero, ◌-◌, [], All,
}
use claude_code_socket_trans.Message.Envelope.{
  sanitize_name, limit_name, cut_before, max_from_name, drop_breaking,
}
use claude_code_socket_trans.Utf8.{
  trim_space, trim_left, trim_right, keep_space, drop_controls, decode_rune,
}

cut_before-le : (name : Bytes) (cut : ℕ) → cut_before name cut ≤ cut
unfolding cut_before
cut_before-le name zero = omega arith
cut_before-le name (suc cut) = ground (arith, cut_before-le name cut)

length-take-le : (n : ℕ) (s : Bytes) → (length (take n s) ≤ n) × (length (take n s) ≤ length s)
length-take-le zero s = omega arith
length-take-le (suc n) [] = omega arith
length-take-le (suc n) (c ∷ s) = omega (arith, length-take-le n s)

length-take-add-drop : (n : ℕ) (s : Bytes) → length (take n s) + length (drop n s) ≡ length s
length-take-add-drop zero s = omega arith
length-take-add-drop (suc n) [] = omega arith
length-take-add-drop (suc n) (c ∷ s) = omega (arith, length-take-add-drop n s)

length-trim_left : (skip : ℕ) (s : Bytes) → length (trim_left skip s) ≤ length s
unfolding trim_left
length-trim_left zero [] = omega arith
length-trim_left (suc skip) [] = omega arith
length-trim_left (suc skip) (c ∷ s) = omega (arith, length-trim_left skip s)
length-trim_left zero (c ∷ s) = ground (arith, length-trim_left ((decode_rune c s).width - 1) s)

length-keep_space : (u s : Bytes) → length (keep_space u s) ≤ length u + length s
length-keep_space u [] = omega arith
length-keep_space u (c ∷ s) = omega (arith, length-append u (c ∷ s))

-- Trimming what is left behind `skip` bytes gives at most those bytes.
length-trim_right : (skip : ℕ) (s : Bytes) → length (trim_right skip s) ≤ length (drop skip s)
unfolding trim_right
length-trim_right zero [] = omega arith
length-trim_right (suc skip) [] = omega arith
length-trim_right (suc skip) (c ∷ s) = length-trim_right skip s
length-trim_right zero (c ∷ s) =
    let w = (decode_rune c s).width - 1 in
    ground (
      arith,
      length-trim_right w s,
      length-take-add-drop w s,
      length-keep_space (c ∷ take w s) (trim_right w s),
      length-append (c ∷ take w s) (trim_right w s),
    )

length-trim_space : (s : Bytes) → length (trim_space s) ≤ length s
unfolding trim_space
length-trim_space s = omega (arith, length-trim_right 0 (trim_left 0 s), length-trim_left 0 s)

length-limit_name : (s : Bytes) → length (limit_name s) ≤ max_from_name
unfolding limit_name
length-limit_name s = ground (
  arith,
  length-trim_space (take (cut_before s 200) s),
  length-take-le (cut_before s 200) s,
  cut_before-le s 200,
)

-- A sanitized name has at most 200 bytes.
pub length-sanitize_name : (name : Bytes) → length (sanitize_name name) ≤ max_from_name
unfolding sanitize_name
length-sanitize_name name = length-limit_name (trim_space (drop_controls 0 (drop_breaking name)))

-- What sanitizeName leaves holds no byte that breaks the quoting and no ASCII control character,
-- and has at most 200 bytes.
pub sanitize_name-IsTidy :
    (name : Bytes)
    → All IsClean (sanitize_name name) × (length (sanitize_name name) ≤ max_from_name)
sanitize_name-IsTidy name = (sanitize_name-IsClean name, length-sanitize_name name)
