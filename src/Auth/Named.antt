-- ===== src/Auth/Named.antt =====
-- The file that `KeyFileName` names is one that `LookupToken` reads, as the key of that PID.
use claude_code_socket_trans.Registry.Names.{span_digits-All}
use claude_code_socket_trans.Paths.{canonical_socket_path}
use mathlib.Core.Path.{subst}
use claude_code_socket_trans.Decimal.{max_int, atoi, itoa, is_digit}
use claude_code_socket_trans.Message.Uuid.{hex_encode}
use claude_code_socket_trans.Message.Envelope.{hex_lower}
use claude_code_socket_trans.Base.{
  ℕ, Bytes, AllBytes, drop, ◌++◌, ◌<◌, ◌≡◌, length, true, ◌+◌, ◌∷◌, arith, ◌-◌, [], length-append,
  refl, ap, suc, ◌/◌, ok, ◌≢◌, ◌≤◌, ◌is◌, ◌%◌, codes, some, ◌∙◌, >>=-eq-ok, sym,
}
use claude_code_socket_trans.Auth.{
  key_file_name, key_file_owner, has_suffix, key_file_suffix, is_lower_hex, hex_then, hex_encode,
  hash_and_key, owner_digits, atoi, itoa, canonical_socket_path,
}
use claude_code_socket_trans.Decimal.RoundTrip.{itoa-All, itoa-ne-nil, atoi-itoa}
use claude_code_socket_trans.Os.{Os}

is_lower_hex-hex_lower : (n : ℕ) → n < 16 → is_lower_hex (hex_lower n) ≡ true
unfolding is_lower_hex hex_lower
is_lower_hex-hex_lower n h = ground arith

-- Two digits for each byte.
abbrev digit_count : Bytes → ℕ
digit_count [] = 0
digit_count (c ∷ b) = suc (suc (digit_count b))

digit_count-length : (b : Bytes) → digit_count b ≡ length b + length b
digit_count-length [] = refl
digit_count-length (c ∷ b) = omega (arith, digit_count-length b)

is_same : (s : Bytes) → (s is s) ≡ true
is_same s = ground arith

hex_then-hex_encode :
    (b rest : Bytes) → AllBytes b → hex_then (digit_count b) rest (hex_encode b ++ rest) ≡ true
unfolding hex_then hex_encode
hex_then-hex_encode [] rest _ = is_same rest
hex_then-hex_encode (c ∷ b) rest (h, hs) = ground (
  arith,
  is_lower_hex-hex_lower (c / 16),
  is_lower_hex-hex_lower (c % 16),
  hex_then-hex_encode b rest hs,
)

drop-append : (s t : Bytes) → drop (length s) (s ++ t) ≡ t
drop-append [] t = refl
drop-append (c ∷ s) t = drop-append s t

has_suffix-append : (s t : Bytes) → has_suffix (s ++ t) t ≡ true
unfolding has_suffix
has_suffix-append s t =
    let e : length (s ++ t) - length t ≡ length s = omega (arith, length-append s t) in
    ground (arith, e, length-append s t, ap (λ k. drop k (s ++ t)) e, drop-append s t)

key_file_suffix-parts :
    (os : Os) (path : Bytes) {suffix : Bytes}
    → key_file_suffix os path ≡ ok suffix
    → (canonical : Bytes) × (suffix ≡ b'.' ∷ (hex_encode (os.sha256 canonical) ++ codes ".key"))
unfolding key_file_suffix
key_file_suffix-parts os path h =
    let (canonical, _, e) =
      >>=-eq-ok (canonical_socket_path os path)
        (λ c. ok (codes "." ++ (hex_encode (os.sha256 c) ++ codes ".key"))) h in
    (canonical, cc)

owner_digits-match :
    (ds rest : Bytes) → ds ≢ [] → hash_and_key rest ≡ true → owner_digits (ds, rest) ≡ some ds
owner_digits-match [] rest n h = absurd (n refl)
owner_digits-match (d ∷ ds) rest n h = ground arith

hash_and_key-sha256 :
    (b : Bytes)
    → length b ≡ 32
    → AllBytes b
    → hash_and_key (b'.' ∷ (hex_encode b ++ codes ".key")) ≡ true
hash_and_key-sha256 b n h =
    subst (λ k. hex_then k (codes ".key") (hex_encode b ++ codes ".key") ≡ true)
      (digit_count-length b ∙ omega (arith, n)) (hex_then-hex_encode b (codes ".key") h)

-- SHA-256 gives 32 bytes.
abbrev pub IsDigest : Os → Type 0
IsDigest os = (s : Bytes) → (length (os.sha256 s) ≡ 32) × AllBytes (os.sha256 s)

owner_of :
    (pid : ℕ) (b : Bytes)
    → length b ≡ 32
    → AllBytes b
    → key_file_owner (itoa pid ++ (b'.' ∷ (hex_encode b ++ codes ".key"))) ≡ some (itoa pid)
unfolding key_file_owner
owner_of pid b n h =
    ap owner_digits (
      span_digits-All (itoa pid) b'.' (hex_encode b ++ codes ".key") (itoa-All pid)
        (unfold is_digit in refl))
    ∙ owner_digits-match (itoa pid) _ (itoa-ne-nil pid) (hash_and_key-sha256 b n h)

-- For SHA-256 of 32 bytes and a PID that fits an int, the name that KeyFileName gives ends in the
-- suffix that LookupToken looks for, matches the pattern of key files, and is read as the key of
-- that PID.
pub key_file_name-owner :
    (os : Os) (pid : ℕ) (path : Bytes) {name : Bytes}
    → IsDigest os
    → pid ≤ max_int
    → key_file_name os pid path ≡ ok name
    → (suffix digits : Bytes) × (key_file_suffix os path ≡ ok suffix)
      × (has_suffix name suffix ≡ true)
      × (key_file_owner name ≡ some digits)
      × (atoi digits ≡ some pid)
unfolding key_file_name
key_file_name-owner os pid path {name} d f h =
    let (suffix, e, q) = >>=-eq-ok (key_file_suffix os path) (λ t. ok (itoa pid ++ t)) h in
    let (canonical, same) = key_file_suffix-parts os path e in
    let named : name ≡ itoa pid ++ suffix = cc in
    (
      suffix,
      itoa pid,
      e,
      subst (λ m. has_suffix m suffix ≡ true) (sym named) (has_suffix-append (itoa pid) suffix),
      subst (λ m. key_file_owner m ≡ some (itoa pid)) (sym (named ∙ ap (λ t. itoa pid ++ t) same))
          (owner_of pid (os.sha256 canonical) (d canonical).0 (d canonical).1),
      atoi-itoa pid f,
    )
