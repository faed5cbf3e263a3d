-- ===== src/Addr/RoundTrip.antt =====
-- Addresses read back what they were made from.
use claude_code_socket_trans.Addr.Grammar.{IsEncoded, done, safe, escape, valid_address_iff}
use claude_code_socket_trans.Base.{
  ℕ, ◌/◌, ◌%◌, ◌<◌, ◌≡◌, refl, false, some, [], ◌∷◌, Bytes, codes, AllBytes, has_prefix, contains,
  Bool-cases, inl, inr, ok, arith, ◌∙◌, sym, ap, suc, true, zero, Option, drop, none,
}
use claude_code_socket_trans.Base.Tables.{bit_or_nibbles}
use claude_code_socket_trans.Addr.{
  hex_upper, encode, address, unhex, hex_pair, decode_from, percent_decode, parse_address,
  valid_address, addr_safe, byte_of,
}

unhex-hex_upper : (n : ℕ) → n < 16 → unhex (hex_upper n) ≡ some n
unfolding unhex hex_upper
unhex-hex_upper n h = ground arith

hex_pair-hex_upper :
    (c : ℕ) (s : Bytes) → c < 256 → hex_pair (hex_upper (c / 16) ∷ hex_upper (c % 16) ∷ s) ≡ some c
unfolding hex_pair
hex_pair-hex_upper c s h =
    ground
      (arith, unhex-hex_upper (c / 16), unhex-hex_upper (c % 16), bit_or_nibbles (c / 16) (c % 16))

encoded_step :
    (c : ℕ) (s : Bytes) → c < 256 → decode_from 0 (encode (c ∷ s)) ≡ c ∷ decode_from 0 (encode s)
unfolding encode decode_from
encoded_step c s h = ground (arith, hex_pair-hex_upper c (encode s))

decode_from-encode : (s : Bytes) → AllBytes s → decode_from 0 (encode s) ≡ s
decode_from-encode [] _ = unfold encode decode_from in refl
decode_from-encode (c ∷ s) (h, hs) = encoded_step c s h ∙ ap (◌∷◌ c) (decode_from-encode s hs)

-- What holds no `%` is left alone, so the early return agrees with the loop.
decode_from_plain : (s : Bytes) → contains s (codes "%") ≡ false → decode_from 0 s ≡ s
unfolding contains decode_from has_prefix
decode_from_plain [] _ = refl
decode_from_plain (c ∷ s) h = ground (arith, decode_from_plain s)

pub percent_decode-decode_from : (s : Bytes) → percent_decode s ≡ decode_from 0 s
unfolding percent_decode
percent_decode-decode_from s = elim (Bool-cases (contains s (codes "%"))) [
  | inl e ↦ rw e
  | inr e ↦ rw e (sym (decode_from_plain s e))
]

-- ParseAddress gives back every path of bytes that Address rendered.
pub parse_address-address : (p : Bytes) → AllBytes p → parse_address (address p) ≡ ok p
unfolding parse_address address
parse_address-address p h = rw percent_decode-decode_from (ap ok (decode_from-encode p h))

encode-IsEncoded_step :
    (c : ℕ) (s : Bytes) → c < 256 → IsEncoded (encode s) → IsEncoded (encode (c ∷ s))
unfolding encode
encode-IsEncoded_step c s h r = elim (Bool-cases (addr_safe c)) [
  | inl e ↦ rw e (safe e r)
  | inr e ↦
      rw e
        (escape (unhex-hex_upper (c / 16) (omega arith)) (unhex-hex_upper (c % 16) (omega arith)) r)
]

encode-IsEncoded : (s : Bytes) → AllBytes s → IsEncoded (encode s)
encode-IsEncoded [] _ = unfold encode in done
encode-IsEncoded (c ∷ s) (h, hs) = encode-IsEncoded_step c s h (encode-IsEncoded s hs)

-- What Address renders of a path of bytes is accepted by validAddress.
pub valid_address-address : (p : Bytes) → AllBytes p → valid_address (address p) ≡ true
unfolding address
valid_address-address p h = (valid_address_iff _).1 (encode p, refl, encode-IsEncoded p h)

unhex_lt : (c v : ℕ) → unhex c ≡ some v → v < 16
unfolding unhex
unhex_lt c v e = ground arith

byte_of_lt :
    (x y : Option ℕ) (v : ℕ)
    → ((a : ℕ) → x ≡ some a → a < 16)
    → ((b : ℕ) → y ≡ some b → b < 16)
    → byte_of x y ≡ some v
    → v < 256
byte_of_lt (some a) (some b) v p q e =
    ground (arith, p a refl, q b refl, bit_or_nibbles a b (p a refl) (q b refl))
byte_of_lt (some a) none v p q e = cc
byte_of_lt none y v p q e = cc

hex_pair_lt : (s : Bytes) (v : ℕ) → hex_pair s ≡ some v → v < 256
unfolding hex_pair
hex_pair_lt [] v e = cc
hex_pair_lt (h ∷ []) v e = cc
hex_pair_lt (h ∷ l ∷ s) v e = byte_of_lt (unhex h) (unhex l) v (unhex_lt h) (unhex_lt l) e

decode_from-AllBytes : (skip : ℕ) (s : Bytes) → AllBytes s → AllBytes (decode_from skip s)
unfolding decode_from
decode_from-AllBytes zero [] _ = tt
decode_from-AllBytes (suc skip) [] _ = tt
decode_from-AllBytes (suc skip) (c ∷ s) (h, hs) = decode_from-AllBytes skip s hs
decode_from-AllBytes zero (c ∷ s) (h, hs) =
    grind (arith, hex_pair_lt s, decode_from-AllBytes 0 s hs, decode_from-AllBytes 2 s hs)

drop-AllBytes : (n : ℕ) (s : Bytes) → AllBytes s → AllBytes (drop n s)
drop-AllBytes zero s h = h
drop-AllBytes (suc n) [] h = tt
drop-AllBytes (suc n) (c ∷ s) (h, hs) = drop-AllBytes n s hs

parse_address-AllBytes : (addr p : Bytes) → AllBytes addr → parse_address addr ≡ ok p → AllBytes p
unfolding parse_address
parse_address-AllBytes addr p h e = ground (
  arith,
  percent_decode-decode_from (drop 4 addr),
  decode_from-AllBytes 0 (drop 4 addr) (drop-AllBytes 4 addr h),
)

-- Address renders the path of every text of bytes that ParseAddress accepts as a well-formed
-- address of that path.
pub parse_address_normal :
    (addr p : Bytes)
    → AllBytes addr
    → parse_address addr ≡ ok p
    → (valid_address (address p) ≡ true) × (parse_address (address p) ≡ ok p)
parse_address_normal addr p h e =
    let bytes = parse_address-AllBytes addr p h e in
    (valid_address-address p bytes, parse_address-address p bytes)
