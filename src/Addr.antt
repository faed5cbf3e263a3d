-- ===== src/Addr.antt =====
-- addr.go: `addrSafe`, `Address`, `ParseAddress`, `percentDecode`, `unhex`, and `validAddress` of
-- message.go, which reads the same form. The loops over an index `i` are recursions on the bytes
-- from `i` on; their first argument counts the bytes that an `i += 2` has still to pass.
pub mod Grammar
pub mod RoundTrip
mod Tests
use Prim.Native.Nat.{bit_or}
use claude_code_socket_trans.Base.{
  ℕ, zero, suc, ◌+◌, ◌-◌, ◌*◌, ◌/◌, ◌%◌, Bool, true, false, ◌&&◌, ◌||◌, Option, none, some, [], ◌∷◌,
  ◌++◌, Bytes, codes, drop, has_prefix, contains, ◌==◌, leb, if◌then◌else◌, Error, bad_address,
  Result, ok, err,
}

abbrev pub percent : ℕ
percent = b'%'

-- The prefix "uds:".
abbrev pub scheme : Bytes
scheme = codes "uds:"

unfoldable pub addr_safe : ℕ → Bool
addr_safe b =
    if (leb b'A' b && leb b b'Z') || (leb b'a' b && leb b b'z') || (leb b'0' b && leb b b'9')
    then true
    else if b == b':' || b == b'_' || b == b'/' || b == b'.' || b == b'\\' || b == b'-'
    then true
    else false

-- A digit of the verb `%X`.
unfoldable pub hex_upper : ℕ → ℕ
hex_upper n = if leb n 9 then b'0' + n else b'A' + (n - 10)

-- The loop of `Address`.
unfoldable pub encode : Bytes → Bytes
unfolding addr_safe hex_upper
encode [] = []
encode (c ∷ s) =
    let rest = encode s in
    if addr_safe c then c ∷ rest else percent ∷ hex_upper (c / 16) ∷ hex_upper (c % 16) ∷ rest

unfoldable pub address : Bytes → Bytes
unfolding encode
address socket_path = scheme ++ encode socket_path

unfoldable pub unhex : ℕ → Option ℕ
unhex c =
    if leb b'0' c && leb c b'9'
    then some (c - b'0')
    else if leb b'a' c && leb c b'f'
    then some (c - b'a' + 10)
    else if leb b'A' c && leb c b'F'
    then some (c - b'A' + 10)
    else none

abbrev pub byte_of : Option ℕ → Option ℕ → Option ℕ
byte_of (some hi) (some lo) = some (bit_or (hi * 16 % 256) lo)
byte_of (some hi) none = none
byte_of none lo = none

-- The byte that the two digits behind a `%` stand for, if there are two bytes and both are digits.
unfoldable pub hex_pair : Bytes → Option ℕ
unfolding unhex
hex_pair (h ∷ l ∷ s) = byte_of (unhex h) (unhex l)
hex_pair _ = none

unfoldable pub decode_from : ℕ → Bytes → Bytes
unfolding hex_pair
decode_from skip [] = []
decode_from (suc skip) (c ∷ s) = decode_from skip s
decode_from zero (c ∷ s) = elim (c == percent) [
  | false ↦ c ∷ decode_from zero s
  | true ↦ elim (hex_pair s) [ some b ↦ b ∷ decode_from 2 s | none ↦ c ∷ decode_from zero s ]
]

unfoldable pub percent_decode : Bytes → Bytes
unfolding decode_from contains
percent_decode s = if contains s (codes "%") then decode_from 0 s else s

unfoldable pub parse_address : Bytes → Result Bytes
unfolding percent_decode has_prefix
parse_address addr =
    if has_prefix addr scheme
    then ok (percent_decode (drop 4 addr))
    else if has_prefix addr (codes "/")
    then ok addr
    else err bad_address

-- The loop of `validAddress`.
unfoldable pub valid_from : ℕ → Bytes → Bool
unfolding addr_safe hex_pair
valid_from skip [] = true
valid_from (suc skip) (c ∷ s) = valid_from skip s
valid_from zero (c ∷ s) = elim (addr_safe c) [
  | true ↦ valid_from zero s
  | false ↦ elim (c == percent) [
    | false ↦ false
    | true ↦ elim (hex_pair s) [ some b ↦ valid_from 2 s | none ↦ false ]
  ]
]

unfoldable pub valid_address : Bytes → Bool
unfolding valid_from has_prefix
valid_address addr = if has_prefix addr scheme then valid_from 0 (drop 4 addr) else false
