-- ===== src/Decimal.antt =====
-- What the code uses of package strconv: `Itoa` of a number that is not negative, and `Atoi` of a
-- text that a regular expression has shown to be digits.
pub mod RoundTrip
mod Tests
use claude_code_socket_trans.Base.{
  ℕ, Bool, ◌^◌, leb, Bytes, ◌-◌, ◌&&◌, suc, ◌∷◌, Option, ◌/◌, [], ◌*◌, if◌then◌else◌, ◌+◌, some,
  ◌%◌, none, ltb, zero,
}

-- The largest `int`, on the 64-bit platforms.
abbrev pub max_int : ℕ
max_int = 2 ^ 63 - 1

unfoldable pub is_digit : ℕ → Bool
is_digit c = leb b'0' c && leb c b'9'

-- The digits of a number before `out`. The fuel is more than the number, and each round divides it
-- by ten.
unfoldable pub digits : ℕ → ℕ → Bytes → Bytes
digits zero n out = out
digits (suc fuel) n out =
    let rest = digits fuel (n / 10) ((b'0' + n % 10) ∷ out) in
    if ltb n 10 then (b'0' + n) ∷ out else rest

unfoldable pub itoa : ℕ → Bytes
unfolding digits
itoa n = digits (suc n) n []

-- The number that digits spell behind `acc`.
unfoldable pub value : ℕ → Bytes → ℕ
value acc [] = acc
value acc (c ∷ s) = value (acc * 10 + (c - b'0')) s

-- `none` is `ErrRange`.
unfoldable pub atoi : Bytes → Option ℕ
unfolding value
atoi s = let n = value 0 s in if leb n max_int then some n else none

-- The longest run of digits at the front, and what follows it.
unfoldable pub span_digits : Bytes → Bytes × Bytes
unfolding is_digit
span_digits [] = ([], [])
span_digits (c ∷ s) =
    let (ds, rest) = span_digits s in if is_digit c then (c ∷ ds, rest) else ([], c ∷ s)
