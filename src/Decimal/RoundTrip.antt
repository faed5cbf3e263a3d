-- ===== src/Decimal/RoundTrip.antt =====
-- `Atoi` reads what `Itoa` writes.
use claude_code_socket_trans.Base.{
  ℕ, Bytes, ◌≡◌, ◌≤◌, All, ◌≢◌, ◌<◌, suc, some, true, [], arith, length, ◌/◌, ◌+◌, ◌%◌, ◌∷◌, zero,
  ◌*◌,
}
use claude_code_socket_trans.Decimal.{itoa, atoi, max_int, digits, value, is_digit}

value-digits : (fuel n : ℕ) (out : Bytes) → n < fuel → value 0 (digits fuel n out) ≡ value n out
unfolding digits value
value-digits zero n out h = absurd (omega arith)
value-digits (suc fuel) n out h = ground (arith, value-digits fuel (n / 10) ((b'0' + n % 10) ∷ out))

pub value-itoa : (n : ℕ) → value 0 (itoa n) ≡ n
unfolding itoa value
value-itoa n = value-digits (suc n) n [] (omega arith)

-- Every number that fits an `int` is read back from its decimal form.
pub atoi-itoa : (n : ℕ) → n ≤ max_int → atoi (itoa n) ≡ some n
unfolding atoi
atoi-itoa n h = ground (arith, value-itoa n)

digits-All :
    (fuel n : ℕ) (out : Bytes)
    → n < fuel
    → All (λ c. is_digit c ≡ true) out
    → All (λ c. is_digit c ≡ true) (digits fuel n out)
unfolding digits is_digit
digits-All zero n out h a = a
digits-All (suc fuel) n out h a = ground (arith, digits-All fuel (n / 10) ((b'0' + n % 10) ∷ out))

digits-ne-nil : (fuel n : ℕ) (out : Bytes) → n < fuel → digits fuel n out ≢ []
unfolding digits
digits-ne-nil zero n out h = absurd (omega arith)
digits-ne-nil (suc fuel) n out h =
    ground (arith, digits-ne-nil fuel (n / 10) ((b'0' + n % 10) ∷ out))

pub itoa-All : (n : ℕ) → All (λ c. is_digit c ≡ true) (itoa n)
unfolding itoa
itoa-All n = digits-All (suc n) n [] (omega arith) tt

pub itoa-ne-nil : (n : ℕ) → itoa n ≢ []
unfolding itoa
itoa-ne-nil n = digits-ne-nil (suc n) n [] (omega arith)

abbrev pub tens : ℕ → ℕ
tens zero = 1
tens (suc k) = 10 * tens k

length-digits :
    (k fuel n : ℕ) (out : Bytes)
    → n < tens (suc k)
    → n < fuel
    → length (digits fuel n out) ≤ suc k + length out
unfolding digits
length-digits k zero n out h f = absurd (omega arith)
length-digits zero (suc fuel) n out h f = ground arith
length-digits (suc k) (suc fuel) n out h f =
    ground (arith, length-digits k fuel (n / 10) ((b'0' + n % 10) ∷ out))

-- A number below 10^k, with k positive, has at most k digits.
pub length-itoa : (k n : ℕ) → n < tens (suc k) → length (itoa n) ≤ suc k
unfolding itoa
length-itoa k n h = omega (arith, length-digits k (suc n) n [] h (omega arith))
