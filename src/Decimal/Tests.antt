-- ===== src/Decimal/Tests.antt =====
-- Runs of the conversions.
use claude_code_socket_trans.Base.{◌≡◌, codes, none, some, refl}
use claude_code_socket_trans.Decimal.{itoa, atoi, max_int}

largest : itoa max_int ≡ codes "9223372036854775807"
unfolding itoa
largest = refl

too_large : atoi (codes "9223372036854775808") ≡ none
unfolding atoi
too_large = refl

leading_zero : atoi (codes "042") ≡ some 42
unfolding atoi
leading_zero = refl
