-- ===== src/Base/Tables.antt =====
-- Facts over small ranges, checked value by value.
use Prim.Native.Nat.{ℕ, zero, suc, ◌+◌, ◌*◌, ◌%◌, ◌<◌, bit_or}
use mathlib.Core.Path.{◌≡◌, refl}
use mathlib.Core.Bool.{Bool, true, ◌&&◌}
use native.Mathlib.Omega.{arith}
use claude_code_socket_trans.Base.Tests.{◌==◌, ==_iff}

unfoldable pub all_below : ℕ → (ℕ → Bool) → Bool
all_below zero test = true
all_below (suc k) test = all_below k test && test k

pub all_below_sound :
    (k : ℕ) (test : ℕ → Bool) (n : ℕ) → n < k → all_below k test ≡ true → test n ≡ true
unfolding all_below
all_below_sound zero test n below h = absurd (omega arith)
all_below_sound (suc k) test n below h = ground (arith, all_below_sound k test n)

nibbles_table : all_below 16 (λ h. all_below 16 (λ l. bit_or (h * 16 % 256) l == h * 16 + l)) ≡ true
unfolding all_below
nibbles_table = refl

-- `hi<<4 | lo` on bytes puts the halves side by side.
pub bit_or_nibbles : (h l : ℕ) → h < 16 → l < 16 → bit_or (h * 16 % 256) l ≡ h * 16 + l
bit_or_nibbles h l hh hl =
    (==_iff _ _).0 (all_below_sound 16 _ l hl (all_below_sound 16 _ h hh nibbles_table))
