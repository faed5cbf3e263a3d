-- ===== src/Base/Split.antt =====
-- `strings.Split` by one byte.
use Prim.Native.Nat.{ℕ}
use mathlib.Core.Path.{◌≡◌, refl}
use mathlib.Core.List.{List, [], ◌∷◌, ◌++◌}
use native.Mathlib.Omega.{arith}
use claude_code_socket_trans.Base.Strings.{Bytes, Lacks}
use claude_code_socket_trans.Base.Tests.{◌==◌, if◌then◌else◌}

abbrev pub cons_head : ℕ → List Bytes → List Bytes
cons_head c [] = (c ∷ []) ∷ []
cons_head c (p ∷ ps) = (c ∷ p) ∷ ps

-- `strings.Split(s, b)` for a separator of one byte.
unfoldable pub split : ℕ → Bytes → List Bytes
split b [] = [] ∷ []
split b (c ∷ s) = let parts = split b s in if c == b then [] ∷ parts else cons_head c parts

pub split-Lacks : (b : ℕ) (f : Bytes) → Lacks b f → split b f ≡ f ∷ []
unfolding split
split-Lacks b [] _ = refl
split-Lacks b (c ∷ f) (h, hf) = ground (arith, split-Lacks b f hf)

pub split-append : (b : ℕ) (f s : Bytes) → Lacks b f → split b (f ++ (b ∷ s)) ≡ f ∷ split b s
unfolding split
split-append b [] s _ = ground arith
split-append b (c ∷ f) s (h, hf) = ground (arith, split-append b f s hf)
