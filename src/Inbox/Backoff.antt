-- ===== src/Inbox/Backoff.antt =====
-- The delays of the accept loop.
use native.Mathlib.Omega.{arith}
use claude_code_socket_trans.Base.{
  ◌∷◌, ℕ, List, suc, ◌≡◌, ◌≤◌, All, ◌⊎◌, arith, inl, zero, inr, ◌*◌, ◌^◌, [], refl, ◌<◌, ap, ◌∙◌,
  true, false,
}
use claude_code_socket_trans.Inbox.{
  Action, handled, slept, serve, next_delay, connection, failed, Accepted, capped,
}

-- The delay after that many failures in a row, the first behind a connection or the start.
unfoldable pub delay_after : ℕ → ℕ
delay_after zero = next_delay 0
delay_after (suc n) = next_delay (delay_after n)

next_delay-capped : (x : ℕ) → 0 < x → next_delay (capped x) ≡ capped (x * 2)
unfolding next_delay
next_delay-capped x h = ground arith

two_pow-pos : (n : ℕ) → 0 < 2 ^ n
two_pow-pos zero = omega arith
two_pow-pos (suc n) = omega (arith, two_pow-pos n)

-- The delay of serve after n + 1 failures of Accept in a row, the first behind a connection or the
-- start, is 5 * 2^n milliseconds, and at most 1000.
pub delay_after_lem : (n : ℕ) → delay_after n ≡ capped (5 * 2 ^ n)
unfolding delay_after next_delay
delay_after_lem zero = refl
delay_after_lem (suc n) =
    ap next_delay (delay_after_lem n)
    ∙ next_delay-capped (5 * 2 ^ n) (omega (arith, two_pow-pos n))
    ∙ ap capped {x = 5 * 2 ^ n * 2} {y = 5 * 2 ^ suc n} (omega arith)

abbrev pub IsBounded : Action → Type 0
IsBounded (handled n) = Unit
IsBounded (slept d) = (5 ≤ d) × (d ≤ 1000)

abbrev pub IsDelay : ℕ → Type 0
IsDelay d = (d ≡ 0) ⊎ ((5 ≤ d) × (d ≤ 1000))

next_delay-bounds : (d : ℕ) → IsDelay d → (5 ≤ next_delay d) × (next_delay d ≤ 1000)
unfolding next_delay
next_delay-bounds d h = ground arith

-- Whatever Accept gives, from a delay that is 0 or between 5 and 1000 milliseconds, every sleep of
-- serve is between 5 and 1000 milliseconds.
pub serve-IsBounded :
    (delay : ℕ) (rs : List Accepted) → IsDelay delay → All IsBounded (serve delay rs)
unfolding serve
serve-IsBounded delay [] h = tt
serve-IsBounded delay ((connection n) ∷ rs) h = (tt, serve-IsBounded 0 rs (inl refl))
serve-IsBounded delay (failed true ∷ rs) h = tt
serve-IsBounded delay (failed false ∷ rs) h =
    let b = next_delay-bounds delay h in (b, serve-IsBounded (next_delay delay) rs (inr b))
