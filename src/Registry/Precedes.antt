-- ===== src/Registry/Precedes.antt =====
-- The order of `ListSessions`, said without its comparison: by start time, the zero time first, and by
use native.Mathlib.Decide.{ℕ_discrete}
use claude_code_socket_trans.Registry.Order.{IsSorted}
use claude_code_socket_trans.Registry.{less, same_time, before}
use claude_code_socket_trans.Base.{
  List, some, ◌⊎◌, ◌∷◌, ◌≡◌, All, ◌<◌, true, [], if◌then◌else◌, none, ltb, inr, arith, inl, ap,
  refl,
}
use claude_code_socket_trans.Session.{Time, Session}

-- PID where the times agree.

-- One time is earlier than another. The zero time is in the year 1.
abbrev pub Earlier : Time → Time → Type 0
Earlier _ none = ⊥
Earlier none (some b) = Unit
Earlier (some a) (some b) = a < b

abbrev pub Precedes : Session → Session → Type 0
Precedes s t = Earlier s.started_at t.started_at ⊎ ((s.started_at ≡ t.started_at) × (s.pid < t.pid))

-- Each entry precedes all that follow it.
abbrev pub IsOrdered : List Session → Type 0
IsOrdered [] = Unit
IsOrdered (s ∷ ss) = All (Precedes s) ss × IsOrdered ss

less-Precedes : (s t : Session) → less s t ≡ true → Precedes s t
unfolding less
less-Precedes s t h = by_times s.started_at t.started_at refl refl h
  where
    by_times :
        (a b : Time)
        → s.started_at ≡ a
        → t.started_at ≡ b
        → (if same_time s.started_at t.started_at
            then ltb s.pid t.pid
            else before s.started_at t.started_at)
          ≡ true
        → Precedes s t
    by_times none none p q h = rw (p, q) (inr (refl, ground arith))
    by_times none (some b) p q h = rw (p, q) (inl tt)
    by_times (some a) none p q h = absurd (ground arith)
    by_times (some a) (some b) p q h = elim (ℕ_discrete a b) [
      | yes e ↦ rw (p, q) (inr (ap some e, ground arith))
      | no n ↦ rw (p, q) (inl (ground arith))
    ]

All-Precedes :
    (s : Session) (ss : List Session) → All (λ t. less s t ≡ true) ss → All (Precedes s) ss
All-Precedes s [] _ = tt
All-Precedes s (t ∷ ts) (h, hs) = (less-Precedes s t h, All-Precedes s ts hs)

pub IsSorted-IsOrdered : (ss : List Session) → IsSorted ss → IsOrdered ss
IsSorted-IsOrdered [] _ = tt
IsSorted-IsOrdered (s ∷ ss) (h, hs) = (All-Precedes s ss h, IsSorted-IsOrdered ss hs)
