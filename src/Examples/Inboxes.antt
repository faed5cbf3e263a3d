-- ===== src/Examples/Inboxes.antt =====
-- One call of `Close` from beginning to end.
use claude_code_socket_trans.Base.{ℕ, Bool, ◌∷◌, false, true, ◌≡◌, [], refl}
use claude_code_socket_trans.Inbox.{
  Reached, Calls, Shared, entering, closing_listener, removing_file, returned, close_step, begin,
  advance, start, step, Stage,
}
use claude_code_socket_trans.Inbox.Closing.{Reached-released}

abbrev shared : Bool → ℕ → ℕ → Shared
shared b n k = record { closed = b; listener_closes = n; removals = k }

abbrev one_call : Stage → Shared → Calls
one_call stage sh = record { stages = stage ∷ []; shared = sh }

begun : Reached (one_call entering (shared false 0 0))
begun = step start (begin _)

won : Reached (one_call closing_listener (shared true 0 0))
unfolding close_step
won = step begun (advance [] [] entering (shared false 0 0))

closed_once : Reached (one_call removing_file (shared true 1 0))
unfolding close_step
closed_once = step won (advance [] [] closing_listener (shared true 0 0))

ended : Reached (one_call returned (shared true 1 1))
unfolding close_step
ended = step closed_once (advance [] [] removing_file (shared true 1 0))

Reached-released_example :
    ((shared true 1 1).listener_closes ≡ 1) × ((shared true 1 1).removals ≡ 1)
Reached-released_example =
    Reached-released (one_call returned (shared true 1 1)) ended (refl, tt) refl
