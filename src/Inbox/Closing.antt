-- ===== src/Inbox/Closing.antt =====
-- Concurrent calls of `Close`.
use claude_code_socket_trans.Base.{
  ℕ, Bool, List, suc, ◌+◌, ◌++◌, true, ◌≡◌, ◌∷◌, [], false, arith, refl, All, sym, ◌∙◌,
}
use claude_code_socket_trans.Inbox.{
  Stage, Calls, Reached, entering, closing_listener, removing_file, returned, close_step, Shared,
}
use mathlib.Core.Path.{subst, ap}
use claude_code_socket_trans.Inbox.{begin, advance, start, step}

-- The calls that have still to close the listener, and those that have still to remove the file.
unfoldable pub to_close : List Stage → ℕ
to_close [] = 0
to_close (closing_listener ∷ ss) = suc (to_close ss)
to_close (entering ∷ ss) = to_close ss
to_close (removing_file ∷ ss) = to_close ss
to_close (returned ∷ ss) = to_close ss

unfoldable pub to_remove : List Stage → ℕ
to_remove [] = 0
to_remove (removing_file ∷ ss) = suc (to_remove ss)
to_remove (entering ∷ ss) = to_remove ss
to_remove (closing_listener ∷ ss) = to_remove ss
to_remove (returned ∷ ss) = to_remove ss

abbrev pub one_if : Bool → ℕ
one_if true = 1
one_if false = 0

-- Every call that won is counted at one place.
pub record IsCounted (c : Calls) : Type 0 where
  pub closes : to_close c.stages + c.shared.listener_closes ≡ one_if c.shared.closed
  pub removes : to_remove c.stages + c.shared.removals ≡ c.shared.listener_closes

to_close-append : (a b : List Stage) → to_close (a ++ b) ≡ to_close a + to_close b
unfolding to_close
to_close-append [] b = omega arith
to_close-append (entering ∷ a) b = to_close-append a b
to_close-append (closing_listener ∷ a) b = omega (arith, to_close-append a b)
to_close-append (removing_file ∷ a) b = to_close-append a b
to_close-append (returned ∷ a) b = to_close-append a b

to_remove-append : (a b : List Stage) → to_remove (a ++ b) ≡ to_remove a + to_remove b
unfolding to_remove
to_remove-append [] b = omega arith
to_remove-append (entering ∷ a) b = to_remove-append a b
to_remove-append (closing_listener ∷ a) b = to_remove-append a b
to_remove-append (removing_file ∷ a) b = omega (arith, to_remove-append a b)
to_remove-append (returned ∷ a) b = to_remove-append a b

advance-IsCounted :
    (a b : List Stage) (stage : Stage) (sh : Shared)
    → IsCounted (record { stages = a ++ (stage ∷ b); shared = sh })
    → IsCounted
        (record { stages = a ++ ((close_step stage sh).0 ∷ b); shared = (close_step stage sh).1 })
unfolding close_step to_close to_remove
advance-IsCounted a b entering sh h = record {
  closes = ground (
    arith,
    to_close-append a (entering ∷ b),
    to_close-append a (returned ∷ b),
    to_close-append a (closing_listener ∷ b),
  );
  removes = ground (
    arith,
    to_remove-append a (entering ∷ b),
    to_remove-append a (returned ∷ b),
    to_remove-append a (closing_listener ∷ b),
  );
}
advance-IsCounted a b closing_listener sh h = record {
  closes =
      ground
        (arith, to_close-append a (closing_listener ∷ b), to_close-append a (removing_file ∷ b));
  removes =
      ground
        (arith, to_remove-append a (closing_listener ∷ b), to_remove-append a (removing_file ∷ b));
}
advance-IsCounted a b removing_file sh h = record {
  closes = ground (arith, to_close-append a (removing_file ∷ b), to_close-append a (returned ∷ b));
  removes =
      ground (arith, to_remove-append a (removing_file ∷ b), to_remove-append a (returned ∷ b));
}
advance-IsCounted a b returned sh h = h

-- However calls of Close on an inbox interleave, the closes of the listener and the calls about to
-- close it are one if the flag closed is set and else none, and the removals of the file and the
-- calls about to remove it are as many as the closes.
pub Reached-IsCounted : (c : Calls) → Reached c → IsCounted c
unfolding to_close to_remove
Reached-IsCounted c start = record { closes = refl; removes = refl }
Reached-IsCounted c (step r (begin d)) =
    let h = Reached-IsCounted d r in record { closes = h.closes; removes = h.removes }
Reached-IsCounted c (step r (advance a b stage sh)) =
    advance-IsCounted a b stage sh (Reached-IsCounted _ r)

abbrev pub IsReturned : Stage → Type 0
IsReturned stage = stage ≡ returned

returned-none : (ss : List Stage) → All IsReturned ss → (to_close ss ≡ 0) × (to_remove ss ≡ 0)
unfolding to_close to_remove
returned-none [] _ = (refl, refl)
returned-none (s ∷ ss) (h, hs) =
    subst (λ s. (to_close (s ∷ ss) ≡ 0) × (to_remove (s ∷ ss) ≡ 0)) (sym h) (returned-none ss hs)

-- However calls of Close on an inbox interleave, once the flag closed is set and all calls have
-- returned, the listener was closed exactly once and the socket file removed exactly once.
pub Reached-released :
    (c : Calls)
    → Reached c
    → All IsReturned c.stages
    → c.shared.closed ≡ true
    → (c.shared.listener_closes ≡ 1) × (c.shared.removals ≡ 1)
Reached-released c r h e =
    let (k, m) = returned-none c.stages h in
    let i = Reached-IsCounted c r in
    let one = i.closes ∙ ap one_if e in let all = i.removes in (omega arith, omega arith)
