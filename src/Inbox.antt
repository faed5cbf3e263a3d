-- ===== src/Inbox.antt =====
-- inbox.go: `Close`, called by any number of goroutines at once, and the accept loop of `serve`.
pub mod Closing
pub mod Backoff
pub mod Reading
pub mod Statuses
pub mod Framing
pub mod Listen
pub mod Binding
use claude_code_socket_trans.Base.{
  ℕ, Bool, List, if◌then◌else◌, ◌∷◌, [], true, ◌++◌, false, ltb, ◌==◌, ◌+◌, ◌*◌,
}

-- Where one call of `Close` stands: before its critical section, behind it with the listener or the
-- socket file still to do, or at its end.
pub data Stage : Type 0 where
  entering closing_listener removing_file returned : Stage

-- What the calls share: the flag `closed`, and how often the listener was closed and the file removed.
pub record Shared : Type 0 where
  pub closed : Bool
  pub listener_closes : ℕ
  pub removals : ℕ

-- The next step of a call. The critical section under `mu` is one step.
unfoldable pub close_step : Stage → Shared → Stage × Shared
close_step entering sh =
    if sh.closed then (returned, sh) else (closing_listener, record sh { closed = true })
close_step closing_listener sh =
    (removing_file, record sh { listener_closes = sh.listener_closes + 1 })
close_step removing_file sh = (returned, record sh { removals = sh.removals + 1 })
close_step returned sh = (returned, sh)

-- The calls in progress, and what they share.
pub record Calls : Type 0 where
  pub stages : List Stage
  pub shared : Shared

-- One of the calls makes its next step, or a new call begins.
pub data Step : Calls → Calls → Type 0 where
  begin : (c : Calls) → Step c (record c { stages = entering ∷ c.stages })
  advance :
      (a b : List Stage) (stage : Stage) (sh : Shared)
      → Step
          (record { stages = a ++ (stage ∷ b); shared = sh })
          (record { stages = a ++ ((close_step stage sh).0 ∷ b); shared = (close_step stage sh).1 })

-- What is reached from an inbox that `Listen` has just made.
pub data Reached : Calls → Type 0 where
  start : Reached (record {
    stages = [];
    shared = record { closed = false; listener_closes = 0; removals = 0 };
  })
  step : {c d : Calls} → Reached c → Step c d → Reached d

-- The delay after a failed `Accept`, in milliseconds, from the one before.
abbrev pub capped : ℕ → ℕ
capped delay = if ltb 1000 delay then 1000 else delay

unfoldable pub next_delay : ℕ → ℕ
next_delay delay = capped (if delay == 0 then 5 else delay * 2)

-- What `Accept` gives: a connection, or an error, with the flag `closed` as it is found then.
pub data Accepted : Type 0 where
  connection : ℕ → Accepted
  failed : Bool → Accepted

pub data Action : Type 0 where
  handled : ℕ → Action
  slept : ℕ → Action

-- The loop of `serve` over what `Accept` gives in turn.
unfoldable pub serve : ℕ → List Accepted → List Action
serve delay [] = []
serve delay (connection n ∷ more) = handled n ∷ serve 0 more
serve delay (failed closed ∷ more) =
    let rest = serve (next_delay delay) more in
    if closed then [] else slept (next_delay delay) ∷ rest
