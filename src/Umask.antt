-- ===== src/Umask.antt =====
-- platform_unix.go: `withTightUmask`, called by any number of goroutines at once.
pub mod Exclusive
pub mod Progress
use claude_code_socket_trans.Base.{
  ℕ, Bool, List, Option, ◌∷◌, if◌then◌else◌, ◌≡◌, [], none, some, false, true, ◌++◌,
}

-- Where one call stands: before `umaskMu.Lock`, behind it, in `fn` and behind `fn` with the umask
-- that `Umask` gave, behind the restoring `Umask`, and behind `Unlock`.
pub data Stage : Type 0 where
  waiting holding : Stage
  running ran : ℕ → Stage
  restored finished : Stage

-- What the calls share: the mutex, and the umask of the process.
pub record Shared : Type 0 where
  pub locked : Bool
  pub umask : ℕ

-- The next step of a call; `none` where it has to wait, or has none.
unfoldable pub umask_step : Stage → Shared → Option (Stage × Shared)
umask_step waiting sh = if sh.locked then none else some (holding, record sh { locked = true })
umask_step holding sh = some (running sh.umask, record sh { umask = 0o177 })
umask_step (running old) sh = some (ran old, sh)
umask_step (ran old) sh = some (restored, record sh { umask = old })
umask_step restored sh = some (finished, record sh { locked = false })
umask_step finished sh = none

pub record Calls : Type 0 where
  pub stages : List Stage
  pub shared : Shared

-- A call begins, or one of the calls makes its next step.
pub data Step : Calls → Calls → Type 0 where
  begin : (c : Calls) → Step c (record c { stages = waiting ∷ c.stages })
  advance :
      (a b : List Stage) (stage stage' : Stage) (sh sh' : Shared)
      → umask_step stage sh ≡ some (stage', sh')
      → Step
          (record { stages = a ++ (stage ∷ b); shared = sh })
          (record { stages = a ++ (stage' ∷ b); shared = sh' })

-- What is reached in a process whose umask is `m`.
pub data Reached (m : ℕ) : Calls → Type 0 where
  start : Reached m (record { stages = []; shared = record { locked = false; umask = m } })
  step : {c d : Calls} → Reached m c → Step c d → Reached m d
