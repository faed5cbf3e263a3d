-- ===== src/Find.antt =====
-- session.go: the lookups, from `FindByPID` to `pickOne`.
pub mod ByPid
pub mod Published
pub mod PickOne
pub mod Chosen
pub mod Verified
use claude_code_socket_trans.Base.{
  ℕ, Bool, List, Result, Bytes, err, ◌∷◌, ◌>>◌, ◌>>=◌, not_found, guard, if◌then◌else◌, ◌==◌, ok,
  not, [], ambiguous, ◌is◌,
}
use claude_code_socket_trans.Os.{Os}
use claude_code_socket_trans.Session.{
  default_probe_timeout, Session, verify, matches_process, reachable,
}
use claude_code_socket_trans.Registry.{list_sessions}

-- The loop of `FindByPID`.
unfoldable pub first_with_pid : ℕ → List Session → Result Session
first_with_pid pid [] = err not_found
first_with_pid pid (s ∷ ss) =
    let rest = first_with_pid pid ss in if s.pid == pid then ok s else rest

unfoldable pub find_by_pid : Os → ℕ → Result Session
find_by_pid os pid = do sessions ← list_sessions os; first_with_pid pid sessions

unfoldable pub find_by_pid_for_session : Os → ℕ → Bytes → Result Session
find_by_pid_for_session os pid id = do s ← find_by_pid os pid; guard (verify s id) not_found; ok s

unfoldable pub find_by_pid_for_process : Os → ℕ → Bytes → Result Session
find_by_pid_for_process os pid proc_start = do
  s ← find_by_pid os pid
  guard (matches_process s proc_start) not_found
  ok s

-- `for _, s := range ss { if test(s) { out = append(out, s) } }`
unfoldable pub select : (Session → Bool) → List Session → List Session
select test [] = []
select test (s ∷ ss) = let rest = select test ss in if test s then s ∷ rest else rest

-- The switch over the number of live entries.
abbrev pub only_live : List Session → Result Session
only_live [] = err not_found
only_live (s ∷ []) = ok s
only_live (s ∷ t ∷ ss) = err ambiguous

-- `pickOne`, with the reachability check.
unfoldable pub pick_one : (Session → Bool) → List Session → Result Session
unfolding select
pick_one live [] = err not_found
pick_one live (s ∷ []) = ok s
pick_one live (s ∷ t ∷ ss) = only_live (select live (s ∷ t ∷ ss))

unfoldable pub find_by_session_id : Os → Bytes → ℕ → Result Session
find_by_session_id os id timeout = do
  guard (not (id is [])) not_found
  sessions ← list_sessions os
  pick_one (λ s. reachable os s timeout) (select (λ s. s.session_id is id) sessions)

unfoldable pub find_by_name : Os → Bytes → ℕ → Result Session
find_by_name os name timeout = do
  guard (not (name is [])) not_found
  sessions ← list_sessions os
  pick_one (λ s. reachable os s timeout) (select (λ s. s.name is name) sessions)

-- `FindBySessionID` and `FindByName`.
unfoldable pub default_find_by_session_id : Os → Bytes → Result Session
default_find_by_session_id os id = find_by_session_id os id default_probe_timeout

unfoldable pub default_find_by_name : Os → Bytes → Result Session
default_find_by_name os name = find_by_name os name default_probe_timeout
