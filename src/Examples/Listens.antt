-- ===== src/Examples/Listens.antt =====
-- `Listen` on the example machine, and two calls of `withTightUmask`.
use claude_code_socket_trans.Session.{probe, default_probe_timeout}
use claude_code_socket_trans.Examples.Machine.{quiet_machine}
use claude_code_socket_trans.Base.{
  ℕ, Bool, List, ◌∷◌, true, [], ◌≤◌, some, ◌≡◌, false, arith, refl, ok, suc, ◌↔◌,
}
use claude_code_socket_trans.Inbox.Listen.{Binding, listen, inbox_path}
use claude_code_socket_trans.Inbox.Binding.{listen_iff, listen-IsTidy, IsTidy, IsPrivateAt}
use claude_code_socket_trans.Umask.{Calls, Stage, Reached, umask_step, Step}
use claude_code_socket_trans.Umask.{waiting, holding, running, begin, advance, start, step}
use claude_code_socket_trans.Umask.Exclusive.{Reached-IsExclusive, IsExclusive}
use claude_code_socket_trans.Umask.Progress.{Reached-progress, work}
use claude_code_socket_trans.Filepath
use claude_code_socket_trans.Paths.{DirInfo, directory}

abbrev pub private_dir : DirInfo
private_dir = record { kind = directory; has_stat = true; owner = 1000; perm = 0o700 }

abbrev pub open_binding : Binding
open_binding = record {
  mkdir_ok = λ d. true;
  lstat = λ d. some private_dir;
  bind_ok = λ p. true;
  chmod_ok = λ p. true;
  umask = 0o022;
}

listen-IsTidy_example : IsTidy open_binding (listen quiet_machine open_binding)
listen-IsTidy_example = listen-IsTidy quiet_machine open_binding

listen_iff_example :
    ((listen quiet_machine open_binding).result ≡ ok (inbox_path quiet_machine)) ↔ (
      (inbox_path quiet_machine ≡ inbox_path quiet_machine)
      × (open_binding.mkdir_ok (Filepath.dir (inbox_path quiet_machine)) ≡ true)
      × IsPrivateAt quiet_machine open_binding (Filepath.dir (inbox_path quiet_machine))
      × (probe quiet_machine (inbox_path quiet_machine) default_probe_timeout ≡ false)
      × (open_binding.bind_ok (inbox_path quiet_machine) ≡ true)
      × (open_binding.chmod_ok (inbox_path quiet_machine) ≡ true))
listen_iff_example = listen_iff quiet_machine open_binding (inbox_path quiet_machine)

abbrev calls : List Stage → Bool → ℕ → Calls
calls ss b m = record { stages = ss; shared = record { locked = b; umask = m } }

two_waiting : Reached 0o022 (calls (waiting ∷ waiting ∷ []) false 0o022)
two_waiting = step (step start (begin _)) (begin _)

one_holding : Reached 0o022 (calls (holding ∷ waiting ∷ []) true 0o022)
unfolding umask_step
one_holding = step two_waiting (
    advance [] (waiting ∷ []) waiting holding (record { locked = false; umask = 0o022 })
      (record { locked = true; umask = 0o022 }) refl)

one_running : Reached 0o022 (calls (running 0o022 ∷ waiting ∷ []) true 0o177)
unfolding umask_step
one_running = step one_holding (
    advance [] (waiting ∷ []) holding (running 0o022) (record { locked = true; umask = 0o022 })
      (record { locked = true; umask = 0o177 }) refl)

Reached-IsExclusive_example : IsExclusive 0o022 (calls (running 0o022 ∷ waiting ∷ []) true 0o177)
Reached-IsExclusive_example =
    Reached-IsExclusive 0o022 (calls (running 0o022 ∷ waiting ∷ []) true 0o177) one_running

work_left : 1 ≤ work (running 0o022 ∷ waiting ∷ [])
unfolding work
work_left = omega arith

Reached-progress_example :
    (d : Calls) × Step (calls (running 0o022 ∷ waiting ∷ []) true 0o177) d
    × (work (running 0o022 ∷ waiting ∷ []) ≡ suc (work d.stages))
Reached-progress_example =
    Reached-progress 0o022 (calls (running 0o022 ∷ waiting ∷ []) true 0o177) one_running work_left
