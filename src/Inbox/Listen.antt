-- ===== src/Inbox/Listen.antt =====
-- inbox.go: `Listen`, `Path` and `Address`, with `withTightUmask` of platform_unix.go and
-- platform_windows.go around the bind.
use claude_code_socket_trans.Session.{probe, default_probe_timeout}
use claude_code_socket_trans.Paths.{DirInfo, default_socket_path, ensure_socket_dir}
use claude_code_socket_trans.Base.{
  ℕ, Bool, List, Bytes, Option, Result, ◌∷◌, if◌then◌else◌, err, ◌++◌, not, [], binding, ok,
  restricting, already_live,
}
use claude_code_socket_trans.Os.{Os, windows}
use claude_code_socket_trans.Filepath

-- What the system answers to `Listen`, and the umask that the process has before.
pub record Binding : Type 0 where
  pub mkdir_ok : Bytes → Bool
  pub lstat : Bytes → Option DirInfo
  pub bind_ok : Bytes → Bool
  pub chmod_ok : Bytes → Bool
  pub umask : ℕ

-- What `Listen` does to the system, in order.
pub data ListenEvent : Type 0 where
  removed : Bytes → ListenEvent
  umask_set : ℕ → ListenEvent
  bound : Bytes → ListenEvent
  restricted : Bytes → ℕ → ListenEvent
  listener_closed serving : ListenEvent

-- The path of the inbox, or an error, and the events before it.
pub record Listened : Type 0 where
  pub result : Result Bytes
  pub events : List ListenEvent

abbrev pub tight_umask : ℕ
tight_umask = 0o177

-- The events of `withTightUmask(fn)`, from those of `fn`.
abbrev pub unix_with_tight_umask : ℕ → List ListenEvent → List ListenEvent
unix_with_tight_umask old events = umask_set tight_umask ∷ (events ++ (umask_set old ∷ []))

abbrev pub windows_with_tight_umask : List ListenEvent → List ListenEvent
windows_with_tight_umask events = events

unfoldable pub with_tight_umask : Os → ℕ → List ListenEvent → List ListenEvent
with_tight_umask os old events = elim os.platform [
  | windows ↦ windows_with_tight_umask events
  | _ ↦ unix_with_tight_umask old events
]

-- From the `Listen` of package net on.
unfoldable pub bind_socket : Os → Binding → Bytes → Listened
unfolding with_tight_umask
bind_socket os b path =
    if not (b.bind_ok path)
    then record { result = err binding; events = with_tight_umask os b.umask [] }
    else if not (b.chmod_ok path)
    then record {
      result = err restricting;
      events = with_tight_umask os b.umask (bound path ∷ []) ++ (listener_closed ∷ []);
    }
    else record {
      result = ok path;
      events =
          with_tight_umask os b.umask (bound path ∷ []) ++ (restricted path 0o600 ∷ serving ∷ []);
    }

abbrev pub bind_checked : Os → Binding → Bytes → Result (Unit {0}) → Listened
bind_checked os b path (err e) = record { result = err e; events = [] }
bind_checked os b path (ok _) =
    if probe os path default_probe_timeout
    then record { result = err already_live; events = [] }
    else let d = bind_socket os b path in
      record { result = d.result; events = removed path ∷ d.events }

abbrev pub inbox_path : Os → Bytes
inbox_path os = default_socket_path os os.pid

unfoldable pub listen : Os → Binding → Listened
listen os b =
    let dir = Filepath.dir (inbox_path os) in
    bind_checked os b (inbox_path os) (ensure_socket_dir os (b.mkdir_ok dir) (b.lstat dir))
