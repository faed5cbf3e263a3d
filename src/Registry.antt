-- ===== src/Registry.antt =====
-- session.go: `ListSessions`.
pub mod Names
pub mod Order
pub mod Precedes
pub mod Listed
pub mod Sorted
pub mod Unique
use claude_code_socket_trans.Base.{
  ℕ, Bool, Bytes, bytes_dec, Option, if◌then◌else◌, List, Result, none, ◌∷◌, codes, some, false,
  true, ltb, ok, ◌>>=◌, [], ◌is◌, err, ◌==◌, unreadable_dir,
}
use claude_code_socket_trans.Os.{Os, Listing, missing, failed, names}
use claude_code_socket_trans.Session.{Session, Time, read_session_file}
use claude_code_socket_trans.Paths.{sessions_dir}
use claude_code_socket_trans.Decimal.{atoi, itoa, is_digit, span_digits}
use claude_code_socket_trans.Filepath

abbrev pub digits_before : Bytes → Bytes × Bytes → Option Bytes
digits_before suffix ([], rest) = none
digits_before suffix (d ∷ ds, rest) = if rest is suffix then some (d ∷ ds) else none

-- The submatch of `pidJSONRe`, `^(\d+)\.json$`: what follows the digits is no digit, so they are the
-- longest run.
unfoldable pub pid_json : Bytes → Option Bytes
unfolding span_digits bytes_dec
pid_json name = digits_before (codes ".json") (span_digits name)

abbrev pub canonical_pid : Bytes → Option ℕ → Option ℕ
canonical_pid m none = none
canonical_pid m (some pid) = if itoa pid is m then some pid else none

abbrev pub checked_pid : Option Bytes → Option ℕ
checked_pid none = none
checked_pid (some m) = canonical_pid m (atoi m)

-- The PID that a registry file's name stands for: what the loop of `ListSessions` goes on with.
unfoldable pub registry_pid : Bytes → Option ℕ
registry_pid name = checked_pid (pid_json name)

-- An entry that cannot be read is skipped.
abbrev pub keep_read : Result Session → List Session → List Session
keep_read (err e) rest = rest
keep_read (ok s) rest = s ∷ rest

abbrev pub kept : Option ℕ → (ℕ → Result Session) → List Session → List Session
kept none read rest = rest
kept (some pid) read rest = keep_read (read pid) rest

-- The loop over the names of the directory.
unfoldable pub read_entries : Os → Bytes → List Bytes → List Session
read_entries os dir [] = []
read_entries os dir (name ∷ more) =
    kept (registry_pid name) (read_session_file os (Filepath.join dir name))
      (read_entries os dir more)

-- `StartedAt.Before`
abbrev pub before : Time → Time → Bool
before none none = false
before none (some b) = true
before (some a) none = false
before (some a) (some b) = ltb a b

abbrev pub same_time : Time → Time → Bool
same_time none none = true
same_time none (some b) = false
same_time (some a) none = false
same_time (some a) (some b) = a == b

-- The order that `sort.Slice` is given.
unfoldable pub less : Session → Session → Bool
less s t =
    if same_time s.started_at t.started_at
    then ltb s.pid t.pid
    else before s.started_at t.started_at

unfoldable pub insert : Session → List Session → List Session
insert s [] = s ∷ []
insert s (t ∷ ts) = let rest = insert s ts in if less t s then t ∷ rest else s ∷ t ∷ ts

-- `sort.Slice`. The PIDs of the entries differ, so the order is strict and one arrangement is sorted.
unfoldable pub sort : List Session → List Session
sort [] = []
sort (s ∷ ss) = insert s (sort ss)

abbrev pub listed : Os → Bytes → Listing → Result (List Session)
listed os dir missing = ok []
listed os dir failed = err unreadable_dir
listed os dir (names ns) = ok (sort (read_entries os dir ns))

unfoldable pub list_sessions : Os → Result (List Session)
list_sessions os = do dir ← sessions_dir os; listed os dir (os.read_dir dir)
