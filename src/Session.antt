-- ===== src/Session.antt =====
-- session.go: the `Session` record, its small methods, and the reading of one registry file.
use claude_code_socket_trans.Addr.{address}
mod Tests
pub mod Published
use claude_code_socket_trans.Base.{ℤ, pos, negsuc, ◌+◌}
use claude_code_socket_trans.Decimal.{max_int}
use claude_code_socket_trans.Base.{
  ℕ, Bool, Option, Bytes, bytes_dec, if◌then◌else◌, ◌&&◌, not, ◌*◌, none, some, ltb, Result, codes,
  ◌is◌, leb, ◌==◌, [], ◌||◌, err, true, false, ◌>>=◌, unparseable, not_small_file, ok, take, suc,
  zero, ◌%◌, ◌^◌,
}
use claude_code_socket_trans.Os.{Os, File, windows, delivered, not_permitted, no_process}
use claude_code_socket_trans.Json.{Json, Fields, Number, text, number, field, no_fields}
use claude_code_socket_trans.Json.Structs.{unmarshal_map}

-- A `time.Time`: `none` is the zero value, in the year 1 and so before every other, and a number is
-- an instant in milliseconds since the epoch.
abbrev pub Time : Type 0
Time = Option ℕ

pub record Session : Type 0 where
  pub pid : ℕ
  pub session_id : Bytes
  pub socket_path : Bytes
  pub name : Bytes
  pub name_source : Bytes
  pub cwd : Bytes
  pub kind : Bytes
  pub status : Bytes
  pub waiting_for : Bytes
  pub entrypoint : Bytes
  pub agent : Bytes
  pub job_id : Bytes
  pub log_path : Bytes
  pub tmux : Bytes
  pub proc_start : Bytes
  pub peer_protocol : ℤ
  pub started_at : Time
  pub updated_at : Time
  pub status_updated_at : Time
  pub file : Bytes
  pub raw : Fields

-- `m[k]` of the decoded map.
unfoldable pub lookup : Bytes → Fields → Option Json
unfolding bytes_dec
lookup k no_fields = none
lookup k (field j v fs) = if j is k then some v else lookup k fs

abbrev text_of : Option Json → Bytes
text_of (some (text s)) = s
text_of _ = []

unfoldable pub str : Fields → Bytes → Bytes
unfolding lookup
str m k = text_of (lookup k m)

-- A number below zero.
abbrev minus : ℕ → ℤ
minus zero = pos 0
minus (suc n) = negsuc n

-- Whether the whole part of a number is an `int`.
abbrev pub fits_int : Number → Bool
fits_int v = leb v.whole (if v.negative then max_int + 1 else max_int)

-- `int(v)`: the fraction is dropped. Go leaves a value that does not fit to the platform.
abbrev pub whole_of : Os → Number → ℤ
whole_of os v =
    if not (fits_int v) then os.wide_int v else if v.negative then minus v.whole else pos v.whole

abbrev int_value : Os → Option Json → ℤ
int_value os (some (number v)) = whole_of os v
int_value os _ = pos 0

unfoldable pub int_of : Os → Fields → Bytes → ℤ
unfolding lookup
int_of os m k = int_value os (lookup k m)

abbrev pub max_sane_epoch_ms : ℕ
max_sane_epoch_ms = 4000000000000000

-- `v < 0` and `v > maxSaneEpochMS` of a `float64`.
abbrev below_zero : Number → Bool
below_zero v = v.negative && (ltb 0 v.whole || v.fraction)

abbrev above_max : Number → Bool
above_max v =
    not v.negative
    && (ltb max_sane_epoch_ms v.whole || (v.whole == max_sane_epoch_ms && v.fraction))

abbrev time_value : Option Json → Time
time_value (some (number v)) = if below_zero v || above_max v then none else some v.whole
time_value _ = none

unfoldable pub epoch_ms : Fields → Bytes → Time
unfolding lookup
epoch_ms m k = time_value (lookup k m)

abbrev pub max_registry_file_bytes : ℕ
max_registry_file_bytes = 256 * 1024

-- `readSmallFile` on what `openNoFollow` gave. `Stat` says whether the file is regular, and its size.
unfoldable pub read_opened : Option File → ℕ → Result Bytes
read_opened none max = err unparseable
read_opened (some f) max = elim f.stat [
  | none ↦ err unparseable
  | some (regular, size) ↦
      if not regular || ltb max size
      then err not_small_file
      else elim f.contents [ none ↦ err unparseable | some s ↦ ok (take max s) ]
]

unfoldable pub read_small_file : Os → Bytes → ℕ → Result Bytes
unfolding read_opened
read_small_file os path max = read_opened (os.open_no_follow path) max

-- The record that `readSessionFile` fills from the decoded map.
unfoldable pub session_of : Os → Bytes → ℕ → Fields → Session
unfolding str int_of epoch_ms
session_of os path pid raw = record {
  pid = pid;
  session_id = str raw (codes "sessionId");
  socket_path = str raw (codes "messagingSocketPath");
  name = str raw (codes "name");
  name_source = str raw (codes "nameSource");
  cwd = str raw (codes "cwd");
  kind = str raw (codes "kind");
  status = str raw (codes "status");
  waiting_for = str raw (codes "waitingFor");
  entrypoint = str raw (codes "entrypoint");
  agent = str raw (codes "agent");
  job_id = str raw (codes "jobId");
  log_path = str raw (codes "logPath");
  tmux = str raw (codes "tmux");
  proc_start = str raw (codes "procStart");
  peer_protocol = int_of os raw (codes "peerProtocol");
  started_at = epoch_ms raw (codes "startedAt");
  updated_at = epoch_ms raw (codes "updatedAt");
  status_updated_at = epoch_ms raw (codes "statusUpdatedAt");
  file = path;
  raw = raw;
}

unfoldable pub read_session_file : Os → Bytes → ℕ → Result Session
unfolding read_small_file session_of
read_session_file os path pid = do
  s ← read_small_file os path max_registry_file_bytes
  elim (unmarshal_map os.parse_float s) [
    | none ↦ err unparseable
    | some raw ↦ ok (session_of os path pid raw)
  ]

unfoldable pub session_address : Session → Bytes
unfolding address bytes_dec
session_address s = if s.socket_path is [] then [] else address s.socket_path

unfoldable pub verify : Session → Bytes → Bool
unfolding bytes_dec
verify s id = if id is [] then false else s.session_id is id

unfoldable pub matches_process : Session → Bytes → Bool
unfolding bytes_dec
matches_process s proc_start = not (proc_start is []) && s.proc_start is proc_start

-- `processAlive` of the platform files: EPERM means that the process is there.
abbrev pub unix_process_alive : Os → ℕ → Bool
unix_process_alive os pid = elim (os.kill pid) [
  | delivered ↦ true
  | not_permitted ↦ true
  | no_process ↦ false
]

-- A PID is converted to 32 bits.
abbrev pub windows_process_alive : Os → ℕ → Bool
windows_process_alive os pid = os.open_process (pid % 2 ^ 32)

unfoldable pub process_alive : Os → ℕ → Bool
process_alive os pid = elim os.platform [
  | windows ↦ windows_process_alive os pid
  | _ ↦ unix_process_alive os pid
]

unfoldable pub running : Os → Session → Bool
unfolding process_alive
running os s = if leb s.pid 1 then false else process_alive os s.pid

-- Timeouts are in nanoseconds, and an absent or negative one is 0.
abbrev pub default_probe_timeout : ℕ
default_probe_timeout = 250_000_000

-- client.go: `Probe`.
unfoldable pub probe : Os → Bytes → ℕ → Bool
probe os path timeout = os.accepts path (if timeout == 0 then default_probe_timeout else timeout)

unfoldable pub reachable : Os → Session → ℕ → Bool
unfolding probe bytes_dec
reachable os s timeout = if s.socket_path is [] then false else probe os s.socket_path timeout
