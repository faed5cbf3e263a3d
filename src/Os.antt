-- ===== src/Os.antt =====
-- What the code takes from outside the repository, as a parameter: the environment, the file system,
-- processes, sockets, randomness, SHA-256, the reading of floating-point numbers and the table of
-- printable runes. A value is one state of the machine, which a call of the code finds throughout.
use claude_code_socket_trans.Json.{Number}
use claude_code_socket_trans.Base.{ℤ, ℕ, Bool, Bytes, List, Option}

pub data Platform : Type 0 where
  linux darwin other_unix windows : Platform

-- `os.ReadDir`: the directory does not exist, cannot be read, or has these names.
pub data Listing : Type 0 where
  missing failed : Listing
  names : List Bytes → Listing

-- An opened file: what `Stat` says of it (`none` is an error), and what reading gives.
pub record File : Type 0 where
  pub stat : Option (Bool × ℕ)
  pub contents : Option Bytes

-- `syscall.Kill(pid, 0)`
pub data Signalled : Type 0 where
  delivered not_permitted no_process : Signalled

pub record Os : Type 0 where
  pub platform : Platform
  pub getenv : Bytes → Bytes
  pub home_dir : Option Bytes
  pub working_dir : Option Bytes
  pub temp_dir : Bytes
  pub uid : ℕ
  pub pid : ℕ
  -- The bytes that `rand.Read` puts into the array of `newUUID`.
  pub random : Option Bytes
  -- `unicode.IsPrint` above the ASCII range.
  pub is_print_wide : ℕ → Bool
  pub sha256 : Bytes → Bytes
  pub read_dir : Bytes → Listing
  -- `openNoFollow`: the system refuses a symlink on unix.
  pub open_no_follow : Bytes → Option File
  pub kill : ℕ → Signalled
  -- Whether `OpenProcess` gives a handle, on Windows.
  pub open_process : ℕ → Bool
  -- The file /proc/<pid>/stat, and what `ps -o lstart= -p <pid>` prints.
  pub proc_stat : ℕ → Option Bytes
  pub ps_lstart : ℕ → Option Bytes
  -- Whether a dial of the socket path succeeds within the timeout, in nanoseconds.
  pub accepts : Bytes → ℕ → Bool
  -- What `strconv.ParseFloat` makes of a well-formed number, if it is in range.
  pub parse_float : Bytes → Option Number
  -- `int(v)` of a `float64` that is out of range, which Go leaves to the platform.
  pub wide_int : Number → ℤ
