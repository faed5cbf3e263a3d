-- ===== src/Paths.antt =====
-- paths.go, and `checkSocketDirOwnership` of the platform files.
pub mod Bounds
pub mod Checks
use claude_code_socket_trans.Decimal.{itoa}
use claude_code_socket_trans.Base.{
  ℕ, Bool, bytes_dec, Result, Bytes, List, Option, codes, if◌then◌else◌, ◌++◌, err, false, ◌>>◌,
  ◌>>=◌, ◌is◌, ok, not, ◌∷◌, guard, unverifiable, [], leb, ◌||◌, ◌==◌, making_dir, ◌&&◌, length,
  empty_socket_path, checking_dir, ◌%◌, none, no_home, dotdot_segment, some, ◌^◌, wrong_owner,
  is_symlink, accessible, not_directory, split,
}
use claude_code_socket_trans.Os.{Os, windows}
use Prim.Native.Nat.{bit_and}
use claude_code_socket_trans.Filepath

abbrev pub max_socket_path_bytes : ℕ
max_socket_path_bytes = 103

unfoldable pub config_dir : Os → Result Bytes
unfolding bytes_dec Filepath.join
config_dir os =
    let d = os.getenv (codes "CLAUDE_CONFIG_DIR") in
    if d is []
    then elim os.home_dir [
      | none ↦ err no_home
      | some home ↦ ok (Filepath.join home (codes ".claude"))
    ]
    else ok d

unfoldable pub sessions_dir : Os → Result Bytes
unfolding config_dir
sessions_dir os = do cfg ← config_dir os; ok (Filepath.join cfg (codes "sessions"))

-- The first of the values that is not empty.
abbrev first_set : Bytes → Bytes → Bytes
first_set a b = if a is [] then b else a

unfoldable pub sockets_dir : Os → Bytes
unfolding bytes_dec Filepath.join
sockets_dir os =
    Filepath.join
      (first_set (os.getenv (codes "XDG_RUNTIME_DIR"))
        (first_set (os.getenv (codes "CLAUDE_CODE_TMPDIR")) os.temp_dir))
      (codes "cc-socks")

unfoldable pub socket_file : ℕ → Bytes
unfolding itoa
socket_file pid = itoa pid ++ codes ".sock"

-- The directory in which the fallback lies.
unfoldable pub fallback_base : Os → Bytes
unfolding bytes_dec Filepath.join
fallback_base os =
    let prefix = os.getenv (codes "PREFIX") in
    if not (os.getenv (codes "TERMUX_VERSION") is []) && not (prefix is [])
    then Filepath.join prefix (codes "tmp")
    else codes "/tmp"

unfoldable pub fallback_path : Os → ℕ → Bytes
unfolding fallback_base socket_file
fallback_path os pid =
    Filepath.join (Filepath.join (fallback_base os) (codes "cc-socks-" ++ itoa os.uid))
      (socket_file pid)

unfoldable pub default_socket_path : Os → ℕ → Bytes
unfolding sockets_dir socket_file fallback_path Filepath.abs
default_socket_path os pid =
    elim (Filepath.abs os.working_dir (Filepath.join (sockets_dir os) (socket_file pid))) [
      | err e ↦ fallback_path os pid
      | ok p ↦ if leb (length p) max_socket_path_bytes then p else fallback_path os pid
    ]

-- Whether a segment of the path is "..".
unfoldable pub has_dotdot : List Bytes → Bool
has_dotdot [] = false
has_dotdot (seg ∷ segs) = seg is Filepath.dotdot || has_dotdot segs

unfoldable pub canonical_socket_path : Os → Bytes → Result Bytes
unfolding bytes_dec Filepath.abs
canonical_socket_path os path = do
  guard (not (path is [])) empty_socket_path
  guard (not (has_dotdot (split Filepath.slash path))) dotdot_segment
  Filepath.abs os.working_dir path

-- What `Lstat` says of a directory: its kind, its owner and its permission bits.
pub data FileKind : Type 0 where
  directory symlink other_file : FileKind

pub record DirInfo : Type 0 where
  pub kind : FileKind
  -- Whether `fi.Sys()` is a `*syscall.Stat_t`.
  pub has_stat : Bool
  pub owner : ℕ
  pub perm : ℕ

-- `checkSocketDirOwnership`
abbrev pub unix_check_socket_dir_ownership : Os → DirInfo → Result (Unit {0})
unix_check_socket_dir_ownership os fi = do
  guard fi.has_stat unverifiable
  guard (fi.owner == os.uid % 2 ^ 32) wrong_owner
  guard (bit_and fi.perm 0o077 == 0) accessible

abbrev pub windows_check_socket_dir_ownership : DirInfo → Result (Unit {0})
windows_check_socket_dir_ownership fi = err unverifiable

unfoldable pub check_socket_dir_ownership : Os → DirInfo → Result (Unit {0})
check_socket_dir_ownership os fi = elim os.platform [
  | windows ↦ windows_check_socket_dir_ownership fi
  | _ ↦ unix_check_socket_dir_ownership os fi
]

-- `ensureSocketDir`: whether `MkdirAll` succeeds, and what `Lstat` then gives (`none` is an error).
unfoldable pub ensure_socket_dir : Os → Bool → Option DirInfo → Result (Unit {0})
unfolding check_socket_dir_ownership
ensure_socket_dir os made none = do guard made making_dir; err checking_dir
ensure_socket_dir os made (some fi) = do
  guard made making_dir
  elim fi.kind [
    | symlink ↦ err is_symlink
    | other_file ↦ err not_directory
    | directory ↦ check_socket_dir_ownership os fi
  ]
