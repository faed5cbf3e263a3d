-- ===== src/Paths/Bounds.antt =====
-- The length of the socket path.
use claude_code_socket_trans.Filepath
use claude_code_socket_trans.Decimal.{max_int, itoa}
use claude_code_socket_trans.Base.{
  ℕ, length, codes, ◌≡◌, ◌≤◌, [], arith, ◌<◌, length-append, ◌^◌, ◌++◌,
}
use claude_code_socket_trans.Os.{Os}
use claude_code_socket_trans.Paths.{
  default_socket_path, max_socket_path_bytes, fallback_path, fallback_base, socket_file,
}
use claude_code_socket_trans.Filepath.Length.{length-join}
use claude_code_socket_trans.Decimal.RoundTrip.{length-itoa}

fallback_base-length :
    (os : Os) → os.getenv (codes "TERMUX_VERSION") ≡ [] → length (fallback_base os) ≡ 4
unfolding fallback_base
fallback_base-length os h = ground arith

length-socket_file : (pid : ℕ) → pid ≤ max_int → length (socket_file pid) ≤ 24
unfolding socket_file
length-socket_file pid h =
    omega (arith, length-append (itoa pid) (codes ".sock"), length-itoa 18 pid (omega arith))

length-fallback_path :
    (os : Os) (pid : ℕ)
    → os.getenv (codes "TERMUX_VERSION") ≡ []
    → os.uid < 2 ^ 32
    → pid ≤ max_int
    → length (fallback_path os pid) ≤ max_socket_path_bytes
unfolding fallback_path
length-fallback_path os pid h hu hp =
    let base = fallback_base os in
    let sub = codes "cc-socks-" ++ itoa os.uid in
    omega (
      arith,
      length-join (Filepath.join base sub) (socket_file pid),
      length-join base sub,
      fallback_base-length os h,
      length-socket_file pid hp,
      length-append (codes "cc-socks-") (itoa os.uid),
      length-itoa 9 os.uid (omega arith),
    )

-- Outside Termux DefaultSocketPath has at most 103 bytes, whatever the environment's directories
-- are, for user ids of 32 bits and PIDs that fit an int.
pub length-default_socket_path :
    (os : Os) (pid : ℕ)
    → os.getenv (codes "TERMUX_VERSION") ≡ []
    → os.uid < 2 ^ 32
    → pid ≤ max_int
    → length (default_socket_path os pid) ≤ max_socket_path_bytes
unfolding default_socket_path
length-default_socket_path os pid h hu hp = ground (arith, length-fallback_path os pid h hu hp)
