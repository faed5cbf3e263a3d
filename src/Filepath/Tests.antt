-- ===== src/Filepath/Tests.antt =====
-- Runs of the path functions.

use claude_code_socket_trans.Base.{codes, [], ◌≡◌, refl, has_prefix, split}
use claude_code_socket_trans.Filepath.{clean, join, dir, is_abs, push_all, push, spell}

cleaned : clean (codes "/a//b/./c/../d/") ≡ codes "/a/b/d"
unfolding clean is_abs push_all push spell split has_prefix
cleaned = refl

above_root : clean (codes "/../a") ≡ codes "/a"
unfolding clean is_abs push_all push spell split has_prefix
above_root = refl

relative : clean (codes "../x/..") ≡ codes ".."
unfolding clean is_abs push_all push spell split has_prefix
relative = refl

empty_path : clean [] ≡ codes "."
unfolding clean is_abs push_all push spell split has_prefix
empty_path = refl

joined : join (codes "/run") (codes "cc-socks") ≡ codes "/run/cc-socks"
unfolding join clean is_abs push_all push spell split has_prefix
joined = refl

parent : dir (codes "/run/cc-socks/1.sock") ≡ codes "/run/cc-socks"
unfolding dir clean is_abs push_all push spell split has_prefix
parent = refl
