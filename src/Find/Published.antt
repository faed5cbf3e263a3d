-- ===== src/Find/Published.antt =====
-- The lookups find what a session published.
use claude_code_socket_trans.Find.ByPid.{find_by_pid_iff}
use claude_code_socket_trans.Session.Published.{Describes, read_session_file-Describes}
use claude_code_socket_trans.Find.{find_by_pid}
use claude_code_socket_trans.Json.Tokens.{tokens}
use claude_code_socket_trans.Session.{read_small_file, max_registry_file_bytes, Session}
use claude_code_socket_trans.Decimal.{max_int}
use claude_code_socket_trans.Registry.Listed.{entry_file}
use claude_code_socket_trans.Paths.{sessions_dir}
use claude_code_socket_trans.Json.Members.{AreScalars, Members, object_tokens, AreScalars}
use claude_code_socket_trans.Base.{ℕ, Bytes, List, ◌≡◌, ok, Has, ◌≤◌, some}
use claude_code_socket_trans.Os.{Os, names}
use claude_code_socket_trans.Filepath

-- Where the sessions directory is found and lists the file <pid>.json, for a PID that fits an int,
-- and that file can be read and is a JSON text of an object of strings, numbers that ParseFloat
-- accepts, booleans and nulls, FindByPID gives an entry with this PID, and with each of its fields
-- from the last member that has exactly its name: a string or a time where that has the right type
-- and range, and the zero value else; the peer protocol is the whole part of a number that fits an
-- int, what Go makes of a number that does not, and 0 else.
pub find_by_pid-published :
    (os : Os) (pid : ℕ) {dir s : Bytes} {ns : List Bytes} (ms : Members)
    → sessions_dir os ≡ ok dir
    → os.read_dir dir ≡ names ns
    → Has (entry_file pid) ns
    → pid ≤ max_int
    → read_small_file os (Filepath.join dir (entry_file pid)) max_registry_file_bytes ≡ ok s
    → tokens 0 s ≡ some (object_tokens ms)
    → AreScalars os.parse_float ms
    → (e : Session) × (find_by_pid os pid ≡ ok e) × (e.pid ≡ pid) × Describes os ms e
find_by_pid-published os pid {dir} ms d n l f r t h =
    let (e, read, same, says) =
      read_session_file-Describes os (Filepath.join dir (entry_file pid)) pid ms r t h in
    (e, (find_by_pid_iff os d n pid e).1 (l, f, read), same, says)
