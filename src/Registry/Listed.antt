-- ===== src/Registry/Listed.antt =====
-- Which entries the loop of `ListSessions` collects.
use mathlib.Core.Path.{subst}
use claude_code_socket_trans.Registry.Names.{registry_pid_sound, registry_pid_complete}
use claude_code_socket_trans.Decimal.{itoa, max_int}
use claude_code_socket_trans.Base.{
  ℕ, List, Bytes, ◌∷◌, All, ◌≡◌, ◌≢◌, ◌++◌, ◌≤◌, inr, Option, codes, ok, some, [], arith, Result,
  err, none, refl, sym, inl, Has,
}
use claude_code_socket_trans.Registry.{read_entries, itoa, Session, registry_pid, kept, keep_read}
use claude_code_socket_trans.Os.{Os}
use claude_code_socket_trans.Session.{read_session_file, Session}
use claude_code_socket_trans.Filepath

-- No name stands twice, as `os.ReadDir` gives them.
abbrev pub DistinctNames : List Bytes → Type 0
DistinctNames [] = Unit
DistinctNames (n ∷ ns) = All (λ m. n ≢ m) ns × DistinctNames ns

-- The file of a PID, read: the entry that the directory holds for it.
abbrev pub entry_file : ℕ → Bytes
entry_file pid = itoa pid ++ codes ".json"

pub read_session_file-pid :
    (os : Os) (path : Bytes) (pid : ℕ) {s : Session}
    → read_session_file os path pid ≡ ok s
    → s.pid ≡ pid
unfolding read_session_file
read_session_file-pid os path pid h = ground arith

-- Where an entry of the list comes from.
pub record IsRead (os : Os) (dir : Bytes) (ns : List Bytes) (s : Session) : Type 0 where
  pub listed : Has (entry_file s.pid) ns
  pub fits : s.pid ≤ max_int
  pub read : read_session_file os (Filepath.join dir (entry_file s.pid)) s.pid ≡ ok s

module _ (os : Os) (dir : Bytes) where
  later-IsRead :
      (n : Bytes) (ns : List Bytes) (ss : List Session)
      → All (IsRead os dir ns) ss
      → All (IsRead os dir (n ∷ ns)) ss
  later-IsRead n ns [] _ = tt
  later-IsRead n ns (s ∷ ss) (h, hs) =
      (record { listed = inr h.listed; fits = h.fits; read = h.read }, later-IsRead n ns ss hs)

  first-IsRead :
      (n : Bytes) (ns : List Bytes) (pid : ℕ) (s : Session)
      → registry_pid n ≡ some pid
      → read_session_file os (Filepath.join dir n) pid ≡ ok s
      → IsRead os dir (n ∷ ns) s
  first-IsRead n ns pid s p r =
      let same = sym (read_session_file-pid os (Filepath.join dir n) pid r) in
      let (named, fits) = registry_pid_sound n pid p in
      record {
        listed = subst (λ k. Has (entry_file k) (n ∷ ns)) same (inl (sym named));
        fits = subst (λ k. k ≤ max_int) same fits;
        read =
            subst (λ k. read_session_file os (Filepath.join dir (entry_file k)) k ≡ ok s) same
              (subst (λ m. read_session_file os (Filepath.join dir m) pid ≡ ok s) named r);
      }

  -- Every collected entry is the file of its PID.
  pub read_entries-IsRead : (ns : List Bytes) → All (IsRead os dir ns) (read_entries os dir ns)
  unfolding read_entries
  read_entries-IsRead [] = tt
  read_entries-IsRead (n ∷ ns) =
      choose (registry_pid n) refl
        (later-IsRead n ns (read_entries os dir ns) (read_entries-IsRead ns))
    where
      choose :
          (o : Option ℕ)
          → registry_pid n ≡ o
          → All (IsRead os dir (n ∷ ns)) (read_entries os dir ns)
          → All
              (IsRead os dir (n ∷ ns))
              (kept o (read_session_file os (Filepath.join dir n)) (read_entries os dir ns))
      choose none e rest = rest
      choose (some pid) e rest = inner (read_session_file os (Filepath.join dir n) pid) refl rest
        where
          inner :
              (r : Result Session)
              → read_session_file os (Filepath.join dir n) pid ≡ r
              → All (IsRead os dir (n ∷ ns)) (read_entries os dir ns)
              → All (IsRead os dir (n ∷ ns)) (keep_read r (read_entries os dir ns))
          inner (err e) _ rest = rest
          inner (ok s) f rest = (first-IsRead n ns pid s e f, rest)

  -- Every file of a PID that can be read is collected.
  pub read_entries-Has :
      (ns : List Bytes) (pid : ℕ) (s : Session)
      → Has (entry_file pid) ns
      → pid ≤ max_int
      → read_session_file os (Filepath.join dir (entry_file pid)) pid ≡ ok s
      → Has s (read_entries os dir ns)
  unfolding read_entries
  read_entries-Has [] pid s h f r = h
  read_entries-Has (n ∷ ns) pid s (inl e) f r = rw (← e) (
      rw (registry_pid_complete pid f)
        (subst (λ q. Has s (keep_read q (read_entries os dir ns))) (sym r) (inl refl)))
  read_entries-Has (n ∷ ns) pid s (inr h) f r =
      skip (registry_pid n) (read_entries-Has ns pid s h f r)
    where
      skip :
          (o : Option ℕ)
          → Has s (read_entries os dir ns)
          → Has s (kept o (read_session_file os (Filepath.join dir n)) (read_entries os dir ns))
      skip none rest = rest
      skip (some k) rest = inner (read_session_file os (Filepath.join dir n) k) rest
        where
          inner :
              (r : Result Session)
              → Has s (read_entries os dir ns)
              → Has s (keep_read r (read_entries os dir ns))
          inner (err e) rest = rest
          inner (ok t) rest = inr rest
