-- ===== src/Registry/Sorted.antt =====
-- The order of the sessions that `ListSessions` returns.
use claude_code_socket_trans.Registry.Precedes.{IsOrdered, IsSorted-IsOrdered}
use claude_code_socket_trans.Registry.Names.{registry_pid_sound}
use claude_code_socket_trans.Registry.Order.{DistinctPids, Apart, sort-IsSorted, sort-perm}
use claude_code_socket_trans.Registry.Listed.{
  DistinctNames, entry_file, IsRead, read_session_file-pid, read_entries-IsRead,
}
use claude_code_socket_trans.Paths.{sessions_dir}
use claude_code_socket_trans.Session.{Session, read_session_file}
use claude_code_socket_trans.Base.{
  ℕ, List, Bytes, All, ◌≢◌, Has, ◌≡◌, ◌∷◌, ok, inl, Option, inr, sym, ◌>>=◌, [], ◌∙◌, some, Result,
  refl, err, none,
}
use claude_code_socket_trans.Os.{names, Os}
use claude_code_socket_trans.Registry.{
  list_sessions, listed, Session, read_entries, sessions_dir, registry_pid, sort, kept,
  read_session_file, keep_read,
}
use mathlib.Core.Path.{subst, ap}
use claude_code_socket_trans.Registry.Listed.{read_session_file-pid}
use mathlib.Core.List.{Perm}
use claude_code_socket_trans.Filepath

Has-ne : (n : Bytes) (ns : List Bytes) → All (λ m. n ≢ m) ns → Has n ns → ⊥
Has-ne n [] _ h = h
Has-ne n (m ∷ ms) (d, ds) (inl e) = d e
Has-ne n (m ∷ ms) (d, ds) (inr h) = Has-ne n ms ds h

module _ (os : Os) (dir : Bytes) where
  -- An entry of a name is apart from those of other names.
  IsRead-Apart :
      (n : Bytes) (ns : List Bytes) (s : Session)
      → n ≡ entry_file s.pid
      → All (λ m. n ≢ m) ns
      → (ss : List Session) → All (IsRead os dir ns) ss
      → All (Apart s) ss
  IsRead-Apart n ns s named d [] _ = tt
  IsRead-Apart n ns s named d (t ∷ ts) (r, rs) = (
    λ e. Has-ne n ns d (subst (λ m. Has m ns) (ap entry_file (sym e) ∙ sym named) r.listed),
    IsRead-Apart n ns s named d ts rs,
  )

  pub read_entries-DistinctPids :
      (ns : List Bytes) → DistinctNames ns → DistinctPids (read_entries os dir ns)
  unfolding read_entries
  read_entries-DistinctPids [] _ = tt
  read_entries-DistinctPids (n ∷ ns) (d, ds) =
      choose (registry_pid n) refl (read_entries-DistinctPids ns ds)
    where
      choose :
          (o : Option ℕ)
          → registry_pid n ≡ o
          → DistinctPids (read_entries os dir ns)
          → DistinctPids
              (kept o (read_session_file os (Filepath.join dir n)) (read_entries os dir ns))
      choose none e rest = rest
      choose (some pid) e rest = inner (read_session_file os (Filepath.join dir n) pid) refl rest
        where
          inner :
              (r : Result Session)
              → read_session_file os (Filepath.join dir n) pid ≡ r
              → DistinctPids (read_entries os dir ns)
              → DistinctPids (keep_read r (read_entries os dir ns))
          inner (err e) _ rest = rest
          inner (ok s) f rest =
              let (named, _) = registry_pid_sound n pid e in
              let same = read_session_file-pid os (Filepath.join dir n) pid f in
              (
                IsRead-Apart n ns s (named ∙ ap entry_file (sym same)) d (read_entries os dir ns)
                    (read_entries-IsRead os dir ns),
                rest,
              )

-- Where the sessions directory is found and read, with no name twice, ListSessions returns a
-- permutation of the entries that its loop collects, in which each entry started earlier than all
-- behind it, or at the same time with a smaller PID; an entry without a start time counts as the
-- earliest.
pub list_sessions-IsOrdered :
    (os : Os) {dir : Bytes} {ns : List Bytes}
    → sessions_dir os ≡ ok dir
    → os.read_dir dir ≡ names ns
    → DistinctNames ns
    → (ss : List Session) × (list_sessions os ≡ ok ss)
      × IsOrdered ss
      × Perm ss (read_entries os dir ns)
unfolding list_sessions
list_sessions-IsOrdered os {dir} {ns} located present d = (
  sort (read_entries os dir ns),
  rw (located, ◌>>=◌) (rw (present, listed) refl),
  IsSorted-IsOrdered (sort (read_entries os dir ns))
      (sort-IsSorted (read_entries os dir ns) (read_entries-DistinctPids os dir ns d)),
  sort-perm (read_entries os dir ns),
)
