-- ===== src/Find/ByPid.antt =====
-- `FindByPID` gives exactly the entry of the PID's own file.
use claude_code_socket_trans.Registry.Order.{All-sort, Has-sort}
use claude_code_socket_trans.Decimal.{max_int}
use claude_code_socket_trans.Registry.{sort, list_sessions, read_entries, listed}
use mathlib.Core.Path.{subst}
use claude_code_socket_trans.Paths.{sessions_dir}
use native.Mathlib.Decide.{ℕ_discrete}
use claude_code_socket_trans.Session.{Session, read_session_file}
use claude_code_socket_trans.Base.{
  ok_injective, ℕ, List, All, ◌≡◌, ok, ◌∷◌, [], arith, ◌≢◌, err, Has, Error, Bytes, not_found, sym,
  ◌⊎◌, ◌∙◌, inl, refl, ap, ◌↔◌, inr, ◌>>=◌, ◌≤◌,
}
use claude_code_socket_trans.Os.{Os, names}
use claude_code_socket_trans.Find.{find_by_pid, first_with_pid, Session, list_sessions}
use claude_code_socket_trans.Registry.Listed.{
  IsRead, entry_file, read_entries-IsRead, read_entries-Has, read_session_file-pid,
}
use claude_code_socket_trans.Filepath

first_with_pid-match :
    (pid : ℕ) (t : Session) (ts : List Session) → t.pid ≡ pid → first_with_pid pid (t ∷ ts) ≡ ok t
unfolding first_with_pid
first_with_pid-match pid t ts e = ground arith

first_with_pid-other :
    (pid : ℕ) (t : Session) (ts : List Session)
    → t.pid ≢ pid
    → first_with_pid pid (t ∷ ts) ≡ first_with_pid pid ts
unfolding first_with_pid
first_with_pid-other pid t ts e = ground arith

first_with_pid-nil : (pid : ℕ) → first_with_pid pid [] ≡ err not_found
unfolding first_with_pid
first_with_pid-nil pid = refl

-- What is found has the PID, and whatever holds of every entry.
first_with_pid-All :
    (P : Session → Type 0) (pid : ℕ) (ss : List Session) {s : Session}
    → All P ss
    → first_with_pid pid ss ≡ ok s
    → P s × (s.pid ≡ pid)
first_with_pid-All P pid [] _ h = cc (first_with_pid-nil pid)
first_with_pid-All P pid (t ∷ ts) {s} (p, ps) h = elim (ℕ_discrete t.pid pid) [
  | yes e ↦
      let same = ok_injective (sym (first_with_pid-match pid t ts e) ∙ h) in
      (subst P same p, ap (λ u. u.pid) (sym same) ∙ e)
  | no n ↦ first_with_pid-All P pid ts ps (sym (first_with_pid-other pid t ts n) ∙ h)
]

-- An entry with the PID is found, or one before it.
first_with_pid-Has :
    (pid : ℕ) (ss : List Session) (s : Session)
    → Has s ss
    → s.pid ≡ pid
    → (t : Session) × (first_with_pid pid ss ≡ ok t)
first_with_pid-Has pid [] s h e = absurd h
first_with_pid-Has pid (t ∷ ts) s h e = elim (ℕ_discrete t.pid pid) [
  | yes same ↦ (t, first_with_pid-match pid t ts same)
  | no n ↦ pass n (first_with_pid-Has pid ts s (rest n h) e)
]
  where
    rest : t.pid ≢ pid → (s ≡ t) ⊎ Has s ts → Has s ts
    rest n (inl q) = absurd (n (ap (λ u. u.pid) (sym q) ∙ e))
    rest n (inr q) = q

    pass :
        t.pid ≢ pid
        → (u : Session) × (first_with_pid pid ts ≡ ok u)
        → (u : Session) × (first_with_pid pid (t ∷ ts) ≡ ok u)
    pass n (u, q) = (u, first_with_pid-other pid t ts n ∙ q)

first_with_pid-err :
    (pid : ℕ) (ss : List Session) (e : Error) → first_with_pid pid ss ≡ err e → e ≡ not_found
unfolding first_with_pid
first_with_pid-err pid [] e h = cc
first_with_pid-err pid (t ∷ ts) e h = ground (arith, first_with_pid-err pid ts e)

module _ (os : Os) {dir : Bytes} {ns : List Bytes} (located : sessions_dir os ≡ ok dir)
    (present : os.read_dir dir ≡ names ns) where
  abbrev collected : List Session
  collected = sort (read_entries os dir ns)

  find_by_pid-collected : (pid : ℕ) → find_by_pid os pid ≡ first_with_pid pid collected
  unfolding find_by_pid list_sessions
  find_by_pid-collected pid = rw (located, ◌>>=◌) (rw (present, listed) refl)

  -- Where the sessions directory can be found and read, FindByPID fails with ErrNotFound only.
  pub find_by_pid_err : (pid : ℕ) (e : Error) → find_by_pid os pid ≡ err e → e ≡ not_found
  find_by_pid_err pid e h = first_with_pid-err pid collected e (sym (find_by_pid-collected pid) ∙ h)

  -- Where the sessions directory can be found and read, FindByPID returns an entry exactly when the
  -- directory holds the file <pid>.json, the PID fits an int, and reading that file gives the
  -- entry.
  pub find_by_pid_iff :
      (pid : ℕ) (s : Session)
      → (find_by_pid os pid ≡ ok s) ↔ (
          Has (entry_file pid) ns
          × (pid ≤ max_int)
          × (read_session_file os (Filepath.join dir (entry_file pid)) pid ≡ ok s))
  find_by_pid_iff pid s = (sound s, λ (h, f, r). complete s h f r)
    where
      every : All (IsRead os dir ns) collected
      every = All-sort (IsRead os dir ns) (read_entries os dir ns) (read_entries-IsRead os dir ns)

      sound :
          (s : Session)
          → find_by_pid os pid ≡ ok s
          → Has (entry_file pid) ns
            × (pid ≤ max_int)
            × (read_session_file os (Filepath.join dir (entry_file pid)) pid ≡ ok s)
      sound s h =
          let (r, e) =
            first_with_pid-All (IsRead os dir ns) pid collected every
              (sym (find_by_pid-collected pid) ∙ h) in
          (
            subst (λ k. Has (entry_file k) ns) e r.listed,
            subst (λ k. k ≤ max_int) e r.fits,
            subst (λ k. read_session_file os (Filepath.join dir (entry_file k)) k ≡ ok s) e r.read,
          )

      complete :
          (s : Session)
          → Has (entry_file pid) ns
          → pid ≤ max_int
          → read_session_file os (Filepath.join dir (entry_file pid)) pid ≡ ok s
          → find_by_pid os pid ≡ ok s
      complete s h f r =
          let (t, q) =
            first_with_pid-Has pid collected s
              (Has-sort s (read_entries os dir ns) (read_entries-Has os dir ns pid s h f r))
              (read_session_file-pid os (Filepath.join dir (entry_file pid)) pid r) in
          let (_, _, r') = sound t (find_by_pid-collected pid ∙ q) in
          find_by_pid-collected pid ∙ q ∙ sym r' ∙ r
