-- ===== src/Inbox/Binding.antt =====
-- When an inbox is bound, and under which umask.
use mathlib.Core.Path.{subst}
use claude_code_socket_trans.Session.{probe, default_probe_timeout}
use claude_code_socket_trans.Paths.{ensure_socket_dir, DirInfo}
use claude_code_socket_trans.Base.{
  ℕ, Bool, List, Bytes, Option, Result, ◌≡◌, ◌≢◌, All, [], ◌-◌, ok, arith, refl, ◌+◌, err, some,
  ◌↔◌, true, false, ◌∷◌, sym, none, some-injective,
}
use claude_code_socket_trans.Inbox.Listen.{
  Binding, listen, removed, umask_set, bound, restricted, listener_closed, serving, ListenEvent,
  bind_socket, tight_umask, inbox_path, bind_checked, Listened,
}
use claude_code_socket_trans.Paths.Checks.{IsPrivate, ensure_socket_dir_iff}
use claude_code_socket_trans.Os.{Os, windows}
use claude_code_socket_trans.Filepath

-- What a run of events does to the umask, and the umasks under which sockets are bound.
unfoldable pub umask_after : ℕ → List ListenEvent → ℕ
umask_after m [] = m
umask_after m (umask_set n ∷ es) = umask_after n es
umask_after m (removed p ∷ es) = umask_after m es
umask_after m (bound p ∷ es) = umask_after m es
umask_after m (restricted p n ∷ es) = umask_after m es
umask_after m (listener_closed ∷ es) = umask_after m es
umask_after m (serving ∷ es) = umask_after m es

unfoldable pub bound_under : ℕ → List ListenEvent → List ℕ
bound_under m [] = []
bound_under m (umask_set n ∷ es) = bound_under n es
bound_under m (removed p ∷ es) = bound_under m es
bound_under m (bound p ∷ es) = m ∷ bound_under m es
bound_under m (restricted p n ∷ es) = bound_under m es
bound_under m (listener_closed ∷ es) = bound_under m es
bound_under m (serving ∷ es) = bound_under m es

-- The listeners that are open behind a run of events.
unfoldable pub open_listeners : ℕ → List ListenEvent → ℕ
open_listeners n [] = n
open_listeners n (bound p ∷ es) = open_listeners (n + 1) es
open_listeners n (listener_closed ∷ es) = open_listeners (n - 1) es
open_listeners n (umask_set m ∷ es) = open_listeners n es
open_listeners n (removed p ∷ es) = open_listeners n es
open_listeners n (restricted p m ∷ es) = open_listeners n es
open_listeners n (serving ∷ es) = open_listeners n es

abbrev pub one_if_ok : Result Bytes → ℕ
one_if_ok (ok p) = 1
one_if_ok (err e) = 0

-- What `Listen` leaves behind: the umask as it was, every bind under the tight umask, and a listener
-- exactly where it succeeds.
pub record IsTidy (b : Binding) (d : Listened) : Type 0 where
  pub umask_kept : umask_after b.umask d.events ≡ b.umask
  pub tight_binds : All (λ m. m ≡ tight_umask) (bound_under b.umask d.events)
  pub listeners : open_listeners 0 d.events ≡ one_if_ok d.result

bind_socket-IsTidy :
    (os : Os) (b : Binding) (path : Bytes)
    → os.platform ≢ windows
    → IsTidy b (bind_socket os b path)
unfolding bind_socket umask_after bound_under open_listeners
bind_socket-IsTidy os b path u = ground arith

ensure_socket_dir-windows :
    (os : Os) (made : Bool) (fi : Option DirInfo) {u : Unit {0}}
    → ensure_socket_dir os made fi ≡ ok u
    → os.platform ≢ windows
unfolding ensure_socket_dir
ensure_socket_dir-windows os made fi h = ground arith

-- However Listen ends, the umask is as it was before, every bind was under the umask 0177, and one
-- listener is left open if it succeeds, and none if it fails.
pub listen-IsTidy : (os : Os) (b : Binding) → IsTidy b (listen os b)
unfolding listen umask_after bound_under open_listeners
listen-IsTidy os b =
    let dir = Filepath.dir (inbox_path os) in
    tested (ensure_socket_dir os (b.mkdir_ok dir) (b.lstat dir)) refl
      (probe os (inbox_path os) default_probe_timeout) refl
  where
    tested :
        (r : Result (Unit {0}))
        → ensure_socket_dir os
            (b.mkdir_ok (Filepath.dir (inbox_path os)))
            (b.lstat (Filepath.dir (inbox_path os)))
          ≡ r
        → (live : Bool) → probe os (inbox_path os) default_probe_timeout ≡ live
        → IsTidy b (bind_checked os b (inbox_path os) r)
    tested (err e) h live k = record { umask_kept = refl; tight_binds = tt; listeners = refl }
    tested (ok u) h true k = rw k (record { umask_kept = refl; tight_binds = tt; listeners = refl })
    tested (ok u) h false k =
        let t = bind_socket-IsTidy os b (inbox_path os) (ensure_socket_dir-windows os _ _ h) in
        rw k (record {
          umask_kept = t.umask_kept;
          tight_binds = t.tight_binds;
          listeners = t.listeners;
        })

-- The directory in which `Listen` binds is private.
abbrev pub IsPrivateAt : Os → Binding → Bytes → Type 0
IsPrivateAt os b dir = (fi : DirInfo) × (b.lstat dir ≡ some fi) × IsPrivate os fi

bind_checked_iff :
    (os : Os) (b : Binding) (q path : Bytes) (r : Result (Unit {0}))
    → ((bind_checked os b q r).result ≡ ok path) ↔ (
        (path ≡ q)
        × (r ≡ ok tt)
        × (probe os q default_probe_timeout ≡ false)
        × (b.bind_ok q ≡ true)
        × (b.chmod_ok q ≡ true))
unfolding bind_socket
bind_checked_iff os b q path (err e) = (λ h. ground arith, λ h. ground arith)
bind_checked_iff os b q path (ok u) = (λ h. ground arith, λ h. ground arith)

ensured_iff :
    (os : Os) (made : Bool) (o : Option DirInfo)
    → (ensure_socket_dir os made o ≡ ok tt)
      ↔ ((fi : DirInfo) × (o ≡ some fi) × (made ≡ true) × IsPrivate os fi)
ensured_iff os made none =
    (λ h. unfold ensure_socket_dir in ground arith, λ (fi, e, _, _). ground arith)
ensured_iff os made (some fi) = (
  λ h. let (m, i) = (ensure_socket_dir_iff os made fi).0 h in (fi, refl, m, i),
  λ (fj, e, m, i).
      (ensure_socket_dir_iff os made fi).1
        (m, subst (λ d. IsPrivate os d) (sym (some-injective _ _ e)) i),
)

-- Listen binds an inbox exactly when MkdirAll made the directory of the path, the directory is
-- private, nobody answers on the path, and the bind and the chmod succeed; the path of the inbox is
-- then the default one of this process.
pub listen_iff :
    (os : Os) (b : Binding) (path : Bytes)
    → ((listen os b).result ≡ ok path) ↔ (
        (path ≡ inbox_path os)
        × (b.mkdir_ok (Filepath.dir (inbox_path os)) ≡ true)
        × IsPrivateAt os b (Filepath.dir (inbox_path os))
        × (probe os (inbox_path os) default_probe_timeout ≡ false)
        × (b.bind_ok (inbox_path os) ≡ true)
        × (b.chmod_ok (inbox_path os) ≡ true))
unfolding listen
listen_iff os b path =
    let dir = Filepath.dir (inbox_path os) in
    let checked =
      bind_checked_iff os b (inbox_path os) path
        (ensure_socket_dir os (b.mkdir_ok dir) (b.lstat dir)) in
    let ensured = ensured_iff os (b.mkdir_ok dir) (b.lstat dir) in
    (
      λ h.
          let (e, r, p, l, c) = checked.0 h in
          let (fi, s, m, i) = ensured.0 r in (e, m, (fi, s, i), p, l, c),
      λ (e, m, (fi, s, i), p, l, c). checked.1 (e, ensured.1 (fi, s, m, i), p, l, c),
    )
