-- ===== src/Paths/Checks.antt =====
-- What `ensureSocketDir` and `canonicalSocketPath` let through.
use claude_code_socket_trans.Filepath.{slash, dotdot, is_abs, clean, join}
use claude_code_socket_trans.Base.{
  Bool, Bytes, ◌≢◌, some, ◌≡◌, ok, ◌↔◌, true, [], arith, ◌%◌, ◌^◌, List, if◌then◌else◌, ◌∷◌,
  bytes_dec, Bool-cases, inl, inr,
}
use claude_code_socket_trans.Os.{Os, windows}
use claude_code_socket_trans.Paths.{
  ensure_socket_dir, canonical_socket_path, DirInfo, directory, has_dotdot, bit_and, split,
}

-- A directory of ours that nobody else can enter, on a system where that can be told.
pub record IsPrivate (os : Os) (fi : DirInfo) : Type 0 where
  pub on_unix : os.platform ≢ windows
  pub is_dir : fi.kind ≡ directory
  pub known : fi.has_stat ≡ true
  pub owned : fi.owner ≡ os.uid % 2 ^ 32
  pub closed : bit_and fi.perm 0o077 ≡ 0

-- ensureSocketDir, where Lstat answers, succeeds exactly when MkdirAll did and the directory is
-- private: on unix, no symlink, owned by us and closed to group and others.
pub ensure_socket_dir_iff :
    (os : Os) (made : Bool) (fi : DirInfo)
    → (ensure_socket_dir os made (some fi) ≡ ok tt) ↔ ((made ≡ true) × IsPrivate os fi)
unfolding ensure_socket_dir
ensure_socket_dir_iff os made fi = (λ h. ground arith, λ h. ground arith)

-- A "..": the path is that segment, begins with it, ends with it or holds it between two slashes.
pub data HasDotdot : List Bytes → Type 0 where
  here : {seg : Bytes} {segs : List Bytes} → seg ≡ dotdot → HasDotdot (seg ∷ segs)
  there : {seg : Bytes} {segs : List Bytes} → HasDotdot segs → HasDotdot (seg ∷ segs)

has_dotdot_complete : {segs : List Bytes} → HasDotdot segs → has_dotdot segs ≡ true
has_dotdot_complete (here {seg} {segs} e) = first seg segs e
  where
    first : (seg : Bytes) (segs : List Bytes) → seg ≡ dotdot → has_dotdot (seg ∷ segs) ≡ true
    first seg segs e = unfold has_dotdot in ground arith
has_dotdot_complete (there {seg} {segs} h) = later seg segs (has_dotdot_complete h)
  where
    later :
        (seg : Bytes) (segs : List Bytes) → has_dotdot segs ≡ true → has_dotdot (seg ∷ segs) ≡ true
    later seg segs e = unfold has_dotdot in ground arith

has_dotdot_sound : (segs : List Bytes) → has_dotdot segs ≡ true → HasDotdot segs
unfolding has_dotdot
has_dotdot_sound [] h = cc
has_dotdot_sound (seg ∷ segs) h = elim (bytes_dec seg dotdot) [
  | yes e ↦ here e
  | no n ↦ there (has_dotdot_sound segs (ground arith))
]

-- With a working directory, canonicalSocketPath accepts exactly the paths that are not empty and
-- have no segment "..", and makes them absolute and clean.
pub canonical_socket_path_iff :
    (os : Os) (wd path p : Bytes)
    → os.working_dir ≡ some wd
    → (canonical_socket_path os path ≡ ok p) ↔ (
        (path ≢ [])
        × (¬ (HasDotdot (split slash path)))
        × (p ≡ (if is_abs path then clean path else join wd path)))
unfolding canonical_socket_path
canonical_socket_path_iff os wd path p h = elim (Bool-cases (has_dotdot (split slash path))) [
  | inl t ↦ (λ e. ground arith, λ (_, d, _). absurd (d (has_dotdot_sound (split slash path) t)))
  | inr f ↦ (
    λ e. (ground arith, λ d. ground (arith, has_dotdot_complete d), ground arith),
    λ (n, _, q). ground arith,
  )
]
