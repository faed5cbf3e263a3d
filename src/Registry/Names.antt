-- ===== src/Registry/Names.antt =====
-- Which file names `ListSessions` reads, and as what PID.
use claude_code_socket_trans.Decimal.{span_digits, itoa, atoi, is_digit, max_int}
use claude_code_socket_trans.Base.{
  ℕ, Bytes, ◌++◌, All, ◌≡◌, ◌≢◌, Option, ◌∷◌, some, [], codes, arith, true, sym, ◌≤◌, false, ◌∙◌,
  none, refl, ap, ◌↔◌,
}
use claude_code_socket_trans.Registry.{
  registry_pid, pid_json, canonical_pid, itoa, atoi, digits_before, checked_pid,
}
use claude_code_socket_trans.Decimal.RoundTrip.{atoi-itoa, itoa-All, itoa-ne-nil}

span_digits-append : (s : Bytes) → (span_digits s).0 ++ (span_digits s).1 ≡ s
unfolding span_digits
span_digits-append [] = refl
span_digits-append (c ∷ s) = ground (arith, span_digits-append s)

pub span_digits-All :
    (ds : Bytes) (c : ℕ) (s : Bytes)
    → All (λ d. is_digit d ≡ true) ds
    → is_digit c ≡ false
    → span_digits (ds ++ (c ∷ s)) ≡ (ds, c ∷ s)
unfolding span_digits
span_digits-All [] c s _ h = ground arith
span_digits-All (d ∷ ds) c s (hd, hs) h = ground (arith, span_digits-All ds c s hs h)

digits_before-eq-some :
    (suffix : Bytes) (p : Bytes × Bytes) (m : Bytes)
    → digits_before suffix p ≡ some m
    → p.0 ++ p.1 ≡ m ++ suffix
digits_before-eq-some suffix ([], rest) m h = cc
digits_before-eq-some suffix (d ∷ ds, rest) m h = ground arith

pid_json-eq-some : (name m : Bytes) → pid_json name ≡ some m → name ≡ m ++ codes ".json"
pid_json-eq-some name m h =
    sym (span_digits-append name)
    ∙ digits_before-eq-some (codes ".json") (span_digits name) m (unfold pid_json in h)

digits_before-match : (suffix ds : Bytes) → ds ≢ [] → digits_before suffix (ds, suffix) ≡ some ds
digits_before-match suffix [] h = absurd (h refl)
digits_before-match suffix (d ∷ ds) h = ground arith

pid_json-itoa : (pid : ℕ) → pid_json (itoa pid ++ codes ".json") ≡ some (itoa pid)
unfolding pid_json
pid_json-itoa pid =
    rw (span_digits-All (itoa pid) b'.' (codes "json") (itoa-All pid) (unfold is_digit in refl))
      (digits_before-match (codes ".json") (itoa pid) (itoa-ne-nil pid))

atoi-le : (s : Bytes) (n : ℕ) → atoi s ≡ some n → n ≤ max_int
unfolding atoi
atoi-le s n h = ground arith

canonical_pid-eq-some :
    (m : Bytes) (o : Option ℕ) (pid : ℕ)
    → canonical_pid m o ≡ some pid
    → (o ≡ some pid) × (itoa pid ≡ m)
canonical_pid-eq-some m none pid h = cc
canonical_pid-eq-some m (some n) pid h = ground arith

checked_pid-parts :
    (o : Option Bytes) (pid : ℕ)
    → checked_pid o ≡ some pid
    → (m : Bytes) × (o ≡ some m) × (atoi m ≡ some pid) × (itoa pid ≡ m)
checked_pid-parts none pid h = cc
checked_pid-parts (some m) pid h =
    let (a, b) = canonical_pid-eq-some m (atoi m) pid h in (m, refl, a, b)

pub registry_pid_sound :
    (name : Bytes) (pid : ℕ)
    → registry_pid name ≡ some pid
    → (name ≡ itoa pid ++ codes ".json") × (pid ≤ max_int)
unfolding registry_pid
registry_pid_sound name pid h =
    let (m, e, a, b) = checked_pid-parts (pid_json name) pid h in
    (pid_json-eq-some name m e ∙ ap (λ d. d ++ codes ".json") (sym b), atoi-le m pid a)

pub registry_pid_complete :
    (pid : ℕ) → pid ≤ max_int → registry_pid (itoa pid ++ codes ".json") ≡ some pid
unfolding registry_pid
registry_pid_complete pid h = rw (pid_json-itoa, atoi-itoa pid h) (ground arith)

-- A file is read as the entry of a PID exactly when its name is that PID, in decimal with no
-- leading zeros, and ".json", and the PID fits an int.
pub registry_pid_iff :
    (name : Bytes) (pid : ℕ)
    → (registry_pid name ≡ some pid) ↔ ((name ≡ itoa pid ++ codes ".json") × (pid ≤ max_int))
registry_pid_iff name pid =
    (registry_pid_sound name pid, λ (e, h). rw e (registry_pid_complete pid h))

-- So two names never stand for one PID.
pub registry_pid_injective :
    (a b : Bytes) (pid : ℕ) → registry_pid a ≡ some pid → registry_pid b ≡ some pid → a ≡ b
registry_pid_injective a b pid p q =
    (registry_pid_sound a pid p).0 ∙ sym (registry_pid_sound b pid q).0
