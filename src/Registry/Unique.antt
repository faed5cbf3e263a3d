-- ===== src/Registry/Unique.antt =====
-- `ListSessions` does not depend on the order of the directory's entries.
use claude_code_socket_trans.Registry.Listed.{DistinctNames}
use claude_code_socket_trans.Session.{Session, read_session_file}
use claude_code_socket_trans.Base.{
  ℕ, List, Bytes, ◌∷◌, Option, Result, All, sym, ◌≡◌, true, ap, false, ◌⊎◌, ◌∙◌, inl, refl, inr,
  Bool-cases, [], err, some, ok, none,
}
use claude_code_socket_trans.Os.{Os, names}
use claude_code_socket_trans.Registry.{
  listed, sort, insert, read_entries, kept, keep_read, less, registry_pid, Session,
  read_session_file,
}
use claude_code_socket_trans.Registry.Order.{
  insert-before, insert-after, insert-nil, less_total, less_trans, less_asym, Apart, DistinctPids,
  All-sort,
}
use claude_code_socket_trans.Registry.Sorted.{read_entries-DistinctPids}
use claude_code_socket_trans.Filepath

-- One list is the other with neighbours swapped, any number of times.
pub data Reordered {ℓ} {A : Type ℓ} : List A → List A → Type ℓ where
  same : {xs : List A} → Reordered xs xs
  behind : {xs ys : List A} (x : A) → Reordered xs ys → Reordered (x ∷ xs) (x ∷ ys)
  swapped : {xs : List A} (x y : A) → Reordered (x ∷ y ∷ xs) (y ∷ x ∷ xs)
  then : {xs ys zs : List A} → Reordered xs ys → Reordered ys zs → Reordered xs zs

All-Reordered :
    (P : Session → Type 0) {xs ys : List Session} → Reordered xs ys → All P xs → All P ys
All-Reordered P same h = h
All-Reordered P (behind x r) (h, hs) = (h, All-Reordered P r hs)
All-Reordered P (swapped x y) (h, (k, ks)) = (k, (h, ks))
All-Reordered P (then r q) h = All-Reordered P q (All-Reordered P r h)

DistinctPids-Reordered :
    {xs ys : List Session} → Reordered xs ys → DistinctPids xs → DistinctPids ys
DistinctPids-Reordered same h = h
DistinctPids-Reordered (behind x r) (h, hs) =
    (All-Reordered (Apart x) r h, DistinctPids-Reordered r hs)
DistinctPids-Reordered (swapped x y) ((a, h), (k, ks)) = ((λ e. a (sym e), k), (h, ks))
DistinctPids-Reordered (then r q) h = DistinctPids-Reordered q (DistinctPids-Reordered r h)

-- Two insertions of different PIDs can be made in either order.
insert-comm_before :
    (s t u : Session) (us : List Session)
    → Apart t u
    → less u s ≡ true
    → less u t ≡ false
    → insert s (insert t (u ∷ us)) ≡ insert t (insert s (u ∷ us))
insert-comm_before s t u us a p q =
    ap (insert s) (insert-after t u us q)
    ∙ insert-before s t (u ∷ us) (less_trans t u s (less_total t u a q) p)
    ∙ ap (◌∷◌ t) (insert-before s u us p)
    ∙ sym (insert-after t u (insert s us) q)
    ∙ ap (insert t) (sym (insert-before s u us p))

insert-comm_after :
    (s t u : Session) (us : List Session)
    → less t s ≡ true
    → less u s ≡ false
    → less u t ≡ false
    → insert s (insert t (u ∷ us)) ≡ insert t (insert s (u ∷ us))
insert-comm_after s t u us h p q =
    ap (insert s) (insert-after t u us q)
    ∙ insert-before s t (u ∷ us) h
    ∙ ap (◌∷◌ t) (insert-after s u us p)
    ∙ sym (insert-after t s (u ∷ us) (less_asym t s h))
    ∙ ap (insert t) (sym (insert-after s u us p))

insert-comm_nil :
    (s t : Session) → less t s ≡ true → insert s (insert t []) ≡ insert t (insert s [])
insert-comm_nil s t h =
    ap (insert s) (insert-nil t)
    ∙ insert-before s t [] h
    ∙ ap (◌∷◌ t) (insert-nil s)
    ∙ sym (insert-after t s [] (less_asym t s h))
    ∙ ap (insert t) (sym (insert-nil s))

insert_comm :
    (s t : Session) (ss : List Session)
    → Apart s t
    → All (Apart s) ss
    → All (Apart t) ss
    → insert s (insert t ss) ≡ insert t (insert s ss)
insert_comm s t [] a _ _ = elim (Bool-cases (less t s)) [
  | inl h ↦ insert-comm_nil s t h
  | inr h ↦ sym (insert-comm_nil t s (less_total s t a h))
]
insert_comm s t (u ∷ us) a (su, sus) (tu, tus) =
    by_tests (Bool-cases (less u s)) (Bool-cases (less u t)) (Bool-cases (less t s))
      (insert_comm s t us a sus tus)
  where
    by_tests :
        (less u s ≡ true) ⊎ (less u s ≡ false)
        → (less u t ≡ true) ⊎ (less u t ≡ false)
        → (less t s ≡ true) ⊎ (less t s ≡ false)
        → insert s (insert t us) ≡ insert t (insert s us)
        → insert s (insert t (u ∷ us)) ≡ insert t (insert s (u ∷ us))
    by_tests (inl p) (inl q) o ih =
        ap (insert s) (insert-before t u us q)
        ∙ insert-before s u (insert t us) p
        ∙ ap (◌∷◌ u) ih
        ∙ sym (insert-before t u (insert s us) q)
        ∙ ap (insert t) (sym (insert-before s u us p))
    by_tests (inl p) (inr q) o ih = insert-comm_before s t u us tu p q
    by_tests (inr p) (inl q) o ih = sym (insert-comm_before t s u us su q p)
    by_tests (inr p) (inr q) (inl h) ih = insert-comm_after s t u us h p q
    by_tests (inr p) (inr q) (inr h) ih = sym (insert-comm_after t s u us (less_total s t a h) q p)

sort-Reordered : {xs ys : List Session} → Reordered xs ys → DistinctPids xs → sort xs ≡ sort ys
unfolding sort
sort-Reordered same h = refl
sort-Reordered (behind x r) (_, hs) = ap (insert x) (sort-Reordered r hs)
sort-Reordered (swapped {xs} x y) ((a, h), (k, _)) =
    insert_comm x y (sort xs) a (All-sort (Apart x) xs h) (All-sort (Apart y) xs k)
sort-Reordered (then r q) h = sort-Reordered r h ∙ sort-Reordered q (DistinctPids-Reordered r h)

keep_read-behind :
    (r : Result Session) {xs ys : List Session}
    → Reordered xs ys
    → Reordered (keep_read r xs) (keep_read r ys)
keep_read-behind (err e) q = q
keep_read-behind (ok s) q = behind s q

kept-behind :
    (o : Option ℕ) (read : ℕ → Result Session) {xs ys : List Session}
    → Reordered xs ys
    → Reordered (kept o read xs) (kept o read ys)
kept-behind none read q = q
kept-behind (some pid) read q = keep_read-behind (read pid) q

keep_read-swapped :
    (r q : Result Session) (xs : List Session)
    → Reordered (keep_read r (keep_read q xs)) (keep_read q (keep_read r xs))
keep_read-swapped (err e) q xs = same
keep_read-swapped (ok s) (err e) xs = same
keep_read-swapped (ok s) (ok t) xs = swapped s t

kept-swapped :
    (o p : Option ℕ) (read read' : ℕ → Result Session) (xs : List Session)
    → Reordered (kept o read (kept p read' xs)) (kept p read' (kept o read xs))
kept-swapped none p read read' xs = same
kept-swapped (some i) none read read' xs = same
kept-swapped (some i) (some j) read read' xs = keep_read-swapped (read i) (read' j) xs

module _ (os : Os) (dir : Bytes) where
  read_entries-Reordered :
      {ns ms : List Bytes}
      → Reordered ns ms
      → Reordered (read_entries os dir ns) (read_entries os dir ms)
  unfolding read_entries
  read_entries-Reordered same = same
  read_entries-Reordered (behind n r) =
      kept-behind (registry_pid n) (read_session_file os (Filepath.join dir n))
        (read_entries-Reordered r)
  read_entries-Reordered (swapped {xs} n m) =
      kept-swapped (registry_pid n) (registry_pid m) (read_session_file os (Filepath.join dir n))
        (read_session_file os (Filepath.join dir m)) (read_entries os dir xs)
  read_entries-Reordered (then r q) = then (read_entries-Reordered r) (read_entries-Reordered q)

  -- Where no file name occurs twice, what ListSessions gives does not depend on the order in which
  -- the directory lists its files.
  pub listed-Reordered :
      (ns ms : List Bytes)
      → Reordered ns ms
      → DistinctNames ns
      → listed os dir (names ns) ≡ listed os dir (names ms)
  listed-Reordered ns ms r h =
      ap ok (sort-Reordered (read_entries-Reordered r) (read_entries-DistinctPids os dir ns h))
