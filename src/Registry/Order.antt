-- ===== src/Registry/Order.antt =====
-- `ListSessions` arranges its entries by start time, and by PID where the times agree.
use mathlib.Core.Path.{subst}
use claude_code_socket_trans.Session.{Session}
use mathlib.Core.List.{Perm}
use mathlib.Core.List.Perm
use claude_code_socket_trans.Base.{
  Bool, List, ◌∷◌, ◌≢◌, ◌≡◌, All, true, false, if◌then◌else◌, [], arith, ◌⊎◌, refl, inl, inr,
  Bool-cases, Has, sym,
}
use claude_code_socket_trans.Registry.{sort, insert, less, Session}

-- Each entry stands before all that follow it.
abbrev pub IsSorted : List Session → Type 0
IsSorted [] = Unit
IsSorted (s ∷ ss) = All (λ t. less s t ≡ true) ss × IsSorted ss

abbrev pub Apart : Session → Session → Type 0
Apart s t = s.pid ≢ t.pid

-- No two entries have one PID.
abbrev pub DistinctPids : List Session → Type 0
DistinctPids [] = Unit
DistinctPids (s ∷ ss) = All (Apart s) ss × DistinctPids ss

pub less_total : (s t : Session) → Apart s t → less t s ≡ false → less s t ≡ true
unfolding less
less_total s t h n = ground arith

pub less_trans : (s t u : Session) → less s t ≡ true → less t u ≡ true → less s u ≡ true
unfolding less
less_trans s t u p q = ground arith

-- The order leaves no choice between two different PIDs.
pub less_asym : (s t : Session) → less s t ≡ true → less t s ≡ false
unfolding less
less_asym s t p = ground arith

module _ {ℓ} (P : Session → Type ℓ) where
  pub All-insert : (s : Session) (ss : List Session) → P s → All P ss → All P (insert s ss)
  unfolding insert
  All-insert s [] p _ = (p, tt)
  All-insert s (t ∷ ts) p (q, qs) = choose (less t s) (All-insert s ts p qs)
    where
      choose : (b : Bool) → All P (insert s ts) → All P (if b then t ∷ insert s ts else s ∷ t ∷ ts)
      choose true rest = (q, rest)
      choose false _ = (p, (q, qs))

  pub All-sort : (ss : List Session) → All P ss → All P (sort ss)
  unfolding sort
  All-sort [] _ = tt
  All-sort (s ∷ ss) (p, ps) = All-insert s (sort ss) p (All-sort ss ps)

pub insert-before :
    (s t : Session) (ts : List Session) → less t s ≡ true → insert s (t ∷ ts) ≡ t ∷ insert s ts
unfolding insert
insert-before s t ts h = rw h

pub insert-after :
    (s t : Session) (ts : List Session) → less t s ≡ false → insert s (t ∷ ts) ≡ s ∷ t ∷ ts
unfolding insert
insert-after s t ts h = rw h

pub insert-nil : (s : Session) → insert s [] ≡ s ∷ []
unfolding insert
insert-nil s = refl

All-less :
    (s t : Session) (ts : List Session)
    → less s t ≡ true
    → All (λ u. less t u ≡ true) ts
    → All (λ u. less s u ≡ true) ts
All-less s t [] h _ = tt
All-less s t (u ∷ us) h (k, ks) = (less_trans s t u h k, All-less s t us h ks)

insert-IsSorted :
    (s : Session) (ss : List Session) → All (Apart s) ss → IsSorted ss → IsSorted (insert s ss)
insert-IsSorted s [] _ _ = rw insert-nil (tt, tt)
insert-IsSorted s (t ∷ ts) (h, hs) (k, ks) =
    choose (Bool-cases (less t s)) (insert-IsSorted s ts hs ks)
  where
    choose :
        (less t s ≡ true) ⊎ (less t s ≡ false)
        → IsSorted (insert s ts)
        → IsSorted (insert s (t ∷ ts))
    choose (inl e) rest =
        rw (insert-before s t ts e) (All-insert (λ u. less t u ≡ true) s ts e k, rest)
    choose (inr e) _ =
        let f = less_total s t h e in rw (insert-after s t ts e) ((f, All-less s t ts f k), (k, ks))

-- Entries of distinct PIDs are sorted strictly by start time and PID.
pub sort-IsSorted : (ss : List Session) → DistinctPids ss → IsSorted (sort ss)
unfolding sort
sort-IsSorted [] _ = tt
sort-IsSorted (s ∷ ss) (h, hs) =
    insert-IsSorted s (sort ss) (All-sort (Apart s) ss h) (sort-IsSorted ss hs)

insert-perm : (s : Session) (ss : List Session) → Perm (insert s ss) (s ∷ ss)
insert-perm s [] = rw insert-nil (Perm.refl (s ∷ []))
insert-perm s (t ∷ ts) = choose (Bool-cases (less t s)) (insert-perm s ts)
  where
    choose :
        (less t s ≡ true) ⊎ (less t s ≡ false)
        → Perm (insert s ts) (s ∷ ts)
        → Perm (insert s (t ∷ ts)) (s ∷ t ∷ ts)
    choose (inl e) rest =
        rw (insert-before s t ts e) (Perm.trans (Perm.cons t rest) (Perm.swap s t ts))
    choose (inr e) _ = rw (insert-after s t ts e) (Perm.refl (s ∷ t ∷ ts))

-- Sorting keeps every entry, as often as it is there.
pub sort-perm : (ss : List Session) → Perm (sort ss) ss
unfolding sort
sort-perm [] = Perm.refl []
sort-perm (s ∷ ss) = Perm.trans (insert-perm s (sort ss)) (Perm.cons s (sort-perm ss))

-- An entry stands in a sorted list if it stood in the list.
Has-insert_self : (s : Session) (ss : List Session) → Has s (insert s ss)
unfolding insert
Has-insert_self s [] = inl refl
Has-insert_self s (t ∷ ts) = choose (less t s) (Has-insert_self s ts)
  where
    choose : (b : Bool) → Has s (insert s ts) → Has s (if b then t ∷ insert s ts else s ∷ t ∷ ts)
    choose true rest = inr rest
    choose false _ = inl refl

Has-insert : (a s : Session) (ss : List Session) → Has a ss → Has a (insert s ss)
unfolding insert
Has-insert a s [] h = absurd h
Has-insert a s (t ∷ ts) (inl e) = choose (less t s)
  where
    choose : (b : Bool) → Has a (if b then t ∷ insert s ts else s ∷ t ∷ ts)
    choose true = inl e
    choose false = inr (inl e)
Has-insert a s (t ∷ ts) (inr h) = choose (less t s) (Has-insert a s ts h)
  where
    choose : (b : Bool) → Has a (insert s ts) → Has a (if b then t ∷ insert s ts else s ∷ t ∷ ts)
    choose true rest = inr rest
    choose false _ = inr (inr h)

pub Has-sort : (a : Session) (ss : List Session) → Has a ss → Has a (sort ss)
unfolding sort
Has-sort a [] h = h
Has-sort a (s ∷ ss) (inl e) =
    subst (λ u. Has u (insert s (sort ss))) (sym e) (Has-insert_self s (sort ss))
Has-sort a (s ∷ ss) (inr h) = Has-insert a s (sort ss) (Has-sort a ss h)
