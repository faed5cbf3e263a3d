-- ===== src/Filepath/Length.antt =====
-- Cleaning makes no path longer than its bytes and one more.
use claude_code_socket_trans.Base.{
  ℕ, Bool, length, List, Bytes, ◌∷◌, ◌≢◌, ◌≡◌, ◌≤◌, ◌+◌, [], arith, length-append, ◌++◌, refl,
  if◌then◌else◌, ◌==◌, true, false, cons_head, split,
}
use claude_code_socket_trans.Filepath.{
  clean, join, push, push_all, spell, slash, spell_relative, is_abs,
}

-- The bytes of the segments, and one for each.
total : List Bytes → ℕ
total [] = 0
total (seg ∷ segs) = length seg + 1 + total segs

total-cons_head : (c : ℕ) (ps : List Bytes) → ps ≢ [] → total (cons_head c ps) ≡ total ps + 1
unfolding total
total-cons_head c [] h = absurd (h refl)
total-cons_head c (p ∷ ps) h = omega arith

split-ne-nil : (b : ℕ) (s : Bytes) → split b s ≢ []
unfolding split
split-ne-nil b [] = λ e. cc
split-ne-nil b (c ∷ s) = choose (c == b) (split b s)
  where
    choose : (t : Bool) (ps : List Bytes) → (if t then [] ∷ ps else cons_head c ps) ≢ []
    choose true ps e = cc
    choose false [] e = cc
    choose false (p ∷ ps) e = cc

total-split : (b : ℕ) (s : Bytes) → total (split b s) ≡ length s + 1
unfolding split total
total-split b [] = omega arith
total-split b (c ∷ s) =
    ground (arith, total-split b s, total-cons_head c (split b s) (split-ne-nil b s))

total-push :
    (rooted : Bool) (kept : List Bytes) (seg : Bytes)
    → total (push rooted kept seg) ≤ total kept + length seg + 1
unfolding push total
total-push rooted [] seg = ground arith
total-push rooted (top ∷ kept) seg = ground arith

total-push_all :
    (rooted : Bool) (kept segs : List Bytes)
    → total (push_all rooted kept segs) ≤ total kept + total segs
unfolding push_all total
total-push_all rooted kept [] = omega arith
total-push_all rooted kept (seg ∷ segs) =
    omega (arith, total-push_all rooted (push rooted kept seg) segs, total-push rooted kept seg)

length-spell : (kept : List Bytes) (out : Bytes) → length (spell kept out) ≤ total kept + length out
unfolding spell total
length-spell [] out = omega arith
length-spell (seg ∷ []) out = omega (arith, length-append seg out)
length-spell (seg ∷ top ∷ kept) out =
    omega (arith, length-spell (top ∷ kept) (slash ∷ (seg ++ out)), length-append seg out)

length-spell_relative : (kept : List Bytes) → length (spell_relative kept) ≤ total kept + 1
length-spell_relative [] = unfold total in omega arith
length-spell_relative (seg ∷ kept) = omega (arith, length-spell (seg ∷ kept) [])

total_nil : total [] ≡ 0
unfolding total
total_nil = refl

pub length-clean : (path : Bytes) → length (clean path) ≤ length path + 2
unfolding clean
length-clean path = ground (
  arith,
  length-spell (push_all (is_abs path) [] (split slash path)) [],
  length-spell_relative (push_all (is_abs path) [] (split slash path)),
  total-push_all (is_abs path) [] (split slash path),
  total-split slash path,
  total_nil,
)

pub length-join : (a b : Bytes) → length (join a b) ≤ length a + length b + 3
unfolding join
length-join a b =
    ground (arith, length-clean b, length-clean (a ++ (slash ∷ b)), length-append a (slash ∷ b))
