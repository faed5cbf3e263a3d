-- ===== src/ProcStart/Field.antt =====
-- The token is the 20th field behind the command, whatever the command holds.
use claude_code_socket_trans.Base.{
  ℕ, List, Bytes, ◌∷◌, Lacks, All, ◌≢◌, ◌++◌, ◌≡◌, All-append, ◌≤◌, none, some, [], arith, ◌∙◌,
  length, ap, get_elem?, refl, ok, split, split-Lacks, split-append,
}
use claude_code_socket_trans.ProcStart.{token_of_stat, after_last, token_behind}

-- Fields with a space between each two.
unfoldable pub join_fields : List Bytes → Bytes
join_fields [] = []
join_fields (f ∷ []) = f
join_fields (f ∷ g ∷ fs) = f ++ (b' ' ∷ join_fields (g ∷ fs))

after_last-Lacks : (b : ℕ) (s : Bytes) → Lacks b s → after_last b s ≡ none
unfolding after_last
after_last-Lacks b [] _ = refl
after_last-Lacks b (c ∷ s) (h, hs) = ground (arith, after_last-Lacks b s hs)

after_last-append : (b : ℕ) (s t : Bytes) → Lacks b t → after_last b (s ++ (b ∷ t)) ≡ some t
unfolding after_last
after_last-append b [] t h = ground (arith, after_last-Lacks b t h)
after_last-append b (c ∷ s) t h = ground (arith, after_last-append b s t h)

split-join_fields :
    (f : Bytes) (fs : List Bytes)
    → All (Lacks b' ') (f ∷ fs)
    → split b' ' (join_fields (f ∷ fs)) ≡ f ∷ fs
unfolding join_fields
split-join_fields f [] (h, _) = split-Lacks b' ' f h
split-join_fields f (g ∷ fs) (h, hs) =
    split-append b' ' f (join_fields (g ∷ fs)) h ∙ ap (◌∷◌ f) (split-join_fields g fs hs)

join_fields-Lacks :
    (b : ℕ) (fs : List Bytes) → b ≢ b' ' → All (Lacks b) fs → Lacks b (join_fields fs)
unfolding join_fields
join_fields-Lacks b [] n _ = tt
join_fields-Lacks b (f ∷ []) n (h, _) = h
join_fields-Lacks b (f ∷ g ∷ fs) n (h, hs) =
    All-append (λ c. c ≢ b) f _ h (omega arith, join_fields-Lacks b (g ∷ fs) n hs)

enough_fields :
    (s : Bytes) (fields : List Bytes) {start : Bytes}
    → split b' ' s ≡ fields
    → 20 ≤ length fields
    → get_elem? fields 19 ≡ some start
    → token_behind (some (b' ' ∷ s)) ≡ ok start
enough_fields s fields same n e = ground arith

-- From a line of /proc/<pid>/stat whose command may hold any bytes, and whose fields behind it, at
-- least twenty, hold no space and no parenthesis, the token read is the twentieth of these fields.
pub token_of_stat_field :
    (command : Bytes) (fields : List Bytes) (start : Bytes)
    → All (Lacks b' ') fields
    → All (Lacks b')') fields
    → 20 ≤ length fields
    → get_elem? fields 19 ≡ some start
    → token_of_stat (command ++ (b')' ∷ b' ' ∷ join_fields fields)) ≡ ok start
unfolding token_of_stat
token_of_stat_field command [] start _ _ n e = absurd (omega arith)
token_of_stat_field command (f ∷ fs) start spaces parens n e =
    ap token_behind (
      after_last-append b')' command (b' ' ∷ join_fields (f ∷ fs))
        (omega arith, join_fields-Lacks b')' (f ∷ fs) (omega arith) parens))
    ∙ enough_fields (join_fields (f ∷ fs)) (f ∷ fs) (split-join_fields f fs spaces) n e
