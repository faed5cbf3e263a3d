-- ===== src/Auth/Best.antt =====
-- `LookupToken` takes the first of the best candidates.
use claude_code_socket_trans.Paths.{sessions_dir}
use mathlib.Core.Path.{subst}
use claude_code_socket_trans.Os.{Os, names}
use claude_code_socket_trans.Base.{
  ℕ, Option, List, some, Bytes, ◌≡◌, ◌∷◌, All, ◌≤◌, ◌<◌, ◌++◌, [], arith, none, All-append, sym,
  ◌∙◌, append-nil, refl, append_assoc, ok, ◌>>=◌, ap, Bool-cases, ltb, inl, ltb→lt, inr,
}
use claude_code_socket_trans.Auth.{
  best_candidate, candidate, Candidate, lookup_token, Os, better, weigh, sessions_dir,
  key_file_suffix, names, token_of, looked_up,
}

-- The candidates that the names give, in order.
abbrev pub consider : Option Candidate → List Candidate → List Candidate
consider none cs = cs
consider (some c) cs = c ∷ cs

module _ (os : Os) (dir suffix : Bytes) where
  unfoldable pub candidates : List Bytes → List Candidate
  candidates [] = []
  candidates (n ∷ ns) = consider (candidate os dir suffix n) (candidates ns)

-- A choice among candidates: none of no candidates, and otherwise one that ranks above all before it
-- and at least as high as all behind it.
pub data IsBest (cs : List Candidate) : Option Candidate → Type 0 where
  nothing : cs ≡ [] → IsBest cs none
  first_best :
      (a b : List Candidate) (c : Candidate)
      → cs ≡ a ++ (c ∷ b)
      → All (λ d. d.rank < c.rank) a
      → All (λ d. d.rank ≤ c.rank) b
      → IsBest cs (some c)

unfoldable pub weigh_all : Option Candidate → List Candidate → Option Candidate
weigh_all best [] = best
weigh_all best (c ∷ cs) = weigh_all (better best c) cs

module _ (os : Os) (dir suffix : Bytes) where
  pub best_candidate-weigh_all :
      (ns : List Bytes) (b : Option Candidate)
      → best_candidate os dir suffix ns b ≡ weigh_all b (candidates os dir suffix ns)
  unfolding best_candidate candidates weigh_all
  best_candidate-weigh_all [] b = refl
  best_candidate-weigh_all (n ∷ ns) b =
      best_candidate-weigh_all ns (weigh b (candidate os dir suffix n))
      ∙ step (candidate os dir suffix n)
    where
      step :
          (o : Option Candidate)
          → weigh_all (weigh b o) (candidates os dir suffix ns)
            ≡ weigh_all b (consider o (candidates os dir suffix ns))
      step none = refl
      step (some c) = refl

append-All {ℓ} :
    (P : Candidate → Type ℓ) (a : List Candidate) (c : Candidate)
    → All P a
    → P c
    → All P (a ++ (c ∷ []))
append-All P a c h p = All-append P a (c ∷ []) h (p, tt)

rank_mono :
    (k m : ℕ) (a : List Candidate) → k ≤ m → All (λ d. d.rank < k) a → All (λ d. d.rank < m) a
rank_mono k m [] h _ = tt
rank_mono k m (d ∷ a) h (p, ps) = (omega arith, rank_mono k m a h ps)

rank_above :
    (k m : ℕ) (a : List Candidate) → k < m → All (λ d. d.rank ≤ k) a → All (λ d. d.rank < m) a
rank_above k m [] h _ = tt
rank_above k m (d ∷ a) h (p, ps) = (omega arith, rank_above k m a h ps)

raised :
    (x y : List Candidate) (d : Candidate) {m : ℕ}
    → d.rank < m
    → All (λ u. u.rank < d.rank) x
    → All (λ u. u.rank ≤ d.rank) y
    → All (λ u. u.rank < m) (x ++ (d ∷ y))
raised x y d {m} h p q =
    All-append (λ u. u.rank < m) x (d ∷ y) (rank_mono d.rank m x (omega arith) p)
      (h, rank_above d.rank m y h q)

-- The candidates seen are `seen`, and the best of them is known.
weigh_all-IsBest :
    (seen cs : List Candidate) (b : Option Candidate)
    → IsBest seen b
    → IsBest (seen ++ cs) (weigh_all b cs)
unfolding weigh_all
weigh_all-IsBest seen [] b h = subst (λ u. IsBest u b) (sym (append-nil seen)) h
weigh_all-IsBest seen (c ∷ cs) b h =
    onward (weigh_all-IsBest (seen ++ (c ∷ [])) cs (better b c) (grown b h))
  where
    onward :
        IsBest ((seen ++ (c ∷ [])) ++ cs) (weigh_all (better b c) cs)
        → IsBest (seen ++ (c ∷ cs)) (weigh_all b (c ∷ cs))
    onward r =
        unfold weigh_all in
        subst (λ u. IsBest u (weigh_all (better b c) cs)) (append_assoc seen (c ∷ []) cs) r

    grown : (o : Option Candidate) → IsBest seen o → IsBest (seen ++ (c ∷ [])) (better o c)
    grown _ (nothing e) = first_best seen [] c refl (rw e tt) tt
    grown _ (first_best x y d e p q) = elim (Bool-cases (ltb d.rank c.rank)) [
      | inl t ↦ rw t (
          first_best seen [] c refl
            (subst (All (λ u. u.rank < c.rank)) (sym e) (raised x y d (ltb→lt d.rank c.rank t) p q))
            tt)
      | inr f ↦ rw f (
          first_best x (y ++ (c ∷ [])) d
            (ap (λ u. u ++ (c ∷ [])) e ∙ append_assoc x (d ∷ y) (c ∷ [])) p
            (append-All (λ u. u.rank ≤ d.rank) y c q (ground arith)))
    ]

-- Where the sessions directory is found and read and the key file suffix is defined, LookupToken
-- returns the token of the first of the highest-ranked key files that name the socket, and the
-- empty token where there is none.
pub lookup_token-IsBest :
    (os : Os) (path : Bytes) {dir suffix : Bytes} {ns : List Bytes}
    → sessions_dir os ≡ ok dir
    → key_file_suffix os path ≡ ok suffix
    → os.read_dir dir ≡ names ns
    → (b : Option Candidate) × IsBest (candidates os dir suffix ns) b
      × (lookup_token os path ≡ ok (token_of b))
unfolding lookup_token
lookup_token-IsBest os path {dir} {suffix} {ns} d s n = (
  weigh_all none (candidates os dir suffix ns),
  weigh_all-IsBest [] (candidates os dir suffix ns) none (nothing refl),
  rw (d, ◌>>=◌)
      (rw (s, ◌>>=◌)
        (rw (n, looked_up)
          (ap (λ b. ok (token_of b)) (best_candidate-weigh_all os dir suffix ns none)))),
)
