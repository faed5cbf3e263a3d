-- ===== src/Auth/Found.antt =====
-- `LookupToken` gives the token that a live session published.
use mathlib.Core.Path.{subst}
use claude_code_socket_trans.Auth.Rank.{rank_key_owner_cases}
use claude_code_socket_trans.Auth.Published.{IsToken, read_key_file_iff, published}
use claude_code_socket_trans.Json.Tokens.{tokens}
use claude_code_socket_trans.Filepath
use claude_code_socket_trans.Session.{read_small_file}
use claude_code_socket_trans.Paths.{sessions_dir}
use claude_code_socket_trans.Decimal.{max_int, atoi}
use claude_code_socket_trans.Auth.Named.{IsDigest, key_file_name-owner}
use claude_code_socket_trans.Json.Members.{Texts, object_tokens, named, texts}
use claude_code_socket_trans.Auth.{
  lookup_token, Candidate, candidate, better, sessions_dir, key_file_name, names, read_small_file,
  has_suffix, max_key_file_bytes, KeyFile, token_of, ranked, key_file_owner, atoi, read_key_file,
  owned, rank_key_owner, key_file_suffix, looked_up,
}
use claude_code_socket_trans.Os.{Os, names}
use claude_code_socket_trans.Base.{
  ℕ, Option, Bytes, List, some, ◌<◌, ◌≤◌, none, Bool-cases, ltb, inl, inr, ◌≡◌, ok, ◌++◌, ◌∷◌, All,
  Result, Bool, arith, ap, true, ◌∙◌, if◌then◌else◌, err, [], refl, codes, false, ok_injective, sym,
  ◌>>=◌,
}
use claude_code_socket_trans.Auth.Best.{weigh_all, candidates, consider, best_candidate-weigh_all}

-- The best of candidates that are not above `c` is `c`, once it is.
weigh_all-stays :
    (c : Candidate) (cs : List Candidate)
    → All (λ d. d.rank ≤ c.rank) cs
    → weigh_all (some c) cs ≡ some c
unfolding weigh_all
weigh_all-stays c [] _ = refl
weigh_all-stays c (d ∷ cs) (h, hs) =
    ap (λ b. weigh_all b cs) (kept (ltb c.rank d.rank) refl) ∙ weigh_all-stays c cs hs
  where
    kept : (b : Bool) → ltb c.rank d.rank ≡ b → (if b then some d else some c) ≡ some c
    kept true e = absurd (ground arith)
    kept false e = refl

-- What is below `k`, if anything.
abbrev Below : ℕ → Option Candidate → Type 0
Below k none = Unit
Below k (some c) = c.rank < k

better-Below :
    (k : ℕ) (b : Option Candidate) (d : Candidate) → Below k b → d.rank < k → Below k (better b d)
better-Below k none d h l = l
better-Below k (some c) d h l = elim (Bool-cases (ltb c.rank d.rank)) [
  | inl t ↦ rw t l
  | inr f ↦ rw f h
]

-- Candidates below `c` in front of it do not matter.
weigh_all-takes :
    (b : Option Candidate) (c : Candidate) (front cs : List Candidate)
    → Below c.rank b
    → All (λ d. d.rank < c.rank) front
    → All (λ d. d.rank ≤ c.rank) cs
    → weigh_all b (front ++ (c ∷ cs)) ≡ some c
unfolding weigh_all
weigh_all-takes b c [] cs h _ l = ap (λ o. weigh_all o cs) (taken b h) ∙ weigh_all-stays c cs l
  where
    taken : (o : Option Candidate) → Below c.rank o → better o c ≡ some c
    taken none _ = refl
    taken (some d) k = ground arith
weigh_all-takes b c (d ∷ front) cs h (k, ks) l =
    weigh_all-takes (better b d) c front cs (better-Below c.rank b d h k) ks l

module _ (os : Os) (dir suffix : Bytes) where
  candidates-append :
      (a b : List Bytes)
      → candidates os dir suffix (a ++ b) ≡ candidates os dir suffix a ++ candidates os dir suffix b
  unfolding candidates
  candidates-append [] b = refl
  candidates-append (n ∷ a) b =
      ap (consider (candidate os dir suffix n)) (candidates-append a b)
      ∙ considered (candidate os dir suffix n)
    where
      considered :
          (o : Option Candidate)
          → consider o (candidates os dir suffix a ++ candidates os dir suffix b)
            ≡ consider o (candidates os dir suffix a) ++ candidates os dir suffix b
      considered none = refl
      considered (some c) = refl

  -- No candidate ranks above 2.
  abbrev IsRanked : Option Candidate → Type 0
  IsRanked none = Unit
  IsRanked (some c) = c.rank ≤ 2

  candidate-IsRanked : (n : Bytes) → IsRanked (candidate os dir suffix n)
  unfolding candidate
  candidate-IsRanked n = elim (Bool-cases (has_suffix n suffix)) [
    | inl t ↦ rw t (owned-IsRanked (key_file_owner n))
    | inr f ↦ rw f tt
  ]
    where
      ranked-IsRanked : (pid : ℕ) (r : Result KeyFile) → IsRanked (ranked os pid r)
      ranked-IsRanked pid (err e) = tt
      ranked-IsRanked pid (ok kf) = (rank_key_owner_cases os pid kf.proc_start).2

      numbered-IsRanked :
          (o : Option ℕ) (path : Bytes)
          → IsRanked (elim o [ none ↦ none | some pid ↦ ranked os pid (read_key_file os path) ])
      numbered-IsRanked none path = tt
      numbered-IsRanked (some pid) path = ranked-IsRanked pid (read_key_file os path)

      owned-IsRanked : (o : Option Bytes) → IsRanked (owned os (Filepath.join dir n) o)
      owned-IsRanked none = tt
      owned-IsRanked (some m) = numbered-IsRanked (atoi m) (Filepath.join dir n)

  consider-IsRanked :
      (o : Option Candidate) (cs : List Candidate)
      → IsRanked o
      → All (λ c. c.rank ≤ 2) cs
      → All (λ c. c.rank ≤ 2) (consider o cs)
  consider-IsRanked none cs _ hs = hs
  consider-IsRanked (some c) cs h hs = (h, hs)

  candidates-IsRanked : (ns : List Bytes) → All (λ c. c.rank ≤ 2) (candidates os dir suffix ns)
  unfolding candidates
  candidates-IsRanked [] = tt
  candidates-IsRanked (n ∷ ns) =
      consider-IsRanked (candidate os dir suffix n) _ (candidate-IsRanked n)
        (candidates-IsRanked ns)

  candidate-published :
      (pid : ℕ) (name : Bytes) {digits s : Bytes} (ms : Texts)
      → has_suffix name suffix ≡ true
      → key_file_owner name ≡ some digits
      → atoi digits ≡ some pid
      → read_small_file os (Filepath.join dir name) max_key_file_bytes ≡ ok s
      → tokens 0 s ≡ some (object_tokens (texts ms))
      → IsToken (named (codes "peerToken") ms)
      → rank_key_owner os pid (named (codes "procStart") ms) ≡ 2
      → candidate os dir suffix name
        ≡ some (record { token = named (codes "peerToken") ms; rank = 2 })
  unfolding candidate
  candidate-published pid name {digits} {s} ms hs ko at rs t it two = rw hs (
      rw (ko, owned)
        (rw at (
          rw ((read_key_file_iff os (Filepath.join dir name) s ms (published ms) rs t).1 (refl, it))
            (ap (λ r. some (record { token = named (codes "peerToken") ms; rank = r })) two))))

  candidates-taken :
      (n : Bytes) (ns : List Bytes) {c : Candidate}
      → candidate os dir suffix n ≡ some c
      → candidates os dir suffix (n ∷ ns) ≡ c ∷ candidates os dir suffix ns
  unfolding candidates
  candidates-taken n ns e = ap (λ o. consider o (candidates os dir suffix ns)) e

-- If the sessions directory lists the key file that KeyFileName gives for a PID that fits an int
-- and the socket path, SHA-256 has 32 bytes, the file can be read and is a JSON text of an object
-- of strings, whose last peerToken is 32 lower-case hex digits and whose last procStart gives the
-- PID rank 2, and every key file of the socket that is listed before it has a lower rank, then
-- LookupToken gives this peerToken, whatever is listed behind it.
pub lookup_token-published :
    (os : Os) (pid : ℕ) (path : Bytes) {dir suffix name : Bytes} (before behind : List Bytes)
    {s : Bytes} (ms : Texts)
    → IsDigest os
    → pid ≤ max_int
    → sessions_dir os ≡ ok dir
    → key_file_suffix os path ≡ ok suffix
    → key_file_name os pid path ≡ ok name
    → os.read_dir dir ≡ names (before ++ (name ∷ behind))
    → All (λ c. c.rank < 2) (candidates os dir suffix before)
    → read_small_file os (Filepath.join dir name) max_key_file_bytes ≡ ok s
    → tokens 0 s ≡ some (object_tokens (texts ms))
    → IsToken (named (codes "peerToken") ms)
    → rank_key_owner os pid (named (codes "procStart") ms) ≡ 2
    → lookup_token os path ≡ ok (named (codes "peerToken") ms)
unfolding lookup_token
lookup_token-published os pid path {dir} {suffix} {name} before behind ms d f sd sf kn rd low rs t
      it two =
    let (suffix', digits, e, hs, ko, at) = key_file_name-owner os pid path d f kn in
    let same : suffix' ≡ suffix = ok_injective (sym e ∙ sf) in
    let taken =
      candidate-published os dir suffix pid name ms (subst (λ u. has_suffix name u ≡ true) same hs)
        ko at rs t it two in
    rw (sd, ◌>>=◌)
      (rw (sf, ◌>>=◌)
        (rw (rd, looked_up)
          (ap (λ b. ok (token_of b))
            (best_candidate-weigh_all os dir suffix (before ++ (name ∷ behind)) none
              ∙ ap (weigh_all none) (
                  candidates-append os dir suffix before (name ∷ behind)
                  ∙ ap (λ cs. candidates os dir suffix before ++ cs)
                      (candidates-taken os dir suffix name behind taken))
              ∙ weigh_all-takes none (record { token = named (codes "peerToken") ms; rank = 2 }) _ _
                  tt low (candidates-IsRanked os dir suffix behind)))))
