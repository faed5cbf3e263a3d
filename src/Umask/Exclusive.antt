-- ===== src/Umask/Exclusive.antt =====
-- One call at a time has the tight umask, and the process gets its own umask back.
use mathlib.Core.Path.{subst}
use claude_code_socket_trans.Base.{
  ℕ, Bool, List, ◌∷◌, suc, All, [], ◌++◌, ◌≡◌, true, ◌+◌, false, some, ◌⊎◌, ◌≤◌, inl, refl, sym,
  inr,
}
use claude_code_socket_trans.Umask.{Calls, Reached, Stage, Shared, umask_step}
use claude_code_socket_trans.Umask.{
  waiting, holding, running, ran, restored, finished, begin, advance, start, step,
}
use native.Mathlib.Omega.{arith}

-- The calls that hold the mutex.
unfoldable pub holders : List Stage → ℕ
holders [] = 0
holders (waiting ∷ ss) = holders ss
holders (finished ∷ ss) = holders ss
holders (holding ∷ ss) = suc (holders ss)
holders (running old ∷ ss) = suc (holders ss)
holders (ran old ∷ ss) = suc (holders ss)
holders (restored ∷ ss) = suc (holders ss)

holders-append : (a b : List Stage) → holders (a ++ b) ≡ holders a + holders b
unfolding holders
holders-append [] b = omega arith
holders-append (waiting ∷ a) b = holders-append a b
holders-append (finished ∷ a) b = holders-append a b
holders-append (holding ∷ a) b = omega (arith, holders-append a b)
holders-append (running old ∷ a) b = omega (arith, holders-append a b)
holders-append (ran old ∷ a) b = omega (arith, holders-append a b)
holders-append (restored ∷ a) b = omega (arith, holders-append a b)

-- What a call at a stage knows of the umask `now`, in a process whose own umask is `m`.
abbrev pub Knows : ℕ → ℕ → Stage → Type 0
Knows m now waiting = Unit
Knows m now finished = Unit
Knows m now holding = now ≡ m
Knows m now (running old) = (old ≡ m) × (now ≡ 0o177)
Knows m now (ran old) = (old ≡ m) × (now ≡ 0o177)
Knows m now restored = now ≡ m

abbrev pub one_if : Bool → ℕ
one_if true = 1
one_if false = 0

one_if-le : (b : Bool) → one_if b ≤ 1
one_if-le true = omega arith
one_if-le false = omega arith

pub record IsExclusive (m : ℕ) (c : Calls) : Type 0 where
  pub one_holder : holders c.stages ≡ one_if c.shared.locked
  pub known : All (Knows m c.shared.umask) c.stages
  pub free : c.shared.locked ≡ false → c.shared.umask ≡ m

-- Calls that do not hold the mutex know nothing.
Knows-change :
    (m now now' : ℕ) (ss : List Stage)
    → holders ss ≡ 0
    → All (Knows m now) ss
    → All (Knows m now') ss
unfolding holders
Knows-change m now now' [] h _ = tt
Knows-change m now now' (waiting ∷ ss) h (_, ks) = (tt, Knows-change m now now' ss h ks)
Knows-change m now now' (finished ∷ ss) h (_, ks) = (tt, Knows-change m now now' ss h ks)
Knows-change m now now' (holding ∷ ss) h ks = absurd (omega arith)
Knows-change m now now' (running old ∷ ss) h ks = absurd (omega arith)
Knows-change m now now' (ran old ∷ ss) h ks = absurd (omega arith)
Knows-change m now now' (restored ∷ ss) h ks = absurd (omega arith)

split-All :
    (m now : ℕ) (a b : List Stage) (stage : Stage)
    → All (Knows m now) (a ++ (stage ∷ b))
    → All (Knows m now) a × Knows m now stage × All (Knows m now) b
split-All m now [] b stage (k, ks) = (tt, k, ks)
split-All m now (s ∷ a) b stage (k, ks) =
    let (x, y, z) = split-All m now a b stage ks in ((k, x), y, z)

join-All :
    (m now : ℕ) (a b : List Stage) (stage : Stage)
    → All (Knows m now) a
    → Knows m now stage
    → All (Knows m now) b
    → All (Knows m now) (a ++ (stage ∷ b))
join-All m now [] b stage _ k kb = (k, kb)
join-All m now (s ∷ a) b stage (h, ha) k kb = (h, join-All m now a b stage ha k kb)

-- What one step does to what the moving call knows, and to the mutex.
pub record Moves (m : ℕ) (stage stage' : Stage) (sh sh' : Shared) : Type 0 where
  pub counts : holders (stage' ∷ []) + one_if sh.locked ≡ holders (stage ∷ []) + one_if sh'.locked
  pub knows : Knows m sh'.umask stage'
  pub free : sh'.locked ≡ false → sh'.umask ≡ m
  -- The umask changes in the hands of a holder only.
  pub quiet : (sh'.umask ≡ sh.umask) ⊎ (1 ≤ holders (stage ∷ []))

umask_step-Moves :
    (m : ℕ) (stage stage' : Stage) (sh sh' : Shared)
    → umask_step stage sh ≡ some (stage', sh')
    → Knows m sh.umask stage
    → (sh.locked ≡ false → sh.umask ≡ m)
    → holders (stage ∷ []) ≤ one_if sh.locked
    → Moves m stage stage' sh sh'
unfolding umask_step holders
umask_step-Moves m waiting stage' sh sh' e k f h = ground arith
umask_step-Moves m holding stage' sh sh' e k f h = ground arith
umask_step-Moves m (running old) stage' sh sh' e k f h = ground arith
umask_step-Moves m (ran old) stage' sh sh' e k f h = ground arith
umask_step-Moves m restored stage' sh sh' e k f h = ground arith
umask_step-Moves m finished stage' sh sh' e k f h = cc

advance-IsExclusive :
    (m : ℕ) (a b : List Stage) (stage stage' : Stage) (sh sh' : Shared)
    → umask_step stage sh ≡ some (stage', sh')
    → IsExclusive m (record { stages = a ++ (stage ∷ b); shared = sh })
    → IsExclusive m (record { stages = a ++ (stage' ∷ b); shared = sh' })
advance-IsExclusive m a b stage stage' sh sh' e h =
    let (ka, k, kb) = split-All m sh.umask a b stage h.known in
    let parts = holders-append a (stage ∷ b) in
    let tail = holders-append (stage ∷ []) b in
    let one = h.one_holder in
    let le = one_if-le sh.locked in
    let v = umask_step-Moves m stage stage' sh sh' e k h.free (omega arith) in
    let parts' = holders-append a (stage' ∷ b) in
    let tail' = holders-append (stage' ∷ []) b in
    let counts = v.counts in
    let quiet : (sh'.umask ≡ sh.umask) ⊎ (1 ≤ holders (stage ∷ []))
        → (sh'.umask ≡ sh.umask) ⊎ ((holders a ≡ 0) × (holders b ≡ 0)) =
      λ q. elim q [ inl p ↦ inl p | inr l ↦ inr (omega arith, omega arith) ] in
    record { one_holder = omega arith; known = kept (quiet v.quiet) ka v.knows kb; free = v.free }
  where
    kept :
        (sh'.umask ≡ sh.umask) ⊎ ((holders a ≡ 0) × (holders b ≡ 0))
        → All (Knows m sh.umask) a
        → Knows m sh'.umask stage'
        → All (Knows m sh.umask) b
        → All (Knows m sh'.umask) (a ++ (stage' ∷ b))
    kept (inl q) ka k kb =
        join-All m sh'.umask a b stage' (subst (λ n. All (Knows m n) a) (sym q) ka) k
          (subst (λ n. All (Knows m n) b) (sym q) kb)
    kept (inr (ha, hb)) ka k kb =
        join-All m sh'.umask a b stage' (Knows-change m sh.umask sh'.umask a ha ka) k
          (Knows-change m sh.umask sh'.umask b hb kb)

-- However calls of withTightUmask interleave, at most one holds the mutex, which is locked exactly
-- while one does; the call between its two Umask calls has the umask 0177 set and remembers the
-- umask of the process; and the umask is that of the process whenever the mutex is free.
pub Reached-IsExclusive : (m : ℕ) (c : Calls) → Reached m c → IsExclusive m c
unfolding holders
Reached-IsExclusive m c start = record { one_holder = refl; known = tt; free = λ _. refl }
Reached-IsExclusive m c (step r (begin d)) =
    let h = Reached-IsExclusive m d r in
    record { one_holder = h.one_holder; known = (tt, h.known); free = h.free }
Reached-IsExclusive m c (step r (advance a b stage stage' sh sh' e)) =
    advance-IsExclusive m a b stage stage' sh sh' e (Reached-IsExclusive m _ r)
