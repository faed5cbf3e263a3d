-- ===== src/Umask/Progress.antt =====
-- Calls of `withTightUmask` never wait for one another forever.
use claude_code_socket_trans.Base.{
  ℕ, List, ◌∷◌, ◌+◌, ◌≤◌, ◌≡◌, ◌++◌, [], some, false, suc, true, sym, Bool-cases, refl, inl, inr,
}
use claude_code_socket_trans.Umask.{Calls, Step, Reached, Stage, Shared, umask_step}
use claude_code_socket_trans.Umask.{waiting, holding, running, ran, restored, finished, advance}
use claude_code_socket_trans.Umask.Exclusive.{holders, one_if, Reached-IsExclusive}
use native.Mathlib.Omega.{arith}
use mathlib.Core.Path.{subst, ap}

-- The steps that the calls have left.
unfoldable pub work : List Stage → ℕ
work [] = 0
work (waiting ∷ ss) = 5 + work ss
work (holding ∷ ss) = 4 + work ss
work (running old ∷ ss) = 3 + work ss
work (ran old ∷ ss) = 2 + work ss
work (restored ∷ ss) = 1 + work ss
work (finished ∷ ss) = work ss

work-cons : (s : Stage) (ss : List Stage) → work (s ∷ ss) ≡ work (s ∷ []) + work ss
unfolding work
work-cons waiting ss = omega arith
work-cons holding ss = omega arith
work-cons (running old) ss = omega arith
work-cons (ran old) ss = omega arith
work-cons restored ss = omega arith
work-cons finished ss = omega arith

work-append : (a b : List Stage) → work (a ++ b) ≡ work a + work b
work-append [] b = unfold work in omega arith
work-append (s ∷ a) b = omega (arith, work-append a b, work-cons s (a ++ b), work-cons s a)

umask_step-work :
    (stage stage' : Stage) (sh sh' : Shared)
    → umask_step stage sh ≡ some (stage', sh')
    → work (stage ∷ []) ≡ suc (work (stage' ∷ []))
unfolding umask_step work
umask_step-work waiting stage' sh sh' e = ground arith
umask_step-work holding stage' sh sh' e = ground arith
umask_step-work (running old) stage' sh sh' e = ground arith
umask_step-work (ran old) stage' sh sh' e = ground arith
umask_step-work restored stage' sh sh' e = ground arith
umask_step-work finished stage' sh sh' e = cc

holders-le-work : (ss : List Stage) → holders ss ≤ work ss
unfolding holders work
holders-le-work [] = omega arith
holders-le-work (waiting ∷ ss) = omega (arith, holders-le-work ss)
holders-le-work (holding ∷ ss) = omega (arith, holders-le-work ss)
holders-le-work (running old ∷ ss) = omega (arith, holders-le-work ss)
holders-le-work (ran old ∷ ss) = omega (arith, holders-le-work ss)
holders-le-work (restored ∷ ss) = omega (arith, holders-le-work ss)
holders-le-work (finished ∷ ss) = omega (arith, holders-le-work ss)

-- One of the calls can make a step.
record CanMove (ss : List Stage) (sh : Shared) : Type 0 where
  earlier : List Stage
  later : List Stage
  stage : Stage
  next : Stage
  after : Shared
  around : ss ≡ earlier ++ (stage ∷ later)
  moves : umask_step stage sh ≡ some (next, after)

CanMove-here :
    (s next : Stage) (ss : List Stage) (sh after : Shared)
    → umask_step s sh ≡ some (next, after)
    → CanMove (s ∷ ss) sh
CanMove-here s next ss sh after e = record {
  earlier = [];
  later = ss;
  stage = s;
  next = next;
  after = after;
  around = refl;
  moves = e;
}

CanMove-there : (s : Stage) (ss : List Stage) (sh : Shared) → CanMove ss sh → CanMove (s ∷ ss) sh
CanMove-there s ss sh c = record {
  earlier = s ∷ c.earlier;
  later = c.later;
  stage = c.stage;
  next = c.next;
  after = c.after;
  around = ap (◌∷◌ s) c.around;
  moves = c.moves;
}

-- While the mutex is held, its holder can move.
holder-CanMove : (ss : List Stage) (sh : Shared) → 1 ≤ holders ss → CanMove ss sh
unfolding holders umask_step
holder-CanMove [] sh h = absurd (omega arith)
holder-CanMove (waiting ∷ ss) sh h = CanMove-there waiting ss sh (holder-CanMove ss sh h)
holder-CanMove (finished ∷ ss) sh h = CanMove-there finished ss sh (holder-CanMove ss sh h)
holder-CanMove (holding ∷ ss) sh h = CanMove-here holding _ ss sh _ refl
holder-CanMove (running old ∷ ss) sh h = CanMove-here (running old) _ ss sh _ refl
holder-CanMove (ran old ∷ ss) sh h = CanMove-here (ran old) _ ss sh _ refl
holder-CanMove (restored ∷ ss) sh h = CanMove-here restored _ ss sh _ refl

-- While it is free, any call can.
free-CanMove : (ss : List Stage) (sh : Shared) → sh.locked ≡ false → 1 ≤ work ss → CanMove ss sh
unfolding work umask_step
free-CanMove [] sh f h = absurd (omega arith)
free-CanMove (waiting ∷ ss) sh f h =
    CanMove-here waiting holding ss sh (record sh { locked = true }) (rw f refl)
free-CanMove (finished ∷ ss) sh f h = CanMove-there finished ss sh (free-CanMove ss sh f h)
free-CanMove (holding ∷ ss) sh f h = CanMove-here holding _ ss sh _ refl
free-CanMove (running old ∷ ss) sh f h = CanMove-here (running old) _ ss sh _ refl
free-CanMove (ran old ∷ ss) sh f h = CanMove-here (ran old) _ ss sh _ refl
free-CanMove (restored ∷ ss) sh f h = CanMove-here restored _ ss sh _ refl

CanMove-Step :
    (c : Calls)
    → CanMove c.stages c.shared
    → (d : Calls) × Step c d × (work c.stages ≡ suc (work d.stages))
CanMove-Step c v = (
  record { stages = v.earlier ++ (v.next ∷ v.later); shared = v.after },
  subst
      (λ ss.
        Step (record { stages = ss; shared = c.shared })
          (record { stages = v.earlier ++ (v.next ∷ v.later); shared = v.after }))
      (sym v.around) (advance v.earlier v.later v.stage v.next c.shared v.after v.moves),
  omega (
    arith,
    ap work v.around,
    work-append v.earlier (v.stage ∷ v.later),
    work-append v.earlier (v.next ∷ v.later),
    work-cons v.stage v.later,
    work-cons v.next v.later,
    umask_step-work v.stage v.next c.shared v.after v.moves,
  ),
)

-- However calls of withTightUmask interleaved, while one has steps left, some call can make one,
-- and it leaves one step less to make: the calls never wait for one another forever.
pub Reached-progress :
    (m : ℕ) (c : Calls)
    → Reached m c
    → 1 ≤ work c.stages
    → (d : Calls) × Step c d × (work c.stages ≡ suc (work d.stages))
Reached-progress m c r h =
    let i = Reached-IsExclusive m c r in
    let one = i.one_holder in
    CanMove-Step c (elim (Bool-cases c.shared.locked) [
      | inl t ↦ holder-CanMove c.stages c.shared (omega (arith, ap one_if t))
      | inr f ↦ free-CanMove c.stages c.shared f h
    ])
