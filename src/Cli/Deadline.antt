-- ===== src/Cli/Deadline.antt =====
-- cmd/cc-send/main.go: the deadline of the wait for receipts, which is set once, before the loop.
use mathlib.Core.Path.{subst}
use claude_code_socket_trans.Cli.Waiting.{IsHeld}
use claude_code_socket_trans.Cli.Receipts.{
  offer, wait, Happening, Waited, answered, arrives, expires, ended, still_waiting, receives,
  status_held, timed_out, channel_size, status_denied, status_expired,
}
use claude_code_socket_trans.Inbox.Reading.{Receipt}
use claude_code_socket_trans.Cli.Fifo.{arrivals, wait_ends}
use claude_code_socket_trans.Base.{
  ℕ, List, ◌+◌, ◌++◌, ◌≤◌, ◌≡◌, ◌<◌, ◌-◌, [], ◌∷◌, All, ◌≢◌, Has, ◌∙◌, ap, is-cases, Bool-cases,
  arith, ◌==◌, ltb, some, inl, if◌then◌else◌, inr, length, ◌is◌, refl, All-append, ◌||◌, sym,
}

-- What may happen while time passes: some nanoseconds pass, a receipt comes in, or the loop turns to the
-- channel or to the deadline, of which `select` may take either.
pub data Tick : Type 0 where
  passes : ℕ → Tick
  comes : Receipt → Tick
  turns_to_channel turns_to_deadline : Tick

-- `time.After` gives its value once the time that is left is over: before that a turn to it is none.
-- The loop could set the deadline again, to the whole duration, and does not.
unfoldable pub clocked : ℕ → ℕ → List Tick → List Happening
clocked duration left [] = []
clocked duration left (passes t ∷ ts) = clocked duration (left - t) ts
clocked duration left (comes r ∷ ts) = arrives r ∷ clocked duration left ts
clocked duration left (turns_to_channel ∷ ts) = receives ∷ clocked duration left ts
clocked duration left (turns_to_deadline ∷ ts) =
    let rest = clocked duration left ts in if left == 0 then expires ∷ rest else rest

-- The wait of `*waitReceipt` nanoseconds, from the setting of the deadline on. What `sendCmd` takes
-- for happenings is what `clocked` gives.
unfoldable pub wait_for : ℕ → List Tick → Waited
wait_for duration ts = wait [] (clocked duration duration ts)

-- The time that has passed.
unfoldable pub passed : List Tick → ℕ
passed [] = 0
passed (passes t ∷ ts) = t + passed ts
passed (_ ∷ ts) = passed ts

-- The receipts that have come in.
unfoldable pub coming : List Tick → List Receipt
coming [] = []
coming (comes r ∷ ts) = r ∷ coming ts
coming (_ ∷ ts) = coming ts

module _ (duration : ℕ) where
  clocked-append :
      (left : ℕ) (a b : List Tick)
      → clocked duration left (a ++ b)
        ≡ clocked duration left a ++ clocked duration (left - passed a) b
  unfolding clocked passed
  clocked-append left [] b = ap (λ k. clocked duration k b) (omega arith)
  clocked-append left (passes t ∷ a) b =
      clocked-append (left - t) a b
      ∙ ap (λ k. clocked duration (left - t) a ++ clocked duration k b) (omega arith)
  clocked-append left (comes r ∷ a) b = ap (◌∷◌ (arrives r)) (clocked-append left a b)
  clocked-append left (turns_to_channel ∷ a) b = ap (◌∷◌ receives) (clocked-append left a b)
  clocked-append left (turns_to_deadline ∷ a) b = elim (Bool-cases (left == 0)) [
    | inl t ↦ rw t (ap (◌∷◌ expires) (clocked-append left a b))
    | inr f ↦ rw f (clocked-append left a b)
  ]

  clocked-over :
      (left : ℕ) (before after : List Tick)
      → left ≤ passed before
      → clocked duration left (before ++ (turns_to_deadline ∷ after))
        ≡ clocked duration left before ++ (expires ∷ clocked duration 0 after)
  unfolding clocked
  clocked-over left before after h =
      let over : left - passed before ≡ 0 = omega arith in
      clocked-append left before (turns_to_deadline ∷ after)
      ∙ ap (λ k. clocked duration left before ++ clocked duration k (turns_to_deadline ∷ after))
          over

  arrivals-clocked : (left : ℕ) (ts : List Tick) → arrivals (clocked duration left ts) ≡ coming ts
  unfolding clocked arrivals coming
  arrivals-clocked left [] = refl
  arrivals-clocked left (passes t ∷ ts) = arrivals-clocked (left - t) ts
  arrivals-clocked left (comes r ∷ ts) = ap (◌∷◌ r) (arrivals-clocked left ts)
  arrivals-clocked left (turns_to_channel ∷ ts) = arrivals-clocked left ts
  arrivals-clocked left (turns_to_deadline ∷ ts) = elim (Bool-cases (left == 0)) [
    | inl t ↦ rw t (arrivals-clocked left ts)
    | inr f ↦ rw f (arrivals-clocked left ts)
  ]

answered_held :
    (r : Receipt) (channel : List Receipt) (next : Waited)
    → IsHeld r
    → (answered r channel next).outcome ≡ next.outcome
answered_held r channel next e = elim (is-cases r.status status_held) [
  | inl (t, _) ↦ rw t refl
  | inr (_, n) ↦ absurd (n e)
]

offer-All :
    (r : Receipt) (channel : List Receipt)
    → IsHeld r
    → All IsHeld channel
    → All IsHeld (offer r channel)
unfolding offer
offer-All r channel h hs = elim (Bool-cases (ltb (length channel) channel_size)) [
  | inl t ↦ rw t (All-append IsHeld channel (r ∷ []) hs (h, tt))
  | inr f ↦ rw f hs
]

-- Held receipts do not end the wait, the deadline does.
wait-held :
    (channel : List Receipt) (hs more : List Happening)
    → All IsHeld channel
    → All IsHeld (arrivals hs)
    → (wait channel (hs ++ (expires ∷ more))).outcome ≡ ended (some timed_out)
unfolding wait arrivals
wait-held [] [] more _ _ = refl
wait-held (r ∷ channel) [] more _ _ = refl
wait-held channel (arrives r ∷ hs) more h (k, ks) =
    wait-held (offer r channel) hs more (offer-All r channel k h) ks
wait-held [] (receives ∷ hs) more h ks = wait-held [] hs more h ks
wait-held (r ∷ channel) (receives ∷ hs) more (h, hc) ks =
    answered_held r channel (wait channel (hs ++ (expires ∷ more))) h
    ∙ wait-held channel hs more hc ks
wait-held [] (expires ∷ hs) more _ _ = refl
wait-held (r ∷ channel) (expires ∷ hs) more _ _ = refl

answered_early :
    (r : Receipt) (channel : List Receipt) (next : Waited)
    → next.outcome ≢ ended (some timed_out)
    → (answered r channel next).outcome ≢ ended (some timed_out)
answered_early r channel next n = elim (is-cases r.status status_held) [
  | inl (t, _) ↦ rw t n
  | inr (f, _) ↦ rw f (elim (Bool-cases (r.status is status_denied || r.status is status_expired)) [
    | inl t ↦ rw t (λ e. cc)
    | inr u ↦ rw u (λ e. cc)
  ])
]

module _ (duration : ℕ) where
  -- Without a turn at the deadline there is no timeout.
  wait-early :
      (channel : List Receipt) (left : ℕ) (ts : List Tick)
      → passed ts < left
      → (wait channel (clocked duration left ts)).outcome ≢ ended (some timed_out)
  unfolding wait clocked passed
  wait-early channel left [] h = λ e. cc
  wait-early channel left (passes t ∷ ts) h = wait-early channel (left - t) ts (omega arith)
  wait-early channel left (comes r ∷ ts) h = wait-early (offer r channel) left ts h
  wait-early [] left (turns_to_channel ∷ ts) h = wait-early [] left ts h
  wait-early (r ∷ channel) left (turns_to_channel ∷ ts) h =
      answered_early r channel (wait channel (clocked duration left ts))
        (wait-early channel left ts h)
  wait-early channel left (turns_to_deadline ∷ ts) h = elim (Bool-cases (left == 0)) [
    | inl t ↦ absurd (ground arith)
    | inr f ↦ rw f (wait-early channel left ts h)
  ]

Has-middle : (hs more : List Happening) → Has expires (hs ++ (expires ∷ more))
Has-middle [] more = inl refl
Has-middle (h ∷ hs) more = inr (Has-middle hs more)

-- The wait times out not before the duration of --wait-receipt has passed; once it has passed since
-- the wait began, whatever receipts came in, and the loop turns to the deadline, the wait has
-- ended, also for all that follows; and if all receipts that came in before are held ones, it has
-- then timed out, which is exit code 3.
pub wait_for-ends :
    (duration : ℕ) (early before after : List Tick)
    → passed early < duration
    → duration ≤ passed before
    → let w = wait_for duration (before ++ (turns_to_deadline ∷ after)) in
      ((wait_for duration early).outcome ≢ ended (some timed_out))
      × (w.outcome ≢ still_waiting)
      × (All IsHeld (coming before) → w.outcome ≡ ended (some timed_out))
unfolding wait_for
wait_for-ends duration early before after k h = (
  wait-early duration [] duration early k,
  rw (clocked-over duration duration before after h)
      (wait_ends [] _ (Has-middle (clocked duration duration before) (clocked duration 0 after))),
  λ held. rw (clocked-over duration duration before after h) (
      wait-held [] (clocked duration duration before) (clocked duration 0 after) tt
        (subst (All IsHeld) (sym (arrivals-clocked duration duration before)) held)),
)
