-- ===== src/Cli/Fifo.antt =====
-- The channel of receipts keeps their order, never holds more than its size, and drops none while it
-- has room; and the wait ends by its deadline.
use mathlib.Core.Path.{subst}
use claude_code_socket_trans.Base.{
  List, ◌∷◌, [], ◌++◌, ◌≡◌, length, ◌≢◌, Has, ◌<◌, is-cases, ◌+◌, inl, ◌≤◌, inr, ◌⊎◌, Bool-cases,
  ap, ltb, ◌is◌, refl, ◌∙◌, ◌||◌, append_assoc, length-append, sym,
}
use claude_code_socket_trans.Inbox.Reading.{Receipt}
use claude_code_socket_trans.Cli.Receipts.{
  wait, Waited, Happening, still_waiting, arrives, receives, expires, offer, answered, channel_size,
  status_held, status_denied, status_expired,
}
use native.Mathlib.Omega.{arith}

-- The receipts that arrive, in order.
unfoldable pub arrivals : List Happening → List Receipt
arrivals [] = []
arrivals (arrives r ∷ hs) = r ∷ arrivals hs
arrivals (receives ∷ hs) = arrivals hs
arrivals (expires ∷ hs) = arrivals hs

-- One list, with items left out.
pub data IsPartOf {ℓ} {A : Type ℓ} : List A → List A → Type ℓ where
  nothing : {ys : List A} → IsPartOf [] ys
  keep : {xs ys : List A} (x : A) → IsPartOf xs ys → IsPartOf (x ∷ xs) (x ∷ ys)
  leave : {xs ys : List A} (x : A) → IsPartOf xs ys → IsPartOf xs (x ∷ ys)

IsPartOf-append {ℓ} : {A : Type ℓ} (xs ys : List A) → IsPartOf xs (xs ++ ys)
IsPartOf-append [] ys = nothing
IsPartOf-append (x ∷ xs) ys = keep x (IsPartOf-append xs ys)

-- One item more is left out behind a prefix.
IsPartOf-skip {ℓ} :
    {A : Type ℓ} (front zs : List A) (x : A) {xs : List A}
    → IsPartOf xs (front ++ zs)
    → IsPartOf xs (front ++ (x ∷ zs))
IsPartOf-skip [] zs x p = leave x p
IsPartOf-skip (a ∷ front) zs x nothing = nothing
IsPartOf-skip (a ∷ front) zs x (keep b p) = keep b (IsPartOf-skip front zs x p)
IsPartOf-skip (a ∷ front) zs x (leave b p) = leave b (IsPartOf-skip front zs x p)

offer-cases :
    (r : Receipt) (channel : List Receipt)
    → ((offer r channel ≡ channel ++ (r ∷ [])) × (length channel < channel_size))
      ⊎ ((offer r channel ≡ channel) × (channel_size ≤ length channel))
unfolding offer
offer-cases r channel = elim (Bool-cases (ltb (length channel) channel_size)) [
  | inl t ↦ inl (rw t refl, ground arith)
  | inr f ↦ inr (rw f refl, ground arith)
]

-- What a run of the loop has received and left in the channel.
abbrev pub kept : Waited → List Receipt
kept w = w.received ++ w.channel

answered-IsPartOf :
    (r : Receipt) (channel : List Receipt) (next : Waited) (more : List Receipt)
    → IsPartOf (kept next) (channel ++ more)
    → IsPartOf (kept (answered r channel next)) (r ∷ (channel ++ more))
answered-IsPartOf r channel next more p = elim (is-cases r.status status_held) [
  | inl (t, e) ↦ rw t (keep r p)
  | inr (f, n) ↦ rw f (elim (Bool-cases (r.status is status_denied || r.status is status_expired)) [
    | inl t ↦ rw t (keep r (IsPartOf-append channel more))
    | inr u ↦ rw u (keep r (IsPartOf-append channel more))
  ])
]

-- The receipts that the wait has received, and behind them those left in the channel, are the
-- receipts of the channel and those that arrived, in their order, with none twice and some perhaps
-- left out.
pub wait-IsPartOf :
    (channel : List Receipt) (hs : List Happening)
    → IsPartOf (kept (wait channel hs)) (channel ++ arrivals hs)
unfolding wait arrivals
wait-IsPartOf channel [] = IsPartOf-append channel []
wait-IsPartOf channel (arrives r ∷ hs) =
    offered (wait-IsPartOf (offer r channel) hs) (offer-cases r channel)
  where
    offered :
        IsPartOf (kept (wait (offer r channel) hs)) (offer r channel ++ arrivals hs)
        → ((offer r channel ≡ channel ++ (r ∷ [])) × (length channel < channel_size))
          ⊎ ((offer r channel ≡ channel) × (channel_size ≤ length channel))
        → IsPartOf (kept (wait (offer r channel) hs)) (channel ++ (r ∷ arrivals hs))
    offered p (inl (e, _)) =
        subst (IsPartOf (kept (wait (offer r channel) hs)))
          (ap (λ c. c ++ arrivals hs) e ∙ append_assoc channel (r ∷ []) (arrivals hs)) p
    offered p (inr (e, _)) =
        IsPartOf-skip channel (arrivals hs) r
          (subst (IsPartOf (kept (wait (offer r channel) hs))) (ap (λ c. c ++ arrivals hs) e) p)
wait-IsPartOf [] (receives ∷ hs) = wait-IsPartOf [] hs
wait-IsPartOf (r ∷ channel) (receives ∷ hs) =
    answered-IsPartOf r channel (wait channel hs) (arrivals hs) (wait-IsPartOf channel hs)
wait-IsPartOf [] (expires ∷ hs) = nothing
wait-IsPartOf (r ∷ channel) (expires ∷ hs) = IsPartOf-append (r ∷ channel) (arrivals hs)

answered_prefix :
    (r : Receipt) (channel : List Receipt) (next : Waited) (more : List Receipt)
    → (rest : List Receipt) × (channel ++ more ≡ next.received ++ rest)
    → (rest : List Receipt) × (r ∷ (channel ++ more) ≡ (answered r channel next).received ++ rest)
answered_prefix r channel next more (rest, e) = elim (is-cases r.status status_held) [
  | inl (t, _) ↦ rw t (rest, ap (◌∷◌ r) e)
  | inr (f, n) ↦ rw f (elim (Bool-cases (r.status is status_denied || r.status is status_expired)) [
    | inl t ↦ rw t (channel ++ more, refl)
    | inr u ↦ rw u (channel ++ more, refl)
  ])
]

-- If the receipts in the channel and those that arrive are at most 16 together, the receipts that
-- the wait has received are the first ones of these, in order and with none left out.
pub wait_lossless :
    (channel : List Receipt) (hs : List Happening)
    → length channel + length (arrivals hs) ≤ channel_size
    → (rest : List Receipt) × (channel ++ arrivals hs ≡ (wait channel hs).received ++ rest)
unfolding wait arrivals
wait_lossless channel [] h = (channel ++ [], refl)
wait_lossless channel (arrives r ∷ hs) h =
    offered (wait_lossless (offer r channel) hs) (offer-cases r channel)
  where
    offered :
        (length (offer r channel) + length (arrivals hs) ≤ channel_size
          → (rest : List Receipt) × (offer r channel ++ arrivals hs
              ≡ (wait (offer r channel) hs).received ++ rest))
        → ((offer r channel ≡ channel ++ (r ∷ [])) × (length channel < channel_size))
          ⊎ ((offer r channel ≡ channel) × (channel_size ≤ length channel))
        → (rest : List Receipt) × (channel ++ (r ∷ arrivals hs)
            ≡ (wait (offer r channel) hs).received ++ rest)
    offered more (inl (e, _)) =
        let (rest, q) = more (omega (arith, ap length e, length-append channel (r ∷ []), h)) in
        (
          rest,
          sym (append_assoc channel (r ∷ []) (arrivals hs))
              ∙ ap (λ c. c ++ arrivals hs) (sym e)
              ∙ q,
        )
    offered more (inr (_, full)) = absurd (omega (arith, h))
wait_lossless [] (receives ∷ hs) h = wait_lossless [] hs h
wait_lossless (r ∷ channel) (receives ∷ hs) h =
    answered_prefix r channel (wait channel hs) (arrivals hs)
      (wait_lossless channel hs (omega arith))
wait_lossless [] (expires ∷ hs) h = (arrivals hs, refl)
wait_lossless (r ∷ channel) (expires ∷ hs) h = (r ∷ (channel ++ arrivals hs), refl)

answered_ends :
    (r : Receipt) (channel : List Receipt) (next : Waited)
    → next.outcome ≢ still_waiting
    → (answered r channel next).outcome ≢ still_waiting
answered_ends r channel next n = elim (is-cases r.status status_held) [
  | inl (t, _) ↦ rw t n
  | inr (f, _) ↦ rw f (elim (Bool-cases (r.status is status_denied || r.status is status_expired)) [
    | inl t ↦ rw t (λ e. cc)
    | inr u ↦ rw u (λ e. cc)
  ])
]

-- The wait has ended once the deadline has had its turn, whatever arrived or was received before
-- and after.
pub wait_ends :
    (channel : List Receipt) (hs : List Happening)
    → Has expires hs
    → (wait channel hs).outcome ≢ still_waiting
unfolding wait
wait_ends channel [] h = absurd h
wait_ends channel (arrives r ∷ hs) (inl e) = cc
wait_ends channel (arrives r ∷ hs) (inr h) = wait_ends (offer r channel) hs h
wait_ends [] (receives ∷ hs) (inl e) = cc
wait_ends [] (receives ∷ hs) (inr h) = wait_ends [] hs h
wait_ends (r ∷ channel) (receives ∷ hs) (inl e) = cc
wait_ends (r ∷ channel) (receives ∷ hs) (inr h) =
    answered_ends r channel (wait channel hs) (wait_ends channel hs h)
wait_ends [] (expires ∷ hs) h = λ e. cc
wait_ends (r ∷ channel) (expires ∷ hs) h = λ e. cc
