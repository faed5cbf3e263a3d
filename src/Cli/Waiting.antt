-- ===== src/Cli/Waiting.antt =====
-- How the wait for receipts ends.
use claude_code_socket_trans.Base.{
  List, ◌∷◌, ◌≡◌, All, ap, [], ◌++◌, some, ◌⊎◌, refl, none, inl, is-cases, inr,
}
use claude_code_socket_trans.Inbox.Reading.{Receipt}
use claude_code_socket_trans.Cli.Receipts.{
  wait, Waited, Happening, still_waiting, ended, arrives, receives, expires, offer, Outcome,
  answered, status_held, status_denied, denied_or_expired, status_expired, plain, timed_out,
}

abbrev pub IsHeld : Receipt → Type 0
IsHeld r = r.status ≡ status_held

abbrev pub IsRefused : Receipt → Type 0
IsRefused r = (r.status ≡ status_denied) ⊎ (r.status ≡ status_expired)

-- The receipts that were received are held ones, and behind them one that is not.
pub record IsAnswer (rs : List Receipt) (r : Receipt) : Type 0 where
  pub held : List Receipt
  pub all_held : All IsHeld held
  pub around : rs ≡ held ++ (r ∷ [])
  pub not_held : ¬ (IsHeld r)

-- What an outcome says of the receipts that were received.
abbrev pub Judges : Outcome → List Receipt → Type 0
Judges still_waiting rs = All IsHeld rs
Judges (ended none) rs = (r : Receipt) × IsAnswer rs r × (¬ (IsRefused r))
Judges (ended (some timed_out)) rs = All IsHeld rs
Judges (ended (some (denied_or_expired status))) rs =
    (r : Receipt) × IsAnswer rs r × IsRefused r × (r.status ≡ status)
Judges (ended (some (plain e))) rs = ⊥

IsAnswer-later :
    (h r : Receipt) (rs : List Receipt) → IsHeld h → IsAnswer rs r → IsAnswer (h ∷ rs) r
IsAnswer-later h r rs k a = record {
  held = h ∷ a.held;
  all_held = (k, a.all_held);
  around = ap (◌∷◌ h) a.around;
  not_held = a.not_held;
}

Judges-later :
    (o : Outcome) (h : Receipt) (rs : List Receipt) → IsHeld h → Judges o rs → Judges o (h ∷ rs)
Judges-later still_waiting h rs k j = (k, j)
Judges-later (ended none) h rs k (r, a, n) = (r, IsAnswer-later h r rs k a, n)
Judges-later (ended (some timed_out)) h rs k j = (k, j)
Judges-later (ended (some (denied_or_expired status))) h rs k (r, a, n, e) =
    (r, IsAnswer-later h r rs k a, n, e)
Judges-later (ended (some (plain e))) h rs k j = j

IsAnswer-now : (r : Receipt) → ¬ (IsHeld r) → IsAnswer (r ∷ []) r
IsAnswer-now r n = record { held = []; all_held = tt; around = refl; not_held = n }

pub Or_refused : {A : Type 0} {B : Type 0} → ¬ A → ¬ B → A ⊎ B → ⊥
Or_refused n m (inl a) = n a
Or_refused n m (inr b) = m b

answered-Judges :
    (r : Receipt) (channel : List Receipt) (next : Waited)
    → Judges next.outcome next.received
    → Judges (answered r channel next).outcome (answered r channel next).received
answered-Judges r channel next j = elim (is-cases r.status status_held) [
  | inl (t, e) ↦ rw t (Judges-later next.outcome r next.received e j)
  | inr (f, n) ↦ rw f (elim (is-cases r.status status_denied) [
    | inl (t', e) ↦ rw t' (r, IsAnswer-now r n, inl e, refl)
    | inr (f', n') ↦ rw f' (elim (is-cases r.status status_expired) [
      | inl (t'', e) ↦ rw t'' (r, IsAnswer-now r n, inr e, refl)
      | inr (f'', n'') ↦ rw f'' (r, IsAnswer-now r n, λ d. Or_refused n' n'' d)
    ])
  ])
]

-- The receipts that the wait has received are held ones only, if it still waits or timed out; if it
-- ended with exit code 2 they are held ones and last a denied or expired one, whose status is the
-- reported one; if it succeeded they are held ones and last one that is neither held nor denied nor
-- expired. It ends in no other way.
pub wait-Judges :
    (channel : List Receipt) (hs : List Happening)
    → Judges (wait channel hs).outcome (wait channel hs).received
unfolding wait
wait-Judges channel [] = tt
wait-Judges channel (arrives r ∷ hs) = wait-Judges (offer r channel) hs
wait-Judges [] (receives ∷ hs) = wait-Judges [] hs
wait-Judges (r ∷ channel) (receives ∷ hs) =
    answered-Judges r channel (wait channel hs) (wait-Judges channel hs)
wait-Judges [] (expires ∷ hs) = tt
wait-Judges (r ∷ channel) (expires ∷ hs) = tt
