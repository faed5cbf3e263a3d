-- ===== src/Find/Chosen.antt =====
-- The lookups by session ID and by name, over all listed entries.
use claude_code_socket_trans.Registry.{list_sessions}
use claude_code_socket_trans.Find.PickOne.{
  AreTwoLive, eq-nil-select, IsDead, IsOnlyLive-sound, two_live_sound, IsOnlyLive,
}
use claude_code_socket_trans.Os.{Os}
use claude_code_socket_trans.Base.{
  Bool, ◌&&◌, List, Result, ◌≡◌, Bytes, All, ◌∷◌, ℕ, Bool-cases, err, inr, ok, not_found, inl, sym,
  ◌≢◌, ap, ◌∙◌, [], ambiguous, ◌is◌, refl, is-cases,
}
use claude_code_socket_trans.Find.{
  find_by_session_id, find_by_name, select, pick_one, Os, only_live, list_sessions, reachable,
}
use claude_code_socket_trans.Session.{Session, reachable}

module _ (test live : Session → Bool) where
  abbrev pub both : Session → Bool
  both s = test s && live s

  -- What a lookup of the entries with `test` gives: nothing where there is none, the only one there is
  -- whether it is live or not, and else the only live one, if one is live and no other.
  pub data IsChosen (ss : List Session) : Result Session → Type 0 where
    nobody : All (IsDead test) ss → IsChosen ss (err not_found)
    sole : {s : Session} → IsOnlyLive test ss s → IsChosen ss (ok s)
    one_live : {s : Session} → AreTwoLive test ss → IsOnlyLive both ss s → IsChosen ss (ok s)
    none_live : AreTwoLive test ss → All (IsDead both) ss → IsChosen ss (err not_found)
    several_live : AreTwoLive both ss → IsChosen ss (err ambiguous)

  select-both : (ss : List Session) → select live (select test ss) ≡ select both ss
  unfolding select
  select-both [] = refl
  select-both (s ∷ ss) = elim (Bool-cases (test s)) [
    | inr f ↦ rw f (select-both ss)
    | inl t ↦ rw t (elim (Bool-cases (live s)) [
      | inl l ↦ rw l (ap (◌∷◌ s) (select-both ss))
      | inr d ↦ rw d (select-both ss)
    ])
  ]

  only_live-IsChosen :
      (ss found : List Session)
      → AreTwoLive test ss
      → select both ss ≡ found
      → IsChosen ss (only_live found)
  only_live-IsChosen ss [] w h = none_live w (eq-nil-select both ss h)
  only_live-IsChosen ss (s ∷ []) w h = one_live w (IsOnlyLive-sound both ss s h)
  only_live-IsChosen ss (s ∷ t ∷ ts) w h = several_live (two_live_sound both ss s t ts h)

  matches-IsChosen :
      (ss found : List Session) → select test ss ≡ found → IsChosen ss (pick_one live found)
  unfolding pick_one
  matches-IsChosen ss [] h = nobody (eq-nil-select test ss h)
  matches-IsChosen ss (s ∷ []) h = sole (IsOnlyLive-sound test ss s h)
  matches-IsChosen ss (s ∷ t ∷ ts) h =
      only_live-IsChosen ss (select live (s ∷ t ∷ ts)) (two_live_sound test ss s t ts h)
        (sym (select-both ss) ∙ ap (select live) h)

-- Where ListSessions succeeds, the lookup of a session ID or a name that is not empty fails with
-- ErrNotFound where no entry carries it, gives the only entry that does, live or not, and of
-- several the live one if no other is live; it fails with ErrNotFound where none of several is
-- live, and with ErrAmbiguous where two are.
pub find_by_key-IsChosen :
    (os : Os) (key : Bytes) (timeout : ℕ) (ss : List Session)
    → list_sessions os ≡ ok ss
    → key ≢ []
    → IsChosen
        (λ s. s.session_id is key)
        (λ s. reachable os s timeout)
        ss
        (find_by_session_id os key timeout)
      × IsChosen (λ s. s.name is key) (λ s. reachable os s timeout) ss (find_by_name os key timeout)
unfolding find_by_session_id find_by_name
find_by_key-IsChosen os key timeout ss l n = elim (is-cases key []) [
  | inl (_, e) ↦ absurd (n e)
  | inr (f, _) ↦ rw f (
      rw l (
        matches-IsChosen (λ s. s.session_id is key) (λ s. reachable os s timeout) ss _ refl,
        matches-IsChosen (λ s. s.name is key) (λ s. reachable os s timeout) ss _ refl,
      ))
]
