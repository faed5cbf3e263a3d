-- ===== src/Find/Verified.antt =====
-- The lookups that confirm what they return.
use claude_code_socket_trans.Find.PickOne.{select_live, select_dead}
use mathlib.Core.Path.{subst}
use claude_code_socket_trans.Registry.{list_sessions}
use claude_code_socket_trans.Session.{Session, verify, matches_process, reachable}
use claude_code_socket_trans.Base.{
  ℕ, Bool, List, Bytes, Has, ◌≡◌, ◌is◌, ok, true, ◌↔◌, ◌∷◌, arith, ◌≢◌, ◌⊎◌, inl, [], false, ap,
  ◌∙◌, inr, Bool-cases,
}
use claude_code_socket_trans.Os.{Os}
use claude_code_socket_trans.Find.{
  pick_one, select, find_by_session_id, find_by_pid_for_session, find_by_pid_for_process, Session,
  find_by_name, verify, matches_process, only_live, list_sessions, find_by_pid, reachable,
}

-- FindByPIDForSession returns an entry exactly when FindByPID does and the entry carries the given
-- session ID, which is not empty.
pub find_by_pid_for_session_iff :
    (os : Os) (pid : ℕ) (id : Bytes) (s : Session)
    → (find_by_pid_for_session os pid id ≡ ok s)
      ↔ ((find_by_pid os pid ≡ ok s) × (id ≢ []) × (s.session_id ≡ id))
unfolding find_by_pid_for_session verify
find_by_pid_for_session_iff os pid id s = (λ h. ground arith, λ h. ground arith)

-- FindByPIDForProcess returns an entry exactly when FindByPID does and the entry carries the given
-- start token, which is not empty.
pub find_by_pid_for_process_iff :
    (os : Os) (pid : ℕ) (token : Bytes) (s : Session)
    → (find_by_pid_for_process os pid token ≡ ok s)
      ↔ ((find_by_pid os pid ≡ ok s) × (token ≢ []) × (s.proc_start ≡ token))
unfolding find_by_pid_for_process matches_process
find_by_pid_for_process_iff os pid token s = (λ h. ground arith, λ h. ground arith)

-- FindByPIDForSession, and likewise FindByPIDForProcess, returns an entry exactly when FindByPID
-- does and the entry carries the given session ID, or start token, which is not empty.
pub find_by_pid_verified_iff :
    (os : Os) (pid : ℕ) (key : Bytes) (s : Session)
    → ((find_by_pid_for_session os pid key ≡ ok s)
        ↔ ((find_by_pid os pid ≡ ok s) × (key ≢ []) × (s.session_id ≡ key)))
      × ((find_by_pid_for_process os pid key ≡ ok s)
          ↔ ((find_by_pid os pid ≡ ok s) × (key ≢ []) × (s.proc_start ≡ key)))
find_by_pid_verified_iff os pid key s =
    (find_by_pid_for_session_iff os pid key s, find_by_pid_for_process_iff os pid key s)

module _ (test : Session → Bool) where
  select-Has :
      (ss : List Session) (s : Session) → Has s (select test ss) → Has s ss × (test s ≡ true)
  select-Has [] s h = absurd (unfold select in h)
  select-Has (t ∷ ts) s h = choose (Bool-cases (test t)) (select-Has ts s)
    where
      choose :
          (test t ≡ true) ⊎ (test t ≡ false)
          → (Has s (select test ts) → Has s ts × (test s ≡ true))
          → Has s (t ∷ ts) × (test s ≡ true)
      choose (inl e) deeper = kept (subst (Has s) (select_live test t ts e) h)
        where
          kept : (s ≡ t) ⊎ Has s (select test ts) → Has s (t ∷ ts) × (test s ≡ true)
          kept (inl same) = (inl same, ap test same ∙ e)
          kept (inr rest) = let (a, b) = deeper rest in (inr a, b)
      choose (inr e) deeper =
          let (a, b) = deeper (subst (Has s) (select_dead test t ts e) h) in (inr a, b)

only_live-Has : (ss : List Session) (s : Session) → only_live ss ≡ ok s → Has s ss
only_live-Has [] s h = cc
only_live-Has (t ∷ []) s h = inl (cc)
only_live-Has (t ∷ u ∷ ss) s h = cc

pick_one-Has :
    (live : Session → Bool) (ms : List Session) (s : Session) → pick_one live ms ≡ ok s → Has s ms
unfolding pick_one
pick_one-Has live [] s h = cc
pick_one-Has live (t ∷ []) s h = inl (cc)
pick_one-Has live (t ∷ u ∷ ss) s h = (select-Has live (t ∷ u ∷ ss) s (only_live-Has _ s h)).0

is-eq : (a b : Bytes) → (a is b) ≡ true → a ≡ b
is-eq a b h = ground arith

find_by_session_id-parts :
    (os : Os) (id : Bytes) (timeout : ℕ) (s : Session) (ss : List Session)
    → list_sessions os ≡ ok ss
    → find_by_session_id os id timeout ≡ ok s
    → (id ≢ [])
      × (pick_one (λ s. reachable os s timeout) (select (λ s. s.session_id is id) ss) ≡ ok s)
unfolding find_by_session_id
find_by_session_id-parts os id timeout s ss l h = ground arith

-- A lookup by session ID returns a listed entry with that ID, which is not empty.
pub find_by_session_id_sound :
    (os : Os) (id : Bytes) (timeout : ℕ) (s : Session) (ss : List Session)
    → list_sessions os ≡ ok ss
    → find_by_session_id os id timeout ≡ ok s
    → (id ≢ []) × Has s ss × (s.session_id ≡ id)
find_by_session_id_sound os id timeout s ss l h =
    let (n, p) = find_by_session_id-parts os id timeout s ss l h in
    let (a, b) =
      select-Has (λ s. s.session_id is id) ss s
        (pick_one-Has (λ s. reachable os s timeout) _ s p) in
    (n, a, is-eq s.session_id id b)

find_by_name-parts :
    (os : Os) (name : Bytes) (timeout : ℕ) (s : Session) (ss : List Session)
    → list_sessions os ≡ ok ss
    → find_by_name os name timeout ≡ ok s
    → (name ≢ [])
      × (pick_one (λ s. reachable os s timeout) (select (λ s. s.name is name) ss) ≡ ok s)
unfolding find_by_name
find_by_name-parts os name timeout s ss l h = ground arith

-- A lookup by name returns a listed entry with that name, which is not empty.
pub find_by_name_sound :
    (os : Os) (name : Bytes) (timeout : ℕ) (s : Session) (ss : List Session)
    → list_sessions os ≡ ok ss
    → find_by_name os name timeout ≡ ok s
    → (name ≢ []) × Has s ss × (s.name ≡ name)
find_by_name_sound os name timeout s ss l h =
    let (n, p) = find_by_name-parts os name timeout s ss l h in
    let (a, b) =
      select-Has (λ s. s.name is name) ss s (pick_one-Has (λ s. reachable os s timeout) _ s p) in
    (n, a, is-eq s.name name b)
