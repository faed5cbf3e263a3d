-- ===== src/Find/PickOne.antt =====
-- `pickOne` and the lookups on it: one live match wins, and two are never guessed between.
use claude_code_socket_trans.Session.{Session}
use claude_code_socket_trans.Base.{
  Bool, ◌≡◌, List, [], false, ◌++◌, true, All, ◌∷◌, refl, ◌∙◌, Bool-cases, inl, sym, inr, ◌⊎◌, ap,
  Result, err, ok, not_found, ambiguous, ◌≤◌, length, arith,
}
use claude_code_socket_trans.Find.{pick_one, select, Session, only_live}

module _ (live : Session → Bool) where
  abbrev pub IsDead : Session → Type 0
  IsDead s = live s ≡ false

  -- `s` is live and stands in the list, and no other entry is live.
  pub record IsOnlyLive (ms : List Session) (s : Session) : Type 0 where
    pub earlier : List Session
    pub later : List Session
    pub around : ms ≡ earlier ++ (s ∷ later)
    pub is_live : live s ≡ true
    pub dead_earlier : All IsDead earlier
    pub dead_later : All IsDead later

  -- At least two entries are live.
  pub record AreTwoLive (ms : List Session) : Type 0 where
    pub first : Session
    pub second : Session
    pub earlier : List Session
    pub between : List Session
    pub later : List Session
    pub around : ms ≡ earlier ++ (first ∷ (between ++ (second ∷ later)))
    pub first_live : live first ≡ true
    pub second_live : live second ≡ true

  pub select_live :
      (s : Session) (ss : List Session) → live s ≡ true → select live (s ∷ ss) ≡ s ∷ select live ss
  unfolding select
  select_live s ss h = rw h

  pub select_dead :
      (s : Session) (ss : List Session) → live s ≡ false → select live (s ∷ ss) ≡ select live ss
  unfolding select
  select_dead s ss h = rw h

  select_nil : select live [] ≡ []
  unfolding select
  select_nil = refl

  select-eq-nil : (ms : List Session) → All IsDead ms → select live ms ≡ []
  select-eq-nil [] _ = select_nil
  select-eq-nil (s ∷ ss) (h, hs) = select_dead s ss h ∙ select-eq-nil ss hs

  pub eq-nil-select : (ms : List Session) → select live ms ≡ [] → All IsDead ms
  eq-nil-select [] _ = tt
  eq-nil-select (s ∷ ss) h = elim (Bool-cases (live s)) [
    | inl e ↦ absurd (cons_not_nil (sym (select_live s ss e) ∙ h))
    | inr e ↦ (e, eq-nil-select ss (sym (select_dead s ss e) ∙ h))
  ]
    where
      cons_not_nil : {t : Session} {ts : List Session} → t ∷ ts ≡ [] → ⊥
      cons_not_nil p = cc

  -- The first live entry, with what stands around it.
  first_live_of :
      (ms : List Session) (s : Session) (ss : List Session)
      → select live ms ≡ s ∷ ss
      → (a : List Session) × (b : List Session) × (ms ≡ a ++ (s ∷ b))
        × (live s ≡ true)
        × All IsDead a
        × (select live b ≡ ss)
  first_live_of [] s ss h = cc select_nil
  first_live_of (t ∷ ts) s ss h =
      choose (Bool-cases (live t)) (λ e. first_live_of ts s ss (sym (select_dead t ts e) ∙ h))
    where
      Front : List Session → Type 0
      Front ms =
          (a : List Session) × (b : List Session) × (ms ≡ a ++ (s ∷ b))
          × (live s ≡ true)
          × All IsDead a
          × (select live b ≡ ss)

      choose : (live t ≡ true) ⊎ (live t ≡ false) → (live t ≡ false → Front ts) → Front (t ∷ ts)
      choose (inl e) _ =
          let heads : t ∷ select live ts ≡ s ∷ ss = sym (select_live t ts e) ∙ h in
          let same : t ≡ s = cc in ([], ts, ap (λ u. u ∷ ts) same, ap live (sym same) ∙ e, tt, cc)
      choose (inr e) deeper =
          let (a, b, p, l, d, q) = deeper e in (t ∷ a, b, ap (◌∷◌ t) p, l, (e, d), q)

  select-append : (a b : List Session) → All IsDead a → select live (a ++ b) ≡ select live b
  select-append [] b _ = refl
  select-append (s ∷ a) b (h, hs) = select_dead s (a ++ b) h ∙ select-append a b hs

  pub IsOnlyLive-sound :
      (ms : List Session) (s : Session) → select live ms ≡ s ∷ [] → IsOnlyLive ms s
  IsOnlyLive-sound ms s h =
      let (a, b, p, l, d, q) = first_live_of ms s [] h in
      record {
        earlier = a;
        later = b;
        around = p;
        is_live = l;
        dead_earlier = d;
        dead_later = eq-nil-select b q;
      }

  IsOnlyLive-complete :
      (ms : List Session) (s : Session) → IsOnlyLive ms s → select live ms ≡ s ∷ []
  IsOnlyLive-complete ms s o =
      ap (select live) o.around
      ∙ select-append o.earlier (s ∷ o.later) o.dead_earlier
      ∙ select_live s o.later o.is_live
      ∙ ap (◌∷◌ s) (select-eq-nil o.later o.dead_later)

  pub two_live_sound :
      (ms : List Session) (s t : Session) (ss : List Session)
      → select live ms ≡ s ∷ t ∷ ss
      → AreTwoLive ms
  two_live_sound ms s t ss h =
      let (a, b, p, l, _, q) = first_live_of ms s (t ∷ ss) h in
      let (c, d, p', l', _, _) = first_live_of b t ss q in
      record {
        first = s;
        second = t;
        earlier = a;
        between = c;
        later = d;
        around = p ∙ ap (λ u. a ++ (s ∷ u)) p';
        first_live = l;
        second_live = l';
      }

  -- What `pickOne` says of several matches.
  abbrev pub Picked : List Session → Result Session → Type 0
  Picked ms (ok s) = IsOnlyLive ms s
  Picked ms (err e) = ((e ≡ not_found) × All IsDead ms) ⊎ ((e ≡ ambiguous) × AreTwoLive ms)

  only_live-Picked :
      (ms found : List Session) → select live ms ≡ found → Picked ms (only_live found)
  only_live-Picked ms [] h = inl (refl, eq-nil-select ms h)
  only_live-Picked ms (s ∷ []) h = IsOnlyLive-sound ms s h
  only_live-Picked ms (s ∷ t ∷ ss) h = inr (refl, two_live_sound ms s t ss h)

  -- Of several matches pickOne returns one only if it is live and no other is; it fails with
  -- ErrNotFound only if none is live, and else with ErrAmbiguous, when two are.
  pub pick_one-Picked : (ms : List Session) → 2 ≤ length ms → Picked ms (pick_one live ms)
  unfolding pick_one
  pick_one-Picked [] h = absurd (omega arith)
  pick_one-Picked (s ∷ []) h = absurd (omega arith)
  pick_one-Picked (s ∷ t ∷ ss) h = only_live-Picked (s ∷ t ∷ ss) (select live (s ∷ t ∷ ss)) refl

  -- Of several matches pickOne returns the one that is live, if no other is.
  pub pick_one_live :
      (ms : List Session) (s : Session) → 2 ≤ length ms → IsOnlyLive ms s → pick_one live ms ≡ ok s
  unfolding pick_one
  pick_one_live [] s h o = absurd (omega arith)
  pick_one_live (s ∷ []) t h o = absurd (omega arith)
  pick_one_live (s ∷ t ∷ ss) u h o = ap only_live (IsOnlyLive-complete (s ∷ t ∷ ss) u o)
