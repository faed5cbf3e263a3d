-- ===== src/Cli/Codes.antt =====
-- What the end of `sendCmd` says of what it did.
use claude_code_socket_trans.Utf8.{trim_space}
use claude_code_socket_trans.Message.Frame.{Message}
use claude_code_socket_trans.Cli.Flags.{Numerals, parse}
use claude_code_socket_trans.Inbox.Listen.{ListenEvent, Binding, Listened, listen}
use claude_code_socket_trans.Inbox.Reading.{Receipt}
use claude_code_socket_trans.Client.{Net, Client}
use claude_code_socket_trans.Base.{
  Bool, List, Result, Bytes, ◌∷◌, Has, some, ◌++◌, ◌≡◌, inl, [], err, All, inr, ok, Bool-cases,
  none, true, false, refl, ◌is◌,
}
use claude_code_socket_trans.Cli.Send.{
  send_cmd, Act, listening, sending, printed_id, printed_receipts, inbox_closed, Ran, reported,
  dispatched, SendFlags, then_do, with_reply, with_flags, deliver, closing_inbox, with_inbox,
  is_positive, message_of, join_words, client_of, from_flag, or_self, send_flags, send_defaults,
}
use claude_code_socket_trans.Cli.Receipts.{
  Outcome, still_waiting, ended, Happening, plain, denied_or_expired, timed_out, wait,
}
use claude_code_socket_trans.Cli.Waiting.{wait-Judges, IsAnswer, IsRefused, IsHeld, Judges}
use claude_code_socket_trans.Os.{Os}

-- Success: an ID was printed. Refusal: an ID was printed, and receipts that end by a refusal with the
-- reported status. Timeout: an ID was printed, and held receipts only.
abbrev pub Explains : Outcome → List Act → Type 0
Explains still_waiting acts = Unit
Explains (ended none) acts = (id : Bytes) × Has (printed_id id) acts
Explains (ended (some (plain e))) acts = Unit
Explains (ended (some (denied_or_expired status))) acts =
    (id : Bytes) × (rs : List Receipt) × (r : Receipt) × Has (printed_id id) acts
    × Has (printed_receipts rs) acts
    × IsAnswer rs r
    × IsRefused r
    × (r.status ≡ status)
Explains (ended (some timed_out)) acts =
    (id : Bytes) × (rs : List Receipt) × Has (printed_id id) acts
    × Has (printed_receipts rs) acts
    × All IsHeld rs

-- More acts change nothing of it.
Explains-more :
    (o : Outcome) (acts more : List Act)
    → ((a : Act) → Has a acts → Has a more)
    → Explains o acts
    → Explains o more
Explains-more still_waiting acts more w x = tt
Explains-more (ended none) acts more w (id, h) = (id, w _ h)
Explains-more (ended (some (plain e))) acts more w x = tt
Explains-more (ended (some (denied_or_expired status))) acts more w (id, rs, r, h, k, x, y, z) =
    (id, rs, r, w _ h, w _ k, x, y, z)
Explains-more (ended (some timed_out)) acts more w (id, rs, h, k, x) = (id, rs, w _ h, w _ k, x)

Has-append : (a : Act) (xs ys : List Act) → Has a xs → Has a (xs ++ ys)
Has-append a [] ys h = absurd h
Has-append a (x ∷ xs) ys (inl e) = inl e
Has-append a (x ∷ xs) ys (inr h) = inr (Has-append a xs ys h)

module _ (os : Os) (net : Net) where
  waited-Explains :
      (id : Bytes) (rs : List Receipt) (o : Outcome)
      → Judges o rs
      → Explains o (printed_id id ∷ printed_receipts rs ∷ [])
  waited-Explains id rs still_waiting j = tt
  waited-Explains id rs (ended none) j = (id, inl refl)
  waited-Explains id rs (ended (some (plain e))) j = tt
  waited-Explains id rs (ended (some (denied_or_expired status))) (r, a, b, c) =
      (id, rs, r, inl refl, inr (inl refl), a, b, c)
  waited-Explains id rs (ended (some timed_out)) j = (id, rs, inl refl, inr (inl refl), j)

  reported-Explains :
      (inbox : Bool) (hs : List Happening) (r : Result Bytes)
      → let q = reported os net inbox hs r in Explains q.failure q.acts
  reported-Explains inbox hs (err e) = tt
  reported-Explains false hs (ok id) = (id, inl refl)
  reported-Explains true hs (ok id) =
      waited-Explains id (wait [] hs).received (wait [] hs).outcome (wait-Judges [] hs)

  dispatched-Explains :
      (c : Client) (f : SendFlags) (m : Message) (inbox : Bool) (hs : List Happening)
      → let q = dispatched os net c f m inbox hs in Explains q.failure q.acts
  unfolding dispatched
  dispatched-Explains c f m inbox hs =
      let d = deliver os net c f m in
      let q = reported os net inbox hs d.result in
      Explains-more q.failure q.acts (sending m d.events ∷ q.acts) (λ a h. inr h)
        (reported-Explains inbox hs d.result)

  closing_inbox-Explains :
      (es : List ListenEvent) (r : Ran)
      → Explains r.failure r.acts
      → let q = then_do (listening es) (closing_inbox os net r) in Explains q.failure q.acts
  closing_inbox-Explains es r x = by_outcome r.failure x
    where
      by_outcome :
          (o : Outcome)
          → Explains o r.acts
          → let q =
              then_do
                (listening es)
                (closing_inbox os net (record { failure = o; acts = r.acts })) in
            Explains q.failure q.acts
      by_outcome still_waiting x = tt
      by_outcome (ended f) x =
          Explains-more (ended f) r.acts (listening es ∷ (r.acts ++ (inbox_closed ∷ [])))
            (λ a h. inr (Has-append a r.acts (inbox_closed ∷ []) h)) x

  with_inbox-Explains :
      (f : SendFlags) (m : Message) (hs : List Happening) (l : Listened) (r : Result Bytes)
      → let q = with_inbox os net f m hs l r in Explains q.failure q.acts
  with_inbox-Explains f m hs l (err e) = tt
  with_inbox-Explains f m hs l (ok path) =
      closing_inbox-Explains l.events _ (dispatched-Explains _ f _ true hs)

  with_reply-Explains :
      (b : Binding) (hs : List Happening) (f : SendFlags) (text : Bytes) (r : Result Bytes)
      → let q = with_reply os net b hs f text r in Explains q.failure q.acts
  with_reply-Explains b hs f text (err e) = tt
  with_reply-Explains b hs f text (ok from) = elim (Bool-cases (is_positive f.wait_receipt)) [
    | inl t ↦ rw t (
        with_inbox-Explains f (message_of os net f text from) hs (listen os b) (listen os b).result)
    | inr u ↦ rw u (
        dispatched-Explains (client_of os net f) f (or_self os net (message_of os net f text from))
          false hs)
  ]

  -- If sendCmd ends with exit code 0, it printed a message ID; with 2, it also printed receipts
  -- that are held ones and last a denied or expired one with the reported status; with 3, it
  -- printed a message ID and held receipts only.
  pub send_cmd-Explains :
      (n : Numerals) (b : Binding) (hs : List Happening) (args : List Bytes)
      → let r = send_cmd os net n b hs args in Explains r.failure r.acts
  unfolding send_cmd
  send_cmd-Explains n b hs args = with_flags-Explains (parse (send_flags n) send_defaults args)
    where
      with_flags-Explains :
          (r : Result (SendFlags × List Bytes))
          → let q = with_flags os net b hs r in Explains q.failure q.acts
      with_flags-Explains (err e) = tt
      with_flags-Explains (ok (f, words)) =
          elim (Bool-cases (trim_space (join_words words) is [])) [
            | inl t ↦ rw t tt
            | inr u ↦
                rw u (with_reply-Explains b hs f (trim_space (join_words words)) (from_flag f.from))
          ]
