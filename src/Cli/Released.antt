-- ===== src/Cli/Released.antt =====
-- `sendCmd` closes the inbox that it opened.
use claude_code_socket_trans.Utf8.{trim_space}
use claude_code_socket_trans.Message.Frame.{Message}
use claude_code_socket_trans.Cli.Flags.{Numerals, parse}
use claude_code_socket_trans.Inbox.Listen.{ListenEvent, Binding, Listened, listen}
use claude_code_socket_trans.Client.{Net, Client}
use claude_code_socket_trans.Base.{
  ℕ, Bool, List, Result, Bytes, ◌∷◌, ◌+◌, suc, ◌≡◌, ◌++◌, [], ◌∙◌, ap, sym, true, false, refl, err,
  ok, Bool-cases, inl, ◌is◌, inr,
}
use claude_code_socket_trans.Cli.Send.{
  send_cmd, Act, listening, sending, printed_id, printed_receipts, inbox_closed, Ran, awaited,
  dispatched, SendFlags, then_do, deliver, closing_inbox, reported, with_inbox, with_reply,
  with_flags, send_flags, is_positive, send_defaults, join_words, message_of, client_of, from_flag,
  or_self,
}
use claude_code_socket_trans.Cli.Receipts.{Outcome, still_waiting, ended, Happening}
use claude_code_socket_trans.Inbox.Binding.{open_listeners, listen-IsTidy, one_if_ok}
use claude_code_socket_trans.Os.{Os}
use native.Mathlib.Omega.{arith}

-- The inboxes that were opened.
unfoldable pub opened : List Act → ℕ
opened [] = 0
opened (listening es ∷ acts) = open_listeners 0 es + opened acts
opened (sending m es ∷ acts) = opened acts
opened (printed_id id ∷ acts) = opened acts
opened (printed_receipts rs ∷ acts) = opened acts
opened (inbox_closed ∷ acts) = opened acts

-- The closes of an inbox.
unfoldable pub closes : List Act → ℕ
closes [] = 0
closes (inbox_closed ∷ acts) = suc (closes acts)
closes (listening es ∷ acts) = closes acts
closes (sending m es ∷ acts) = closes acts
closes (printed_id id ∷ acts) = closes acts
closes (printed_receipts rs ∷ acts) = closes acts

-- What holds of a run that has no inbox of its own.
pub record IsPlain (r : Ran) : Type 0 where
  pub none_opened : opened r.acts ≡ 0
  pub none_closed : closes r.acts ≡ 0

abbrev pub IsReleased : Outcome → List Act → Type 0
IsReleased still_waiting acts = Unit
IsReleased (ended f) acts = opened acts ≡ closes acts

closes-append : (acts : List Act) → closes (acts ++ (inbox_closed ∷ [])) ≡ suc (closes acts)
unfolding closes
closes-append [] = refl
closes-append (inbox_closed ∷ acts) = ap suc (closes-append acts)
closes-append (listening es ∷ acts) = closes-append acts
closes-append (sending m es ∷ acts) = closes-append acts
closes-append (printed_id id ∷ acts) = closes-append acts
closes-append (printed_receipts rs ∷ acts) = closes-append acts

opened-append : (acts : List Act) → opened (acts ++ (inbox_closed ∷ [])) ≡ opened acts
unfolding opened
opened-append [] = refl
opened-append (inbox_closed ∷ acts) = opened-append acts
opened-append (listening es ∷ acts) = ap (λ n. open_listeners 0 es + n) (opened-append acts)
opened-append (sending m es ∷ acts) = opened-append acts
opened-append (printed_id id ∷ acts) = opened-append acts
opened-append (printed_receipts rs ∷ acts) = opened-append acts

module _ (os : Os) (net : Net) where
  awaited-IsPlain : (inbox : Bool) (hs : List Happening) → IsPlain (awaited os net inbox hs)
  unfolding opened closes
  awaited-IsPlain true hs = record { none_opened = refl; none_closed = refl }
  awaited-IsPlain false hs = record { none_opened = refl; none_closed = refl }

  dispatched-IsPlain :
      (c : Client) (f : SendFlags) (m : Message) (inbox : Bool) (hs : List Happening)
      → IsPlain (dispatched os net c f m inbox hs)
  unfolding dispatched opened closes
  dispatched-IsPlain c f m inbox hs = reported-IsPlain (deliver os net c f m).result
    where
      reported-IsPlain :
          (r : Result Bytes)
          → IsPlain (then_do (sending m (deliver os net c f m).events) (reported os net inbox hs r))
      reported-IsPlain (err e) = record { none_opened = refl; none_closed = refl }
      reported-IsPlain (ok id) =
          let p = awaited-IsPlain inbox hs in
          record { none_opened = p.none_opened; none_closed = p.none_closed }

  plain-IsReleased : (r : Ran) → IsPlain r → IsReleased r.failure r.acts
  plain-IsReleased r p = by_outcome r.failure
    where
      by_outcome : (o : Outcome) → IsReleased o r.acts
      by_outcome still_waiting = tt
      by_outcome (ended f) = p.none_opened ∙ sym p.none_closed

  -- With an inbox that `Listen` gave.
  closing_inbox-IsReleased :
      (es : List ListenEvent) (r : Ran)
      → open_listeners 0 es ≡ 1
      → IsPlain r
      → let q = then_do (listening es) (closing_inbox os net r) in IsReleased q.failure q.acts
  unfolding opened closes
  closing_inbox-IsReleased es r one p = by_outcome r.failure
    where
      by_outcome :
          (o : Outcome)
          → let q =
              then_do
                (listening es)
                (closing_inbox os net (record { failure = o; acts = r.acts })) in
            IsReleased q.failure q.acts
      by_outcome still_waiting = tt
      by_outcome (ended f) =
          let none_opened = p.none_opened in
          let none_closed = p.none_closed in
          omega (arith, one, opened-append r.acts, closes-append r.acts)

  with_inbox-IsReleased :
      (f : SendFlags) (m : Message) (hs : List Happening) (l : Listened)
      → open_listeners 0 l.events ≡ one_if_ok l.result
      → let q = with_inbox os net f m hs l l.result in IsReleased q.failure q.acts
  unfolding opened closes
  with_inbox-IsReleased f m hs l h = by_result l.result h
    where
      by_result :
          (r : Result Bytes)
          → open_listeners 0 l.events ≡ one_if_ok r
          → let q = with_inbox os net f m hs l r in IsReleased q.failure q.acts
      by_result (err e) h = omega (arith, h)
      by_result (ok path) h =
          closing_inbox-IsReleased l.events _ h (dispatched-IsPlain _ f _ true hs)

  with_reply-IsReleased :
      (b : Binding) (hs : List Happening) (f : SendFlags) (text : Bytes) (r : Result Bytes)
      → let q = with_reply os net b hs f text r in IsReleased q.failure q.acts
  unfolding opened closes
  with_reply-IsReleased b hs f text (err e) = refl
  with_reply-IsReleased b hs f text (ok from) = elim (Bool-cases (is_positive f.wait_receipt)) [
    | inl t ↦ rw t (
        with_inbox-IsReleased f (message_of os net f text from) hs (listen os b)
          (listen-IsTidy os b).listeners)
    | inr u ↦ rw u (
        plain-IsReleased _ (
          dispatched-IsPlain (client_of os net f) f (or_self os net (message_of os net f text from))
            false hs))
  ]

  with_flags-IsReleased :
      (n : Numerals) (b : Binding) (hs : List Happening) (r : Result (SendFlags × List Bytes))
      → let q = with_flags os net b hs r in IsReleased q.failure q.acts
  unfolding opened closes
  with_flags-IsReleased n b hs (err e) = refl
  with_flags-IsReleased n b hs (ok (f, words)) =
      elim (Bool-cases (trim_space (join_words words) is [])) [
        | inl t ↦ rw t refl
        | inr u ↦
            rw u (with_reply-IsReleased b hs f (trim_space (join_words words)) (from_flag f.from))
      ]

  -- However sendCmd ends, for any arguments, it has closed as many inboxes as it has opened.
  pub send_cmd-IsReleased :
      (n : Numerals) (b : Binding) (hs : List Happening) (args : List Bytes)
      → let r = send_cmd os net n b hs args in IsReleased r.failure r.acts
  unfolding send_cmd
  send_cmd-IsReleased n b hs args =
      with_flags-IsReleased n b hs (parse (send_flags n) send_defaults args)
