-- ===== src/Cli/Handed.antt =====
-- What holds of the messages that `sendCmd` hands to the library.
use claude_code_socket_trans.Addr.{address}
use claude_code_socket_trans.Cli.Receipts.{Happening, Outcome, ended, still_waiting}
use claude_code_socket_trans.Inbox.Listen.{Binding, listen}
use claude_code_socket_trans.Base.{
  Bytes, is-cases, All, List, [], inl, Bool, Result, inr, All-append, err, ◌∷◌, ok, true, false,
  Bool-cases,
}
use claude_code_socket_trans.Client.{Net, Client, self_address}
use claude_code_socket_trans.Cli.Send.{
  client_of, Act, sending, listening, or_self, dispatched, Ran, printed_id, printed_receipts,
  SendFlags, closing_inbox, inbox_closed, awaited, message_of, reported, with_reply, deliver,
  with_inbox, client_of, is_positive,
}
use claude_code_socket_trans.Os.{Os}
use claude_code_socket_trans.Message.Frame.{Message}

-- A property of the message that is sent.
abbrev pub OfMessage : (Message → Type 0) → Act → Type 0
OfMessage P (sending m es) = P m
OfMessage P (listening es) = Unit
OfMessage P (printed_id id) = Unit
OfMessage P (printed_receipts rs) = Unit
OfMessage P inbox_closed = Unit

module _ (os : Os) (net : Net) (P : Message → Type 0)
    (readdressed : (m : Message) (a : Bytes) → P m → P (record m { from = a })) where
  or_self-kept : (m : Message) → P m → P (or_self os net m)
  unfolding or_self
  or_self-kept m p = elim (is-cases m.from []) [
    | inl (t, _) ↦ rw t (readdressed m (self_address os) p)
    | inr (f, _) ↦ rw f p
  ]

  dispatched-All :
      (c : Client) (f : SendFlags) (m : Message) (inbox : Bool) (hs : List Happening)
      → P m
      → All (OfMessage P) (dispatched os net c f m inbox hs).acts
  unfolding dispatched
  dispatched-All c f m inbox hs p = (p, reported-All (deliver os net c f m).result)
    where
      awaited-All : (i : Bool) → All (OfMessage P) (awaited os net i hs).acts
      awaited-All true = (tt, tt)
      awaited-All false = tt

      reported-All : (r : Result Bytes) → All (OfMessage P) (reported os net inbox hs r).acts
      reported-All (err e) = tt
      reported-All (ok id) = (tt, awaited-All inbox)

  closing_inbox-All :
      (r : Ran) → All (OfMessage P) r.acts → All (OfMessage P) (closing_inbox os net r).acts
  closing_inbox-All r h = by_outcome r.failure
    where
      by_outcome :
          (o : Outcome)
          → All (OfMessage P) (closing_inbox os net (record { failure = o; acts = r.acts })).acts
      by_outcome still_waiting = h
      by_outcome (ended f) = All-append (OfMessage P) r.acts (inbox_closed ∷ []) h (tt, tt)

  -- What holds of the message of the flags, whatever its address, holds of the one that is sent.
  pub with_reply-All :
      (b : Binding) (hs : List Happening) (f : SendFlags) (text : Bytes) (r : Result Bytes)
      → ((from : Bytes) → P (message_of os net f text from))
      → All (OfMessage P) (with_reply os net b hs f text r).acts
  with_reply-All b hs f text (err e) p = tt
  with_reply-All b hs f text (ok from) p = elim (Bool-cases (is_positive f.wait_receipt)) [
    | inl q ↦ rw q (with_inbox-All (listen os b).result)
    | inr q ↦ rw q (dispatched-All (client_of os net f) f _ false hs (or_self-kept _ (p from)))
  ]
    where
      with_inbox-All :
          (l : Result Bytes)
          → All
              (OfMessage P)
              (with_inbox os net f (message_of os net f text from) hs (listen os b) l).acts
      with_inbox-All (err e) = (tt, tt)
      with_inbox-All (ok path) = (
        tt,
        closing_inbox-All _ (
            dispatched-All (client_of os net f) f _ true hs
              (or_self-kept _ (readdressed _ (address path) (p from)))),
      )
