-- ===== src/Cli/Replies.antt =====
-- What `sendCmd` hands to the library is a message with a text and a well-formed reply address.
use claude_code_socket_trans.Inbox.Binding.{listen_iff}
use claude_code_socket_trans.Utf8.{trim_space}
use mathlib.Core.Path.{subst}
use claude_code_socket_trans.Message.Frame.{Message}
use claude_code_socket_trans.Addr.{valid_address, parse_address, address}
use claude_code_socket_trans.Inbox.Listen.{inbox_path, Binding, listen}
use claude_code_socket_trans.Cli.Flags.{Numerals, parse}
use claude_code_socket_trans.Client.{Net, self_socket_path, self_address, Client}
use claude_code_socket_trans.Base.{
  ok_injective, Bool, List, Result, Bytes, ◌∷◌, AllBytes, All, ◌≡◌, ◌≢◌, [], ok, ◌⊎◌, some, true,
  err, false, inl, is-cases, ◌>>=◌, inr, All-append, sym, refl, Bool-cases,
}
use claude_code_socket_trans.Cli.Send.{
  send_cmd, Act, listening, sending, printed_id, printed_receipts, inbox_closed, Ran, SendFlags,
  send_assign, from_flag, or_self, dispatched, reported, awaited, deliver, closing_inbox, client_of,
  with_reply, send_flags, with_flags, with_inbox, message_of, join_words, send_defaults,
  is_positive,
}
use claude_code_socket_trans.Cli.Receipts.{Outcome, still_waiting, ended, Happening}
use claude_code_socket_trans.Addr.RoundTrip.{parse_address_normal, valid_address-address}
use claude_code_socket_trans.Cli.Arguments.{parse-Kept, Kept}
use claude_code_socket_trans.Os.{Os}
use native.Mathlib.Omega.{arith}

-- No reply address, or a well-formed one.
abbrev pub IsReply : Bytes → Type 0
IsReply from = (from ≡ []) ⊎ (valid_address from ≡ true)

abbrev pub IsAddressed : Act → Type 0
IsAddressed (sending m es) = (m.text ≢ []) × IsReply m.from
IsAddressed (listening es) = Unit
IsAddressed (printed_id id) = Unit
IsAddressed (printed_receipts rs) = Unit
IsAddressed inbox_closed = Unit

abbrev pub FromBytes : SendFlags → Type 0
FromBytes f = AllBytes f.from

-- An assignment leaves the reply address or makes it the value.
send_assign-from :
    (n : Numerals) (name v : Bytes) (s t : SendFlags)
    → send_assign n name v s ≡ some t
    → (t.from ≡ s.from) ⊎ (t.from ≡ v)
unfolding send_assign
send_assign-from n name v s t e = ground arith

send_assign-FromBytes :
    (n : Numerals) (name v : Bytes) (s t : SendFlags)
    → AllBytes v
    → send_assign n name v s ≡ some t
    → FromBytes s
    → FromBytes t
send_assign-FromBytes n name v s t h e k = elim (send_assign-from n name v s t e) [
  | inl q ↦ subst AllBytes (sym q) k
  | inr q ↦ subst AllBytes (sym q) h
]

from_flag-IsReply : (from a : Bytes) → AllBytes from → from_flag from ≡ ok a → IsReply a
unfolding from_flag
from_flag-IsReply from a h e = elim (is-cases from []) [
  | inl (t, _) ↦ inl (ground arith)
  | inr (f, n) ↦ inr (parsed_reply (parse_address from) refl (rw f at e))
]
  where
    parsed_reply :
        (r : Result Bytes)
        → parse_address from ≡ r
        → (r >>= λ path. ok (address path)) ≡ ok a
        → valid_address a ≡ true
    parsed_reply (err x) q k = absurd (ground arith)
    parsed_reply (ok path) q k =
        subst (λ b. valid_address b ≡ true) (ok_injective k) (parse_address_normal from path h q).0

module _ (os : Os) (net : Net) (self_bytes : AllBytes (self_socket_path os))
    (inbox_bytes : AllBytes (inbox_path os)) where
  or_self-IsReply : (m : Message) → IsReply m.from → IsReply (or_self os net m).from
  unfolding or_self self_address
  or_self-IsReply m h = elim (is-cases m.from []) [
    | inl (t, _) ↦ rw t (elim (is-cases (self_socket_path os) []) [
      | inl (t', _) ↦ inl (rw t' refl)
      | inr (f', _) ↦ inr (rw f' (valid_address-address (self_socket_path os) self_bytes))
    ])
    | inr (f, _) ↦ rw f h
  ]

  or_self-text : (m : Message) → (or_self os net m).text ≡ m.text
  unfolding or_self
  or_self-text m = ground arith

  dispatched-IsAddressed :
      (c : Client) (f : SendFlags) (m : Message) (inbox : Bool) (hs : List Happening)
      → m.text ≢ []
      → IsReply m.from
      → All IsAddressed (dispatched os net c f m inbox hs).acts
  unfolding dispatched
  dispatched-IsAddressed c f m inbox hs t h =
      ((t, h), reported-IsAddressed (deliver os net c f m).result)
    where
      reported-IsAddressed : (r : Result Bytes) → All IsAddressed (reported os net inbox hs r).acts
      reported-IsAddressed (err e) = tt
      reported-IsAddressed (ok id) = (tt, awaited-IsAddressed inbox)
        where
          awaited-IsAddressed : (i : Bool) → All IsAddressed (awaited os net i hs).acts
          awaited-IsAddressed true = (tt, tt)
          awaited-IsAddressed false = tt

  closing_inbox-IsAddressed :
      (r : Ran) → All IsAddressed r.acts → All IsAddressed (closing_inbox os net r).acts
  closing_inbox-IsAddressed r h = by_outcome r.failure
    where
      by_outcome :
          (o : Outcome)
          → All IsAddressed (closing_inbox os net (record { failure = o; acts = r.acts })).acts
      by_outcome still_waiting = h
      by_outcome (ended f) = All-append IsAddressed r.acts (inbox_closed ∷ []) h (tt, tt)

  settled-IsAddressed :
      (f : SendFlags) (m : Message) (inbox : Bool) (hs : List Happening)
      → m.text ≢ []
      → IsReply m.from
      → All IsAddressed (dispatched os net (client_of os net f) f (or_self os net m) inbox hs).acts
  settled-IsAddressed f m inbox hs t h =
      dispatched-IsAddressed (client_of os net f) f (or_self os net m) inbox hs
        (subst (λ x. x ≢ []) (sym (or_self-text m)) t) (or_self-IsReply m h)

  with_reply-IsAddressed :
      (b : Binding) (hs : List Happening) (f : SendFlags) (text : Bytes) (r : Result Bytes)
      → text ≢ []
      → FromBytes f
      → from_flag f.from ≡ r
      → All IsAddressed (with_reply os net b hs f text r).acts
  with_reply-IsAddressed b hs f text (err e) t k q = tt
  with_reply-IsAddressed b hs f text (ok from) t k q =
      elim (Bool-cases (is_positive f.wait_receipt)) [
        | inl p ↦ rw p (with_inbox-IsAddressed (listen os b).result refl)
        | inr p ↦ rw p (
            settled-IsAddressed f (message_of os net f text from) false hs t
              (from_flag-IsReply f.from from k q))
      ]
    where
      with_inbox-IsAddressed :
          (l : Result Bytes)
          → (listen os b).result ≡ l
          → All IsAddressed
              (with_inbox os net f (message_of os net f text from) hs (listen os b) l).acts
      with_inbox-IsAddressed (err e) _ = (tt, tt)
      with_inbox-IsAddressed (ok path) l = (
        tt,
        closing_inbox-IsAddressed _ (
            settled-IsAddressed f (record (message_of os net f text from) { from = address path })
              true hs t
              (inr (
                valid_address-address path
                  (subst AllBytes (sym ((listen_iff os b path).0 l).0) inbox_bytes)))),
      )

  -- For any arguments of bytes, and if the socket path of the own session and the inbox's path are
  -- of bytes, every message that sendCmd hands to the library has a text, and no reply address or
  -- one that validAddress accepts.
  pub send_cmd-IsAddressed :
      (n : Numerals) (b : Binding) (hs : List Happening) (args : List Bytes)
      → All AllBytes args
      → All IsAddressed (send_cmd os net n b hs args).acts
  unfolding send_cmd
  send_cmd-IsAddressed n b hs args h =
      with_flags-IsAddressed (parse (send_flags n) send_defaults args) (
        parse-Kept (send_flags n) FromBytes (send_assign-FromBytes n) args h send_defaults
          (unfold send_defaults in tt))
    where
      with_flags-IsAddressed :
          (r : Result (SendFlags × List Bytes))
          → Kept (send_flags n) FromBytes (send_assign-FromBytes n) r
          → All IsAddressed (with_flags os net b hs r).acts
      with_flags-IsAddressed (err e) k = tt
      with_flags-IsAddressed (ok (f, words)) k =
          elim (is-cases (trim_space (join_words words)) []) [
            | inl (t, _) ↦ rw t tt
            | inr (u, ne) ↦ rw u (
                with_reply-IsAddressed b hs f (trim_space (join_words words)) (from_flag f.from) ne
                  k refl)
          ]
