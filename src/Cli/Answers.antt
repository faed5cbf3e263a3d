-- ===== src/Cli/Answers.antt =====
-- cmd/cc-send/main.go with inbox.go: what the line of a status frame does to a wait for receipts.
use claude_code_socket_trans.Inbox.Statuses.{NoMessage, IsStatus, receipt_of, handle-receipt}
use claude_code_socket_trans.Json.Tokens.{tokens}
use claude_code_socket_trans.Inbox.Framing.{IsFrameLine}
use claude_code_socket_trans.Json.Members.{Texts, object_tokens, texts}
use claude_code_socket_trans.Cli.Waiting.{IsHeld, IsRefused, Or_refused}
use claude_code_socket_trans.Cli.Receipts.{
  wait, Happening, Waited, offer, answered, arrives, ended, status_held, status_denied,
  denied_or_expired, status_expired, receives,
}
use claude_code_socket_trans.Base.{
  List, Bytes, true, false, ◌∷◌, ◌≡◌, inl, is-cases, inr, some, [], none, refl, ◌++◌,
}
use claude_code_socket_trans.Inbox.Reading.{
  InboxConfig, Receipt, Callback, handle, on_receipt, on_message,
}

-- The configuration of the inbox that `sendCmd` opens.
abbrev pub receipts_only : InboxConfig
receipts_only = record { has_on_receipt = true; has_on_message = false }

-- What the inbox's callbacks are to the wait.
unfoldable pub happenings : List Callback → List Happening
happenings [] = []
happenings (on_receipt r ∷ cs) = arrives r ∷ happenings cs
happenings (on_message content from ∷ cs) = happenings cs

-- What the bytes of a connection are to the wait.
abbrev pub arriving : Bytes → List Happening
arriving stream = happenings (handle receipts_only stream)

-- How a wait ends, or goes on, that begins with the receipt `r` and else has `later` to come.
pub record Settles (r : Receipt) (later w : Waited) : Type 0 where
  pub refused : IsRefused r → w.outcome ≡ ended (some (denied_or_expired r.status))
  pub held : IsHeld r → w.outcome ≡ later.outcome
  pub answered : ¬ (IsHeld r) → ¬ (IsRefused r) → w.outcome ≡ ended none
  pub first : (rest : List Receipt) × (w.received ≡ r ∷ rest)

held_apart : (r : Receipt) → IsHeld r → ¬ (IsRefused r)
held_apart r e (inl d) = cc
held_apart r e (inr d) = cc

module _ (r : Receipt) (channel : List Receipt) (later : Waited) where
  refused-Settles :
      {w : Waited}
      → IsRefused r
      → w.outcome ≡ ended (some (denied_or_expired r.status))
      → w.received ≡ r ∷ []
      → Settles r later w
  refused-Settles d o e = record {
    refused = λ _. o;
    held = λ h. absurd (held_apart r h d);
    answered = λ _ n. absurd (n d);
    first = ([], e);
  }

  answered-Settles : Settles r later (answered r channel later)
  answered-Settles = elim (is-cases r.status status_held) [
    | inl (t, e) ↦ rw t (record {
      refused = λ d. absurd (held_apart r e d);
      held = λ _. refl;
      answered = λ n _. absurd (n e);
      first = (later.received, refl);
    })
    | inr (f, n) ↦ rw f (elim (is-cases r.status status_denied) [
      | inl (t', e) ↦ rw t' (refused-Settles (inl e) refl refl)
      | inr (f', n') ↦ rw f' (elim (is-cases r.status status_expired) [
        | inl (t'', e) ↦ rw t'' (refused-Settles (inr e) refl refl)
        | inr (f'', n'') ↦ rw f'' (record {
          refused = λ d. absurd (Or_refused n' n'' d);
          held = λ e. absurd (n e);
          answered = λ _ _. refl;
          first = ([], refl);
        })
      ])
    ])
  ]

-- If the wait begins with one line from a connection to its inbox and a turn at the channel, where
-- the line is a JSON text of an object of strings, spelled and spaced in any way without control
-- characters and below the limit, with the type "control", the action "peer_message_status" and no
-- message, then the first receipt that it has received is that of the line; the wait ends with exit
-- code 2 and the status of the line if this is "denied" or "expired", ends well if it is none of
-- these and not "held", and goes on as if it began there if it is "held".
pub wait-status :
    (line : Bytes) (ms : Texts) (hs : List Happening)
    → IsFrameLine line
    → tokens 0 line ≡ some (object_tokens (texts ms))
    → NoMessage ms
    → IsStatus ms
    → Settles
        (receipt_of ms)
        (wait [] hs)
        (wait [] (arriving (line ++ (b'\n' ∷ [])) ++ (receives ∷ hs)))
unfolding wait offer happenings
wait-status line ms hs l t m s =
    rw ((handle-receipt receipts_only line ms l t m refl).0 s)
      (answered-Settles (receipt_of ms) [] (wait [] hs))
