-- ===== src/Cli/Words.antt =====
-- Where the flags of `sendCmd` end and its text begins.
use mathlib.Core.Path.{subst}
use claude_code_socket_trans.Cli.Handed.{OfMessage, with_reply-All}
use claude_code_socket_trans.Cli.Given.{Stands, AreGiven, last_given, Assigns-last_given}
use claude_code_socket_trans.Message.Frame.{Message}
use claude_code_socket_trans.Utf8.{trim_space}
use claude_code_socket_trans.Cli.Arguments.{Assigns, IsTail, written_flags, parse-written_flags}
use claude_code_socket_trans.Cli.Receipts.{Happening}
use claude_code_socket_trans.Base.{
  List, Bytes, ◌≡◌, ◌≢◌, [], is-cases, inl, inr, refl, some, codes, All, sym,
}
use claude_code_socket_trans.Inbox.Listen.{Binding}
use claude_code_socket_trans.Cli.Flags.{Numerals}
use claude_code_socket_trans.Cli.Send.{
  send_cmd, SendFlags, send_flags, send_defaults, join_words, with_reply, from_flag,
}
use claude_code_socket_trans.Client.{Net}
use claude_code_socket_trans.Os.{Os}

-- The message has this text, and the priority and the sender name of the flags.
abbrev pub IsWritten : List (Bytes × Bytes) → Bytes → Message → Type 0
IsWritten flags text m =
    (m.text ≡ text)
    × Stands some (codes "next") (last_given flags (codes "priority")) m.priority
    × Stands some [] (last_given flags (codes "name-as")) m.from_name

module _ (os : Os) (net : Net) where
  written_flags-run :
      (n : Numerals) (b : Binding) (hs : List Happening) {flags : List (Bytes × Bytes)}
      {f : SendFlags} {tail words : List Bytes}
      → Assigns (send_flags n) flags send_defaults f
      → IsTail tail words
      → trim_space (join_words words) ≢ []
      → send_cmd os net n b hs (written_flags flags tail)
        ≡ with_reply os net b hs f (trim_space (join_words words)) (from_flag f.from)
  unfolding send_cmd
  written_flags-run n b hs {f} {words} a e h =
      rw (parse-written_flags (send_flags n) a e)
        (elim (is-cases (trim_space (join_words words)) []) [
          | inl (t, q) ↦ absurd (h q)
          | inr (u, _) ↦ rw u refl
        ])

  -- From flags written as --name=value, each of which exists and takes its value, and then --, a
  -- word that is no flag, or the end, sendCmd goes on with a value for each flag that is read from
  -- the last text given for it, or is its default where none is given; with every further argument,
  -- also one that looks like a flag, as a word of the text, if the text is not empty once trimmed;
  -- and every message that it hands to the library has this text, the last given --priority or
  -- "next", and the last given --name-as or no sender name.
  pub send_cmd-written_flags :
      (n : Numerals) (b : Binding) (hs : List Happening) {flags : List (Bytes × Bytes)}
      {f : SendFlags} {tail words : List Bytes}
      → Assigns (send_flags n) flags send_defaults f
      → IsTail tail words
      → trim_space (join_words words) ≢ []
      → AreGiven n (last_given flags) f
        × (send_cmd os net n b hs (written_flags flags tail)
            ≡ with_reply os net b hs f (trim_space (join_words words)) (from_flag f.from))
        × All
            (OfMessage (IsWritten flags (trim_space (join_words words))))
            (send_cmd os net n b hs (written_flags flags tail)).acts
  send_cmd-written_flags n b hs {flags} {f} {tail} {words} a e h =
      let says = Assigns-last_given n a in
      let run = written_flags-run n b hs a e h in
      let text = trim_space (join_words words) in
      (
        says,
        run,
        subst (λ r. All (OfMessage (IsWritten flags text)) r.acts) (sym run)
            (with_reply-All os net (IsWritten flags text) (λ m d p. p) b hs f text
              (from_flag f.from) (λ d. (refl, says.priority, says.name_as))),
      )
