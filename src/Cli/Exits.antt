-- ===== src/Cli/Exits.antt =====
-- What the exit code of cc-send says of its run.
use claude_code_socket_trans.Cli.Rename.{rename_cmd}
use mathlib.Core.Path.{subst}
use claude_code_socket_trans.Inbox.Listen.{Binding}
use claude_code_socket_trans.Cli.Flags.{Numerals}
use claude_code_socket_trans.Cli.Codes.{Explains, send_cmd-Explains}
use claude_code_socket_trans.Client.{Event, Net}
use claude_code_socket_trans.Cli.Listing.{Listed, list_cmd}
use claude_code_socket_trans.Cli.Send.{Act, printed_id}
use claude_code_socket_trans.Cli.Run.{
  Report, code_of, list_report, outcome_of, run, sent, renamed, listed, self_shown, usage_shown,
}
use claude_code_socket_trans.Os.{Os}
use claude_code_socket_trans.Cli.Receipts.{
  Failure, Outcome, exit_code, ended, denied_or_expired, plain, Happening, timed_out, still_waiting,
}
use claude_code_socket_trans.Base.{
  some-injective, ◌||◌, List, ℕ, Result, ◌∷◌, ◌≡◌, suc, Bytes, some, err, Has, [], ok, Bool-cases,
  ◌is◌, zero, none, codes, inl, refl, inr, ◌||◌,
}

-- If a run of `send` is reported, it printed a message ID.
abbrev pub SentId : List Report → Type 0
SentId (sent acts ∷ reports) = (id : Bytes) × Has (printed_id id) acts
SentId [] = Unit
SentId (usage_shown ∷ reports) = Unit
SentId (listed l ∷ reports) = Unit
SentId (renamed es ∷ reports) = Unit
SentId (self_shown ls ∷ reports) = Unit

-- The run was one of `send`, which ended by this failure and for its reason.
abbrev pub EndedBy : Failure → List Report → Type 0
EndedBy f reports = (acts : List Act) × (reports ≡ sent acts ∷ []) × Explains (ended (some f)) acts

abbrev pub Says : ℕ → List Report → Type 0
Says zero reports = SentId reports
Says (suc zero) reports = Unit
Says (suc (suc zero)) reports = (status : Bytes) × EndedBy (denied_or_expired status) reports
Says (suc (suc (suc zero))) reports = EndedBy timed_out reports
Says (suc (suc (suc (suc k)))) reports = ⊥

abbrev IsReported : Outcome → List Report → Type 0
IsReported still_waiting reports = Unit
IsReported (ended none) reports = SentId reports
IsReported (ended (some (plain e))) reports = Unit
IsReported (ended (some (denied_or_expired status))) reports =
    EndedBy (denied_or_expired status) reports
IsReported (ended (some timed_out)) reports = EndedBy timed_out reports

IsReported-Says :
    (o : Outcome) (reports : List Report) (k : ℕ)
    → IsReported o reports
    → code_of o ≡ some k
    → Says k reports
unfolding exit_code
IsReported-Says still_waiting reports k r e = absurd (let h = e in cc)
IsReported-Says (ended none) reports k r e = subst (λ k. Says k reports) (some-injective _ _ e) r
IsReported-Says (ended (some (plain x))) reports k r e =
    subst (λ k. Says k reports) (some-injective _ _ e) tt
IsReported-Says (ended (some (denied_or_expired status))) reports k r e =
    subst (λ k. Says k reports) (some-injective _ _ e) (status, r)
IsReported-Says (ended (some timed_out)) reports k r e =
    subst (λ k. Says k reports) (some-injective _ _ e) r

sent-IsReported : (o : Outcome) (acts : List Act) → Explains o acts → IsReported o (sent acts ∷ [])
sent-IsReported still_waiting acts x = tt
sent-IsReported (ended none) acts x = x
sent-IsReported (ended (some (plain e))) acts x = tt
sent-IsReported (ended (some (denied_or_expired status))) acts x = (acts, refl, x)
sent-IsReported (ended (some timed_out)) acts x = (acts, refl, x)

list_report-IsReported :
    (r : Result Listed) → let q = list_report r in IsReported q.outcome q.report
list_report-IsReported (err e) = tt
list_report-IsReported (ok l) = tt

rename_report-IsReported :
    (r : Result (Unit {0})) (es : List Event) → IsReported (outcome_of r) (renamed es ∷ [])
rename_report-IsReported (err e) es = tt
rename_report-IsReported (ok u) es = tt

module _ (os : Os) (net : Net) where
  run-IsReported :
      (n : Numerals) (b : Binding) (hs : List Happening) (args : List Bytes)
      → let q = run os net n b hs args in IsReported q.outcome q.report
  unfolding run
  run-IsReported n b hs [] = tt
  run-IsReported n b hs (command ∷ args) = elim (Bool-cases (command is codes "list")) [
    | inl t ↦ rw t (list_report-IsReported (list_cmd os args))
    | inr f ↦ rw f (elim (Bool-cases (command is codes "send")) [
      | inl t ↦ rw t (sent-IsReported _ _ (send_cmd-Explains os net n b hs args))
      | inr f ↦ rw f (elim (Bool-cases (command is codes "rename")) [
        | inl t ↦ rw t (rename_report-IsReported (rename_cmd os net n args).result _)
        | inr f ↦ rw f (elim (Bool-cases (command is codes "self")) [
          | inl t ↦ rw t tt
          | inr f ↦
              rw f
                (elim (Bool-cases
                  (command is codes "-h" || command is codes "--help" || command is codes "help")) [
                    | inl t ↦ rw t tt
                    | inr f ↦ rw f tt
                  ])
        ])
      ])
    ])
  ]

  -- cc-send exits with a code of at most 3. If it is 0 and the command was send, a message ID was
  -- printed; if it is 2, the command was send, and it printed a message ID and receipts that are
  -- held ones and last a denied or expired one with the reported status; if it is 3, the command
  -- was send, and it printed a message ID and held receipts only.
  pub run-Says :
      (n : Numerals) (b : Binding) (hs : List Happening) (args : List Bytes) (k : ℕ)
      → code_of (run os net n b hs args).outcome ≡ some k
      → Says k (run os net n b hs args).report
  run-Says n b hs args k e = IsReported-Says _ _ k (run-IsReported n b hs args) e
