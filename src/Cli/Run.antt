-- ===== src/Cli/Run.antt =====
-- cmd/cc-send/main.go: `main`, `run` and `selfCmd`.
use claude_code_socket_trans.Inbox.Listen.{Binding}
use claude_code_socket_trans.Base.{
  ℕ, List, Option, Result, Bytes, ◌∷◌, if◌then◌else◌, err, [], none, ◌is◌, some, codes, ok,
  no_command, ◌||◌, unknown_command,
}
use claude_code_socket_trans.Cli.Flags.{Numerals}
use claude_code_socket_trans.Cli.Receipts.{
  Outcome, still_waiting, ended, plain, exit_code, Happening,
}
use claude_code_socket_trans.Cli.Listing.{Listed, list_cmd}
use claude_code_socket_trans.Cli.Send.{Ran, Act, send_cmd}
use claude_code_socket_trans.Cli.Rename.{rename_cmd}
use claude_code_socket_trans.Client.{Event, Done, Net, self_socket_path, self_token, self_address}
use claude_code_socket_trans.Os.{Os}

unfoldable pub token_state : Os → Bytes
token_state os = if self_token os is [] then codes "unset" else codes "set"

-- The lines of `selfCmd`, by the arguments of each `Println`.
unfoldable pub self_cmd : Os → List (List Bytes)
unfolding token_state
self_cmd os =
    if self_socket_path os is []
    then (codes "not running inside a Claude Code session with messaging" ∷ []) ∷ []
    else (codes "socket: " ∷ self_socket_path os ∷ [])
      ∷ (codes "address:" ∷ self_address os ∷ [])
      ∷ (codes "token:  " ∷ token_state os ∷ [])
      ∷ []

-- What a run shows or does.
pub data Report : Type 0 where
  usage_shown : Report
  listed : Listed → Report
  sent : List Act → Report
  renamed : List Event → Report
  self_shown : List (List Bytes) → Report

pub record Finished : Type 0 where
  pub outcome : Outcome
  pub report : List Report

abbrev pub list_report : Result Listed → Finished
list_report (err e) = record { outcome = ended (some (plain e)); report = [] }
list_report (ok l) = record { outcome = ended none; report = listed l ∷ [] }

abbrev pub outcome_of : Result (Unit {0}) → Outcome
outcome_of (err e) = ended (some (plain e))
outcome_of (ok u) = ended none

abbrev pub rename_report : Done (Unit {0}) → Finished
rename_report d = record { outcome = outcome_of d.result; report = renamed d.events ∷ [] }

abbrev pub send_report : Ran → Finished
send_report r = record { outcome = r.failure; report = sent r.acts ∷ [] }

module _ (os : Os) (net : Net) where
  unfoldable pub run : Numerals → Binding → List Happening → List Bytes → Finished
  run n b hs [] = record { outcome = ended (some (plain no_command)); report = usage_shown ∷ [] }
  run n b hs (command ∷ args) =
      if command is codes "list"
      then list_report (list_cmd os args)
      else if command is codes "send"
      then send_report (send_cmd os net n b hs args)
      else if command is codes "rename"
      then rename_report (rename_cmd os net n args)
      else if command is codes "self"
      then record { outcome = ended none; report = self_shown (self_cmd os) ∷ [] }
      else if command is codes "-h" || command is codes "--help" || command is codes "help"
      then record { outcome = ended none; report = usage_shown ∷ [] }
      else record { outcome = ended (some (plain unknown_command)); report = usage_shown ∷ [] }

-- The exit code of `main`, once the command has ended.
abbrev pub code_of : Outcome → Option ℕ
code_of still_waiting = none
code_of (ended f) = some (exit_code f)
