-- ===== src/Cli/Rename.antt =====
-- cmd/cc-send/main.go: `renameCmd`.
use claude_code_socket_trans.Utf8.{trim_space}
use claude_code_socket_trans.Addr.{parse_address}
use claude_code_socket_trans.Client.{Net, Done, silent, rename_session, rename_socket}
use mathlib.Core.Option
use claude_code_socket_trans.Client.Default.{new_client}
use claude_code_socket_trans.Base.{
  Bool, List, Option, Result, Bytes, if◌then◌else◌, ◌is◌, [], codes, false, err, not, ◌||◌, some,
  none, ok, no_target, no_new_name,
}
use claude_code_socket_trans.Session.{Session}
use claude_code_socket_trans.Base.{ℤ, pos}
use claude_code_socket_trans.Cli.Flags.{FlagSet, Numerals, parse}
use claude_code_socket_trans.Cli.Send.{join_words, is_zero, find_by_int}
use claude_code_socket_trans.Os.{Os}

pub record RenameFlags : Type 0 where
  pub pid : ℤ
  pub to : Bytes

unfoldable pub rename_is_bool : Bytes → Option Bool
rename_is_bool name = if name is codes "pid" || name is codes "to" then some false else none

unfoldable pub rename_assign : Numerals → Bytes → Bytes → RenameFlags → Option RenameFlags
rename_assign n name v s =
    if name is codes "pid"
    then Option.map (λ k. record s { pid = k }) (n.parse_int v)
    else if name is codes "to"
    then some (record s { to = v })
    else none

abbrev pub rename_flags : Numerals → FlagSet RenameFlags
rename_flags n = record { is_bool = rename_is_bool; assign = rename_assign n }

module _ (os : Os) (net : Net) where
  abbrev pub rename_found : Bytes → Result Session → Done (Unit {0})
  rename_found name (err e) = silent (err e)
  rename_found name (ok s) = rename_session os net new_client s name

  abbrev pub rename_parsed : Bytes → Result Bytes → Done (Unit {0})
  rename_parsed name (err e) = silent (err e)
  rename_parsed name (ok path) = rename_socket os net new_client path name

  -- The switch over the target.
  unfoldable pub rename_target : RenameFlags → Bytes → Done (Unit {0})
  rename_target f name =
      if not (is_zero f.pid)
      then rename_found name (find_by_int os f.pid)
      else if not (f.to is [])
      then rename_parsed name (parse_address f.to)
      else silent (err no_target)

  abbrev pub rename_with_flags : Result (RenameFlags × List Bytes) → Done (Unit {0})
  rename_with_flags (err e) = silent (err e)
  rename_with_flags (ok (f, words)) =
      let name = trim_space (join_words words) in
      if name is [] then silent (err no_new_name) else rename_target f name

  unfoldable pub rename_cmd : Numerals → List Bytes → Done (Unit {0})
  rename_cmd n args =
      rename_with_flags (parse (rename_flags n) (record { pid = pos 0; to = [] }) args)
