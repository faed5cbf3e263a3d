-- ===== src/Cli/Listing.antt =====
-- cmd/cc-send/main.go: `listCmd`, with the texts that go into the table or the JSON.
use claude_code_socket_trans.Registry.{list_sessions}
use mathlib.Core.Option
use claude_code_socket_trans.Base.{
  ℕ, Bool, List, Option, Result, Bytes, ◌∷◌, if◌then◌else◌, [], codes, true, ◌>>=◌, ◌is◌, not,
  false, ◌||◌, none, ◌&&◌, some, ok,
}
use claude_code_socket_trans.Session.{Session, reachable, session_address}
use claude_code_socket_trans.Cli.Flags.{FlagSet, parse, parse_bool}
use claude_code_socket_trans.Os.{Os}
use claude_code_socket_trans.Decimal.{itoa}

pub record ListFlags : Type 0 where
  pub as_json : Bool
  pub all : Bool

unfoldable pub list_is_bool : Bytes → Option Bool
list_is_bool name = if name is codes "json" || name is codes "all" then some true else none

unfoldable pub list_assign : Bytes → Bytes → ListFlags → Option ListFlags
list_assign name v s =
    if name is codes "json"
    then Option.map (λ b. record s { as_json = b }) (parse_bool v)
    else if name is codes "all"
    then Option.map (λ b. record s { all = b }) (parse_bool v)
    else none

abbrev pub list_flags : FlagSet ListFlags
list_flags = record { is_bool = list_is_bool; assign = list_assign }

pub record Row : Type 0 where
  pub pid : ℕ
  pub session_id : Bytes
  pub name : Bytes
  pub kind : Bytes
  pub status : Bytes
  pub cwd : Bytes
  pub socket : Bytes
  pub address : Bytes
  pub live : Bool

abbrev pub row_of : Session → Bool → Row
row_of s live = record {
  pid = s.pid;
  session_id = s.session_id;
  name = s.name;
  kind = s.kind;
  status = s.status;
  cwd = s.cwd;
  socket = s.socket_path;
  address = session_address s;
  live = live;
}

-- The probes: each goroutine sets the entry of its own session.
unfoldable pub probes : Os → List Session → List Bool
probes os [] = []
probes os (s ∷ ss) = reachable os s 300_000_000 ∷ probes os ss

-- The loop over the sessions and their entries of `live`.
unfoldable pub rows : Bool → List Session → List Bool → List Row
rows all (s ∷ ss) (l ∷ ls) =
    let rest = rows all ss ls in if not l && not all then rest else row_of s l ∷ rest
rows all _ _ = []

unfoldable pub yes_no : Bool → Bytes
yes_no b = if b then codes "yes" else codes "no"

unfoldable pub dash : Bytes → Bytes
dash s = if s is [] then codes "-" else s

-- The cells of a line of the table.
unfoldable pub cells : Row → List Bytes
unfolding yes_no dash itoa
cells r =
    itoa r.pid
    ∷ yes_no r.live
    ∷ dash r.name
    ∷ dash r.kind
    ∷ dash r.status
    ∷ dash r.session_id
    ∷ dash r.cwd
    ∷ []

abbrev pub header_cells : List Bytes
header_cells =
    codes "PID"
    ∷ codes "LIVE"
    ∷ codes "NAME"
    ∷ codes "KIND"
    ∷ codes "STATUS"
    ∷ codes "SESSION ID"
    ∷ codes "CWD"
    ∷ []

unfoldable pub table : List Row → List (List Bytes)
table [] = []
table (r ∷ rs) = cells r ∷ table rs

-- What is handed to the JSON encoder, or to the tab writer.
pub data Listed : Type 0 where
  json_rows : List Row → Listed
  table_lines : List (List Bytes) → Listed

abbrev pub shown_as : Bool → List Row → Listed
shown_as true rs = json_rows rs
shown_as false rs = table_lines (header_cells ∷ table rs)

unfoldable pub list_cmd : Os → List Bytes → Result Listed
list_cmd os args = do
  (f, words) ← parse list_flags (record { as_json = false; all = false }) args
  sessions ← list_sessions os
  ok (shown_as f.as_json (rows f.all sessions (probes os sessions)))
