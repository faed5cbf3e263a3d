-- ===== src/Cli/Send.antt =====
-- cmd/cc-send/main.go: `sendCmd`.
use claude_code_socket_trans.Utf8.{trim_space}
use claude_code_socket_trans.Addr.{parse_address, address}
use claude_code_socket_trans.Registry.{list_sessions}
use claude_code_socket_trans.Inbox.Reading.{Receipt}
use claude_code_socket_trans.Message.Frame.{Message}
use claude_code_socket_trans.Inbox.Listen.{ListenEvent, Listened, Binding, listen}
use claude_code_socket_trans.Find.{find_by_pid}
use mathlib.Core.Option
use claude_code_socket_trans.Base.{
  ℕ, Bool, List, Option, Result, Bytes, ◌∷◌, Error, [], if◌then◌else◌, ◌++◌, some, no_message, none,
  err, codes, ◌is◌, not, ok, ◌>>=◌, false, true, ◌||◌, not_found, ◌==◌, ltb, no_target,
}
use claude_code_socket_trans.Session.{Session}
use claude_code_socket_trans.Base.{ℤ, pos, negsuc}
use claude_code_socket_trans.Cli.Flags.{FlagSet, Numerals, parse, parse_bool}
use claude_code_socket_trans.Cli.Receipts.{plain, wait, Happening, still_waiting, ended, Outcome}
use claude_code_socket_trans.Client.{
  Event, Done, Client, Net, send_to_session_id, send_found, self_address, send_to_name,
  send_to_address, silent,
}
use claude_code_socket_trans.Os.{Os}

pub record SendFlags : Type 0 where
  pub session : Bytes
  pub pid : ℤ
  pub name : Bytes
  pub to : Bytes
  pub priority : Bytes
  pub name_as : Bytes
  pub from : Bytes
  pub wait_receipt : ℤ
  pub no_auth : Bool
  pub timeout : ℤ

unfoldable pub send_defaults : SendFlags
send_defaults = record {
  session = [];
  pid = pos 0;
  name = [];
  to = [];
  priority = codes "next";
  name_as = [];
  from = [];
  wait_receipt = pos 0;
  no_auth = false;
  timeout = pos 5_000_000_000;
}

unfoldable pub send_is_bool : Bytes → Option Bool
send_is_bool name =
    if name is codes "no-auth"
    then some true
    else if name is codes "session"
        || name is codes "pid"
        || name is codes "name"
        || name is codes "to"
        || name is codes "priority"
        || name is codes "name-as"
        || name is codes "from"
        || name is codes "wait-receipt"
        || name is codes "timeout"
    then some false
    else none

unfoldable pub send_assign : Numerals → Bytes → Bytes → SendFlags → Option SendFlags
send_assign n name v s =
    if name is codes "session"
    then some (record s { session = v })
    else if name is codes "pid"
    then Option.map (λ k. record s { pid = k }) (n.parse_int v)
    else if name is codes "name"
    then some (record s { name = v })
    else if name is codes "to"
    then some (record s { to = v })
    else if name is codes "priority"
    then some (record s { priority = v })
    else if name is codes "name-as"
    then some (record s { name_as = v })
    else if name is codes "from"
    then some (record s { from = v })
    else if name is codes "wait-receipt"
    then Option.map (λ d. record s { wait_receipt = d }) (n.parse_duration v)
    else if name is codes "no-auth"
    then Option.map (λ b. record s { no_auth = b }) (parse_bool v)
    else if name is codes "timeout"
    then Option.map (λ d. record s { timeout = d }) (n.parse_duration v)
    else none

abbrev pub send_flags : Numerals → FlagSet SendFlags
send_flags n = record { is_bool = send_is_bool; assign = send_assign n }

-- `strings.Join(args, " ")`
unfoldable pub join_words : List Bytes → Bytes
join_words [] = []
join_words (w ∷ []) = w
join_words (w ∷ x ∷ ws) = w ++ (b' ' ∷ join_words (x ∷ ws))

abbrev pub is_zero : ℤ → Bool
is_zero (pos n) = n == 0
is_zero (negsuc n) = false

abbrev pub is_positive : ℤ → Bool
is_positive (pos n) = ltb 0 n
is_positive (negsuc n) = false

-- A duration as the library takes it.
abbrev pub positive_part : ℤ → ℕ
positive_part (pos n) = n
positive_part (negsuc n) = 0

-- `FindByPID` of a PID that may be negative, as no registry entry is.
unfoldable pub find_by_int : Os → ℤ → Result Session
find_by_int os (pos n) = find_by_pid os n
find_by_int os (negsuc n) = do _ ← list_sessions os; err not_found

-- The reply address of `--from`.
unfoldable pub from_flag : Bytes → Result Bytes
from_flag from = if from is [] then ok [] else (do path ← parse_address from; ok (address path))

-- What a run of the command does.
pub data Act : Type 0 where
  listening : List ListenEvent → Act
  sending : Message → List Event → Act
  printed_id : Bytes → Act
  printed_receipts : List Receipt → Act
  inbox_closed : Act

-- How it ends, and what it did before.
pub record Ran : Type 0 where
  pub failure : Outcome
  pub acts : List Act

abbrev pub failed : Error → Ran
failed e = record { failure = ended (some (plain e)); acts = [] }

abbrev pub then_do : Act → Ran → Ran
then_do a r = record r { acts = a ∷ r.acts }

module _ (os : Os) (net : Net) where
  -- The switch over the target.
  unfoldable pub deliver : Client → SendFlags → Message → Done Bytes
  deliver c f m =
      if not (f.session is [])
      then send_to_session_id os net c f.session m
      else if not (is_zero f.pid)
      then send_found os net c m (find_by_int os f.pid)
      else if not (f.name is [])
      then send_to_name os net c f.name m
      else if not (f.to is [])
      then send_to_address os net c f.to m
      else silent (err no_target)

  -- From the send on. `inbox` says whether receipts are awaited.
  abbrev pub awaited : Bool → List Happening → Ran
  awaited false hs = record { failure = ended none; acts = [] }
  awaited true hs =
      let w = wait [] hs in record { failure = w.outcome; acts = printed_receipts w.received ∷ [] }

  abbrev pub reported : Bool → List Happening → Result Bytes → Ran
  reported inbox hs (err e) = failed e
  reported inbox hs (ok id) = then_do (printed_id id) (awaited inbox hs)

  unfoldable pub dispatched : Client → SendFlags → Message → Bool → List Happening → Ran
  dispatched c f m inbox hs =
      let d = deliver c f m in then_do (sending m d.events) (reported inbox hs d.result)

  -- The message before its reply address is settled.
  abbrev pub message_of : SendFlags → Bytes → Bytes → Message
  message_of f text from = record {
    text = text;
    priority = f.priority;
    session_id = [];
    from = from;
    from_name = f.name_as;
    msg_id = [];
    uuid = [];
  }

  abbrev pub client_of : SendFlags → Client
  client_of f = record {
    timeout = positive_part f.timeout;
    probe_timeout = 0;
    token = [];
    no_auth = f.no_auth;
  }

  -- `if msg.From == "" { msg.From = ccsock.SelfAddress() }`
  unfoldable pub or_self : Message → Message
  or_self m = if m.from is [] then record m { from = self_address os } else m

  -- The deferred `Close`, once the command has ended.
  abbrev pub closing_inbox : Ran → Ran
  closing_inbox r = elim r.failure [
    | still_waiting ↦ r
    | ended x ↦ record r { acts = r.acts ++ (inbox_closed ∷ []) }
  ]

  abbrev pub with_inbox : SendFlags → Message → List Happening → Listened → Result Bytes → Ran
  with_inbox f m hs l (err e) = then_do (listening l.events) (failed e)
  with_inbox f m hs l (ok path) = then_do (listening l.events) (
      closing_inbox
        (dispatched (client_of f) f (or_self (record m { from = address path })) true hs))

  abbrev pub with_reply : Binding → List Happening → SendFlags → Bytes → Result Bytes → Ran
  with_reply b hs f text (err e) = failed e
  with_reply b hs f text (ok from) =
      let m = message_of f text from in
      if is_positive f.wait_receipt
      then with_inbox f m hs (listen os b) (listen os b).result
      else dispatched (client_of f) f (or_self m) false hs

  abbrev pub with_flags : Binding → List Happening → Result (SendFlags × List Bytes) → Ran
  with_flags b hs (err e) = failed e
  with_flags b hs (ok (f, words)) =
      let text = trim_space (join_words words) in
      if text is [] then failed no_message else with_reply b hs f text (from_flag f.from)

  unfoldable pub send_cmd : Numerals → Binding → List Happening → List Bytes → Ran
  send_cmd n b hs args = with_flags b hs (parse (send_flags n) send_defaults args)
