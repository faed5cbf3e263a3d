-- ===== src/Client.antt =====
-- client.go: the `Client` and its sends. A call gives its result and what it did on the socket, in
-- order. Durations are in nanoseconds, and one that is not positive is 0.
pub mod Sent
pub mod Reached
pub mod Delivered
pub mod Renamed
pub mod Default
use claude_code_socket_trans.Base.{
  ℕ, Bool, ◌^◌, Bytes, if◌then◌else◌, Result, true, ◌∷◌, ◌>>=◌, ltb, codes, ◌is◌, List, [], ok, not,
  false, ◌&&◌, err, leb, ◌++◌, half_closing, waiting_cancelled, connecting, length, no_inbox_socket,
  empty_name, awaiting_close, not_unix, frame_too_long, writing,
}
use claude_code_socket_trans.Os.{Os, darwin}
use claude_code_socket_trans.Session.{Session, default_probe_timeout}
use claude_code_socket_trans.Message.Frame.{
  frame, Message, protocol_version, UserFrame, ControlFrame,
}
use claude_code_socket_trans.Message.Uuid.{new_uuid}
use claude_code_socket_trans.Wire.{marshal_user, marshal_control, marshal_auth}
use claude_code_socket_trans.Auth.{lookup_token}
use claude_code_socket_trans.Find.{find_by_pid, find_by_session_id, find_by_name}
use claude_code_socket_trans.Addr.{parse_address, address}

abbrev pub default_timeout : ℕ
default_timeout = 5_000_000_000

abbrev pub max_frame_bytes : ℕ
max_frame_bytes = 2 ^ 20

pub record Client : Type 0 where
  pub timeout : ℕ
  pub probe_timeout : ℕ
  pub token : Bytes
  pub no_auth : Bool

unfoldable pub timeout_of : Client → ℕ
timeout_of c = if ltb 0 c.timeout then c.timeout else default_timeout

unfoldable pub probe_timeout_of : Client → ℕ
probe_timeout_of c = if ltb 0 c.probe_timeout then c.probe_timeout else default_probe_timeout

-- The environment's addresses of the session that this process runs under.
unfoldable pub self_socket_path : Os → Bytes
self_socket_path os = os.getenv (codes "CLAUDE_CODE_MESSAGING_SOCKET")

unfoldable pub self_token : Os → Bytes
self_token os = os.getenv (codes "CLAUDE_CODE_MESSAGING_TOKEN")

unfoldable pub self_address : Os → Bytes
self_address os = if self_socket_path os is [] then [] else address (self_socket_path os)

-- What a dial gives.
pub data Dialled : Type 0 where
  refused other_conn unix_conn : Dialled

-- How the system answers on the connection to a path: each step succeeds or not.
pub record Net : Type 0 where
  pub dial : Bytes → ℕ → Dialled
  pub write_ok : Bytes → Bytes → Bool
  -- Whether the context ends during the wait on macOS.
  pub wait_cancelled : Bytes → Bool
  pub close_write_ok : Bytes → Bool
  -- Whether reading ends by the receiver's close, or by an error that is `net.ErrClosed`.
  pub drain_ok : Bytes → Bool

pub data Event : Type 0 where
  dialled : Bytes → ℕ → Event
  wrote : Bytes → Event
  half_closed drained closed : Event

-- A result, and the events before it.
pub record Done (A : Type 0) : Type 0 where
  pub result : Result A
  pub events : List Event

abbrev pub silent : {A : Type 0} → Result A → Done A
silent r = record { result = r; events = [] }

unfoldable pub resolve_token : Os → Client → Bytes → Result Bytes
resolve_token os c path =
    if c.no_auth
    then ok []
    else if not (c.token is [])
    then ok c.token
    else if not (self_socket_path os is [])
        && self_socket_path os is path
        && not (self_token os is [])
    then ok (self_token os)
    else lookup_token os path

-- The bytes that are written: the optional auth line, then the frame's.
unfoldable pub line_of : Bytes → Bytes → Bytes
line_of token payload =
    (if token is []
      then []
      else marshal_auth (record { type = codes "auth"; token = token }) ++ (b'\n' ∷ []))
    ++ (payload ++ (b'\n' ∷ []))

-- The message that `Send` passes on.
unfoldable pub stamp : Session → Message → Message
stamp s m = if m.session_id is [] then record m { session_id = s.session_id } else m

module _ (os : Os) (net : Net) where
  -- From the `CloseWrite` on.
  unfoldable pub finish : Bytes → Done (Unit {0})
  finish path =
      if not (net.close_write_ok path)
      then record { result = err half_closing; events = closed ∷ [] }
      else if not (net.drain_ok path)
      then record { result = err awaiting_close; events = half_closed ∷ closed ∷ [] }
      else record { result = ok tt; events = half_closed ∷ drained ∷ closed ∷ [] }

  abbrev pub is_darwin : Bool
  is_darwin = elim os.platform [ darwin ↦ true | _ ↦ false ]

  -- Once the line is written on a unix socket.
  unfoldable pub after_write : Bytes → Done (Unit {0})
  unfolding finish
  after_write path =
      if is_darwin && net.wait_cancelled path
      then record { result = err waiting_cancelled; events = closed ∷ [] }
      else finish path

  abbrev pub preceded : {A : Type 0} → Event → Done A → Done A
  preceded e d = record { result = d.result; events = e ∷ d.events }

  abbrev pub on_conn : Dialled → Bytes → Bytes → Done (Unit {0})
  on_conn refused path line = silent (err connecting)
  on_conn other_conn path line =
      if net.write_ok path line
      then record { result = err not_unix; events = wrote line ∷ closed ∷ [] }
      else record { result = err writing; events = closed ∷ [] }
  on_conn unix_conn path line =
      if net.write_ok path line
      then preceded (wrote line) (after_write path)
      else record { result = err writing; events = closed ∷ [] }

  -- From the dial on.
  unfoldable pub transmit : Bytes → ℕ → Bytes → Done (Unit {0})
  unfolding after_write
  transmit path timeout line =
      preceded (dialled path timeout) (on_conn (net.dial path timeout) path line)

  abbrev pub with_token : Bytes → ℕ → Bytes → Result Bytes → Done (Unit {0})
  with_token path timeout payload (err e) = silent (err e)
  with_token path timeout payload (ok token) = transmit path timeout (line_of token payload)

  -- `writeFrame`, of a frame that is already encoded.
  unfoldable pub write_frame : Client → Bytes → Bytes → Done (Unit {0})
  write_frame c path payload =
      if leb max_frame_bytes (length payload)
      then silent (err frame_too_long)
      else with_token path (timeout_of c) payload (resolve_token os c path)

  -- The message ID, where the write succeeds.
  abbrev pub returning : {A : Type 0} → A → Done (Unit {0}) → Done A
  returning a d = record { result = (d.result >>= λ _. ok a); events = d.events }

  abbrev pub send_framed : Client → Bytes → Result UserFrame → Done Bytes
  send_framed c path (err e) = silent (err e)
  send_framed c path (ok f) = returning f.msg_id (write_frame c path (marshal_user f))

  unfoldable pub send_to_socket : Client → Bytes → Message → Done Bytes
  send_to_socket c path m = send_framed c path (frame os m)

  unfoldable pub send : Client → Session → Message → Done Bytes
  send c s m =
      if s.socket_path is []
      then silent (err no_inbox_socket)
      else send_to_socket c s.socket_path (stamp s m)

  abbrev pub send_found : Client → Message → Result Session → Done Bytes
  send_found c m (err e) = silent (err e)
  send_found c m (ok s) = send c s m

  unfoldable pub send_to_pid : Client → ℕ → Message → Done Bytes
  send_to_pid c pid m = send_found c m (find_by_pid os pid)

  unfoldable pub send_to_session_id : Client → Bytes → Message → Done Bytes
  send_to_session_id c id m = send_found c m (find_by_session_id os id (probe_timeout_of c))

  unfoldable pub send_to_name : Client → Bytes → Message → Done Bytes
  send_to_name c name m = send_found c m (find_by_name os name (probe_timeout_of c))

  abbrev pub send_parsed : Client → Message → Result Bytes → Done Bytes
  send_parsed c m (err e) = silent (err e)
  send_parsed c m (ok path) = send_to_socket c path m

  unfoldable pub send_to_address : Client → Bytes → Message → Done Bytes
  send_to_address c addr m = send_parsed c m (parse_address addr)

  abbrev pub renamed : Client → Bytes → Bytes → Bytes → Result Bytes → Done (Unit {0})
  renamed c path session_id name (err e) = silent (err e)
  renamed c path session_id name (ok id) = write_frame c path (
      marshal_control (record {
        msg_v = protocol_version;
        msg_id = id;
        type = codes "control";
        action = codes "rename";
        name = name;
        session_id = session_id;
      }))

  unfoldable pub rename : Client → Bytes → Bytes → Bytes → Done (Unit {0})
  rename c path session_id name =
      if name is [] then silent (err empty_name) else renamed c path session_id name (new_uuid os)

  unfoldable pub rename_socket : Client → Bytes → Bytes → Done (Unit {0})
  rename_socket c path name = rename c path [] name

  unfoldable pub rename_session : Client → Session → Bytes → Done (Unit {0})
  rename_session c s name =
      if s.socket_path is []
      then silent (err no_inbox_socket)
      else rename c s.socket_path s.session_id name
