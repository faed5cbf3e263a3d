-- ===== src/Client/Default.antt =====
-- client.go: `New`, the default client, and the functions of the package that use it.
use claude_code_socket_trans.Base.{ℕ, Bytes, [], false}
use claude_code_socket_trans.Client.{
  Client, Net, Done, send, send_to_pid, send_to_session_id, send_to_name, send_to_address,
}
use claude_code_socket_trans.Message.Frame.{Message}
use claude_code_socket_trans.Session.{Session}
use claude_code_socket_trans.Os.{Os}

abbrev pub new_client : Client
new_client = record { timeout = 0; probe_timeout = 0; token = []; no_auth = false }

abbrev pub default_client : Client
default_client = new_client

module _ (os : Os) (net : Net) where
  unfoldable pub default_send : Session → Message → Done Bytes
  default_send s m = send os net default_client s m

  unfoldable pub default_send_to_pid : ℕ → Message → Done Bytes
  default_send_to_pid pid m = send_to_pid os net default_client pid m

  unfoldable pub default_send_to_session_id : Bytes → Message → Done Bytes
  default_send_to_session_id id m = send_to_session_id os net default_client id m

  unfoldable pub default_send_to_name : Bytes → Message → Done Bytes
  default_send_to_name name m = send_to_name os net default_client name m

  unfoldable pub default_send_to_address : Bytes → Message → Done Bytes
  default_send_to_address addr m = send_to_address os net default_client addr m
