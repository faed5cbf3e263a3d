-- ===== src/Examples/Deliveries.antt =====
-- A message that reaches a session which published its entry and its key.
use claude_code_socket_trans.Exchange.Published.{send_to_pid-delivered}
use claude_code_socket_trans.Exchange.{auth_of}
use claude_code_socket_trans.Json.Structs.{names_field, fold_name}
use claude_code_socket_trans.Json.Members.{last_named, named}
use claude_code_socket_trans.Utf8.{decode_rune}
use claude_code_socket_trans.Examples.Lookups.{inbox, zeros-AllBytes}
use claude_code_socket_trans.Decimal.{itoa}
use claude_code_socket_trans.Utf8.Encoding.{ascii-IsUtf8, empty}
use claude_code_socket_trans.Examples.Published.{
  sessions-found, publishing, entry_members, key_members, sessions-found, entry-listed, entry-read,
  entry-tokens, key-suffix, key-named, none-before, key-read, key-tokens, key-IsToken, key-rank,
}
use claude_code_socket_trans.Client.Reached.{Opens}
use claude_code_socket_trans.Wire.{
  marshal_user, marshal_auth, json_string, json_from, json_ascii, marshal_payload, optional,
}
use claude_code_socket_trans.Examples.Machine.{
  bytes_below, client, zeros, open_net, bytes_below-AllBytes,
}
use claude_code_socket_trans.Message.Unicode.Frames.{IsUtf8Message, IsFilled}
use claude_code_socket_trans.Session.Published.{last_value, text_in}
use claude_code_socket_trans.Base.{
  Bytes, codes, true, bytes_dec, [], ◌≢◌, arith, ◌≡◌, ok, refl, Has, length, ◌<◌, some, ◌∷◌,
}
use claude_code_socket_trans.Client.{
  Client, self_socket_path, send_to_pid, timeout_of, line_of, wrote, max_frame_bytes,
}
use claude_code_socket_trans.Inbox.Reading.{InboxConfig, handle, delivered_message}
use claude_code_socket_trans.Message.Frame.{
  Message, UserFrame, frame, resolve_priority, resolve_msg_id, content_of,
}
use claude_code_socket_trans.Examples.Sends.{plain}

abbrev addressed : Message
addressed = record plain { session_id = codes "s1" }

abbrev addressed_frame : UserFrame
addressed_frame = record {
  msg_v = 1;
  msg_id = codes "m1";
  type = codes "user";
  message = record { role = codes "user"; content = codes "hi" };
  priority = codes "next";
  from = [];
  session_id = codes "s1";
  uuid = [];
}

abbrev both_callbacks : InboxConfig
both_callbacks = record { has_on_receipt = true; has_on_message = true }

abbrev keyless : Client
keyless = record client { token = [] }

abbrev token : Bytes
token = named (codes "peerToken") key_members

published-path : text_in entry_members (codes "messagingSocketPath") ≡ inbox
unfolding last_value bytes_dec
published-path = refl

not_self : self_socket_path publishing ≢ inbox
unfolding self_socket_path
not_self = λ e. cc

addressed-frame : frame publishing addressed ≡ ok addressed_frame
unfolding frame resolve_priority resolve_msg_id content_of bytes_dec
addressed-frame = refl

addressed-IsUtf8Message : IsUtf8Message addressed
addressed-IsUtf8Message = record {
  text = ascii-IsUtf8 (codes "hi") (omega arith);
  session_id = ascii-IsUtf8 (codes "s1") (omega arith);
  msg_id = ascii-IsUtf8 (codes "m1") (omega arith);
  uuid = empty;
}

publishing-IsFilled : IsFilled publishing
unfolding bytes_below
publishing-IsFilled = record {
  random_bytes = zeros 16;
  given = refl;
  sixteen = refl;
  bytes = bytes_below-AllBytes (zeros 16) refl;
}

addressed-fits : length (marshal_user addressed_frame) < max_frame_bytes
unfolding marshal_user itoa json_string json_from json_ascii decode_rune marshal_payload optional
    bytes_dec
addressed-fits = omega arith

token-fits : length (marshal_auth (auth_of token)) < max_frame_bytes
unfolding marshal_auth json_string json_from json_ascii decode_rune last_named names_field fold_name
    bytes_dec
token-fits = omega arith

inbox-Opens :
    Opens publishing open_net inbox
      (timeout_of keyless)
      (line_of token (marshal_user addressed_frame))
inbox-Opens = (refl, refl, refl, refl, refl)

send_to_pid-delivered_example :
    ((send_to_pid publishing open_net keyless 12 addressed).result ≡ ok (codes "m1"))
    × (bytes : Bytes) × Has
        (wrote bytes)
        (send_to_pid publishing open_net keyless 12 addressed).events
    × (handle both_callbacks bytes
        ≡ delivered_message both_callbacks (some (content_of publishing addressed)) [])
send_to_pid-delivered_example =
    send_to_pid-delivered both_callbacks publishing open_net keyless 12 addressed []
      (codes "12.json" ∷ []) entry_members key_members (λ s. (refl, zeros-AllBytes)) (omega arith)
      sessions-found refl entry-listed entry-read entry-tokens
      (refl, (refl, (refl, (refl, (refl, (refl, tt)))))) published-path (λ e. cc) key-suffix
      key-named none-before key-read key-tokens key-IsToken key-rank refl refl not_self (λ e. cc)
      addressed-frame addressed-IsUtf8Message publishing-IsFilled addressed-fits token-fits
      inbox-Opens
