-- ===== src/Examples/Sends.antt =====
-- Sends of the example machine on a net that accepts them.
use claude_code_socket_trans.Client.Reached.{Sends, send_iff}
use claude_code_socket_trans.Message.Uuid.{new_uuid}
use claude_code_socket_trans.Client.Renamed.{IsRenamed, rename_session-IsRenamed}
use claude_code_socket_trans.Session.{session_of, Session}
use claude_code_socket_trans.Client.Delivered.{send_found_ok}
use claude_code_socket_trans.Wire.{marshal_user, marshal_control}
use claude_code_socket_trans.Examples.Machine.{machine, open_net, client, api}
use claude_code_socket_trans.Message.Frame.{
  Message, frame, UserFrame, resolve_priority, resolve_msg_id,
}
use claude_code_socket_trans.Base.{codes, ◌≡◌, ok, refl, [], Bytes, length, ◌<◌, ◌∷◌, ◌≢◌, ◌↔◌}
use claude_code_socket_trans.Client.{
  dialled, wrote, half_closed, drained, closed, send_to_socket, write_frame, transmit, after_write,
  resolve_token, finish, max_frame_bytes, timeout_of, line_of, send, stamp, send_found,
  rename_session, rename,
}
use claude_code_socket_trans.Base.{bytes_dec}
use claude_code_socket_trans.Decimal.{itoa}
use claude_code_socket_trans.Wire.{json_string, json_from, json_ascii, marshal_payload, optional}
use claude_code_socket_trans.Utf8.{decode_rune}
use claude_code_socket_trans.Client.Sent.{IsReleased, write_frame-IsReleased}

abbrev inbox : Bytes
inbox = codes "/a.sock"

written : (write_frame machine open_net client inbox (codes "{}")).result ≡ ok tt
unfolding write_frame transmit after_write finish resolve_token bytes_dec
written = refl

write_frame-IsReleased_example :
    IsReleased
      (write_frame machine open_net client inbox (codes "{}")).result
      (write_frame machine open_net client inbox (codes "{}")).events
write_frame-IsReleased_example = write_frame-IsReleased machine open_net client inbox (codes "{}")

abbrev pub plain : Message
plain = record {
  text = codes "hi";
  priority = [];
  session_id = [];
  from = [];
  from_name = [];
  msg_id = codes "m1";
  uuid = [];
}

sent : (send_to_socket machine open_net client inbox plain).result ≡ ok (codes "m1")
unfolding send_to_socket frame resolve_priority resolve_msg_id write_frame transmit after_write
    finish resolve_token marshal_user itoa json_string json_from json_ascii decode_rune
    marshal_payload optional bytes_dec
sent = refl

pub sent_to_api : (send machine open_net client api plain).result ≡ ok (codes "m1")
unfolding send send_to_socket frame resolve_priority resolve_msg_id write_frame transmit after_write
    finish resolve_token marshal_user itoa json_string json_from json_ascii decode_rune
    marshal_payload optional bytes_dec stamp session_of
sent_to_api = refl

sent_by_lookup : (send_found machine open_net client plain (ok api)).result ≡ ok (codes "m1")
sent_by_lookup = sent_to_api

send_found_ok_example :
    (s : Session) × (f : UserFrame) × (token : Bytes) × (ok api ≡ ok s)
    × (s.socket_path ≢ [])
    × (frame machine (stamp s plain) ≡ ok f)
    × (f.msg_id ≡ codes "m1")
    × (length (marshal_user f) < max_frame_bytes)
    × (resolve_token machine client s.socket_path ≡ ok token)
    × ((send_found machine open_net client plain (ok api)).events
        ≡ dialled s.socket_path (timeout_of client)
          ∷ wrote (line_of token (marshal_user f))
          ∷ half_closed
          ∷ drained
          ∷ closed
          ∷ [])
send_found_ok_example =
    send_found_ok machine open_net client plain (ok api) (codes "m1") sent_by_lookup

session_renamed : (rename_session machine open_net client api (codes "web")).result ≡ ok tt
unfolding rename_session rename write_frame transmit after_write finish resolve_token
    marshal_control itoa json_string json_from json_ascii decode_rune optional bytes_dec session_of
    new_uuid
session_renamed = refl

rename_session-IsRenamed_example :
    (api.socket_path ≢ [])
    × IsRenamed machine open_net client api.socket_path api.session_id
        (codes "web")
        (rename_session machine open_net client api (codes "web")).events
rename_session-IsRenamed_example =
    rename_session-IsRenamed machine open_net client api (codes "web") session_renamed

send_iff_example : ((send machine open_net client api plain).result ≡ ok (codes "m1")) ↔ (
    (api.socket_path ≢ [])
    × Sends machine open_net client api.socket_path (stamp api plain) (codes "m1"))
send_iff_example = send_iff machine open_net client api plain (codes "m1")
