-- ===== src/Examples/Exchanges.antt =====
-- A message that a send writes and an inbox reads.
use claude_code_socket_trans.Wire.RoundTrip.Frames.{user_received, unmarshal_frame-marshal_user}
use claude_code_socket_trans.Message.Unicode.Frames.{IsUtf8Message, IsFilled, frame-IsUtf8Frame}
use claude_code_socket_trans.Examples.Sends.{plain, sent_to_api}
use claude_code_socket_trans.Utf8.{decode_rune}
use claude_code_socket_trans.Examples.Machine.{machine, client, open_net, api, zeros}
use claude_code_socket_trans.Exchange.{auth_of, send-received}
use claude_code_socket_trans.Session.{session_of}
use claude_code_socket_trans.Utf8.Encoding.{ascii-IsUtf8, empty, IsUtf8}
use claude_code_socket_trans.Wire.{marshal_auth, marshal_user, json_string, json_from, json_ascii}
use claude_code_socket_trans.Client.{resolve_token, wrote, stamp, send, max_frame_bytes}
use claude_code_socket_trans.Inbox.Reading.{InboxConfig, handle, delivered_message, unmarshal_frame}
use claude_code_socket_trans.Base.{
  Has, codes, false, [], arith, true, bytes_dec, ◌≡◌, some, length, refl, ok, ◌<◌, Bytes,
}
use claude_code_socket_trans.Wire.Objects.{IsUtf8Frame, Denotes, user_json, marshal_user-Denotes}
use claude_code_socket_trans.Message.Frame.{
  UserFrame, frame, resolve_priority, resolve_msg_id, content_of,
}

abbrev greeting : UserFrame
greeting = record {
  msg_v = 1;
  msg_id = codes "m1";
  type = codes "user";
  message = record { role = codes "user"; content = codes "hi" };
  priority = codes "next";
  from = [];
  session_id = codes "s1";
  uuid = [];
}

greeting_framed : frame machine (stamp api plain) ≡ ok greeting
unfolding frame resolve_priority resolve_msg_id stamp session_of content_of bytes_dec
greeting_framed = refl

greeting_utf8 : IsUtf8Frame greeting
greeting_utf8 = record {
  msg_id = ascii-IsUtf8 (codes "m1") (omega arith);
  type = ascii-IsUtf8 (codes "user") (omega arith);
  role = ascii-IsUtf8 (codes "user") (omega arith);
  content = ascii-IsUtf8 (codes "hi") (omega arith);
  priority = ascii-IsUtf8 (codes "next") (omega arith);
  from = empty;
  session_id = ascii-IsUtf8 (codes "s1") (omega arith);
  uuid = empty;
}

abbrev listener : InboxConfig
listener = record { has_on_receipt = false; has_on_message = true }

resolved : resolve_token machine client api.socket_path ≡ ok (codes "t")
unfolding resolve_token session_of bytes_dec
resolved = refl

auth_fits : length (marshal_auth (auth_of (codes "t"))) < max_frame_bytes
unfolding marshal_auth json_string json_from json_ascii decode_rune
auth_fits = omega arith

plain-IsUtf8 : IsUtf8Message plain
plain-IsUtf8 = record {
  text = ascii-IsUtf8 (codes "hi") (omega arith);
  session_id = empty;
  msg_id = ascii-IsUtf8 (codes "m1") (omega arith);
  uuid = empty;
}

stamped_plain : IsUtf8Message (stamp api plain)
unfolding stamp session_of bytes_dec
stamped_plain = record {
  text = ascii-IsUtf8 (codes "hi") (omega arith);
  session_id = ascii-IsUtf8 (codes "s1") (omega arith);
  msg_id = ascii-IsUtf8 (codes "m1") (omega arith);
  uuid = empty;
}

machine-IsFilled : IsFilled machine
machine-IsFilled = record {
  random_bytes = zeros 16;
  given = refl;
  sixteen = refl;
  bytes = omega arith;
}

api_session_id : IsUtf8 api.session_id
unfolding session_of
api_session_id = ascii-IsUtf8 (codes "s1") (omega arith)

send-received_example :
    (bytes : Bytes) × Has (wrote bytes) (send machine open_net client api plain).events
    × (handle listener bytes ≡ delivered_message listener (some (content_of machine plain)) [])
send-received_example =
    send-received listener machine open_net client api plain (codes "m1") (codes "t") sent_to_api
      plain-IsUtf8 api_session_id machine-IsFilled resolved (ascii-IsUtf8 (codes "t") (omega arith))
      auth_fits

marshal_user-Denotes_example : Denotes (marshal_user greeting) (user_json greeting)
marshal_user-Denotes_example = marshal_user-Denotes greeting greeting_utf8

unmarshal_frame-marshal_user_example :
    unmarshal_frame (marshal_user greeting) ≡ some (user_received greeting)
unmarshal_frame-marshal_user_example = unmarshal_frame-marshal_user greeting greeting_utf8 refl

frame-IsUtf8Frame_example : IsUtf8Frame greeting
frame-IsUtf8Frame_example =
    frame-IsUtf8Frame machine (stamp api plain) greeting_framed stamped_plain machine-IsFilled
