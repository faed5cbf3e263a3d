-- ===== src/Wire/Tests.antt =====
-- The frames that the README shows.
use claude_code_socket_trans.Message.Envelope.{hex_digits}
use claude_code_socket_trans.Base.{codes, [], bytes_dec, ◌≡◌, refl}
use claude_code_socket_trans.Wire.{
  marshal_user, json_string, json_from, json_ascii, json_wide, marshal_payload, optional,
  hex_digits,
}
use claude_code_socket_trans.Message.Frame.{UserFrame}
use claude_code_socket_trans.Decimal.{itoa}
use claude_code_socket_trans.Utf8.{decode_rune, encode_rune}

abbrev hello : UserFrame
hello = record {
  msg_v = 1;
  msg_id = codes "7";
  type = codes "user";
  message = record { role = codes "user"; content = codes "a\"b<\n" };
  priority = codes "next";
  from = [];
  session_id = codes "s";
  uuid = [];
}

hello_wire :
    marshal_user hello
    ≡ codes
        "{\"msgV\":1,\"msg_id\":\"7\",\"type\":\"user\",\"message\":{\"role\":\"user\",\"content\":\"a\\\"b\\u003c\\n\"},\"priority\":\"next\",\"session_id\":\"s\"}"
unfolding marshal_user json_string json_from json_ascii json_wide optional marshal_payload itoa
    decode_rune encode_rune hex_digits bytes_dec
hello_wire = refl
