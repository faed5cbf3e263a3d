-- ===== src/Wire.antt =====
-- The wire form of the frames: what `json.Marshal` makes of the frame structs of message.go, in the
-- order of their fields and with their `omitempty` tags.
use claude_code_socket_trans.Message.Envelope.{hex_digits}
use claude_code_socket_trans.Decimal.{itoa}
pub mod Lines
pub mod Decoding
pub mod Strings
pub mod Objects
pub mod RoundTrip
mod Tests
use claude_code_socket_trans.Base.{
  ℕ, Bool, Bytes, if◌then◌else◌, suc, ◌∷◌, codes, ◌==◌, ltb, ◌++◌, ◌is◌, ◌||◌, ◌-◌, [], ◌&&◌, zero,
}
use claude_code_socket_trans.Utf8.{decode_rune, encode_rune, Decoded, rune_error}
use claude_code_socket_trans.Message.Frame.{UserFrame, ControlFrame, AuthFrame, FramePayload}

-- An ASCII byte in a JSON string, with the escapes for HTML that `json.Marshal` applies.
unfoldable pub json_ascii : ℕ → Bytes
json_ascii c =
    if c == b'"' || c == b'\\'
    then b'\\' ∷ c ∷ []
    else if c == 8
    then codes "\\b"
    else if c == 12
    then codes "\\f"
    else if c == 10
    then codes "\\n"
    else if c == 13
    then codes "\\r"
    else if c == 9
    then codes "\\t"
    else if ltb c 0x20 || c == b'<' || c == b'>' || c == b'&'
    then codes "\\u" ++ hex_digits 4 c
    else c ∷ []

-- A rune of several bytes, or a byte that begins none; U+2028 and U+2029 are escaped.
unfoldable pub json_wide : Decoded → Bytes
json_wide d =
    if d.rune == rune_error && d.width == 1
    then codes "\\ufffd"
    else if d.rune == 0x2028 || d.rune == 0x2029
    then codes "\\u" ++ hex_digits 4 d.rune
    else encode_rune d.rune

unfoldable pub json_from : ℕ → Bytes → Bytes
json_from skip [] = []
json_from (suc skip) (c ∷ s) = json_from skip s
json_from zero (c ∷ s) =
    let d = decode_rune c s in
    (if ltb c 0x80 then json_ascii c else json_wide d) ++ json_from (d.width - 1) s

unfoldable pub json_string : Bytes → Bytes
json_string s = b'"' ∷ (json_from 0 s ++ b'"' ∷ [])

-- A member of an object behind others.
abbrev pub member : Bytes → Bytes → Bytes
member key value = codes ",\"" ++ (key ++ (codes "\":" ++ value))

-- A string with the tag `omitempty`.
unfoldable pub optional : Bytes → Bytes → Bytes
optional key s = if s is [] then [] else member key (json_string s)

unfoldable pub marshal_payload : FramePayload → Bytes
marshal_payload p =
    codes "{\"role\":"
    ++ (json_string p.role ++ (member (codes "content") (json_string p.content) ++ codes "}"))

unfoldable pub marshal_user : UserFrame → Bytes
marshal_user f =
    codes "{\"msgV\":"
    ++ (itoa f.msg_v
        ++ (member (codes "msg_id") (json_string f.msg_id)
            ++ (member (codes "type") (json_string f.type)
                ++ (member (codes "message") (marshal_payload f.message)
                    ++ (member (codes "priority") (json_string f.priority)
                        ++ (optional (codes "from") f.from
                            ++ (optional (codes "session_id") f.session_id
                                ++ (optional (codes "uuid") f.uuid ++ codes "}"))))))))

unfoldable pub marshal_control : ControlFrame → Bytes
marshal_control f =
    codes "{\"msgV\":"
    ++ (itoa f.msg_v
        ++ (member (codes "msg_id") (json_string f.msg_id)
            ++ (member (codes "type") (json_string f.type)
                ++ (member (codes "action") (json_string f.action)
                    ++ (optional (codes "name") f.name
                        ++ (optional (codes "session_id") f.session_id ++ codes "}"))))))

unfoldable pub marshal_auth : AuthFrame → Bytes
marshal_auth f =
    codes "{\"type\":"
    ++ (json_string f.type ++ (member (codes "token") (json_string f.token) ++ codes "}"))
