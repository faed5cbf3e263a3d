-- ===== src/Wire/RoundTrip/Texts.antt =====
-- The tokens of the frames' lines.
use claude_code_socket_trans.Wire.Objects.{IsUtf8Frame}
use claude_code_socket_trans.Json.Strings.{string_body, string_piece}
use claude_code_socket_trans.Utf8.{decode_rune}
use claude_code_socket_trans.Decimal.{itoa}
use claude_code_socket_trans.Wire.RoundTrip.Tokens.{
  IsName, Reads, member_tokens, Reads-append, begin_object-Reads, named-Reads, json_string-Reads,
  optional_tokens, member-Reads, end_object-Reads, optional-Reads,
}
use claude_code_socket_trans.Utf8.Encoding.{IsUtf8}
use claude_code_socket_trans.Json.Tokens.{
  tokens, Token, token_at, begin_object, string, colon, number_front, end_object, is_number, comma,
  is_number_byte, numeral,
}
use claude_code_socket_trans.Base.{List, Bytes, ◌++◌, codes, ◌≡◌, ◌∷◌, arith, [], refl}
use claude_code_socket_trans.Wire.{
  json_from, marshal_payload, marshal_user, json_ascii, itoa, decode_rune, member, json_string,
  marshal_auth,
}
use claude_code_socket_trans.Message.Frame.{UserFrame, AuthFrame, FramePayload}

msg_id-IsName : IsName (codes "msg_id")
unfolding json_from json_ascii decode_rune
msg_id-IsName = record { ascii = omega arith; spelled = refl }

type-IsName : IsName (codes "type")
unfolding json_from json_ascii decode_rune
type-IsName = record { ascii = omega arith; spelled = refl }

role-IsName : IsName (codes "role")
unfolding json_from json_ascii decode_rune
role-IsName = record { ascii = omega arith; spelled = refl }

content-IsName : IsName (codes "content")
unfolding json_from json_ascii decode_rune
content-IsName = record { ascii = omega arith; spelled = refl }

message-IsName : IsName (codes "message")
unfolding json_from json_ascii decode_rune
message-IsName = record { ascii = omega arith; spelled = refl }

priority-IsName : IsName (codes "priority")
unfolding json_from json_ascii decode_rune
priority-IsName = record { ascii = omega arith; spelled = refl }

from-IsName : IsName (codes "from")
unfolding json_from json_ascii decode_rune
from-IsName = record { ascii = omega arith; spelled = refl }

session_id-IsName : IsName (codes "session_id")
unfolding json_from json_ascii decode_rune
session_id-IsName = record { ascii = omega arith; spelled = refl }

uuid-IsName : IsName (codes "uuid")
unfolding json_from json_ascii decode_rune
uuid-IsName = record { ascii = omega arith; spelled = refl }

token-IsName : IsName (codes "token")
unfolding json_from json_ascii decode_rune
token-IsName = record { ascii = omega arith; spelled = refl }

abbrev pub payload_tokens : FramePayload → List Token
payload_tokens p =
    begin_object
    ∷ string (codes "role")
    ∷ colon
    ∷ string p.role
    ∷ (member_tokens (codes "content") (string p.content ∷ []) ++ (end_object ∷ []))

payload-Reads :
    (p : FramePayload)
    → IsUtf8 p.role
    → IsUtf8 p.content
    → Reads (marshal_payload p) (payload_tokens p)
unfolding marshal_payload
payload-Reads p r c = Reads-append begin_object-Reads (
    Reads-append
      (named-Reads (codes "role") (json_string p.role) (string p.role ∷ []) role-IsName
        (json_string-Reads p.role r))
      (Reads-append
        (member-Reads (codes "content") (json_string p.content) (string p.content ∷ [])
          content-IsName (json_string-Reads p.content c))
        end_object-Reads))

abbrev pub version_tokens : List Token
version_tokens = begin_object ∷ string (codes "msgV") ∷ colon ∷ numeral (codes "1") ∷ comma ∷ []

version-Reads : Reads (codes "{\"msgV\":1,") version_tokens
unfolding tokens token_at string_body string_piece number_front is_number is_number_byte
version-Reads = record { in_front_of = λ u. refl }

abbrev pub text_tokens : Bytes → Bytes → List Token
text_tokens key s = member_tokens key (string s ∷ [])

abbrev pub user_tokens : UserFrame → List Token
user_tokens f =
    version_tokens
    ++ ((string (codes "msg_id") ∷ colon ∷ string f.msg_id ∷ [])
        ++ (text_tokens (codes "type") f.type
            ++ (member_tokens (codes "message") (payload_tokens f.message)
                ++ (text_tokens (codes "priority") f.priority
                    ++ (optional_tokens (codes "from") f.from
                        ++ (optional_tokens (codes "session_id") f.session_id
                            ++ (optional_tokens (codes "uuid") f.uuid ++ (end_object ∷ []))))))))

text_member-Reads :
    (key s : Bytes) → IsName key → IsUtf8 s → Reads (member key (json_string s)) (text_tokens key s)
text_member-Reads key s n h =
    member-Reads key (json_string s) (string s ∷ []) n (json_string-Reads s h)

pub user-Reads :
    (f : UserFrame) → IsUtf8Frame f → f.msg_v ≡ 1 → Reads (marshal_user f) (user_tokens f)
unfolding marshal_user itoa
user-Reads f u v = rw v (
    Reads-append version-Reads (
      Reads-append
        (named-Reads (codes "msg_id") (json_string f.msg_id) (string f.msg_id ∷ []) msg_id-IsName
          (json_string-Reads f.msg_id u.msg_id))
        (Reads-append (text_member-Reads (codes "type") f.type type-IsName u.type) (
          Reads-append
            (member-Reads (codes "message") (marshal_payload f.message) (payload_tokens f.message)
              message-IsName (payload-Reads f.message u.role u.content))
            (Reads-append
              (text_member-Reads (codes "priority") f.priority priority-IsName u.priority)
              (Reads-append (optional-Reads (codes "from") f.from from-IsName u.from) (
                Reads-append
                  (optional-Reads (codes "session_id") f.session_id session_id-IsName u.session_id)
                  (Reads-append (optional-Reads (codes "uuid") f.uuid uuid-IsName u.uuid)
                    end_object-Reads))))))))

abbrev pub auth_tokens : AuthFrame → List Token
auth_tokens f =
    begin_object
    ∷ ((string (codes "type") ∷ colon ∷ string f.type ∷ [])
        ++ (text_tokens (codes "token") f.token ++ (end_object ∷ [])))

pub auth-Reads :
    (f : AuthFrame) → IsUtf8 f.type → IsUtf8 f.token → Reads (marshal_auth f) (auth_tokens f)
unfolding marshal_auth
auth-Reads f t u = Reads-append begin_object-Reads (
    Reads-append
      (named-Reads (codes "type") (json_string f.type) (string f.type ∷ []) type-IsName
        (json_string-Reads f.type t))
      (Reads-append (text_member-Reads (codes "token") f.token token-IsName u) end_object-Reads))
