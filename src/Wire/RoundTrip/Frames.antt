-- ===== src/Wire/RoundTrip/Frames.antt =====
-- The frames that `json.Marshal` writes are read back by `json.Unmarshal`.
use claude_code_socket_trans.Wire.RoundTrip.Members.{assign_all-optional_field}
use claude_code_socket_trans.Wire.RoundTrip.Texts.{
  version_tokens, user-Reads, auth_tokens, text_tokens, auth-Reads, payload_tokens,
}
use claude_code_socket_trans.Wire.RoundTrip.Reader.{read_json-tokens, run-append, run-optional}
use claude_code_socket_trans.Json.Structs.{
  assign_all, any_number, names_field, unmarshal_struct, fold_name, unmarshal_value,
}
use claude_code_socket_trans.Json.Reader.{
  read_json, run, step, behind_member, wants_value, finished,
}
use claude_code_socket_trans.Json.{Fields, field, text, object, no_fields, number, append_field}
use claude_code_socket_trans.Wire.Objects.{IsUtf8Frame}
use claude_code_socket_trans.Utf8.{decode_rune}
use claude_code_socket_trans.Wire.RoundTrip.Tokens.{member_tokens, optional_tokens, optional_field}
use claude_code_socket_trans.Utf8.Encoding.{IsUtf8}
use claude_code_socket_trans.Inbox.Reading.{
  IncomingFrame, no_frame, set_frame, unmarshal_frame, message_field, set_message,
}
use claude_code_socket_trans.Json.Tokens.{Token, string, colon, end_object}
use claude_code_socket_trans.Base.{
  List, Bytes, ◌++◌, some, codes, ◌≡◌, ◌∷◌, [], refl, false, ap, ◌∙◌, bytes_dec, sym,
}
use claude_code_socket_trans.Wire.{marshal_user, decode_rune, marshal_auth}
use claude_code_socket_trans.Message.Frame.{UserFrame, AuthFrame}

-- The fields of `incomingFrame` that a user frame and an auth frame have.
abbrev pub user_received : UserFrame → IncomingFrame
user_received f = record no_frame { type = f.type; from = f.from; message = some f.message.content }

abbrev pub auth_received : AuthFrame → IncomingFrame
auth_received f = record no_frame { type = f.type }

-- The object that the tokens of a user frame give.
abbrev user_members : UserFrame → Fields
user_members f =
    field (codes "msgV") (number (record { negative = false; whole = 0; fraction = false })) (
      field (codes "msg_id") (text f.msg_id) (
        field (codes "type") (text f.type) (
          field (codes "message")
            (object (
              field (codes "role") (text f.message.role)
                (field (codes "content") (text f.message.content) no_fields)))
            (field (codes "priority") (text f.priority) no_fields))))

abbrev user_fields : UserFrame → Fields
user_fields f =
    optional_field
      (optional_field (optional_field (user_members f) (codes "from") f.from) (codes "session_id")
        f.session_id)
      (codes "uuid") f.uuid

user_tokens-run :
    (f : UserFrame) (rest : List Token)
    → run any_number (wants_value []) (
        version_tokens
        ++ ((string (codes "msg_id") ∷ colon ∷ string f.msg_id ∷ [])
            ++ (text_tokens (codes "type") f.type
                ++ (member_tokens (codes "message") (payload_tokens f.message)
                    ++ (text_tokens (codes "priority") f.priority ++ rest)))))
      ≡ run any_number (behind_member (user_members f) []) rest
unfolding run step append_field
user_tokens-run f rest = refl

run-next :
    (fs : Fields) (key s : Bytes) (rest : List Token)
    → run any_number (behind_member fs []) (optional_tokens key s ++ rest)
      ≡ run any_number (behind_member (optional_field fs key s) []) rest
run-next fs key s rest =
    run-append any_number (behind_member fs []) (optional_tokens key s) rest
    ∙ ap (λ q. run any_number q rest) (run-optional any_number fs [] key s)

run-close :
    (fs : Fields) → run any_number (behind_member fs []) (end_object ∷ []) ≡ finished (object fs)
unfolding run step
run-close fs = refl

read_json-marshal_user :
    (f : UserFrame)
    → IsUtf8Frame f
    → f.msg_v ≡ 1
    → read_json any_number (marshal_user f) ≡ some (object (user_fields f))
read_json-marshal_user f u v = read_json-tokens any_number (user-Reads f u v) (
    user_tokens-run f _
    ∙ run-next (user_members f) (codes "from") f.from _
    ∙ run-next _ (codes "session_id") f.session_id _
    ∙ run-next _ (codes "uuid") f.uuid _
    ∙ run-close _)

assign-user_members :
    (f : UserFrame)
    → assign_all set_frame (user_members f) no_frame ≡ some (record (user_received f) { from = [] })
unfolding assign_all set_frame names_field fold_name decode_rune message_field set_message bytes_dec
assign-user_members f = refl

set_frame-from :
    (s : Bytes) (x : IncomingFrame)
    → set_frame (codes "from") (text s) x ≡ some (record x { from = s })
unfolding set_frame names_field fold_name decode_rune bytes_dec
set_frame-from s x = refl

set_frame-session_id :
    (s : Bytes) (x : IncomingFrame) → set_frame (codes "session_id") (text s) x ≡ some x
unfolding set_frame names_field fold_name decode_rune bytes_dec
set_frame-session_id s x = refl

set_frame-uuid : (s : Bytes) (x : IncomingFrame) → set_frame (codes "uuid") (text s) x ≡ some x
unfolding set_frame names_field fold_name decode_rune bytes_dec
set_frame-uuid s x = refl

-- What an inbox decodes from the line of a user frame of version 1 whose strings are UTF-8 is a
-- frame with the same type, reply address and content, and with the other fields empty.
pub unmarshal_frame-marshal_user :
    (f : UserFrame)
    → IsUtf8Frame f
    → f.msg_v ≡ 1
    → unmarshal_frame (marshal_user f) ≡ some (user_received f)
unfolding unmarshal_frame unmarshal_struct
unmarshal_frame-marshal_user f u v =
    ap (unmarshal_value set_frame no_frame) (read_json-marshal_user f u v)
    ∙ assign_all-optional_field set_frame _ (codes "uuid") f.uuid no_frame (user_received f)
        (user_received f)
        (assign_all-optional_field set_frame _ (codes "session_id") f.session_id no_frame
          (user_received f) (user_received f)
          (assign_all-optional_field set_frame (user_members f) (codes "from") f.from no_frame
            (record (user_received f) { from = [] }) (user_received f) (assign-user_members f)
            (set_frame-from f.from _)
            (λ e. ap (λ s. record (user_received f) { from = s }) (sym e)))
          (set_frame-session_id f.session_id _) (λ e. refl))
        (set_frame-uuid f.uuid _) (λ e. refl)

auth-run :
    (f : AuthFrame)
    → run any_number (wants_value []) (auth_tokens f)
      ≡ finished (
          object
            (field (codes "type") (text f.type) (field (codes "token") (text f.token) no_fields)))
unfolding run step append_field
auth-run f = refl

assign-auth_members :
    (f : AuthFrame)
    → assign_all set_frame
        (field (codes "type") (text f.type) (field (codes "token") (text f.token) no_fields))
        no_frame
      ≡ some (auth_received f)
unfolding assign_all set_frame names_field fold_name decode_rune bytes_dec
assign-auth_members f = refl

-- An auth frame's line is read as a frame of its type, with nothing else set.
pub unmarshal_frame-marshal_auth :
    (f : AuthFrame)
    → IsUtf8 f.type
    → IsUtf8 f.token
    → unmarshal_frame (marshal_auth f) ≡ some (auth_received f)
unfolding unmarshal_frame unmarshal_struct
unmarshal_frame-marshal_auth f t u =
    ap (unmarshal_value set_frame no_frame)
      (read_json-tokens any_number (auth-Reads f t u) (auth-run f))
    ∙ assign-auth_members f
