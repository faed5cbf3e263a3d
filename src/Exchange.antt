-- ===== src/Exchange.antt =====
-- client.go and inbox.go together: what an inbox makes of the bytes that a send wrote.
pub mod Published
use claude_code_socket_trans.Message.Unicode.Frames.{IsUtf8Message, IsFilled, frame-IsUtf8Frame}
use claude_code_socket_trans.Utf8.Encoding.{IsUtf8, ascii-IsUtf8}
use claude_code_socket_trans.Wire.RoundTrip.Frames.{
  user_received, auth_received, unmarshal_frame-marshal_user, unmarshal_frame-marshal_auth,
}
use claude_code_socket_trans.Message.Accepted.{frame-Carries}
use claude_code_socket_trans.Client.Delivered.{send_ok, send_to_socket_ok}
use mathlib.Core.Path.{ap₂, subst}
use claude_code_socket_trans.Base.{
  length, ◌<◌, Has, arith, Bool-cases, ◌is◌, ok_injective, refl, sym, ◌∙◌, ap,
}
use claude_code_socket_trans.Wire.{marshal_user, marshal_auth}
use claude_code_socket_trans.Session.{Session}
use claude_code_socket_trans.Client.{
  Net, Client, send, stamp, resolve_token, max_frame_bytes, wrote, line_of,
}
use claude_code_socket_trans.Os.{Os}
use claude_code_socket_trans.Inbox.Framing.{reactions, lines_sent, handle-line_of}
use claude_code_socket_trans.Inbox.Reading.{
  InboxConfig, dispatch, delivered_message, handle, unmarshal_frame,
}
use claude_code_socket_trans.Message.Frame.{UserFrame, AuthFrame, Message, frame, content_of}
use claude_code_socket_trans.Base.{
  Bytes, [], codes, some, bytes_dec, ◌≡◌, ok, is-cases, inl, append-nil, inr, length,
}

abbrev pub auth_of : Bytes → AuthFrame
auth_of token = record { type = codes "auth"; token = token }

auth-IsUtf8 : IsUtf8 (codes "auth")
auth-IsUtf8 = ascii-IsUtf8 (codes "auth") (omega arith)

module _ (cfg : InboxConfig) where
  reactions-lines_sent :
      (token : Bytes) (f : UserFrame)
      → f.type ≡ codes "user"
      → unmarshal_frame (marshal_user f) ≡ some (user_received f)
      → unmarshal_frame (marshal_auth (auth_of token)) ≡ some (auth_received (auth_of token))
      → reactions cfg (lines_sent token (marshal_user f))
        ≡ delivered_message cfg (some f.message.content) f.from
  unfolding reactions lines_sent dispatch bytes_dec
  reactions-lines_sent token f t u a = elim (is-cases token []) [
    | inl (b, _) ↦ rw b (rw u (rw t (append-nil _)))
    | inr (b, _) ↦ rw b (rw a (rw u (rw t (append-nil _))))
  ]

  module _ (os : Os) (net : Net) where
    stamped_from : (s : Session) (m : Message) → (stamp s m).from ≡ m.from
    unfolding stamp
    stamped_from s m = ground arith

    stamped_content : (s : Session) (m : Message) → content_of os (stamp s m) ≡ content_of os m
    unfolding stamp content_of
    stamped_content s m = elim (Bool-cases (m.session_id is [])) [
      | inl b ↦ rw b refl
      | inr b ↦ rw b refl
    ]

    -- What is stamped stays UTF-8.
    stamped-IsUtf8 :
        (s : Session) (m : Message)
        → IsUtf8 s.session_id
        → IsUtf8Message m
        → IsUtf8Message (stamp s m)
    unfolding stamp
    stamped-IsUtf8 s m h u = elim (Bool-cases (m.session_id is [])) [
      | inl b ↦ rw b (record { text = u.text; session_id = h; msg_id = u.msg_id; uuid = u.uuid })
      | inr b ↦ rw b u
    ]

    -- The bytes of a send are read back.
    frame-received :
        (m : Message) (token : Bytes) (f : UserFrame)
        → frame os m ≡ ok f
        → IsUtf8Message m
        → IsFilled os
        → IsUtf8 token
        → length (marshal_user f) < max_frame_bytes
        → length (marshal_auth (auth_of token)) < max_frame_bytes
        → handle cfg (line_of token (marshal_user f))
          ≡ delivered_message cfg (some (content_of os m)) m.from
    frame-received m token f k u filled ut l fits =
        let x = frame-Carries os m k in
        handle-line_of cfg token f l fits
        ∙ reactions-lines_sent token f x.is_user.0
            (unmarshal_frame-marshal_user f (frame-IsUtf8Frame os m k u filled) x.version)
            (unmarshal_frame-marshal_auth (auth_of token) auth-IsUtf8 ut)
        ∙ ap₂ (λ b from. delivered_message cfg (some b) from) x.same_content x.ids.0

    -- A message that Send reports as sent was written, with its token, in one write of bytes from
    -- which an inbox makes exactly one call of OnMessage, where it is set, with the message's
    -- enveloped content and reply address, and no other callback; if the message's text, session
    -- ID, ID and UUID and the session's ID are UTF-8, rand.Read fills sixteen bytes, and the token
    -- is UTF-8 and its line below the limit.
    pub send-received :
        (c : Client) (s : Session) (m : Message) (id token : Bytes)
        → (send os net c s m).result ≡ ok id
        → IsUtf8Message m
        → IsUtf8 s.session_id
        → IsFilled os
        → resolve_token os c s.socket_path ≡ ok token
        → IsUtf8 token
        → length (marshal_auth (auth_of token)) < max_frame_bytes
        → (bytes : Bytes) × Has (wrote bytes) (send os net c s m).events
          × (handle cfg bytes ≡ delivered_message cfg (some (content_of os m)) m.from)
    unfolding send
    send-received c s m id token h u us filled r ut fits = elim (is-cases s.socket_path []) [
      | inl (b, _) ↦ absurd (ground arith)
      | inr (b, _) ↦
          let (f, token', k, i, l, r', es) =
            send_to_socket_ok os net c s.socket_path (stamp s m) id (rw b at h) in
          let same_token : token' ≡ token = ok_injective (sym r' ∙ r) in
          (
            line_of token (marshal_user f),
            subst (Has (wrote (line_of token (marshal_user f))))
                (sym ((send_ok os net c s m id h).1 ∙ es))
                (inr (inl (ap (λ t. wrote (line_of t (marshal_user f))) (sym same_token)))),
            frame-received (stamp s m) token f k (stamped-IsUtf8 s m us u) filled ut l fits
                ∙ ap₂ (λ b from. delivered_message cfg (some b) from) (stamped_content s m)
                    (stamped_from s m),
          )
    ]
