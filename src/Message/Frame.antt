-- ===== src/Message/Frame.antt =====
-- message.go: `Message`, the wire frames, and `Message.frame`.
use claude_code_socket_trans.Addr.{valid_address}
use claude_code_socket_trans.Base.{
  ℕ, Bytes, bytes_dec, codes, Result, if◌then◌else◌, ◌is◌, [], ok, ◌||◌, err, unknown_priority,
  ◌>>◌, guard, not, empty_text, ◌>>=◌, malformed_from,
}
use claude_code_socket_trans.Message.Envelope.{wrap_envelope}
use claude_code_socket_trans.Message.Uuid.{new_uuid}
use claude_code_socket_trans.Os.{Os}

abbrev pub protocol_version : ℕ
protocol_version = 1

-- The constants of type `Priority`.
abbrev pub priority_next : Bytes
priority_next = codes "next"

abbrev pub priority_later : Bytes
priority_later = codes "later"

abbrev pub priority_now : Bytes
priority_now = codes "now"

pub record Message : Type 0 where
  pub text : Bytes
  pub priority : Bytes
  pub session_id : Bytes
  pub from : Bytes
  pub from_name : Bytes
  pub msg_id : Bytes
  pub uuid : Bytes

pub record FramePayload : Type 0 where
  pub role : Bytes
  pub content : Bytes

pub record UserFrame : Type 0 where
  pub msg_v : ℕ
  pub msg_id : Bytes
  pub type : Bytes
  pub message : FramePayload
  pub priority : Bytes
  pub from : Bytes
  pub session_id : Bytes
  pub uuid : Bytes

pub record ControlFrame : Type 0 where
  pub msg_v : ℕ
  pub msg_id : Bytes
  pub type : Bytes
  pub action : Bytes
  pub name : Bytes
  pub session_id : Bytes

pub record AuthFrame : Type 0 where
  pub type : Bytes
  pub token : Bytes

-- The switch over `m.Priority`.
unfoldable pub resolve_priority : Bytes → Result Bytes
unfolding bytes_dec
resolve_priority p =
    if p is []
    then ok priority_next
    else if p is priority_now || p is priority_next || p is priority_later
    then ok p
    else err unknown_priority

unfoldable pub resolve_msg_id : Os → Bytes → Result Bytes
unfolding new_uuid bytes_dec
resolve_msg_id os id = if id is [] then new_uuid os else ok id

unfoldable pub content_of : Os → Message → Bytes
unfolding bytes_dec
content_of os m =
    if m.from_name is [] then m.text else wrap_envelope os.is_print_wide m.from m.from_name m.text

unfoldable pub frame : Os → Message → Result UserFrame
unfolding resolve_priority resolve_msg_id content_of valid_address bytes_dec
frame os m = do
  guard (not (m.text is [])) empty_text
  priority ← resolve_priority m.priority
  guard (m.from is [] || valid_address m.from) malformed_from
  id ← resolve_msg_id os m.msg_id
  ok (record {
    msg_v = protocol_version;
    msg_id = id;
    type = codes "user";
    message = record { role = codes "user"; content = content_of os m };
    priority = priority;
    from = m.from;
    session_id = m.session_id;
    uuid = m.uuid;
  })
