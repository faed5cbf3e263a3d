-- ===== src/Message/Accepted.antt =====
-- Which messages `frame` accepts, and what it makes of them.
use claude_code_socket_trans.Message.Uuid.{new_uuid}
use claude_code_socket_trans.Addr.{valid_address}
use claude_code_socket_trans.Base.{
  Bytes, ◌≡◌, [], ok, ◌⊎◌, arith, true, ◌≢◌, codes, some, err, empty_text, unknown_priority, false,
  malformed_from, Error, ok_of_no_err, ◌↔◌,
}
use claude_code_socket_trans.Message.Frame.{
  frame, Message, UserFrame, priority_now, priority_next, priority_later, content_of,
}
use claude_code_socket_trans.Os.{Os}

abbrev pub IsPriority : Bytes → Type 0
IsPriority p = (p ≡ priority_now) ⊎ (p ≡ priority_next) ⊎ (p ≡ priority_later)

-- What a message must meet: text, a known priority or none, and a well-formed reply address or none.
pub record IsSendable (m : Message) : Type 0 where
  pub has_text : m.text ≢ []
  pub known_priority : (m.priority ≡ []) ⊎ IsPriority m.priority
  pub reply_address : (m.from ≡ []) ⊎ (valid_address m.from ≡ true)

-- How the frame follows the message.
pub record Carries (os : Os) (m : Message) (f : UserFrame) : Type 0 where
  pub version : f.msg_v ≡ 1
  pub is_user : (f.type ≡ codes "user") × (f.message.role ≡ codes "user")
  pub same_content : f.message.content ≡ content_of os m
  pub ids : (f.from ≡ m.from) × (f.session_id ≡ m.session_id) × (f.uuid ≡ m.uuid)
  pub default_priority : m.priority ≡ [] → f.priority ≡ priority_next
  pub given_priority : m.priority ≢ [] → f.priority ≡ m.priority
  pub given_id : m.msg_id ≢ [] → f.msg_id ≡ m.msg_id
  pub generated_id : m.msg_id ≡ [] → new_uuid os ≡ ok f.msg_id

-- Only a message with a text, a known priority or none, and a well-formed reply address or none
-- gets a frame.
pub frame-IsSendable : (os : Os) (m : Message) {f : UserFrame} → frame os m ≡ ok f → IsSendable m
unfolding frame
frame-IsSendable os m h = ground arith

-- A frame holds the protocol version, the type and role "user", the enveloped content, the
-- message's address, session and UUID, the default priority "next" or the given one, and the given
-- or a generated ID.
pub frame-Carries : (os : Os) (m : Message) {f : UserFrame} → frame os m ≡ ok f → Carries os m f
unfolding frame
frame-Carries os m {f} h = ground arith

frame-ne-err :
    (os : Os) (m : Message) (b : Bytes)
    → IsSendable m
    → os.random ≡ some b
    → (e : Error) → frame os m ≢ err e
unfolding frame
frame-ne-err os m b s r e h = ground arith

-- A message with a text, a known priority or none, and a well-formed reply address or none gets a
-- frame, if randomness is at hand.
pub frame_total :
    (os : Os) (m : Message) (b : Bytes)
    → IsSendable m
    → os.random ≡ some b
    → (f : UserFrame) × (frame os m ≡ ok f)
frame_total os m b s r = ok_of_no_err (frame os m) (frame-ne-err os m b s r)

-- The errors, in the order in which they are tested.
pub frame_errors :
    (os : Os) (m : Message)
    → (m.text ≡ [] → frame os m ≡ err empty_text)
      × (m.text ≢ []
          → m.priority ≢ []
          → ¬ (IsPriority m.priority)
          → frame os m ≡ err unknown_priority)
      × (m.text ≢ []
          → (m.priority ≡ []) ⊎ IsPriority m.priority
          → m.from ≢ []
          → valid_address m.from ≡ false
          → frame os m ≡ err malformed_from)
unfolding frame
frame_errors os m = (λ h. ground arith, λ h p q. ground arith, λ h p q r. ground arith)

-- Where randomness is at hand, a message gets a frame exactly if it has a text, a known priority or
-- none, and a well-formed reply address or none.
pub frame_iff :
    (os : Os) (m : Message) (b : Bytes)
    → os.random ≡ some b
    → ((f : UserFrame) × (frame os m ≡ ok f)) ↔ IsSendable m
frame_iff os m b r = (λ (f, h). frame-IsSendable os m h, λ h. frame_total os m b h r)
