-- ===== src/Wire/Objects.antt =====
-- The frames' lines are JSON texts by the grammar of RFC 8259, with the members that the structs of
use mathlib.Core.Path.{subst}
use claude_code_socket_trans.Wire.Strings.{decoded_string-json_string}
use claude_code_socket_trans.Wire.Decoding.{decoded_string, string_rest, piece}
use claude_code_socket_trans.Utf8.Encoding.{IsUtf8}
use claude_code_socket_trans.Decimal.{itoa}
use claude_code_socket_trans.Wire.{
  optional, marshal_user, itoa, marshal_payload, json_string, member,
}
use claude_code_socket_trans.Message.Frame.{UserFrame}
use claude_code_socket_trans.Base.{
  ℕ, Bytes, codes, if◌then◌else◌, ◌∷◌, ◌≡◌, ◌is◌, ◌++◌, some, [], is-cases, bytes_dec, inl,
  append_assoc, inr, ◌∙◌, sym, refl,
}

-- message.go name.

-- A value of JSON, as far as the frames have any, and the members of an object in their order.
mutual
  pub data Json : Type 0 where
    a_number : ℕ → Json
    a_text : Bytes → Json
    an_object : Members → Json

  pub data Members : Type 0 where
    no_members : Members
    a_member : Bytes → Json → Members → Members

-- A text and the value that it denotes; and what stands behind a member of an object, up to the brace
-- that closes it, with the members there.
mutual
  pub data Denotes : Bytes → Json → Type 0 where
    number : (n : ℕ) → Denotes (itoa n) (a_number n)
    text : {t s : Bytes} → decoded_string t ≡ some s → Denotes t (a_text s)
    object :
        (k v t : Bytes) {key : Bytes} {value : Json} {ms : Members}
        → decoded_string k ≡ some key
        → Denotes v value
        → DenotesTail t ms
        → Denotes (b'{' ∷ (k ++ (b':' ∷ (v ++ t)))) (an_object (a_member key value ms))

  pub data DenotesTail : Bytes → Members → Type 0 where
    close : DenotesTail (b'}' ∷ []) no_members
    more :
        (k v t : Bytes) {key : Bytes} {value : Json} {ms : Members}
        → decoded_string k ≡ some key
        → Denotes v value
        → DenotesTail t ms
        → DenotesTail (b',' ∷ (k ++ (b':' ∷ (v ++ t)))) (a_member key value ms)

-- A string member that is left out where the string is empty.
abbrev pub optional_member : Bytes → Bytes → Members → Members
optional_member key s ms = if s is [] then ms else a_member key (a_text s) ms

abbrev pub user_json : UserFrame → Json
user_json f = an_object (
    a_member (codes "msgV") (a_number f.msg_v) (
      a_member (codes "msg_id") (a_text f.msg_id) (
        a_member (codes "type") (a_text f.type) (
          a_member (codes "message")
            (an_object (
              a_member (codes "role") (a_text f.message.role)
                (a_member (codes "content") (a_text f.message.content) no_members)))
            (a_member (codes "priority") (a_text f.priority) (
              optional_member (codes "from") f.from (
                optional_member (codes "session_id") f.session_id
                  (optional_member (codes "uuid") f.uuid no_members))))))))

-- The strings of a frame are UTF-8.
pub record IsUtf8Frame (f : UserFrame) : Type 0 where
  pub msg_id : IsUtf8 f.msg_id
  pub type : IsUtf8 f.type
  pub role : IsUtf8 f.message.role
  pub content : IsUtf8 f.message.content
  pub priority : IsUtf8 f.priority
  pub from : IsUtf8 f.from
  pub session_id : IsUtf8 f.session_id
  pub uuid : IsUtf8 f.uuid

-- The name of a member between quotes.
abbrev quoted : Bytes → Bytes
quoted key = b'"' ∷ (key ++ (b'"' ∷ []))

member-DenotesTail :
    (key v t : Bytes) (value : Json) (ms : Members)
    → decoded_string (quoted key) ≡ some key
    → Denotes v value
    → DenotesTail t ms
    → DenotesTail (member key v ++ t) (a_member key value ms)
member-DenotesTail key v t value ms k d r =
    subst (λ w. DenotesTail (b',' ∷ b'"' ∷ w) (a_member key value ms))
      (append_assoc key (b'"' ∷ []) (b':' ∷ (v ++ t)) ∙ sym (append_assoc key (b'"' ∷ b':' ∷ v) t))
      (more (quoted key) v t k d r)

json_string-Denotes : (s : Bytes) → IsUtf8 s → Denotes (json_string s) (a_text s)
json_string-Denotes s u = text (decoded_string-json_string s u)

optional-DenotesTail :
    (key s t : Bytes) (ms : Members)
    → decoded_string (quoted key) ≡ some key
    → IsUtf8 s
    → DenotesTail t ms
    → DenotesTail (optional key s ++ t) (optional_member key s ms)
unfolding optional
optional-DenotesTail key s t ms k u r = elim (is-cases s []) [
  | inl (b, _) ↦ rw b r
  | inr (f, _) ↦
      rw f (member-DenotesTail key (json_string s) t (a_text s) ms k (json_string-Denotes s u) r)
]

string_member-DenotesTail :
    (key s t : Bytes) (ms : Members)
    → decoded_string (quoted key) ≡ some key
    → IsUtf8 s
    → DenotesTail t ms
    → DenotesTail (member key (json_string s) ++ t) (a_member key (a_text s) ms)
string_member-DenotesTail key s t ms k u r =
    member-DenotesTail key (json_string s) t (a_text s) ms k (json_string-Denotes s u) r

-- If its strings are UTF-8, a user frame is encoded as a JSON text, by the grammar of RFC 8259,
-- that denotes the object with the members named by the struct's tags, in their order, each with
-- the frame's value, where from, session_id and uuid are left out if empty.
pub marshal_user-Denotes : (f : UserFrame) → IsUtf8Frame f → Denotes (marshal_user f) (user_json f)
unfolding marshal_user marshal_payload decoded_string string_rest piece bytes_dec
marshal_user-Denotes f u = object (quoted (codes "msgV")) _ _ refl (number f.msg_v) (
    string_member-DenotesTail (codes "msg_id") f.msg_id _ _ refl u.msg_id (
      string_member-DenotesTail (codes "type") f.type _ _ refl u.type (
        member-DenotesTail (codes "message") _ _ _ _ refl
          (object (quoted (codes "role")) _ _ refl (json_string-Denotes f.message.role u.role) (
            string_member-DenotesTail (codes "content") f.message.content _ _ refl u.content close))
          (string_member-DenotesTail (codes "priority") f.priority _ _ refl u.priority (
            optional-DenotesTail (codes "from") f.from _ _ refl u.from (
              optional-DenotesTail (codes "session_id") f.session_id _ _ refl u.session_id
                (optional-DenotesTail (codes "uuid") f.uuid _ _ refl u.uuid close)))))))
