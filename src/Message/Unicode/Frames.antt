-- ===== src/Message/Unicode/Frames.antt =====
-- When the strings of a frame are UTF-8.
use claude_code_socket_trans.Message.Unicode.{Ascii, wrap_envelope-IsUtf8}
use claude_code_socket_trans.Wire.Objects.{IsUtf8Frame}
use claude_code_socket_trans.Addr.Grammar.{valid_address_iff}
use claude_code_socket_trans.Message.Uuid.{new_uuid, format_uuid}
use claude_code_socket_trans.Message.Accepted.{IsPriority, frame-Carries, frame-IsSendable}
use claude_code_socket_trans.Os.{Os}
use claude_code_socket_trans.Message.Frame.{
  Message, content_of, UserFrame, frame, priority_next, priority_now, priority_later,
}
use claude_code_socket_trans.Addr.{valid_address, scheme}
use claude_code_socket_trans.Message.Verbatim.{IsVisible, IsEncoded-IsVisible}
use claude_code_socket_trans.Message.Version.{is_hex, Follows, uuid_template, format_uuid-Follows}
use mathlib.Core.Path.{subst}
use claude_code_socket_trans.Utf8.Scalar.{IsUtf8-append}
use claude_code_socket_trans.Utf8.Encoding.{IsUtf8, empty, ascii-IsUtf8}
use claude_code_socket_trans.Base.{
  Bytes, All, arith, ◌≡◌, ◌∷◌, [], codes, is-cases, inl, inr, true, length, sym, some, ok, AllBytes,
  ok_injective,
}

Follows-Ascii : (ts s : Bytes) → Ascii ts → Follows ts s → Ascii s
unfolding is_hex
Follows-Ascii [] [] h f = tt
Follows-Ascii [] (c ∷ s) h f = absurd f
Follows-Ascii (t ∷ ts) [] h f = absurd f
Follows-Ascii (t ∷ ts) (c ∷ s) (h, hs) (f, fs) = (ground arith, Follows-Ascii ts s hs fs)

visible-Ascii : (s : Bytes) → All IsVisible s → Ascii s
visible-Ascii [] _ = tt
visible-Ascii (c ∷ s) ((_, h, _), hs) = (omega arith, visible-Ascii s hs)

valid_address-IsUtf8 : (addr : Bytes) → valid_address addr ≡ true → IsUtf8 addr
valid_address-IsUtf8 addr v =
    let (s, e, d) = (valid_address_iff addr).0 v in
    subst IsUtf8 (sym e) (
      IsUtf8-append (ascii-IsUtf8 scheme (omega arith))
        (ascii-IsUtf8 s (visible-Ascii s (IsEncoded-IsVisible d))))

-- The strings of a message that its frame takes over.
pub record IsUtf8Message (m : Message) : Type 0 where
  pub text : IsUtf8 m.text
  pub session_id : IsUtf8 m.session_id
  pub msg_id : IsUtf8 m.msg_id
  pub uuid : IsUtf8 m.uuid

-- `rand.Read` fills the array of `newUUID`.
pub record IsFilled (os : Os) : Type 0 where
  pub random_bytes : Bytes
  pub given : os.random ≡ some random_bytes
  pub sixteen : length random_bytes ≡ 16
  pub bytes : AllBytes random_bytes

priority-IsUtf8 : (p : Bytes) → IsPriority p → IsUtf8 p
priority-IsUtf8 p (inl e) = subst IsUtf8 (sym e) (ascii-IsUtf8 priority_now (omega arith))
priority-IsUtf8 p (inr (inl e)) = subst IsUtf8 (sym e) (ascii-IsUtf8 priority_next (omega arith))
priority-IsUtf8 p (inr (inr e)) = subst IsUtf8 (sym e) (ascii-IsUtf8 priority_later (omega arith))

content_of-IsUtf8 : (os : Os) (m : Message) → IsUtf8 m.text → IsUtf8 (content_of os m)
unfolding content_of
content_of-IsUtf8 os m u = elim (is-cases m.from_name []) [
  | inl (t, _) ↦ rw t u
  | inr (f, _) ↦ rw f (wrap_envelope-IsUtf8 os.is_print_wide m.from m.from_name m.text u)
]

new_uuid-IsUtf8 : (os : Os) (id : Bytes) → IsFilled os → new_uuid os ≡ ok id → IsUtf8 id
unfolding new_uuid
new_uuid-IsUtf8 os id r e =
    let same : format_uuid r.random_bytes ≡ id = ok_injective (rw r.given at e) in
    subst IsUtf8 same (
      ascii-IsUtf8 (format_uuid r.random_bytes) (
        Follows-Ascii uuid_template (format_uuid r.random_bytes) (omega arith)
          (format_uuid-Follows r.random_bytes r.sixteen r.bytes)))

-- All strings of a frame are UTF-8 if the message's text, session ID, ID and UUID are and rand.Read
-- fills sixteen bytes, whatever bytes the sender's name holds.
pub frame-IsUtf8Frame :
    (os : Os) (m : Message) {f : UserFrame}
    → frame os m ≡ ok f
    → IsUtf8Message m
    → IsFilled os
    → IsUtf8Frame f
frame-IsUtf8Frame os m {f} h u r =
    let x = frame-Carries os m h in
    let a = frame-IsSendable os m h in
    record {
      msg_id = elim (is-cases m.msg_id []) [
        | inl (_, e) ↦ new_uuid-IsUtf8 os f.msg_id r (x.generated_id e)
        | inr (_, n) ↦ subst IsUtf8 (sym (x.given_id n)) u.msg_id
      ];
      type = subst IsUtf8 (sym x.is_user.0) (ascii-IsUtf8 (codes "user") (omega arith));
      role = subst IsUtf8 (sym x.is_user.1) (ascii-IsUtf8 (codes "user") (omega arith));
      content = subst IsUtf8 (sym x.same_content) (content_of-IsUtf8 os m u.text);
      priority = elim (is-cases m.priority []) [
        | inl (_, e) ↦
            subst IsUtf8 (sym (x.default_priority e)) (ascii-IsUtf8 priority_next (omega arith))
        | inr (_, n) ↦
            subst IsUtf8 (sym (x.given_priority n)) (elim a.known_priority [
              | inl e ↦ absurd (n e)
              | inr p ↦ priority-IsUtf8 m.priority p
            ])
      ];
      from = subst IsUtf8 (sym x.ids.0) (elim a.reply_address [
        | inl e ↦ subst IsUtf8 (sym e) empty
        | inr v ↦ valid_address-IsUtf8 m.from v
      ]);
      session_id = subst IsUtf8 (sym x.ids.1) u.session_id;
      uuid = subst IsUtf8 (sym x.ids.2) u.uuid;
    }
