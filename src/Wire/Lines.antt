-- ===== src/Wire/Lines.antt =====
-- A frame is one line.
use claude_code_socket_trans.Message.Frame.{FramePayload, UserFrame, ControlFrame, AuthFrame}
use claude_code_socket_trans.Decimal.{is_digit, itoa}
use claude_code_socket_trans.Utf8.{Decoded, encode_rune, decode_rune}
use claude_code_socket_trans.Message.Envelope.{hex_digits}
use claude_code_socket_trans.Base.{
  ℕ, All, ◌≤◌, Bytes, arith, suc, All-append, ◌∷◌, ◌≡◌, zero, ltb, true, ◌⊎◌, false, if◌then◌else◌,
  inl, inr, Bool-cases, ◌-◌, [], ◌++◌, codes, Bool, ◌is◌,
}
use claude_code_socket_trans.Wire.{
  json_string, json_from, json_ascii, json_wide, hex_digits, Decoded, member, optional,
  marshal_payload, marshal_user, marshal_control, marshal_auth, FramePayload, UserFrame,
  ControlFrame, AuthFrame,
}
use claude_code_socket_trans.Utf8.Ascii.{encode_rune_wide, decode_rune_wide}
use claude_code_socket_trans.Message.Clean.{All-mono}
use claude_code_socket_trans.Decimal.RoundTrip.{itoa-All}

-- A byte that is no control character, a line break among them.
abbrev pub IsPlain : ℕ → Type 0
IsPlain c = 0x20 ≤ c

abbrev pub OneLine : Bytes → Type 0
OneLine = All IsPlain

hex_digits-OneLine : (k n : ℕ) → OneLine (hex_digits k n)
unfolding hex_digits
hex_digits-OneLine zero n = tt
hex_digits-OneLine (suc k) n = (ground arith, hex_digits-OneLine k n)

json_ascii-OneLine : (c : ℕ) → OneLine (json_ascii c)
unfolding json_ascii
json_ascii-OneLine c = ground (arith, hex_digits-OneLine 4 c)

encode_rune-OneLine : (r : ℕ) → 0x80 ≤ r → OneLine (encode_rune r)
encode_rune-OneLine r h =
    All-mono (λ c. 0x80 ≤ c) IsPlain (λ c k. omega arith) (encode_rune r) (encode_rune_wide r h)

json_wide-OneLine : (d : Decoded) → 0x80 ≤ d.rune → OneLine (json_wide d)
unfolding json_wide
json_wide-OneLine d h = ground (arith, hex_digits-OneLine 4 d.rune, encode_rune-OneLine d.rune h)

json_from-OneLine : (skip : ℕ) (s : Bytes) → OneLine (json_from skip s)
unfolding json_from
json_from-OneLine zero [] = tt
json_from-OneLine (suc skip) [] = tt
json_from-OneLine (suc skip) (c ∷ s) = json_from-OneLine skip s
json_from-OneLine zero (c ∷ s) =
    All-append IsPlain _ _ (one (Bool-cases (ltb c 0x80)))
      (json_from-OneLine ((decode_rune c s).width - 1) s)
  where
    one :
        (ltb c 0x80 ≡ true) ⊎ (ltb c 0x80 ≡ false)
        → OneLine (if ltb c 0x80 then json_ascii c else json_wide (decode_rune c s))
    one (inl e) = rw e (json_ascii-OneLine c)
    one (inr e) = rw e (json_wide-OneLine (decode_rune c s) (decode_rune_wide c s (ground arith)))

json_string-OneLine : (s : Bytes) → OneLine (json_string s)
unfolding json_string
json_string-OneLine s =
    (omega arith, All-append IsPlain (json_from 0 s) _ (json_from-OneLine 0 s) (omega arith))

itoa-OneLine : (n : ℕ) → OneLine (itoa n)
unfolding is_digit
itoa-OneLine n =
    All-mono (λ c. is_digit c ≡ true) IsPlain (λ c h. ground arith) (itoa n) (itoa-All n)

both : (a b : Bytes) → OneLine a → OneLine b → OneLine (a ++ b)
both a b p q = All-append IsPlain a b p q

member-OneLine : (key value : Bytes) → OneLine key → OneLine value → OneLine (member key value)
member-OneLine key value p q =
    both (codes ",\"") (key ++ (codes "\":" ++ value)) (omega arith)
      (both key (codes "\":" ++ value) p (both (codes "\":") value (omega arith) q))

string_member : (key s : Bytes) → OneLine key → OneLine (member key (json_string s))
string_member key s p = member-OneLine key (json_string s) p (json_string-OneLine s)

optional-OneLine : (key s : Bytes) → OneLine key → OneLine (optional key s)
unfolding optional
optional-OneLine key s p = choose (s is [])
  where
    choose : (b : Bool) → OneLine (if b then [] else member key (json_string s))
    choose true = tt
    choose false = string_member key s p

marshal_payload-OneLine : (p : FramePayload) → OneLine (marshal_payload p)
unfolding marshal_payload
marshal_payload-OneLine p = both (codes "{\"role\":") _ (omega arith) (
    both (json_string p.role) _ (json_string-OneLine p.role) (
      both (member (codes "content") (json_string p.content)) _
        (string_member (codes "content") p.content (omega arith)) (omega arith)))

-- A user frame is encoded with no control character, so without a line break, whatever its strings
-- hold.
pub marshal_user-OneLine : (f : UserFrame) → OneLine (marshal_user f)
unfolding marshal_user
marshal_user-OneLine f = both (codes "{\"msgV\":") _ (omega arith) (
    both (itoa f.msg_v) _ (itoa-OneLine f.msg_v) (
      both (member (codes "msg_id") (json_string f.msg_id)) _
        (string_member (codes "msg_id") f.msg_id (omega arith))
        (both (member (codes "type") (json_string f.type)) _
          (string_member (codes "type") f.type (omega arith))
          (both (member (codes "message") (marshal_payload f.message)) _
            (member-OneLine (codes "message") (marshal_payload f.message) (omega arith)
              (marshal_payload-OneLine f.message))
            (both (member (codes "priority") (json_string f.priority)) _
              (string_member (codes "priority") f.priority (omega arith))
              (both (optional (codes "from") f.from) _
                (optional-OneLine (codes "from") f.from (omega arith))
                (both (optional (codes "session_id") f.session_id) _
                  (optional-OneLine (codes "session_id") f.session_id (omega arith))
                  (both (optional (codes "uuid") f.uuid) _
                    (optional-OneLine (codes "uuid") f.uuid (omega arith)) (omega arith)))))))))

-- A control frame is encoded with no control character, so without a line break, whatever its
-- strings hold.
pub marshal_control-OneLine : (f : ControlFrame) → OneLine (marshal_control f)
unfolding marshal_control
marshal_control-OneLine f = both (codes "{\"msgV\":") _ (omega arith) (
    both (itoa f.msg_v) _ (itoa-OneLine f.msg_v) (
      both (member (codes "msg_id") (json_string f.msg_id)) _
        (string_member (codes "msg_id") f.msg_id (omega arith))
        (both (member (codes "type") (json_string f.type)) _
          (string_member (codes "type") f.type (omega arith))
          (both (member (codes "action") (json_string f.action)) _
            (string_member (codes "action") f.action (omega arith))
            (both (optional (codes "name") f.name) _
              (optional-OneLine (codes "name") f.name (omega arith))
              (both (optional (codes "session_id") f.session_id) _
                (optional-OneLine (codes "session_id") f.session_id (omega arith))
                (omega arith)))))))

-- An auth frame is encoded with no control character, so without a line break, whatever its token
-- holds.
pub marshal_auth-OneLine : (f : AuthFrame) → OneLine (marshal_auth f)
unfolding marshal_auth
marshal_auth-OneLine f = both (codes "{\"type\":") _ (omega arith) (
    both (json_string f.type) _ (json_string-OneLine f.type) (
      both (member (codes "token") (json_string f.token)) _
        (string_member (codes "token") f.token (omega arith)) (omega arith)))
