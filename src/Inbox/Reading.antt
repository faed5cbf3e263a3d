-- ===== src/Inbox/Reading.antt =====
-- inbox.go: `handle`, on the bytes that a connection gives before it ends or its deadline passes.
use claude_code_socket_trans.Json.Structs.{names_field, text_field, assign_all, unmarshal_struct}
use claude_code_socket_trans.Json.{Json, null, object}
use mathlib.Core.Option
use claude_code_socket_trans.Base.{
  Bool, List, Bytes, ◌∷◌, Option, if◌then◌else◌, ◌==◌, ◌is◌, [], split, ◌||◌, some, codes, ◌++◌,
  leb, ◌&&◌, none, length,
}
use claude_code_socket_trans.Client.{max_frame_bytes}

pub record Receipt : Type 0 where
  pub status : Bytes
  pub orig_msg_id : Bytes
  pub from : Bytes
  pub reason : Bytes

-- The frame that is decoded from a line, its message by its content.
pub record IncomingFrame : Type 0 where
  pub type : Bytes
  pub action : Bytes
  pub status : Bytes
  pub orig_msg_id : Bytes
  pub from : Bytes
  pub reason : Bytes
  pub message : Option Bytes

abbrev pub no_frame : IncomingFrame
no_frame = record {
  type = [];
  action = [];
  status = [];
  orig_msg_id = [];
  from = [];
  reason = [];
  message = none;
}

-- The member `k` of the message, of which the content is kept.
unfoldable pub set_message : Bytes → Json → Bytes → Option Bytes
set_message k v content =
    if names_field k (codes "role")
    then Option.map (λ s. content) (text_field v [])
    else if names_field k (codes "content")
    then text_field v content
    else some content

abbrev pub content_or_empty : Option Bytes → Bytes
content_or_empty none = []
content_or_empty (some content) = content

-- The pointer to the message: `null` clears it, and an object is read into what it points to.
unfoldable pub message_field : Json → Option Bytes → Option (Option Bytes)
message_field null old = some none
message_field (object fs) old = Option.map some (assign_all set_message fs (content_or_empty old))
message_field _ old = none

-- The member `k` of a decoded frame.
unfoldable pub set_frame : Bytes → Json → IncomingFrame → Option IncomingFrame
set_frame k v f =
    if names_field k (codes "type")
    then Option.map (λ s. record f { type = s }) (text_field v f.type)
    else if names_field k (codes "action")
    then Option.map (λ s. record f { action = s }) (text_field v f.action)
    else if names_field k (codes "status")
    then Option.map (λ s. record f { status = s }) (text_field v f.status)
    else if names_field k (codes "orig_msg_id")
    then Option.map (λ s. record f { orig_msg_id = s }) (text_field v f.orig_msg_id)
    else if names_field k (codes "from")
    then Option.map (λ s. record f { from = s }) (text_field v f.from)
    else if names_field k (codes "reason")
    then Option.map (λ s. record f { reason = s }) (text_field v f.reason)
    else if names_field k (codes "message")
    then Option.map (λ m. record f { message = m }) (message_field v f.message)
    else some f

unfoldable pub unmarshal_frame : Bytes → Option IncomingFrame
unmarshal_frame line = unmarshal_struct set_frame no_frame line

-- Whether the callbacks are set.
pub record InboxConfig : Type 0 where
  pub has_on_receipt : Bool
  pub has_on_message : Bool

-- A call of a callback.
pub data Callback : Type 0 where
  on_receipt : Receipt → Callback
  on_message : Bytes → Bytes → Callback

-- `bufio.ScanLines` drops one carriage return at the end of a line.
unfoldable pub drop_cr : Bytes → Bytes
drop_cr [] = []
drop_cr (c ∷ []) = if c == b'\r' then [] else c ∷ []
drop_cr (c ∷ d ∷ s) = c ∷ drop_cr (d ∷ s)

-- The tokens of the scanner, from the texts between line breaks. It stops at a line that does not
-- fit its buffer together with its break, and gives a last line without a break if it has a byte.
unfoldable pub scanned : List Bytes → List Bytes
scanned [] = []
scanned (p ∷ []) = if p is [] || leb max_frame_bytes (length p) then [] else drop_cr p ∷ []
scanned (p ∷ q ∷ ps) =
    let rest = scanned (q ∷ ps) in if leb max_frame_bytes (length p) then [] else drop_cr p ∷ rest

abbrev pub delivered_message : InboxConfig → Option Bytes → Bytes → List Callback
delivered_message cfg none from = []
delivered_message cfg (some content) from =
    if cfg.has_on_message then on_message content from ∷ [] else []

-- The switch over a decoded frame.
unfoldable pub dispatch : InboxConfig → IncomingFrame → List Callback
dispatch cfg f =
    if f.type is codes "control" && f.action is codes "peer_message_status"
    then if cfg.has_on_receipt
      then on_receipt (record {
        status = f.status;
        orig_msg_id = f.orig_msg_id;
        from = f.from;
        reason = f.reason;
      })
        ∷ []
      else []
    else if f.type is codes "user"
    then delivered_message cfg f.message f.from
    else []

abbrev pub reaction : InboxConfig → Option IncomingFrame → List Callback
reaction cfg none = []
reaction cfg (some f) = dispatch cfg f

module _ (cfg : InboxConfig) where
  -- The loop over the lines.
  unfoldable pub handle_lines : List Bytes → List Callback
  handle_lines [] = []
  handle_lines (line ∷ lines) =
      let rest = handle_lines lines in
      if line is [] then rest else reaction cfg (unmarshal_frame line) ++ rest

  unfoldable pub handle : Bytes → List Callback
  handle stream = handle_lines (scanned (split b'\n' stream))
