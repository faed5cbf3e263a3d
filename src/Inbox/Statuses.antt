-- ===== src/Inbox/Statuses.antt =====
-- inbox.go: what `handle` makes of a line with an object of strings, such as a status frame.
use claude_code_socket_trans.Json.{text}
use claude_code_socket_trans.Utf8.{decode_rune}
use claude_code_socket_trans.Json.Tokens.{tokens}
use claude_code_socket_trans.Base.{
  Bytes, Bool, if◌then◌else◌, ◌∷◌, All, bytes_dec, ◌≡◌, codes, some, none, true, false, ap, [],
  refl, ◌∙◌, is-cases, ◌++◌, inl, inr, append-nil,
}
use claude_code_socket_trans.Json.Members.{
  fields_of, Texts, last_named, named, object_tokens, unmarshal_struct-texts, texts,
}
use claude_code_socket_trans.Inbox.Framing.{join_lines, reactions, IsFrameLine, handle-join_lines}
use claude_code_socket_trans.Json.Structs.{assign_all, names_field, fold_name, assign_more}
use claude_code_socket_trans.Inbox.Reading.{
  set_frame, unmarshal_frame, InboxConfig, dispatch, IncomingFrame, Receipt, delivered_message,
  no_frame, on_receipt, handle, reaction,
}

-- No member stands for the field of the message.
abbrev pub NoMessage : Texts → Type 0
NoMessage = All (λ m. names_field m.0 (codes "message") ≡ false)

-- The members that stand for fields of a frame, over those that it has.
abbrev pub assigned : Texts → IncomingFrame → IncomingFrame
assigned ms f = record {
  type = last_named (codes "type") ms f.type;
  action = last_named (codes "action") ms f.action;
  status = last_named (codes "status") ms f.status;
  orig_msg_id = last_named (codes "orig_msg_id") ms f.orig_msg_id;
  from = last_named (codes "from") ms f.from;
  reason = last_named (codes "reason") ms f.reason;
  message = f.message;
}

set_frame-text :
    (k s : Bytes) (f : IncomingFrame)
    → names_field k (codes "message") ≡ false
    → set_frame k (text s) f ≡ some (assigned ((k, s) ∷ []) f)
unfolding set_frame names_field last_named bytes_dec fold_name decode_rune
set_frame-text k s f h = elim (is-cases (fold_name 0 k) (fold_name 0 (codes "type"))) [
  | inl (_, e) ↦ rw e refl
  | inr (b, _) ↦ rw b (elim (is-cases (fold_name 0 k) (fold_name 0 (codes "action"))) [
    | inl (_, e) ↦ rw e refl
    | inr (b, _) ↦ rw b (elim (is-cases (fold_name 0 k) (fold_name 0 (codes "status"))) [
      | inl (_, e) ↦ rw e refl
      | inr (b, _) ↦ rw b (elim (is-cases (fold_name 0 k) (fold_name 0 (codes "orig_msg_id"))) [
        | inl (_, e) ↦ rw e refl
        | inr (b, _) ↦ rw b (elim (is-cases (fold_name 0 k) (fold_name 0 (codes "from"))) [
          | inl (_, e) ↦ rw e refl
          | inr (b, _) ↦ rw b (elim (is-cases (fold_name 0 k) (fold_name 0 (codes "reason"))) [
            | inl (_, e) ↦ rw e refl
            | inr (b, _) ↦ rw b (rw h refl)
          ])
        ])
      ])
    ])
  ])
]

assign_all-fields_of :
    (ms : Texts) (f : IncomingFrame)
    → NoMessage ms
    → assign_all set_frame (fields_of (texts ms)) f ≡ some (assigned ms f)
unfolding assign_all fields_of texts last_named
assign_all-fields_of [] f _ = refl
assign_all-fields_of ((k, s) ∷ ms) f (h, hs) =
    ap (assign_more set_frame (assign_all set_frame (fields_of (texts ms))))
      (set_frame-text k s f h)
    ∙ assign_all-fields_of ms (assigned ((k, s) ∷ []) f) hs

-- The frame decoded from an object of strings has the last value that each of its fields is given.
pub unmarshal_frame-object_tokens :
    (line : Bytes) (ms : Texts)
    → tokens 0 line ≡ some (object_tokens (texts ms))
    → NoMessage ms
    → unmarshal_frame line ≡ some (assigned ms no_frame)
unfolding unmarshal_frame
unmarshal_frame-object_tokens line ms t h =
    unmarshal_struct-texts set_frame no_frame line ms t ∙ assign_all-fields_of ms no_frame h

-- The members say that the line is the status of a message.
abbrev pub IsStatus : Texts → Type 0
IsStatus ms =
    (named (codes "type") ms ≡ codes "control")
    × (named (codes "action") ms ≡ codes "peer_message_status")

abbrev pub receipt_of : Texts → Receipt
receipt_of ms = record {
  status = named (codes "status") ms;
  orig_msg_id = named (codes "orig_msg_id") ms;
  from = named (codes "from") ms;
  reason = named (codes "reason") ms;
}

delivered_none :
    (cfg : InboxConfig) (b : Bool) (from : Bytes)
    → (if b then delivered_message cfg none from else []) ≡ []
delivered_none cfg true from = refl
delivered_none cfg false from = refl

dispatch-receipt :
    (cfg : InboxConfig) (ms : Texts)
    → cfg.has_on_receipt ≡ true
    → (IsStatus ms → dispatch cfg (assigned ms no_frame) ≡ on_receipt (receipt_of ms) ∷ [])
      × (¬ (IsStatus ms) → dispatch cfg (assigned ms no_frame) ≡ [])
unfolding dispatch
dispatch-receipt cfg ms h = elim (is-cases (named (codes "type") ms) (codes "control")) [
  | inl (b, e) ↦ elim (is-cases (named (codes "action") ms) (codes "peer_message_status")) [
    | inl (c, e') ↦ (λ _. rw b (rw c (rw h refl)), λ n. absurd (n (e, e')))
    | inr (c, n) ↦
        (λ s. absurd (n s.1), λ _. rw b (rw c (delivered_none cfg _ (named (codes "from") ms))))
  ]
  | inr (b, n) ↦ (λ s. absurd (n s.0), λ _. rw b (delivered_none cfg _ (named (codes "from") ms)))
]

handle-object_tokens :
    (cfg : InboxConfig) (line : Bytes) (ms : Texts)
    → IsFrameLine line
    → tokens 0 line ≡ some (object_tokens (texts ms))
    → NoMessage ms
    → handle cfg (line ++ (b'\n' ∷ [])) ≡ dispatch cfg (assigned ms no_frame)
unfolding join_lines reactions
handle-object_tokens cfg line ms l t m =
    handle-join_lines cfg (line ∷ []) (l, tt)
    ∙ ap (λ f. reaction cfg f ++ []) (unmarshal_frame-object_tokens line ms t m)
    ∙ append-nil _

-- From a line that is a JSON text of an object of strings, spelled and spaced in any way without
-- control characters and below the limit, and without a message, an inbox with an OnReceipt makes
-- exactly one call, of OnReceipt, if the type is "control" and the action "peer_message_status",
-- with the status, message ID, address and reason of the line, and no call otherwise; each of these
-- is the value of the last member so named, in any case of its letters, and empty where there is
-- none.
pub handle-receipt :
    (cfg : InboxConfig) (line : Bytes) (ms : Texts)
    → IsFrameLine line
    → tokens 0 line ≡ some (object_tokens (texts ms))
    → NoMessage ms
    → cfg.has_on_receipt ≡ true
    → (IsStatus ms → handle cfg (line ++ (b'\n' ∷ [])) ≡ on_receipt (receipt_of ms) ∷ [])
      × (¬ (IsStatus ms) → handle cfg (line ++ (b'\n' ∷ [])) ≡ [])
handle-receipt cfg line ms l t m h =
    let read = handle-object_tokens cfg line ms l t m in
    let (status, other) = dispatch-receipt cfg ms h in (λ s. read ∙ status s, λ n. read ∙ other n)
