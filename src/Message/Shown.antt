-- ===== src/Message/Shown.antt =====
-- The reply address as a receiver sees it in the envelope.
use claude_code_socket_trans.Message.Attribution.{content_of-envelope}
use claude_code_socket_trans.Message.Accepted.{frame-IsSendable, frame-Carries}
use claude_code_socket_trans.Message.Verbatim.{
  Shows, doubled, IsVisible, quote-doubled, cons_injective, Lacks-doubled, valid_address-IsVisible,
  before_quote, visible-Lacks, doubled-IsVisible, doubled-Lacks,
}
use claude_code_socket_trans.Addr.{valid_address}
use claude_code_socket_trans.Message.Envelope.{
  wrap_envelope, sanitize_name, attributes, quote, escape_body, envelope_tag,
}
use claude_code_socket_trans.Message.Frame.{Message, UserFrame, frame}
use claude_code_socket_trans.Os.{Os}
use claude_code_socket_trans.Base.{
  ℕ, Bool, Bytes, if◌then◌else◌, ◌≡◌, ◌is◌, ◌≢◌, ok, [], codes, ◌++◌, true, ◌↔◌, Lacks, ◌∷◌,
  is-cases, inl, inr, All, ap, append_assoc, length, ◌∙◌, sym,
}

module _ (is_print_wide : ℕ → Bool) (from name body : Bytes) where
  abbrev name_attribute : Bytes
  name_attribute =
      if sanitize_name name is []
      then []
      else codes " from-name=" ++ quote is_print_wide (sanitize_name name)

  abbrev body_and_end : Bytes
  body_and_end = codes ">\n" ++ (escape_body body ++ (codes "\n</" ++ (envelope_tag ++ codes ">")))

  abbrev behind_address : Bytes
  behind_address = name_attribute ++ body_and_end

  wrap_envelope-from :
      from ≢ []
      → valid_address from ≡ true
      → wrap_envelope is_print_wide from name body
        ≡ codes "<cross-session-message from=\"" ++ (doubled from ++ (b'"' ∷ behind_address))
  unfolding wrap_envelope attributes
  wrap_envelope-from n v = elim (is-cases from []) [
    | inl (_, e) ↦ absurd (n e)
    | inr (b, _) ↦ rw b (
        ap (λ q. codes "<cross-session-message from=" ++ ((q ++ name_attribute) ++ body_and_end))
          (quote-doubled is_print_wide from v)
        ∙ ap (λ t. codes "<cross-session-message from=\"" ++ t)
            (append_assoc (doubled from ++ (b'"' ∷ [])) name_attribute body_and_end
              ∙ append_assoc (doubled from) (b'"' ∷ []) behind_address))
  ]

append-injective : (a : Bytes) {x y : Bytes} → a ++ x ≡ a ++ y → x ≡ y
append-injective [] e = e
append-injective (c ∷ a) e = append-injective a (cons_injective e).1

-- Whether an address of visible characters stands where its backslashes were doubled.
Shows-doubled :
    (addr behind : Bytes) {content : Bytes}
    → content ≡ codes "<cross-session-message from=\"" ++ (doubled addr ++ (b'"' ∷ behind))
    → All IsVisible addr
    → Shows addr content ↔ Lacks b'\\' addr
Shows-doubled addr behind {content} e h = (
  λ (rest, q). Lacks-doubled addr (
      ap length (
        before_quote (doubled addr) addr behind rest
          (visible-Lacks (doubled addr) (doubled-IsVisible addr h)) (visible-Lacks addr h)
          (append-injective (codes "<cross-session-message from=\"") (sym e ∙ q)))),
  λ l. (
    behind,
    e
        ∙ ap (λ t. codes "<cross-session-message from=\"" ++ (t ++ (b'"' ∷ behind)))
            (doubled-Lacks addr l),
  ),
)

-- The content of a frame that Message.frame makes from a message with a sender name and a reply
-- address begins with the opening tag up to the quoted address as it is, and its closing quotation
-- mark, exactly if the address holds no backslash.
pub frame-Shows_iff :
    (os : Os) (m : Message) (f : UserFrame)
    → frame os m ≡ ok f
    → m.from_name ≢ []
    → m.from ≢ []
    → Shows m.from f.message.content ↔ Lacks b'\\' m.from
frame-Shows_iff os m f k named given = Shows-doubled m.from behind content visible
  where
    valid : valid_address m.from ≡ true
    valid = elim (frame-IsSendable os m k).reply_address [ inl e ↦ absurd (given e) | inr v ↦ v ]

    visible : All IsVisible m.from
    visible = valid_address-IsVisible m.from valid

    behind : Bytes
    behind = behind_address os.is_print_wide m.from m.from_name m.text

    content :
        f.message.content
        ≡ codes "<cross-session-message from=\"" ++ (doubled m.from ++ (b'"' ∷ behind))
    content =
        (frame-Carries os m k).same_content
        ∙ content_of-envelope os m named
        ∙ wrap_envelope-from os.is_print_wide m.from m.from_name m.text given valid
