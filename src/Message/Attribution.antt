-- ===== src/Message/Attribution.antt =====
-- An attributed message ends its envelope once, and cannot claim another sender.
use claude_code_socket_trans.Message.Closing.{wrap_envelope-closing}
use claude_code_socket_trans.Message.Escape.{occurrences}
use claude_code_socket_trans.Message.Envelope.{wrap_envelope, closing}
use claude_code_socket_trans.Addr.Grammar.{IsEncoded, safe, valid_address_iff, escape, done}
use claude_code_socket_trans.Addr.{unhex, addr_safe, valid_address, scheme}
use claude_code_socket_trans.Base.{
  ℕ, Bytes, ◌≡◌, some, true, Lacks, ◌≢◌, ok, arith, [], All-append, ◌⊎◌, inl, inr,
}
use claude_code_socket_trans.Message.Frame.{frame, Message, UserFrame, content_of}
use claude_code_socket_trans.Message.Accepted.{frame-Carries, IsSendable, frame-IsSendable}
use claude_code_socket_trans.Os.{Os}

unhex-ne_less : (h v : ℕ) → unhex h ≡ some v → h ≢ b'<'
unfolding unhex
unhex-ne_less h v e = ground arith

addr_safe-ne_less : (c : ℕ) → addr_safe c ≡ true → c ≢ b'<'
unfolding addr_safe
addr_safe-ne_less c e = ground arith

IsEncoded-Lacks : {s : Bytes} → IsEncoded s → Lacks b'<' s
IsEncoded-Lacks done = tt
IsEncoded-Lacks (safe {c} h r) = (addr_safe-ne_less c h, IsEncoded-Lacks r)
IsEncoded-Lacks (escape {h} {l} {a} {b} p q r) =
    (omega arith, (unhex-ne_less h a p, (unhex-ne_less l b q, IsEncoded-Lacks r)))

valid_address-Lacks : (a : Bytes) → valid_address a ≡ true → Lacks b'<' a
valid_address-Lacks a h =
    let (s, e, r) = (valid_address_iff a).0 h in
    rw e (All-append (λ c. c ≢ b'<') scheme s (omega arith) (IsEncoded-Lacks r))

from-Lacks : (m : Message) → IsSendable m → Lacks b'<' m.from
from-Lacks m s = choose s.reply_address
  where
    choose : (m.from ≡ []) ⊎ (valid_address m.from ≡ true) → Lacks b'<' m.from
    choose (inl e) = rw e tt
    choose (inr v) = valid_address-Lacks m.from v

pub content_of-envelope :
    (os : Os) (m : Message)
    → m.from_name ≢ []
    → content_of os m ≡ wrap_envelope os.is_print_wide m.from m.from_name m.text
unfolding content_of
content_of-envelope os m h = ground arith

-- The content of every frame that Message.frame makes from a message with a sender name holds the
-- closing tag of the envelope exactly once, whatever the text, the name and the reply address are.
pub frame-closing :
    (os : Os) (m : Message) (f : UserFrame)
    → frame os m ≡ ok f
    → m.from_name ≢ []
    → occurrences closing f.message.content ≡ 1
frame-closing os m f h named =
    rw ((frame-Carries os m h).same_content, content_of-envelope os m named)
      (wrap_envelope-closing os.is_print_wide m.from m.from_name m.text
        (from-Lacks m (frame-IsSendable os m h)))
