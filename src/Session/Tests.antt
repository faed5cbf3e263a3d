-- ===== src/Session/Tests.antt =====
-- Runs of the field readers.
use claude_code_socket_trans.Base.{codes, false, ◌≡◌, true, [], some, refl}
use claude_code_socket_trans.Session.{str, epoch_ms}
use claude_code_socket_trans.Json.{Fields, field, no_fields, text, number}

abbrev entry : Fields
entry = field (codes "name") (text (codes "api")) (
    field (codes "startedAt") (number (record { negative = false; whole = 1700; fraction = true }))
      no_fields)

named : str entry (codes "name") ≡ codes "api"
unfolding str
named = refl

mistyped : str entry (codes "startedAt") ≡ []
unfolding str
mistyped = refl

started : epoch_ms entry (codes "startedAt") ≡ some 1700
unfolding epoch_ms
started = refl
