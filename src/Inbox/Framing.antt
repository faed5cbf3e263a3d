-- ===== src/Inbox/Framing.antt =====
-- What an inbox does with the lines that a client writes.
use claude_code_socket_trans.Wire.{marshal_user, marshal_auth}
use claude_code_socket_trans.Message.Frame.{UserFrame, AuthFrame}
use claude_code_socket_trans.Client.{max_frame_bytes, line_of}
use claude_code_socket_trans.Message.Clean.{All-mono}
use claude_code_socket_trans.Wire.Lines.{
  OneLine, IsPlain, marshal_user-OneLine, marshal_auth-OneLine,
}
use claude_code_socket_trans.Base.{
  ℕ, List, Bytes, ◌∷◌, ◌++◌, split, All, ◌≢◌, Lacks, ◌≡◌, [], length, split-append, refl, ◌<◌, ◌∙◌,
  if◌then◌else◌, ◌is◌, is-cases, codes, inl, inr, append_assoc,
}
use native.Mathlib.Omega.{arith}
use mathlib.Core.Path.{ap}
use claude_code_socket_trans.Base.{bytes_dec}
use claude_code_socket_trans.Inbox.Reading.{
  handle, InboxConfig, drop_cr, scanned, handle_lines, Callback, reaction, unmarshal_frame,
}

-- A line that `writeFrame` sends: not empty, below the limit, and without control characters.
pub record IsFrameLine (p : Bytes) : Type 0 where
  pub one_line : OneLine p
  pub not_empty : p ≢ []
  pub fits : length p < max_frame_bytes

unfoldable pub join_lines : List Bytes → Bytes
join_lines [] = []
join_lines (p ∷ ps) = p ++ (b'\n' ∷ join_lines ps)

unfoldable pub reactions : InboxConfig → List Bytes → List Callback
reactions cfg [] = []
reactions cfg (p ∷ ps) = reaction cfg (unmarshal_frame p) ++ reactions cfg ps

drop_cr-Lacks : (s : Bytes) → Lacks b'\r' s → drop_cr s ≡ s
unfolding drop_cr
drop_cr-Lacks [] _ = refl
drop_cr-Lacks (c ∷ []) (h, _) = ground arith
drop_cr-Lacks (c ∷ d ∷ s) (h, hs) = ap (◌∷◌ c) (drop_cr-Lacks (d ∷ s) hs)

split-ne-nil : (b : ℕ) (s : Bytes) → split b s ≢ []
unfolding split
split-ne-nil b [] e = cc
split-ne-nil b (c ∷ s) e = ground (arith, split-ne-nil b s)

scanned_line :
    (p : Bytes) (ps : List Bytes) → IsFrameLine p → ps ≢ [] → scanned (p ∷ ps) ≡ p ∷ scanned ps
unfolding scanned
scanned_line p [] h n = absurd (n refl)
scanned_line p (q ∷ ps) h n =
    let cut =
      drop_cr-Lacks p (All-mono IsPlain (λ c. c ≢ b'\r') (λ c k. omega arith) p h.one_line) in
    let fits = h.fits in ground arith

scanned-join_lines :
    (ps : List Bytes) → All IsFrameLine ps → scanned (split b'\n' (join_lines ps)) ≡ ps
unfolding join_lines bytes_dec
scanned-join_lines [] _ = unfold scanned split in refl
scanned-join_lines (p ∷ ps) (h, hs) =
    ap scanned (
      split-append b'\n' p (join_lines ps)
        (All-mono IsPlain (λ c. c ≢ b'\n') (λ c k. omega arith) p h.one_line))
    ∙ scanned_line p (split b'\n' (join_lines ps)) h (split-ne-nil b'\n' (join_lines ps))
    ∙ ap (◌∷◌ p) (scanned-join_lines ps hs)

handle_lines-reactions :
    (cfg : InboxConfig) (ps : List Bytes)
    → All IsFrameLine ps
    → handle_lines cfg ps ≡ reactions cfg ps
unfolding handle_lines reactions
handle_lines-reactions cfg [] _ = refl
handle_lines-reactions cfg (p ∷ ps) (h, hs) =
    let rest = handle_lines-reactions cfg ps hs in let ne = h.not_empty in ground arith

-- From any lines that are not empty, hold no control character and are shorter than the limit of a
-- frame, each followed by a line break, handle reads exactly these lines in order: its callbacks
-- are those of their decoded frames, one after the other.
pub handle-join_lines :
    (cfg : InboxConfig) (ps : List Bytes)
    → All IsFrameLine ps
    → handle cfg (join_lines ps) ≡ reactions cfg ps
unfolding handle
handle-join_lines cfg ps h =
    ap (handle_lines cfg) (scanned-join_lines ps h) ∙ handle_lines-reactions cfg ps h

-- The lines that `writeFrame` puts together.
unfoldable pub lines_sent : Bytes → Bytes → List Bytes
lines_sent token payload =
    if token is []
    then payload ∷ []
    else marshal_auth (record { type = codes "auth"; token = token }) ∷ payload ∷ []

line_of-lines_sent :
    (token payload : Bytes) → line_of token payload ≡ join_lines (lines_sent token payload)
unfolding line_of lines_sent join_lines
line_of-lines_sent token payload = elim (is-cases token []) [
  | inl (t, _) ↦ rw t refl
  | inr (f, _) ↦ rw f (append_assoc _ (b'\n' ∷ []) (payload ++ (b'\n' ∷ [])))
]

marshal_user-IsFrameLine :
    (f : UserFrame) → length (marshal_user f) < max_frame_bytes → IsFrameLine (marshal_user f)
marshal_user-IsFrameLine f h = record {
  one_line = marshal_user-OneLine f;
  not_empty = unfold marshal_user in λ e. cc;
  fits = h;
}

marshal_auth-IsFrameLine :
    (a : AuthFrame) → length (marshal_auth a) < max_frame_bytes → IsFrameLine (marshal_auth a)
marshal_auth-IsFrameLine a h = record {
  one_line = marshal_auth-OneLine a;
  not_empty = unfold marshal_auth in λ e. cc;
  fits = h;
}

-- If the line of a user frame and the auth line of the token are each below the limit, an inbox
-- reads from the bytes that writeFrame writes exactly these lines, that of the token only where it
-- is not empty: its callbacks are those of their decoded frames, in order.
pub handle-line_of :
    (cfg : InboxConfig) (token : Bytes) (f : UserFrame)
    → length (marshal_user f) < max_frame_bytes
    → length (marshal_auth (record { type = codes "auth"; token = token })) < max_frame_bytes
    → handle cfg (line_of token (marshal_user f))
      ≡ reactions cfg (lines_sent token (marshal_user f))
handle-line_of cfg token f h k =
    ap (handle cfg) (line_of-lines_sent token (marshal_user f))
    ∙ handle-join_lines cfg (lines_sent token (marshal_user f)) lines
  where
    auth : AuthFrame
    auth = record { type = codes "auth"; token = token }

    user_line : All IsFrameLine (marshal_user f ∷ [])
    user_line = (marshal_user-IsFrameLine f h, tt)

    lines : All IsFrameLine (lines_sent token (marshal_user f))
    lines =
        unfold lines_sent in
        elim (is-cases token []) [
          | inl (t, _) ↦ rw t user_line
          | inr (g, _) ↦ rw g (marshal_auth-IsFrameLine auth k, user_line)
        ]
