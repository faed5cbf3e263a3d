-- ===== src/Exchange/Published.antt =====
-- All of it together: a session publishes its entry and its key, and a message sent by its PID reaches
-- an inbox.
use claude_code_socket_trans.Auth.Found.{lookup_token-published}
use claude_code_socket_trans.Find.Published.{find_by_pid-published}
use claude_code_socket_trans.Auth.Best.{candidates}
use claude_code_socket_trans.Session.Published.{text_in, text_in}
use claude_code_socket_trans.Json.Tokens.{tokens}
use claude_code_socket_trans.Registry.Listed.{entry_file}
use claude_code_socket_trans.Paths.{sessions_dir}
use claude_code_socket_trans.Decimal.{max_int}
use claude_code_socket_trans.Auth.Named.{IsDigest}
use claude_code_socket_trans.Json.Members.{Members, Texts, object_tokens, AreScalars, texts, named}
use mathlib.Core.Path.{ap₂, subst}
use claude_code_socket_trans.Client.Delivered.{send_to_socket_ok, send_ok}
use claude_code_socket_trans.Client.Reached.{Opens, Sends, send_iff, send_to_socket_iff}
use claude_code_socket_trans.Exchange.{
  auth_of, handle, delivered_message, content_of, send_to_socket_ok, ap₂, subst, frame-received,
  ascii-IsUtf8,
}
use claude_code_socket_trans.Utf8.Encoding.{IsUtf8, ascii-IsUtf8}
use claude_code_socket_trans.Wire.{marshal_auth, marshal_user, marshal_auth}
use claude_code_socket_trans.Message.Unicode.Frames.{IsUtf8Message, IsFilled}
use claude_code_socket_trans.Auth.{
  lookup_token, key_file_suffix, key_file_name, max_key_file_bytes, rank_key_owner,
}
use claude_code_socket_trans.Message.Frame.{Message, UserFrame, frame, content_of}
use claude_code_socket_trans.Auth.Published.{IsLowerHex, IsToken}
use claude_code_socket_trans.Session.{Session, read_small_file, max_registry_file_bytes}
use claude_code_socket_trans.Os.{Os, names}
use claude_code_socket_trans.Inbox.Reading.{InboxConfig, handle, delivered_message}
use claude_code_socket_trans.Client.{
  resolve_token, stamp, Client, Net, self_socket_path, max_frame_bytes, timeout_of, line_of, send,
  wrote, send_to_pid,
}
use claude_code_socket_trans.Base.{
  Bytes, All, ◌<◌, ◌≡◌, ◌≢◌, inl, false, [], ◌∷◌, arith, inr, ok, length, Has, some, ap, ◌∙◌,
  ok_injective, sym, refl, ℕ, List, ◌≤◌, ◌++◌, codes,
}
use claude_code_socket_trans.Filepath

lower_hex-ascii : (s : Bytes) → All IsLowerHex s → All (λ c. c < 0x80) s
lower_hex-ascii [] _ = tt
lower_hex-ascii (c ∷ s) (inl (h, k), hs) = (omega arith, lower_hex-ascii s hs)
lower_hex-ascii (c ∷ s) (inr (h, k), hs) = (omega arith, lower_hex-ascii s hs)

-- A client without a token of its own looks for the one that the other session published.
resolve_token-lookup :
    (os : Os) (c : Client) (path : Bytes)
    → c.no_auth ≡ false
    → c.token ≡ []
    → self_socket_path os ≢ path
    → resolve_token os c path ≡ lookup_token os path
unfolding resolve_token
resolve_token-lookup os c path n t s = ground arith

stamp-given : (s : Session) (m : Message) → m.session_id ≢ [] → stamp s m ≡ m
unfolding stamp
stamp-given s m n = ground arith

send-delivered :
    (cfg : InboxConfig) (os : Os) (net : Net) (c : Client) (s : Session) (m : Message)
    (token : Bytes) {f : UserFrame}
    → s.socket_path ≢ []
    → m.session_id ≢ []
    → frame os m ≡ ok f
    → IsUtf8Message m
    → IsFilled os
    → length (marshal_user f) < max_frame_bytes
    → resolve_token os c s.socket_path ≡ ok token
    → IsUtf8 token
    → length (marshal_auth (auth_of token)) < max_frame_bytes
    → Opens os net s.socket_path (timeout_of c) (line_of token (marshal_user f))
    → ((send os net c s m).result ≡ ok f.msg_id)
      × (bytes : Bytes) × Has (wrote bytes) (send os net c s m).events
      × (handle cfg bytes ≡ delivered_message cfg (some (content_of os m)) m.from)
send-delivered cfg os net c s m token {f} p g k u filled l r ut fits o =
    let same = stamp-given s m g in
    let stamped : frame os (stamp s m) ≡ ok f = ap (frame os) same ∙ k in
    let sends : Sends os net c s.socket_path (stamp s m) f.msg_id =
      (f, stamped, refl, (l, (token, r, o))) in
    let reported = (send_iff os net c s m f.msg_id).1 (p, sends) in
    let (f', token', k', _, _, r', es) =
      send_to_socket_ok os net c s.socket_path (stamp s m) f.msg_id
        ((send_to_socket_iff os net c s.socket_path (stamp s m) f.msg_id).1 sends) in
    let line : line_of token' (marshal_user f') ≡ line_of token (marshal_user f) =
      ap₂ (λ t g. line_of t (marshal_user g)) (ok_injective (sym r' ∙ r))
        (ok_injective (sym k' ∙ stamped)) in
    (
      reported,
      line_of token (marshal_user f),
      subst (Has (wrote (line_of token (marshal_user f))))
          (sym ((send_ok os net c s m f.msg_id reported).1 ∙ es)) (inr (inl (ap wrote (sym line)))),
      frame-received cfg os net m token f k u filled ut l fits,
    )

-- Suppose that a session has published its entry, the file <pid>.json of a PID that fits an int,
-- and its key, under the name that KeyFileName gives for its socket with a SHA-256 of 32 bytes, in
-- the sessions directory, which is found and read; that both files can be read, where the entry is
-- a JSON text of an object of scalars with a messagingSocketPath that is not empty, and the key one
-- of an object of strings with a peerToken of 32 lower-case hex digits and a procStart that gives
-- the PID rank 2; that no key file of the socket listed before the key has rank 2; that the client
-- sets neither a token nor NoAuth, and the socket is not the own one; that the message has a
-- session ID and a frame and is UTF-8, rand.Read fills sixteen bytes, and the frame's and the
-- token's line are below the limit; and that every step on the connection succeeds. Then SendToPID
-- reports the frame's ID, and bytes that it wrote in one write are such that an inbox makes of them
-- exactly one call of OnMessage, where it is set, with the message's enveloped content and reply
-- address, and no other callback.
pub send_to_pid-delivered :
    (cfg : InboxConfig) (os : Os) (net : Net) (c : Client) (pid : ℕ) (m : Message)
    {dir suffix name path entry key : Bytes} {f : UserFrame} (before behind : List Bytes)
    (es : Members) (ks : Texts)
    → IsDigest os
    → pid ≤ max_int
    → sessions_dir os ≡ ok dir
    → os.read_dir dir ≡ names (before ++ (name ∷ behind))
    → Has (entry_file pid) (before ++ (name ∷ behind))
    → read_small_file os (Filepath.join dir (entry_file pid)) max_registry_file_bytes ≡ ok entry
    → tokens 0 entry ≡ some (object_tokens es)
    → AreScalars os.parse_float es
    → text_in es (codes "messagingSocketPath") ≡ path
    → path ≢ []
    → key_file_suffix os path ≡ ok suffix
    → key_file_name os pid path ≡ ok name
    → All (λ d. d.rank < 2) (candidates os dir suffix before)
    → read_small_file os (Filepath.join dir name) max_key_file_bytes ≡ ok key
    → tokens 0 key ≡ some (object_tokens (texts ks))
    → IsToken (named (codes "peerToken") ks)
    → rank_key_owner os pid (named (codes "procStart") ks) ≡ 2
    → c.no_auth ≡ false
    → c.token ≡ []
    → self_socket_path os ≢ path
    → m.session_id ≢ []
    → frame os m ≡ ok f
    → IsUtf8Message m
    → IsFilled os
    → length (marshal_user f) < max_frame_bytes
    → length (marshal_auth (auth_of (named (codes "peerToken") ks))) < max_frame_bytes
    → Opens os net path (timeout_of c) (line_of (named (codes "peerToken") ks) (marshal_user f))
    → ((send_to_pid os net c pid m).result ≡ ok f.msg_id)
      × (bytes : Bytes) × Has (wrote bytes) (send_to_pid os net c pid m).events
      × (handle cfg bytes ≡ delivered_message cfg (some (content_of os m)) m.from)
unfolding send_to_pid
send_to_pid-delivered cfg os net c pid m {f = f} before behind es ks dg fit sd rd has re te se sp ne
      sf kn low rk tk it two na nt ns g k u filled l fits o =
    let (e, found, _, says) = find_by_pid-published os pid es sd rd has fit re te se in
    let token = named (codes "peerToken") ks in
    let q = says.socket_path ∙ sp in
    let key =
      lookup_token-published os pid _ before behind ks dg fit sd sf kn rd low rk tk it two in
    let resolved = resolve_token-lookup os c _ na nt ns ∙ key in
    rw found (
      send-delivered cfg os net c e m token (λ z. ne (sym q ∙ z)) g k u filled l
        (ap (resolve_token os c) q ∙ resolved) (ascii-IsUtf8 token (lower_hex-ascii token it.1))
        fits
        (subst (λ p. Opens os net p (timeout_of c) (line_of token (marshal_user f))) (sym q) o))
