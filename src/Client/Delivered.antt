-- ===== src/Client/Delivered.antt =====
-- What `Send` has done when it reports a message ID.
use claude_code_socket_trans.Wire.{marshal_user}
use claude_code_socket_trans.Session.{Session}
use claude_code_socket_trans.Message.Frame.{Message, UserFrame, frame}
use claude_code_socket_trans.Os.{Os}
use claude_code_socket_trans.Base.{
  Bytes, Result, List, ◌≡◌, ok, err, ◌≢◌, [], refl, ◌∷◌, arith, length, ◌<◌, is-cases, inl, inr,
}
use claude_code_socket_trans.Client.{
  wrote, dialled, half_closed, drained, closed, Event, send, send_to_socket, send_framed, returning,
  stamp, Os, Net, Client, Message, Session, UserFrame, frame, resolve_token, timeout_of, line_of,
  marshal_user, write_frame, send_found, max_frame_bytes,
}
use claude_code_socket_trans.Client.{write_frame}
use claude_code_socket_trans.Client.Sent.{write_frame_ok}

module _ (os : Os) (net : Net) where
  returning_ok :
      (a b : Bytes) (r : Result (Unit {0})) (es : List Event)
      → (returning os net a (record { result = r; events = es })).result ≡ ok b
      → (r ≡ ok tt) × (a ≡ b)
  returning_ok a b (ok t) es h = (refl, ground arith)
  returning_ok a b (err e) es h = ground arith

  -- If SendToSocket reports an ID, the message had a frame with that ID, and the events on the
  -- socket were: the dial of the path, one write of the frame's line behind the resolved token's,
  -- the half-close, the wait for the end, the close.
  pub send_to_socket_ok :
      (c : Client) (path : Bytes) (m : Message) (id : Bytes)
      → (send_to_socket os net c path m).result ≡ ok id
      → (f : UserFrame) × (token : Bytes) × (frame os m ≡ ok f)
        × (f.msg_id ≡ id)
        × (length (marshal_user f) < max_frame_bytes)
        × (resolve_token os c path ≡ ok token)
        × ((send_to_socket os net c path m).events
            ≡ dialled path (timeout_of c)
              ∷ wrote (line_of token (marshal_user f))
              ∷ half_closed
              ∷ drained
              ∷ closed
              ∷ [])
  unfolding send_to_socket
  send_to_socket_ok c path m id h = framed (frame os m) refl h
    where
      framed :
          (r : Result UserFrame)
          → frame os m ≡ r
          → (send_framed os net c path r).result ≡ ok id
          → (f : UserFrame) × (token : Bytes) × (frame os m ≡ ok f)
            × (f.msg_id ≡ id)
            × (length (marshal_user f) < max_frame_bytes)
            × (resolve_token os c path ≡ ok token)
            × ((send_framed os net c path r).events
                ≡ dialled path (timeout_of c)
                  ∷ wrote (line_of token (marshal_user f))
                  ∷ half_closed
                  ∷ drained
                  ∷ closed
                  ∷ [])
      framed (err e) q k = absurd (ground arith)
      framed (ok f) q k =
          let d = write_frame os net c path (marshal_user f) in
          let (w, i) = returning_ok f.msg_id id d.result d.events k in
          let (token, l, t, es) = write_frame_ok os net c path (marshal_user f) w in
          (f, token, q, i, l, t, es)

  -- If Send succeeds, the session has a socket, and the events were those of SendToSocket with the
  -- message stamped with the session's ID where it had none.
  pub send_ok :
      (c : Client) (s : Session) (m : Message) (id : Bytes)
      → (send os net c s m).result ≡ ok id
      → (s.socket_path ≢ [])
        × ((send os net c s m).events ≡ (send_to_socket os net c s.socket_path (stamp s m)).events)
  unfolding send
  send_ok c s m id h = ground arith

  -- If a send through the registry reports an ID, the lookup gave a session with a socket; the
  -- message, stamped with the session's ID where it had none, had a frame with the reported ID,
  -- whose line is below the receiver's limit; and the events were: the dial of the session's
  -- socket, one write of that line behind the resolved token's, the half-close, the wait for the
  -- end and the close.
  pub send_found_ok :
      (c : Client) (m : Message) (r : Result Session) (id : Bytes)
      → (send_found os net c m r).result ≡ ok id
      → (s : Session) × (f : UserFrame) × (token : Bytes) × (r ≡ ok s)
        × (s.socket_path ≢ [])
        × (frame os (stamp s m) ≡ ok f)
        × (f.msg_id ≡ id)
        × (length (marshal_user f) < max_frame_bytes)
        × (resolve_token os c s.socket_path ≡ ok token)
        × ((send_found os net c m r).events
            ≡ dialled s.socket_path (timeout_of c)
              ∷ wrote (line_of token (marshal_user f))
              ∷ half_closed
              ∷ drained
              ∷ closed
              ∷ [])
  unfolding send
  send_found_ok c m (err e) id h = absurd (ground arith)
  send_found_ok c m (ok s) id h = elim (is-cases s.socket_path []) [
    | inl (t, _) ↦ absurd (ground arith)
    | inr (f, n) ↦
        let (u, token, q, i, l, t, es) =
          send_to_socket_ok c s.socket_path (stamp s m) id (rw f at h) in
        (s, u, token, refl, n, q, i, l, t, rw f es)
  ]
