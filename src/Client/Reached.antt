-- ===== src/Client/Reached.antt =====
-- When a send succeeds.
use claude_code_socket_trans.Wire.{marshal_user}
use claude_code_socket_trans.Session.{Session}
use claude_code_socket_trans.Message.Frame.{Message, UserFrame, frame}
use mathlib.Core.Path.{subst}
use claude_code_socket_trans.Base.{
  Bytes, ℕ, ◌≡◌, ok, true, ◌↔◌, ◌&&◌, false, arith, length, Result, ◌<◌, err, refl, Bool-cases, leb,
  inl, inr, ok_injective, sym, ◌∙◌, ◌>>=◌, ◌≢◌, ap, [], is-cases,
}
use claude_code_socket_trans.Client.{
  Net, transmit, after_write, finish, unix_conn, is_darwin, Client, write_frame, resolve_token,
  max_frame_bytes, timeout_of, line_of, Message, Done, send_to_socket, send, UserFrame, returning,
  frame, Session, marshal_user, stamp,
}
use claude_code_socket_trans.Os.{Os}

module _ (os : Os) (net : Net) where
  -- Every step on the connection to a path succeeds.
  abbrev pub Opens : Bytes → ℕ → Bytes → Type 0
  Opens path timeout line =
      (net.dial path timeout ≡ unix_conn)
      × (net.write_ok path line ≡ true)
      × ((is_darwin os net && net.wait_cancelled path) ≡ false)
      × (net.close_write_ok path ≡ true)
      × (net.drain_ok path ≡ true)

  transmit_iff :
      (path : Bytes) (timeout : ℕ) (line : Bytes)
      → ((transmit os net path timeout line).result ≡ ok tt) ↔ Opens path timeout line
  unfolding transmit after_write finish
  transmit_iff path timeout line = (λ h. ground arith, λ o. ground arith)

  -- What writeFrame needs of the token and the connection.
  abbrev pub Passes : Client → Bytes → Bytes → Type 0
  Passes c path payload =
      (length payload < max_frame_bytes)
      × ((token : Bytes) × (resolve_token os c path ≡ ok token)
          × Opens path (timeout_of c) (line_of token payload))

  tested_iff :
      (c : Client) (path payload : Bytes) (r : Result Bytes)
      → resolve_token os c path ≡ r
      → ((write_frame os net c path payload).result ≡ ok tt) ↔ Passes c path payload
  unfolding write_frame
  tested_iff c path payload (err e) q =
      (λ h. absurd (ground arith), λ (l, (t, r, o)). absurd (ground arith))
  tested_iff c path payload (ok token) q =
      elim (Bool-cases (leb max_frame_bytes (length payload))) [
        | inl b ↦ (λ h. absurd (ground arith), λ (l, _). absurd (ground arith))
        | inr b ↦
            let (to, from) = transmit_iff path (timeout_of c) (line_of token payload) in
            (
              λ h. (ground arith, (token, q, to (rw (b, q) at h))),
              λ (l, (t, r, o)).
                  let same = ok_injective (sym q ∙ r) in
                  rw (b, q)
                    (from
                      (subst (λ u. Opens path (timeout_of c) (line_of u payload)) (sym same) o)),
            )
      ]

  -- writeFrame succeeds exactly if the frame is below the receiver's limit, a token or none is
  -- resolved, and each step on the connection succeeds.
  pub write_frame_iff :
      (c : Client) (path payload : Bytes)
      → ((write_frame os net c path payload).result ≡ ok tt) ↔ Passes c path payload
  write_frame_iff c path payload = tested_iff c path payload (resolve_token os c path) refl

  -- What a send to a path needs to report the ID.
  abbrev pub Sends : Client → Bytes → Message → Bytes → Type 0
  Sends c path m id =
      (f : UserFrame) × (frame os m ≡ ok f) × (f.msg_id ≡ id) × Passes c path (marshal_user f)

  returning_iff :
      (a b : Bytes) (d : Done (Unit {0}))
      → ((returning os net a d).result ≡ ok b) ↔ ((a ≡ b) × (d.result ≡ ok tt))
  returning_iff a b d = by_result d.result refl
    where
      by_result :
          (r : Result (Unit {0}))
          → d.result ≡ r
          → ((returning os net a d).result ≡ ok b) ↔ ((a ≡ b) × (d.result ≡ ok tt))
      by_result (ok t) e =
          (λ h. (ok_injective (rw (e, ◌>>=◌) at h), e), λ (q, _). rw (e, ◌>>=◌) (ap ok q))
      by_result (err f) e = (λ h. absurd (ground arith), λ (q, h). absurd (ground arith))

  framed_iff :
      (c : Client) (path : Bytes) (m : Message) (id : Bytes) (r : Result UserFrame)
      → frame os m ≡ r
      → ((send_to_socket os net c path m).result ≡ ok id) ↔ Sends c path m id
  unfolding send_to_socket
  framed_iff c path m id (err e) q =
      (λ h. absurd (ground arith), λ (f, k, i, p). absurd (ground arith))
  framed_iff c path m id (ok f) q =
      let (to, from) = write_frame_iff c path (marshal_user f) in
      let (apart, together) =
        returning_iff f.msg_id id (write_frame os net c path (marshal_user f)) in
      (
        λ h. let (i, w) = apart (rw q at h) in (f, q, i, to w),
        λ (g, k, i, p).
            let same = ok_injective (sym q ∙ k) in
            rw q (
              together (
                ap (λ u. u.msg_id) same ∙ i,
                from (subst (λ u. Passes c path (marshal_user u)) (sym same) p),
              )),
      )

  pub send_to_socket_iff :
      (c : Client) (path : Bytes) (m : Message) (id : Bytes)
      → ((send_to_socket os net c path m).result ≡ ok id) ↔ Sends c path m id
  send_to_socket_iff c path m id = framed_iff c path m id (frame os m) refl

  -- Send reports an ID exactly if the session has a socket; the message, stamped with the session's
  -- ID where it had none, has a frame with this ID, whose line is below the receiver's limit; a
  -- token, or that there is none, is resolved; and the dial gives a unix connection on which the
  -- write, the half-close and the wait for the receiver's close succeed, and on macOS the wait
  -- before the half-close is not cancelled.
  pub send_iff :
      (c : Client) (s : Session) (m : Message) (id : Bytes)
      → ((send os net c s m).result ≡ ok id)
        ↔ ((s.socket_path ≢ []) × Sends c s.socket_path (stamp s m) id)
  unfolding send
  send_iff c s m id = elim (is-cases s.socket_path []) [
    | inl (b, e) ↦ (λ h. absurd (ground arith), λ (n, _). absurd (n e))
    | inr (b, n) ↦
        let (to, from) = send_to_socket_iff c s.socket_path (stamp s m) id in
        (λ h. (n, to (rw b at h)), λ (_, k). rw b (from k))
  ]
