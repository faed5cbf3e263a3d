-- ===== src/Client/Renamed.antt =====
-- What `Rename` and `RenameSession` have done when they succeed.
use claude_code_socket_trans.Wire.{marshal_control}
use claude_code_socket_trans.Message.Uuid.{new_uuid}
use claude_code_socket_trans.Session.{Session}
use claude_code_socket_trans.Message.Frame.{ControlFrame, protocol_version}
use claude_code_socket_trans.Base.{
  Bytes, ◌∷◌, Result, List, ◌≢◌, ◌≡◌, [], ok, codes, is-cases, length, err, inl, inr, ◌<◌, refl,
}
use claude_code_socket_trans.Client.{
  dialled, wrote, half_closed, drained, closed, rename, rename_session, renamed, Client, Net,
  ControlFrame, Session, protocol_version, Event, new_uuid, marshal_control, max_frame_bytes,
  resolve_token, timeout_of, line_of,
}
use claude_code_socket_trans.Client.Sent.{write_frame_ok}
use claude_code_socket_trans.Os.{Os}
use native.Mathlib.Omega.{arith}

abbrev pub rename_frame : Bytes → Bytes → Bytes → ControlFrame
rename_frame session_id name id = record {
  msg_v = protocol_version;
  msg_id = id;
  type = codes "control";
  action = codes "rename";
  name = name;
  session_id = session_id;
}

module _ (os : Os) (net : Net) where
  -- The frame of a rename was written to the path, below the limit and behind the resolved token's,
  -- in a whole exchange.
  pub record IsRenamed (c : Client) (path session_id name : Bytes) (events : List Event)
      : Type 0 where
    pub id : Bytes
    pub token : Bytes
    pub named : name ≢ []
    pub fresh : new_uuid os ≡ ok id
    pub fits : length (marshal_control (rename_frame session_id name id)) < max_frame_bytes
    pub resolved : resolve_token os c path ≡ ok token
    pub exchange :
        events
        ≡ dialled path (timeout_of c)
          ∷ wrote (line_of token (marshal_control (rename_frame session_id name id)))
          ∷ half_closed
          ∷ drained
          ∷ closed
          ∷ []

  renamed-IsRenamed :
      (c : Client) (path session_id name : Bytes) (r : Result Bytes)
      → name ≢ []
      → new_uuid os ≡ r
      → (renamed os net c path session_id name r).result ≡ ok tt
      → IsRenamed c path session_id name (renamed os net c path session_id name r).events
  renamed-IsRenamed c path session_id name (err e) n q h = absurd (ground arith)
  renamed-IsRenamed c path session_id name (ok id) n q h =
      let (token, fits, resolved, exchange) =
        write_frame_ok os net c path (marshal_control (rename_frame session_id name id)) h in
      record {
        id = id;
        token = token;
        named = n;
        fresh = q;
        fits = fits;
        resolved = resolved;
        exchange = exchange;
      }

  rename-IsRenamed :
      (c : Client) (path session_id name : Bytes)
      → (rename os net c path session_id name).result ≡ ok tt
      → IsRenamed c path session_id name (rename os net c path session_id name).events
  unfolding rename
  rename-IsRenamed c path session_id name h = elim (is-cases name []) [
    | inl (t, _) ↦ absurd (ground arith)
    | inr (f, n) ↦ rw f (renamed-IsRenamed c path session_id name (new_uuid os) n refl (rw f at h))
  ]

  -- If RenameSession succeeds, the session has a socket, the new name is not empty, and the events
  -- were: the dial of that socket, one write of the rename frame's line, stamped with the session's
  -- ID and a fresh UUID and below the limit, behind the resolved token's, the half-close, the wait
  -- for the end and the close.
  pub rename_session-IsRenamed :
      (c : Client) (s : Session) (name : Bytes)
      → (rename_session os net c s name).result ≡ ok tt
      → (s.socket_path ≢ [])
        × IsRenamed c s.socket_path s.session_id name (rename_session os net c s name).events
  unfolding rename_session
  rename_session-IsRenamed c s name h = elim (is-cases s.socket_path []) [
    | inl (t, _) ↦ absurd (ground arith)
    | inr (f, n) ↦ (n, rw f (rename-IsRenamed c s.socket_path s.session_id name (rw f at h)))
  ]
